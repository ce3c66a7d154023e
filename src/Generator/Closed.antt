-- ===== src/Generator/Closed.antt =====
-- The rules of the generated configuration name only providers that it has, and end with MATCH.
use mihomo_loongnix.Prelude.{
  arith, ◌≡◌, refl, sym, ap, ◌∙◌, inl, inr, String, true, false, ◌||◌, List, [], ◌∷◌, ◌++◌, ◌==◌,
  string_eq, All, IsIn, All-IsIn, All-append, Option, none, some, not, suc, map, any, find_value,
  ==-refl, Bool-cases, if-intro,
}
use mihomo_loongnix.Prelude.Lines.{◌^◌}
use mihomo_loongnix.Config.Types.{Config, BuiltInRule, RuleProviderSubscription}
use mihomo_loongnix.Config.Validate.Rules.{kind_match}
use mihomo_loongnix.Config.Validate.Pools.{is_missing}
use mihomo_loongnix.Generator.{
  Entry, literal_rule, rule_set, rule_text, providers_of, GeneratorLib, entries, build_rule_config,
  match_rule, RuleProviderYaml, group_or_default, default_proxy_group, normalize_rule_group,
  subscription_entries, built_in_entries, rule_provider_from_subscription,
}

-- A rule set has a provider of its name.
abbrev pub IsProvided : List (String × RuleProviderYaml) → Entry → Type 0
IsProvided ps (literal_rule t) = Unit
IsProvided ps (rule_set name p) = is_missing (find_value name ps) ≡ false

kept :
    (seen : List (String × RuleProviderYaml)) (es : List Entry) (name : String)
    → is_missing (find_value name seen) ≡ false
    → is_missing (find_value name (providers_of seen es)) ≡ false
kept seen [] name h = h
kept seen (literal_rule t ∷ es) name h = kept seen es name h
kept seen (rule_set n p ∷ es) name h =
    kept ((n, p) ∷ seen) es name
      (if-intro (λ r. is_missing r ≡ false) (name == n) (λ _. refl) (λ _. h))

All-IsProvided :
    (seen : List (String × RuleProviderYaml)) (es : List Entry)
    → All (IsProvided (providers_of seen es)) es
All-IsProvided seen [] = tt
All-IsProvided seen (literal_rule t ∷ es) = (tt, All-IsProvided seen es)
All-IsProvided seen (rule_set name p ∷ es) = (
  kept ((name, p) ∷ seen) es name (
      if-intro (λ r. is_missing r ≡ false) (name == name) (λ _. refl)
        (λ f. absurd (ground (arith, ==-refl name)))),
  All-IsProvided ((name, p) ∷ seen) es,
)

-- The MATCH rule that the first built-in `match` entry makes.
abbrev pub IsMatch : Config → String → Type 0
IsMatch c rule =
    (r : BuiltInRule) × IsIn r c.built_in_rules
    × ((r.kind == kind_match) ≡ true)
    × (rule ≡ "MATCH," ^ group_or_default c r.proxy_group)

-- A rule of the middle part: the text of an enabled built-in entry, or a rule set whose provider
-- the configuration has.
pub data IsServed (c : Config) (ps : List (String × RuleProviderYaml)) (rule : String)
    : Type 0 where
  literal :
      (r : BuiltInRule)
      → IsIn r c.built_in_rules
      → r.enabled ≡ true
      → (r.kind == "literal") ≡ true
      → rule ≡ normalize_rule_group r.rule (default_proxy_group c)
      → IsServed c ps rule
  has_provider :
      (name group : String)
      → is_missing (find_value name ps) ≡ false
      → rule ≡ "RULE-SET," ^ name ^ "," ^ group
      → IsServed c ps rule

match_rule-last :
    (lib : GeneratorLib) (c : Config) (rs : List BuiltInRule)
    → any (λ r. r.kind == kind_match) rs ≡ true
    → (r : BuiltInRule) × IsIn r rs
      × ((r.kind == kind_match) ≡ true)
      × (match_rule lib c rs ≡ ("MATCH," ^ group_or_default c r.proxy_group) ∷ [])
unfolding match_rule
match_rule-last lib c [] h = absurd cc
match_rule-last lib c (r ∷ rs) h = elim (Bool-cases (r.kind == kind_match)) [
  | inl t ↦ (r, (0, refl), t, rw t refl)
  | inr f ↦
      let (q, (n, at), k, e) =
        match_rule-last lib c rs (sym (ap (λ b. b || any (λ r. r.kind == kind_match) rs) f) ∙ h) in
      let first : match_rule lib c (r ∷ rs) ≡ ("MATCH," ^ group_or_default c q.proxy_group) ∷ [] =
        rw f e in
      (q, (suc n, at), k, first)
]

-- An entry is a rule set, or the text of an enabled built-in entry.
abbrev IsEntry : Config → Entry → Type 0
IsEntry c (rule_set name p) = Unit
IsEntry c (literal_rule t) =
    (r : BuiltInRule) × IsIn r c.built_in_rules
    × (r.enabled ≡ true)
    × ((r.kind == "literal") ≡ true)
    × (t ≡ normalize_rule_group r.rule (default_proxy_group c))

module _ (lib : GeneratorLib) (c : Config) where
  subscription_entries-IsEntry :
      (rps : List RuleProviderSubscription) → All (IsEntry c) (subscription_entries lib c rps)
  unfolding subscription_entries
  subscription_entries-IsEntry [] = tt
  subscription_entries-IsEntry (rp ∷ rps) =
      go (rule_provider_from_subscription lib c "custom-" rp) (subscription_entries-IsEntry rps)
    where
      go :
          (r : Option (String × RuleProviderYaml))
          → All (IsEntry c) (subscription_entries lib c rps)
          → All (IsEntry c) (elim r [
            | none ↦ subscription_entries lib c rps
            | some (name, p) ↦ rule_set name p ∷ subscription_entries lib c rps
          ])
      go none h = h
      go (some (name, p)) h = (tt, h)

  built_in_entries-IsEntry :
      (rs : List BuiltInRule)
      → All (λ r. IsIn r c.built_in_rules) rs
      → All (IsEntry c) (built_in_entries lib c rs)
  unfolding built_in_entries
  built_in_entries-IsEntry [] h = tt
  built_in_entries-IsEntry (r ∷ rs) (at, h) =
      let rest = built_in_entries-IsEntry rs h in
      if-intro (All (IsEntry c)) (r.kind == kind_match || not r.enabled) (λ _. rest)
        λ on.
          if-intro (All (IsEntry c)) (r.kind == "literal")
            (λ k. ((r, at, ground arith, k, refl), rest))
            λ _. if-intro (All (IsEntry c)) (r.kind == "provider") (λ _. (tt, rest)) (λ _. rest)

  entries-IsEntry : All (IsEntry c) (entries lib c)
  unfolding entries
  entries-IsEntry =
      All-append (IsEntry c) _ _ (subscription_entries-IsEntry c.rule_provider_subscriptions)
        (built_in_entries-IsEntry c.built_in_rules (All-IsIn c.built_in_rules))

  texts-IsServed :
      (ps : List (String × RuleProviderYaml)) (es : List Entry)
      → All (IsEntry c) es
      → All (IsProvided ps) es
      → All (IsServed c ps) (map rule_text es)
  texts-IsServed ps [] h k = tt
  texts-IsServed ps (literal_rule t ∷ es) ((r, at, on, kind, e), h) (_, k) =
      (literal r at on kind e, texts-IsServed ps es h k)
  texts-IsServed ps (rule_set name p ∷ es) (_, h) (q, k) =
      (has_provider name p.proxy_group q refl, texts-IsServed ps es h k)

  -- In rule mode, with a built-in MATCH, the rules are those of the user that come first, a middle
  -- part, those of the user that come later, and last a MATCH rule of a built-in `match` entry.
  -- Each rule of the middle part is the text of an enabled built-in entry, or a RULE-SET with the
  -- name of a provider that the configuration has.
  pub build_rule_config-closed :
      (c.proxy_mode == "global") ≡ false
      → (c.proxy_mode == "direct") ≡ false
      → any (λ r. r.kind == kind_match) c.built_in_rules ≡ true
      → (middle : List String) × (last : String) × ((build_rule_config lib c).1
          ≡ c.pre_custom_rules ++ (middle ++ (c.post_custom_rules ++ last ∷ [])))
        × All (IsServed c (build_rule_config lib c).0) middle
        × IsMatch c last
  unfolding build_rule_config
  build_rule_config-closed g d h =
      let (r, at, k, e) = match_rule-last lib c c.built_in_rules h in
      let es = entries lib c in
      (
        map rule_text es,
        "MATCH," ^ group_or_default c r.proxy_group,
        rw g (rw d (rw e refl)),
        rw g (rw d (texts-IsServed (providers_of [] es) es entries-IsEntry (All-IsProvided [] es))),
        (r, at, k, refl),
      )
