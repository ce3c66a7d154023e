-- ===== src/Generator.antt =====
-- The rules and the proxy groups of the generated core configuration: `buildRuleConfig` and
-- `buildProxyConfig` of mihomotui/mihomo_config.go. A Go map that is filled by assignment is an
-- association list whose first entry of a key counts.
pub mod Closed
pub mod Groups
use mihomo_loongnix.Prelude.{
  ℕ, suc, ◌+◌, String, Bool, true, false, not, ◌&&◌, ◌||◌, List, [], ◌∷◌, ◌++◌, Option, none, some,
  if◌then◌else◌, ◌==◌, string_eq, map,
}
use mihomo_loongnix.Prelude.Int.{ℤ, pos, leb_ℤ}
use mihomo_loongnix.Prelude.Lines.{◌^◌}
use mihomo_loongnix.Config.Types.{Config, BuiltInRule, RuleProviderSubscription, SubscriptionMeta}
use mihomo_loongnix.Config.Validate.Rules.{kind_match}
use mihomo_loongnix.Config.Validate.Pools.{is_empty}
use mihomo_loongnix.Config.Store.{Result, ok, err}
use mihomo_loongnix.Pool.{PoolError, active_pool_subscriptions}
use Prim.Native.String
use Prim.Native.String.{[], ◌∷◌}

pub record RuleProviderYaml : Type 0 where
  pub behavior : String
  pub url : String
  pub path : String
  pub format : String
  pub interval : ℤ
  pub proxy_group : String

-- `SanitizeFileName`, which cuts a name by bytes, the first eight hexadecimal digits of the MD5 sum
-- of a text, and the decimal notation.
pub record GeneratorLib : Type 0 where
  pub sanitize : String → String
  pub digest : String → String
  pub decimal : ℕ → String

unfoldable pub default_proxy_group : Config → String
default_proxy_group c = if c.default_proxy_group == "" then "Auto" else c.default_proxy_group

-- `strings.CutSuffix`.
unfoldable pub cut_suffix : String → String → Option String
cut_suffix [] p = if "" == p then some "" else none
cut_suffix (d ∷ s) p =
    let rest = cut_suffix s p in
    if (d ∷ s) == p then some "" else elim rest [ none ↦ none | some r ↦ some (d ∷ r) ]

unfoldable pub normalize_rule_group : String → String → String
unfolding cut_suffix
normalize_rule_group rule group = elim (cut_suffix rule ",Auto") [
  | some before ↦ before ^ "," ^ group
  | none ↦ rule
]

-- The group of a rule, where none or `Auto` stands for the default.
abbrev pub group_or_default : Config → String → String
group_or_default c group = if group == "" || group == "Auto" then default_proxy_group c else group

abbrev pub format_or_yaml : String → String
format_or_yaml format = if format == "" then "yaml" else format

abbrev pub extension_of : String → String
extension_of format = if format == "text" then "txt" else format

-- What one entry adds to the rules: a text, or a rule set with its provider.
pub data Entry : Type 0 where
  literal_rule : String → Entry
  rule_set : String → RuleProviderYaml → Entry

abbrev pub rule_text : Entry → String
rule_text (literal_rule t) = t
rule_text (rule_set name p) = "RULE-SET," ^ name ^ "," ^ p.proxy_group

-- `ruleProviders`, a later assignment before an earlier one.
abbrev pub providers_of :
    List (String × RuleProviderYaml) → List Entry → List (String × RuleProviderYaml)
providers_of seen [] = seen
providers_of seen (literal_rule t ∷ es) = providers_of seen es
providers_of seen (rule_set name p ∷ es) = providers_of ((name, p) ∷ seen) es

module _ (lib : GeneratorLib) (c : Config) where
  unfoldable pub rule_provider_from_subscription :
      String → RuleProviderSubscription → Option (String × RuleProviderYaml)
  rule_provider_from_subscription prefix rp =
      if rp.url == ""
      then none
      else some (
        prefix ^ lib.sanitize rp.name ^ "-" ^ lib.digest rp.url,
        record {
          behavior = rp.behavior;
          url = rp.url;
          path = "./rules/" ^ lib.sanitize rp.name ^ "." ^ extension_of (format_or_yaml rp.format);
          format = format_or_yaml rp.format;
          interval = if leb_ℤ rp.interval (pos 0) then pos 86400 else rp.interval;
          proxy_group = group_or_default c rp.proxy_group;
        },
      )

  unfoldable pub subscription_entries : List RuleProviderSubscription → List Entry
  subscription_entries [] = []
  subscription_entries (rp ∷ rps) =
      let rest = subscription_entries rps in
      elim (rule_provider_from_subscription "custom-" rp) [
        | none ↦ rest
        | some (name, p) ↦ rule_set name p ∷ rest
      ]

  unfoldable pub built_in_provider : BuiltInRule → RuleProviderYaml
  built_in_provider r = record {
    behavior = r.behavior;
    url = r.url;
    path = "./rules/" ^ lib.sanitize r.id ^ "." ^ extension_of (format_or_yaml r.format);
    format = format_or_yaml r.format;
    interval = r.interval;
    proxy_group = group_or_default c r.proxy_group;
  }

  unfoldable pub built_in_entries : List BuiltInRule → List Entry
  unfolding built_in_provider
  built_in_entries [] = []
  built_in_entries (r ∷ rs) =
      let rest = built_in_entries rs in
      if r.kind == kind_match || not r.enabled
      then rest
      else if r.kind == "literal"
      then literal_rule (normalize_rule_group r.rule (default_proxy_group c)) ∷ rest
      else if r.kind == "provider"
      then rule_set ("builtin-" ^ lib.sanitize r.id) (built_in_provider r) ∷ rest
      else rest

  -- The first `match` entry gives the last rule, enabled or not.
  unfoldable pub match_rule : List BuiltInRule → List String
  match_rule [] = []
  match_rule (r ∷ rs) =
      let rest = match_rule rs in
      if r.kind == kind_match then ("MATCH," ^ group_or_default c r.proxy_group) ∷ [] else rest

  unfoldable pub entries : List Entry
  unfolding subscription_entries built_in_entries
  entries = subscription_entries c.rule_provider_subscriptions ++ built_in_entries c.built_in_rules

  unfoldable pub build_rule_config : List (String × RuleProviderYaml) × List String
  unfolding entries match_rule
  build_rule_config =
      if c.proxy_mode == "global"
      then ([], ("MATCH," ^ default_proxy_group c) ∷ [])
      else if c.proxy_mode == "direct"
      then ([], "MATCH,DIRECT" ∷ [])
      else (
        providers_of [] entries,
        c.pre_custom_rules
            ++ (map rule_text entries ++ (c.post_custom_rules ++ match_rule c.built_in_rules)),
      )
