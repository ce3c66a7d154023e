-- ===== src/Tun/Justified/Artifacts.antt =====
-- The cleanup of mihomotui/tun_routing_linux.go that searches the ruleset deletes only what it
-- found there.
use mihomo_loongnix.Prelude.{
  Option, none, some, ◌∷◌, [], suc, All-imp, All, ◌≡◌, refl, true, List, String,
}
use mihomo_loongnix.Config.Store.{Result}
use mihomo_loongnix.Tun.{NftObject, Command, StateFile, Step, Host, Tun, ChainLocation}
use mihomo_loongnix.Tun.Actions.{Reason, pure, lift, ◌>>=◌, Routine}
use mihomo_loongnix.Tun.Actions.Traces.{
  Quiet-pure, Quiet-if, Quiet-bind-Known, Quiet-gather, Quiet, quiet_rules, Quiet-bind, IsQuiet,
  Known, Known-bind,
}
use mihomo_loongnix.Tun.Commands.{
  run_tun_command, run_tun_command_ignoring_not_found, is_tun_not_found_error,
}
use mihomo_loongnix.Tun.Preflight.{decoded}
use mihomo_loongnix.Tun.Nft.{
  migrate_artifacts, project_rules, same_chain, same_rule, parse_tun_nft_tables_json,
  cleanup_legacy_tun_artifacts_with_nft, NftRuleReference, is_tun_project_chain, chain_command,
  list_legacy_tun_nft_artifacts, remove_rule, remove_chain, check_none_left, without_repeats,
}
use mihomo_loongnix.Tun.Nft.Project.{
  project_rules-All, project_chains-All, All-without_repeats, IsProjectChain,
}
use mihomo_loongnix.Tun.ReadOnly.{is_printing}
use mihomo_loongnix.Tun.Justified.{
  IsJustified, Justified, With, HasPrinted, WasFound, prints, old_chain, old_rule, list_ruleset,
}
use mihomo_loongnix.Tun.Justified.Runs.{run-With, run-Known, Quiet-forgiving, Safe}

-- What the list of artifacts tells: the chains are the project's, and the rules were found to jump
-- to one.
abbrev AreFound :
    {M : Type 0} → Host M → List ChainLocation × List NftRuleReference → List Step → Type 0
AreFound h (chains, rules) before =
    All IsProjectChain chains × All (λ r. WasFound h r.location r.handle before) rules

AreFound-more :
    {M : Type 0} (h : Host M) (a : List ChainLocation × List NftRuleReference) (s : Step)
    (t : List Step)
    → AreFound h a t
    → AreFound h a (s ∷ t)
AreFound-more h a s t (kc, kr) = (
  kc,
  All-imp (λ r (out, os, (p, (n, at), c, o), d, j). (out, os, (p, (suc n, at), c, o), d, j)) a.1 kr,
)

module _ {M : Type 0} (h : Host M) (f : StateFile) where
  -- The removals, while the list of artifacts is known.
  module _ (a : List ChainLocation × List NftRuleReference) where
    abbrev Finds : {A : Type 0} → Routine (Tun M) A → Type 0
    Finds m = Quiet (With h f (AreFound h a)) m

    Finds-ignoring :
        (c : Command)
        → ((t : List Step) → AreFound h a t → IsJustified h t c "" f)
        → Finds (run_tun_command_ignoring_not_found h c)
    unfolding run_tun_command_ignoring_not_found run_tun_command
    Finds-ignoring c k =
        Quiet-forgiving h is_tun_not_found_error c
          (run-With h f (AreFound h a) (AreFound-more h a) c "" k)

    Finds-remove_rule :
        (r : NftRuleReference)
        → ((t : List Step) → AreFound h a t → WasFound h r.location r.handle t)
        → Finds (remove_rule h r)
    unfolding remove_rule
    Finds-remove_rule r k = Finds-ignoring _ (λ t found. old_rule r f (k t found))

    Finds-remove_chain :
        (c : ChainLocation) → is_tun_project_chain c.chain ≡ true → Finds (remove_chain h c)
    unfolding remove_chain
    Finds-remove_chain c k =
        Quiet-bind _ _
          (Finds-ignoring (chain_command "flush" c) (λ t _. old_chain "flush" c f refl k))
          λ _. Finds-ignoring (chain_command "delete" c) (λ t _. old_chain "delete" c f refl k)

    Finds-show : (c : Command) → is_printing c ≡ true → Finds (run_tun_command h c)
    unfolding run_tun_command
    Finds-show c k = run-With h f (AreFound h a) (AreFound-more h a) c "" (λ t _. prints c f k)

    Finds-list : Finds (list_legacy_tun_nft_artifacts h)
    unfolding list_legacy_tun_nft_artifacts is_printing
    Finds-list = search (quiet_rules, Finds-show) depth 9

    Finds-check : Finds (check_none_left h)
    unfolding check_none_left
    Finds-check = search (quiet_rules, Finds-list) depth 9

    Finds-rules :
        (rules : List NftRuleReference)
        → ((t : List Step) → AreFound h a t → All (λ r. WasFound h r.location r.handle t) rules)
        → All (λ r. Finds (remove_rule h r)) rules
    Finds-rules [] k = tt
    Finds-rules (r ∷ rs) k =
        (Finds-remove_rule r (λ t q. (k t q).0), Finds-rules rs (λ t q. (k t q).1))

    Finds-migrate : All IsProjectChain a.0 → Finds (migrate_artifacts h a)
    unfolding migrate_artifacts
    Finds-migrate kc = Quiet-if _ _ _ (Quiet-pure tt) (
        Quiet-bind _ _
          (Quiet-gather _ _ (
            Finds-rules (without_repeats same_rule [] a.1)
              λ t q. All-without_repeats _ same_rule [] a.1 q.1))
          λ of_rules.
            Quiet-bind _ _
              (Quiet-gather _ _
                (All-imp Finds-remove_chain _ (All-without_repeats _ same_chain [] a.0 kc)))
              λ of_chains. search (quiet_rules, Finds-check) depth 9)

  abbrev parsed : String → Routine (Tun M) (List ChainLocation × List NftRuleReference)
  parsed out = lift (decoded (h.decode_ruleset out)) >>= λ os. pure (parse_tun_nft_tables_json os)

  abbrev Listed : Result (List Reason) (List ChainLocation × List NftRuleReference) × Tun M → Type 0
  Listed p = Known (IsQuiet (Justified h) f) (λ a. With h f (AreFound h a)) p

  parsed-Listed :
      (out : String) (w : Tun M) → With h f (HasPrinted list_ruleset out) w → Listed (parsed out w)
  unfolding ◌>>=◌ lift pure parse_tun_nft_tables_json
  parsed-Listed out w (q, shown) = go (h.decode_ruleset out) refl
    where
      go :
          (r : Option (List NftObject))
          → h.decode_ruleset out ≡ r
          → Listed ((lift (decoded r) >>= λ os. pure (parse_tun_nft_tables_json os)) w)
      go none e = q
      go (some os) e = (
        q,
        (
          project_chains-All os,
          All-imp (λ r j. (out, os, shown, e, j)) (project_rules os) (project_rules-All os),
        ),
      )

  -- The list of artifacts is read off what the ruleset printed.
  list-Listed : (w : Tun M) → IsQuiet (Justified h) f w → Listed (list_legacy_tun_nft_artifacts h w)
  unfolding list_legacy_tun_nft_artifacts is_printing
  list-Listed w i =
      Known-bind (IsQuiet (Justified h) f) (λ out. With h f (HasPrinted list_ruleset out)) _
        (run_tun_command h list_ruleset) parsed w (run-Known h f list_ruleset refl w i)
        parsed-Listed

  pub Safe-artifacts : Safe h f (cleanup_legacy_tun_artifacts_with_nft h)
  unfolding cleanup_legacy_tun_artifacts_with_nft
  Safe-artifacts =
      Quiet-bind-Known (λ a. With h f (AreFound h a)) _ _ list-Listed (λ a w k. k.0)
        λ a. record { at = λ w k. (Finds-migrate a k.1.0).at w k }
