-- ===== src/Tun/Nft.antt =====
-- The nftables rules of mihomotui/tun_routing_linux.go: the project's own table, and the rules and
-- chains of older versions that are found in the ruleset.
pub mod Project
use mihomo_loongnix.Prelude.{
  ℕ, Bool, true, false, not, ◌&&◌, ◌||◌, String, List, [], ◌∷◌, ◌++◌, none, some, contains,
  if◌then◌else◌, ◌==◌, string_eq, nat_eq, eqb, ltb,
}
use mihomo_loongnix.Prelude.Lines.{◌^◌, join}
use mihomo_loongnix.Prelude.Text.{contains_text}
use mihomo_loongnix.Config.Store.{Result, ok, err}
use mihomo_loongnix.Config.Validate.Pools.{is_empty}
use mihomo_loongnix.Tun.{
  Command, TunState, Host, Tun, Json, Items, Fields, ChainLocation, NftObject, atom, text, array,
  object, no_item, item, no_field, field,
}
use mihomo_loongnix.Tun.Actions.{
  Reason, Routine, pure, raise, lift, attempt, ◌>>=◌, ◌>>◌, gather, join_errors, empty_comment,
  artifacts_left, not_owner,
}
use mihomo_loongnix.Tun.Commands.{
  nft, run_tun_command, run_tun_command_input, run_tun_command_ignoring_not_found,
  is_tun_not_found_error,
}
use mihomo_loongnix.Tun.Policy.{tun_rule_comment_for_state, tun_connection_mask}
use mihomo_loongnix.Tun.Preflight.{validate_tun_interface_name, decoded}

abbrev pub tun_prerouting_chain : String
tun_prerouting_chain = "MIHOMO_TUI_PREROUTING"

abbrev pub tun_output_chain : String
tun_output_chain = "MIHOMO_TUI_OUTPUT"

abbrev pub tun_forward_chain : String
tun_forward_chain = "MIHOMO_TUI_FORWARD"

abbrev pub tun_chain_names : List String
tun_chain_names = tun_prerouting_chain ∷ tun_output_chain ∷ tun_forward_chain ∷ []

unfoldable pub is_tun_project_chain : String → Bool
is_tun_project_chain chain = contains tun_chain_names chain

abbrev pub or_else : String → String → String
or_else a b = if a == "" then b else a

-- `key` is `jump` or `goto`, and the value beside it an object with a project chain as `target`.
abbrev pub target_field : Fields → String
target_field no_field = ""
target_field (field k (text t) r) =
    let rest = target_field r in
    if k == "target" then (if is_tun_project_chain t then t else "") else rest
target_field (field k _ r) = let rest = target_field r in if k == "target" then "" else rest

abbrev pub jump_target : String → Json → String
jump_target key (object fields) = if key == "jump" || key == "goto" then target_field fields else ""
jump_target key _ = ""

unfoldable mutual
  pub find_tun_project_target : Json → String
  find_tun_project_target (object fs) = find_in_fields fs
  find_tun_project_target (array is) = find_in_items is
  find_tun_project_target (text t) = ""
  find_tun_project_target atom = ""

  pub find_in_fields : Fields → String
  find_in_fields no_field = ""
  find_in_fields (field k v r) =
      or_else (or_else (jump_target k v) (find_tun_project_target v)) (find_in_fields r)

  pub find_in_items : Items → String
  find_in_items no_item = ""
  find_in_items (item v r) = or_else (find_tun_project_target v) (find_in_items r)

pub record NftRuleReference : Type 0 where
  pub location : ChainLocation
  pub handle : ℕ
  pub target : String

-- The first expression with a target.
unfoldable pub first_target : List Json → String
first_target [] = ""
first_target (e ∷ es) = or_else (find_tun_project_target e) (first_target es)

abbrev pub project_chains : List NftObject → List ChainLocation
project_chains [] = []
project_chains (o ∷ os) =
    let rest = project_chains os in
    elim o.as_chain [
      | none ↦ rest
      | some c ↦ if is_tun_project_chain c.chain then c ∷ rest else rest
    ]

abbrev pub project_rules : List NftObject → List NftRuleReference
project_rules [] = []
project_rules (o ∷ os) =
    let rest = project_rules os in
    elim o.as_rule [
      | none ↦ rest
      | some r ↦
          let target = first_target r.expr in
          if not (target == "") && ltb 0 r.handle
          then record { location = r.location; handle = r.handle; target = target } ∷ rest
          else rest
    ]

unfoldable pub parse_tun_nft_tables_json :
    List NftObject → List ChainLocation × List NftRuleReference
parse_tun_nft_tables_json os = (project_chains os, project_rules os)

-- `seenRules` and `seenChains`: the first of each that stands for the same object.
module _ {A : Type 0} (same : A → A → Bool) where
  abbrev pub occurs : A → List A → Bool
  occurs x [] = false
  occurs x (y ∷ ys) = same x y || occurs x ys

  abbrev pub without_repeats : List A → List A → List A
  without_repeats seen [] = []
  without_repeats seen (x ∷ xs) =
      let rest = without_repeats (x ∷ seen) xs in
      let repeated = without_repeats seen xs in if occurs x seen then repeated else x ∷ rest

abbrev pub same_chain : ChainLocation → ChainLocation → Bool
same_chain a b = a.family == b.family && a.table == b.table && a.chain == b.chain

abbrev pub same_rule : NftRuleReference → NftRuleReference → Bool
same_rule a b = same_chain a.location b.location && eqb a.handle b.handle

module _ (quote : String → String) (iface comment : String) where
  abbrev pub nft_suffix : String
  nft_suffix = " comment " ^ quote comment

  abbrev pub nft_restore_mark : String
  nft_restore_mark =
      "ct state established,related ct mark & " ^ tun_connection_mask
      ^ " != 0 meta mark set meta mark | " ^ tun_connection_mask ^ nft_suffix

  abbrev pub nft_lines : List String
  nft_lines =
      "add table ip mihomo_tui"
      ∷ "add chain ip mihomo_tui prerouting { type filter hook prerouting priority filter; policy accept; }"
      ∷ "add chain ip mihomo_tui output { type route hook output priority filter; policy accept; }"
      ∷ "add chain ip mihomo_tui forward { type filter hook forward priority filter; policy accept; }"
      ∷ ("add rule ip mihomo_tui prerouting iifname "
          ^ quote iface
          ^ " ct state new ct mark set ct mark | "
          ^ tun_connection_mask
          ^ nft_suffix)
      ∷ ("add rule ip mihomo_tui prerouting " ^ nft_restore_mark)
      ∷ ("add rule ip mihomo_tui output " ^ nft_restore_mark)
      ∷ ("add rule ip mihomo_tui forward " ^ nft_restore_mark)
      ∷ []

  unfoldable pub build_tun_nft_script_with_comment : Result (List Reason) String
  build_tun_nft_script_with_comment = elim (validate_tun_interface_name iface) [
    | err e ↦ err e
    | ok _ ↦ if comment == "" then err (empty_comment ∷ []) else ok (join "\n" nft_lines ^ "\n")
  ]

abbrev pub delete_table : Command
delete_table = nft ("delete" ∷ "table" ∷ "ip" ∷ "mihomo_tui" ∷ [])

abbrev pub chain_command : String → ChainLocation → Command
chain_command action c = nft (action ∷ "chain" ∷ c.family ∷ c.table ∷ c.chain ∷ [])

abbrev pub delete_rule : (ℕ → String) → NftRuleReference → Command
delete_rule format r = nft (
    "delete"
    ∷ "rule"
    ∷ r.location.family
    ∷ r.location.table
    ∷ r.location.chain
    ∷ "handle"
    ∷ format r.handle
    ∷ [])

module _ {M : Type 0} (h : Host M) where
  unfoldable pub setup_tun_nft_firewall : String → TunState → Routine (Tun M) Unit
  unfolding ◌>>=◌
  setup_tun_nft_firewall iface s = do
    script ← lift (build_tun_nft_script_with_comment h.quote iface (tun_rule_comment_for_state s))
    run_tun_command_input h (nft ("-f" ∷ "-" ∷ [])) script
    pure tt

  -- What `nft list table` returned, for a state with an instance id: whether there is a table that
  -- may be deleted.
  unfoldable pub owned_table : TunState → Result (List Reason) String → Result (List Reason) Bool
  owned_table s (err e) = if is_tun_not_found_error e then ok false else err e
  owned_table s (ok out) =
      if contains_text out (h.quote (tun_rule_comment_for_state s))
      then ok true
      else err (not_owner (tun_rule_comment_for_state s) ∷ [])

  unfoldable pub cleanup_tun_nft_firewall : TunState → Routine (Tun M) Unit
  unfolding ◌>>=◌ owned_table
  cleanup_tun_nft_firewall s =
      if s.instance_id == "" then run_tun_command_ignoring_not_found h delete_table else do
        r ← attempt (run_tun_command h (nft ("list" ∷ "table" ∷ "ip" ∷ "mihomo_tui" ∷ [])))
        present ← lift (owned_table s r)
        if present then run_tun_command_ignoring_not_found h delete_table else pure tt

  unfoldable pub list_legacy_tun_nft_artifacts :
      Routine (Tun M) (List ChainLocation × List NftRuleReference)
  unfolding ◌>>=◌
  list_legacy_tun_nft_artifacts = do
    out ← run_tun_command h (nft ("-j" ∷ "-a" ∷ "list" ∷ "ruleset" ∷ []))
    objects ← lift (decoded (h.decode_ruleset out))
    pure (parse_tun_nft_tables_json objects)

  unfoldable pub remove_rule : NftRuleReference → Routine (Tun M) Unit
  remove_rule r = run_tun_command_ignoring_not_found h (delete_rule h.format r)

  unfoldable pub remove_chain : ChainLocation → Routine (Tun M) Unit
  unfolding ◌>>=◌
  remove_chain c = do
    run_tun_command_ignoring_not_found h (chain_command "flush" c)
    run_tun_command_ignoring_not_found h (chain_command "delete" c)

  -- The ruleset is read again, and must have none left.
  unfoldable pub check_none_left : Routine (Tun M) Unit
  unfolding ◌>>=◌
  check_none_left = do
    (chains, rules) ← list_legacy_tun_nft_artifacts
    if is_empty chains && is_empty rules then pure tt else raise (artifacts_left ∷ [])

  unfoldable pub migrate_artifacts :
      List ChainLocation × List NftRuleReference → Routine (Tun M) Unit
  unfolding ◌>>=◌ remove_rule remove_chain check_none_left
  migrate_artifacts (chains, rules) = if is_empty chains && is_empty rules then pure tt else do
    of_rules ← gather remove_rule (without_repeats same_rule [] rules)
    of_chains ← gather remove_chain (without_repeats same_chain [] chains)
    join_errors (of_rules ++ of_chains)
    check_none_left

  unfoldable pub cleanup_legacy_tun_artifacts_with_nft : Routine (Tun M) Unit
  unfolding ◌>>=◌ migrate_artifacts
  cleanup_legacy_tun_artifacts_with_nft = list_legacy_tun_nft_artifacts >>= migrate_artifacts
