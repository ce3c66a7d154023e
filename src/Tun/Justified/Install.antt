-- ===== src/Tun/Justified/Install.antt =====
-- The installation of mihomotui/tun_routing_linux.go adds only what the state file records.
use mihomo_loongnix.Prelude.{
  Bool, if◌then◌else◌, All, IsIn, All-IsIn, arith, ◌≡◌, refl, true, false, ◌++◌, String, List, [],
  ◌∷◌, ◌==◌, string_eq, All-imp, Option, none, some,
}
use mihomo_loongnix.Prelude.Lines.{◌^◌, join, split_lines}
use mihomo_loongnix.Config.Store.{Result, ok, err}
use mihomo_loongnix.Tun.{Command, TunState, Host, holds}
use mihomo_loongnix.Tun.Actions.{Reason, for_each, empty_comment, lift, pure, ◌>>=◌, ◌>>◌}
use mihomo_loongnix.Tun.Actions.Traces.{
  Quiet-for_each, Quiet-bind, Quiet-attempt, Quiet-lift, Quiet-pure, Quiet-raise, Quiet-if,
}
use mihomo_loongnix.Tun.Commands.{
  ip, nft, run_tun_command_input, run_tun_rule_add_ignoring_exists, is_file_exists_error,
  is_tun_not_found_error,
}
use mihomo_loongnix.Tun.Policy.{
  find_default, tun_rule_comment_for_state, new_state, tun_policy_cleanup_commands,
  tun_policy_rule_commands, tun_policy_rule_add_commands, default_route, add_default_route,
  ensure_tun_default_route, is_owned_current_nft_table, cleanup_commands_for, routing_values,
  shown_or_empty,
}
use mihomo_loongnix.Tun.Preflight.{validate_tun_interface_name}
use mihomo_loongnix.Tun.Nft.{
  is_tun_project_chain, tun_chain_names, setup_tun_nft_firewall, nft_lines,
  build_tun_nft_script_with_comment,
}
use mihomo_loongnix.Tun.Legacy.{
  chain_op, prepared_chain, ensure_legacy_tun_chain, ensure_legacy_tun_main_jump, run_rule,
  setup_legacy_tun_iptables, tun_main_jump_commands, tun_chain_rule_commands,
}
use mihomo_loongnix.Tun.ReadOnly.{is_printing}
use mihomo_loongnix.Tun.Justified.{
  undo, undo_args, adds, empties_chain, makes_chain, makes_jump, makes_rule, makes_table,
  IsProjectScript, IsProjectLine, the_table, a_chain, marks_new, restores,
}
use mihomo_loongnix.Tun.Justified.Cleanup.{Safe-jumps}
use mihomo_loongnix.Tun.Justified.Runs.{Safe, Safe-run, Safe-run_input, Safe-show, Safe-forgiving}

module _ {M : Type 0} (h : Host M) (id iface gateway backend : String) where
  -- The state that is written before the installation.
  abbrev pub prepared : TunState
  prepared = new_state h id iface gateway backend

  abbrev recorded : List Command
  unfolding tun_policy_rule_commands
  recorded =
      tun_policy_rule_commands "100" "100" "200" "del"
      ++ default_route "del" gateway iface "100" ∷ []

  module _ (named : (iface == "") ≡ false) (via : (gateway == "") ≡ false) where
    cleanup-prepared : tun_policy_cleanup_commands prepared ≡ ok recorded
    unfolding tun_policy_cleanup_commands cleanup_commands_for routing_values
        tun_policy_rule_commands
    cleanup-prepared = rw named (rw via refl)

    Safe-add_route :
        (found : Option (Result String Unit))
        → Safe h (holds prepared) (add_default_route h iface gateway found)
    unfolding add_default_route tun_policy_rule_commands undo_args
    Safe-add_route (some (ok _)) = Quiet-pure tt
    Safe-add_route (some (err line)) = Quiet-raise _
    Safe-add_route none =
        let add = default_route "add" gateway iface "100" in
        Quiet-bind _ _
          (Safe-run h (holds prepared) add
            (λ t. adds add prepared (recorded, cleanup-prepared, (5, refl))))
          λ _. Quiet-pure tt

    pub Safe-route : Safe h (holds prepared) (ensure_tun_default_route h iface gateway)
    unfolding ensure_tun_default_route is_printing
    Safe-route =
        Quiet-bind _ _
          (Quiet-attempt _
            (Safe-show h (holds prepared) (ip ("route" ∷ "show" ∷ "table" ∷ "100" ∷ [])) refl))
          λ r. Quiet-bind _ _ (Quiet-lift (shown_or_empty r)) λ out.
            Safe-add_route
              (find_default ("default via " ^ gateway ^ " dev " ^ iface) (split_lines out))

    Safe-rule :
        (c : Command)
        → IsIn (undo c) recorded
        → Safe h (holds prepared) (run_tun_rule_add_ignoring_exists h c)
    unfolding run_tun_rule_add_ignoring_exists
    Safe-rule c k =
        Safe-forgiving h (holds prepared) is_file_exists_error c
          (λ t. adds c prepared (recorded, cleanup-prepared, k))

    pub Safe-rules :
        Safe h
          (holds prepared)
          (for_each (run_tun_rule_add_ignoring_exists h) tun_policy_rule_add_commands)
    unfolding tun_policy_rule_add_commands tun_policy_rule_commands undo_args
    Safe-rules = Quiet-for_each _ tun_policy_rule_add_commands (
      Safe-rule _ (0, refl),
      (
        Safe-rule _ (1, refl),
        (Safe-rule _ (2, refl), (Safe-rule _ (3, refl), (Safe-rule _ (4, refl), tt))),
      ),
    )

  -- The lines of the script are those that make the project's table.
  script-IsProjectScript :
      (script : String)
      → build_tun_nft_script_with_comment h.quote iface (tun_rule_comment_for_state prepared)
        ≡ ok script
      → IsProjectScript h.quote prepared script
  unfolding build_tun_nft_script_with_comment
  script-IsProjectScript script =
      go (validate_tun_interface_name iface) refl (tun_rule_comment_for_state prepared == "")
    where
      lines : List String
      lines = nft_lines h.quote iface (tun_rule_comment_for_state prepared)

      each : All (IsProjectLine h.quote prepared) lines
      each = (
        the_table refl,
        (
          a_chain "prerouting" "filter" (0, refl) refl,
          (
            a_chain "output" "route" (1, refl) refl,
            (
              a_chain "forward" "filter" (2, refl) refl,
              (
                marks_new refl,
                (
                  restores "add rule ip mihomo_tui prerouting " (0, refl) refl,
                  (
                    restores "add rule ip mihomo_tui output " (1, refl) refl,
                    (restores "add rule ip mihomo_tui forward " (2, refl) refl, tt),
                  ),
                ),
              ),
            ),
          ),
        ),
      )

      go :
          (r : Result (List Reason) Unit)
          → validate_tun_interface_name iface ≡ r
          → (b : Bool)
          → elim r [
            | err e ↦ err e
            | ok _ ↦ if b then err (empty_comment ∷ []) else ok (join "\n" lines ^ "\n")
          ]
            ≡ ok script
          → IsProjectScript h.quote prepared script
      go (err e) q b k = absurd cc
      go (ok _) q true k = absurd cc
      go (ok tt) q false k = (lines, ground arith, each, q)

  pub Safe-nft :
      (backend == "nft") ≡ true → Safe h (holds prepared) (setup_tun_nft_firewall h iface prepared)
  unfolding setup_tun_nft_firewall is_owned_current_nft_table ◌>>=◌ lift
  Safe-nft e =
      go (build_tun_nft_script_with_comment h.quote iface (tun_rule_comment_for_state prepared))
        refl
    where
      go :
          (r : Result (List Reason) String)
          → build_tun_nft_script_with_comment h.quote iface (tun_rule_comment_for_state prepared)
            ≡ r
          → Safe h
              (holds prepared)
              (do script ← lift r; run_tun_command_input h (nft ("-f" ∷ "-" ∷ [])) script; pure tt)
      go (err e) q = record { at = λ w k. k }
      go (ok script) q = record {
        at =
            (Quiet-bind _ _
              (Safe-run_input h (holds prepared) (nft ("-f" ∷ "-" ∷ [])) script
                λ t. makes_table prepared script (ground arith) (script-IsProjectScript script q))
              (λ _. Quiet-pure tt)).at;
      }

  module _ (e : (backend == "iptables-legacy") ≡ true) where
    Safe-new_chain :
        (chain : String)
        → is_tun_project_chain chain ≡ true
        → Safe h (holds prepared) (ensure_legacy_tun_chain h chain)
    unfolding ensure_legacy_tun_chain prepared_chain is_printing
    Safe-new_chain chain k =
        Quiet-bind _ _ (Quiet-attempt _ (Safe-show h (holds prepared) (chain_op "-S" chain) refl))
          go
      where
        go : (r : Result (List Reason) String) → Safe h (holds prepared) (prepared_chain h chain r)
        go (ok out) =
            Quiet-bind _ _
              (Safe-run h (holds prepared) (chain_op "-F" chain)
                (λ t. empties_chain "-F" chain (holds prepared) refl k))
              λ _. Quiet-pure tt
        go (err q) =
            Quiet-if (is_tun_not_found_error q) _ _
              (Quiet-bind _ _
                (Safe-run h (holds prepared) (chain_op "-N" chain)
                  (λ t. makes_chain chain prepared e k))
                λ _. Quiet-pure tt)
              (Quiet-raise q)

    Safe-new_jump :
        (c : Command)
        → IsIn c tun_main_jump_commands
        → Safe h (holds prepared) (ensure_legacy_tun_main_jump h c)
    unfolding ensure_legacy_tun_main_jump
    Safe-new_jump c k = Quiet-bind _ _ (Safe-jumps h (holds prepared) c k) λ _.
        Quiet-bind _ _ (Safe-run h (holds prepared) c (λ t. makes_jump c prepared e k))
          λ _. Quiet-pure tt

    Safe-new_rule :
        (c : Command)
        → IsIn c (tun_chain_rule_commands iface)
        → Safe h (holds prepared) (run_rule h c)
    unfolding run_rule
    Safe-new_rule c k =
        Quiet-bind _ _ (Safe-run h (holds prepared) c (λ t. makes_rule c prepared e k))
          λ _. Quiet-pure tt

    pub Safe-legacy : Safe h (holds prepared) (setup_legacy_tun_iptables h iface)
    unfolding setup_legacy_tun_iptables is_tun_project_chain
    Safe-legacy =
        Quiet-bind _ _
          (Quiet-for_each _ tun_chain_names
            (Safe-new_chain _ refl, (Safe-new_chain _ refl, (Safe-new_chain _ refl, tt))))
          λ _.
            Quiet-bind _ _
              (Quiet-for_each _ tun_main_jump_commands
                (All-imp Safe-new_jump tun_main_jump_commands (All-IsIn tun_main_jump_commands)))
              λ _. Quiet-for_each _ (tun_chain_rule_commands iface) (
                All-imp Safe-new_rule (tun_chain_rule_commands iface)
                  (All-IsIn (tun_chain_rule_commands iface)))
