-- ===== src/Tun/Setup.antt =====
-- Installing and removing the TUN routing, in mihomotui/tun_routing_linux.go. The file lock makes
-- each of `SetupTUNRouting` and `RestoreTUNRouting` one step; what taking the lock may fail with is
-- left out.
use mihomo_loongnix.Prelude.{
  true, false, Bool, not, ◌&&◌, String, List, [], ◌∷◌, ◌++◌, map, if◌then◌else◌, ◌==◌, string_eq,
  nat_eq,
}
use mihomo_loongnix.Config.Store.{Result, ok, err}
use mihomo_loongnix.Tun.{Command, TunState, StateFile, Host, Tun, missing, unreadable, holds}
use mihomo_loongnix.Tun.Actions.{
  Reason, Routine, pure, raise, lift, attempt, ◌>>=◌, ◌>>◌, for_each, gather, join_errors, problems,
  not_root, unknown_backend, state_of_nft, state_unremoved,
}
use mihomo_loongnix.Tun.Commands.{
  ip, nft, run_tun_command, run_tun_command_ignoring_not_found, run_tun_rule_add_ignoring_exists,
}
use mihomo_loongnix.Tun.Policy.{
  no_state, tun_routing_table, is_owned_current_nft_table, tun_policy_cleanup_commands,
  tun_policy_rule_add_commands, load_tun_routing_state, save_tun_routing_state,
  new_tun_routing_state, ensure_tun_default_route,
}
use mihomo_loongnix.Tun.Preflight.{
  TunPreflight, detect_tun_firewall_backend, collect_tun_preflight, validate_for_apply,
  validate_tun_route_slots_are_free,
}
use mihomo_loongnix.Tun.Nft.{
  tun_chain_names, setup_tun_nft_firewall, cleanup_tun_nft_firewall,
  cleanup_legacy_tun_artifacts_with_nft,
}
use mihomo_loongnix.Tun.Legacy.{chain_op, setup_legacy_tun_iptables, cleanup_legacy_tun_iptables}

abbrev pub is_present : StateFile → Bool
is_present missing = false
is_present unreadable = true
is_present (holds s) = true

module _ {M : Type 0} (h : Host M) where
  unfoldable pub cleanup_nft : TunState → Routine (Tun M) Unit
  unfolding ◌>>=◌
  cleanup_nft s = do
    own ← attempt (if is_owned_current_nft_table s then cleanup_tun_nft_firewall h s else pure tt)
    legacy ← attempt (cleanup_legacy_tun_artifacts_with_nft h)
    join_errors (problems own ++ problems legacy)

  unfoldable pub cleanup_tun_firewall : String → TunState → Routine (Tun M) Unit
  unfolding cleanup_nft
  cleanup_tun_firewall backend s =
      if backend == "nft"
      then cleanup_nft s
      else if backend == "iptables-legacy"
      then cleanup_legacy_tun_iptables h
      else raise (unknown_backend backend ∷ [])

  unfoldable pub setup_tun_firewall : String → String → TunState → Routine (Tun M) Unit
  setup_tun_firewall backend iface s =
      if backend == "nft"
      then setup_tun_nft_firewall h iface s
      else if backend == "iptables-legacy"
      then setup_legacy_tun_iptables h iface
      else raise (unknown_backend backend ∷ [])

  -- Remove the policy rules of the state, collecting the errors.
  unfoldable pub cleanup_policy :
      Result (List Reason) (List Command) → Routine (Tun M) (List Reason)
  cleanup_policy (err e) = pure e
  cleanup_policy (ok commands) = gather (run_tun_command_ignoring_not_found h) commands

  unfoldable pub policy_commands_of :
      Result (List Reason) TunState → Result (List Reason) (List Command)
  policy_commands_of (err e) = err e
  policy_commands_of (ok s) = tun_policy_cleanup_commands s

  abbrev pub state_or_none : Result (List Reason) TunState → TunState
  state_or_none (err e) = no_state
  state_or_none (ok s) = s

  -- A file that does not exist is removed without an error.
  unfoldable pub remove_state_file : Routine (Tun M) Unit
  remove_state_file w =
      if is_present w.saved && h.remove_fails w.machine
      then (err (state_unremoved ∷ []), w)
      else (ok tt, record w { saved = missing })

  -- The file goes only when everything else has been removed.
  unfoldable pub finish_cleanup : List Reason → Routine (Tun M) Unit
  unfolding remove_state_file raise
  finish_cleanup [] = remove_state_file
  finish_cleanup (e ∷ es) = raise (e ∷ es)

  unfoldable pub cleanup_tun_routing_with_backend : String → Routine (Tun M) Unit
  unfolding ◌>>=◌ cleanup_policy policy_commands_of cleanup_tun_firewall finish_cleanup
  cleanup_tun_routing_with_backend backend = do
    r ← attempt (load_tun_routing_state h)
    of_policy ← cleanup_policy (policy_commands_of r)
    of_firewall ← attempt (cleanup_tun_firewall backend (state_or_none r))
    finish_cleanup (of_policy ++ problems of_firewall)

  unfoldable pub cleanup_tun_routing_locked : Routine (Tun M) Unit
  unfolding ◌>>=◌ cleanup_tun_routing_with_backend
  cleanup_tun_routing_locked = do
    s ← load_tun_routing_state h
    backend ← detect_tun_firewall_backend h
    if s.firewall_backend == "nft" && not (backend == "nft")
        then raise (state_of_nft ∷ [])
        else cleanup_tun_routing_with_backend backend

  unfoldable pub rollback_tun_setup : List Reason → String → Routine (Tun M) Unit
  unfolding ◌>>=◌ cleanup_tun_routing_with_backend
  rollback_tun_setup e backend = do
    r ← attempt (cleanup_tun_routing_with_backend backend)
    raise (e ++ problems r)

  unfoldable pub verification : String → List Command
  verification backend =
      ip ("-4" ∷ "rule" ∷ "show" ∷ [])
      ∷ ip ("-4" ∷ "route" ∷ "show" ∷ "table" ∷ tun_routing_table ∷ [])
      ∷ (if backend == "nft"
          then nft ("list" ∷ "table" ∷ "ip" ∷ "mihomo_tui" ∷ []) ∷ []
          else map (chain_op "-S") tun_chain_names)

  unfoldable pub run_check : Command → Routine (Tun M) Unit
  unfolding ◌>>=◌
  run_check c = do run_tun_command h c; pure tt

  unfoldable pub verify_tun_routing : String → Routine (Tun M) Unit
  unfolding verification run_check
  verify_tun_routing backend = for_each run_check (verification backend)

  -- From the default route to the state `active`: what a failure of it rolls back.
  unfoldable pub install : TunState → TunPreflight → Routine (Tun M) Unit
  unfolding ◌>>=◌ verify_tun_routing setup_tun_firewall
  install s p = do
    ensure_tun_default_route h p.interface p.gateway
    for_each (run_tun_rule_add_ignoring_exists h) tun_policy_rule_add_commands
    setup_tun_firewall p.backend p.interface s
    verify_tun_routing p.backend
    save_tun_routing_state h (record s { phase = "active" })

  unfoldable pub or_rollback : String → Result (List Reason) Unit → Routine (Tun M) Unit
  unfolding rollback_tun_setup
  or_rollback backend (ok _) = pure tt
  or_rollback backend (err e) = rollback_tun_setup e backend

  -- The checks before anything is changed.
  unfoldable pub approve : Routine (Tun M) TunPreflight
  unfolding ◌>>=◌
  approve = if not (h.euid == 0) then raise (not_root ∷ []) else do
    backend ← detect_tun_firewall_backend h
    p ← collect_tun_preflight h backend
    lift (validate_for_apply h p)
    pure p

  unfoldable pub replace_routing : TunPreflight → Routine (Tun M) Unit
  unfolding ◌>>=◌ cleanup_tun_routing_with_backend install or_rollback
  replace_routing p = do
    cleanup_tun_routing_with_backend p.backend
    validate_tun_route_slots_are_free h
    s ← lift (new_tun_routing_state h p.interface p.gateway p.backend)
    save_tun_routing_state h s
    r ← attempt (install s p)
    or_rollback p.backend r

  unfoldable pub setup_tun_routing_locked : Routine (Tun M) Unit
  unfolding ◌>>=◌ approve replace_routing
  setup_tun_routing_locked = approve >>= replace_routing
