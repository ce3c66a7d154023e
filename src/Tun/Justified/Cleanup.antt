-- ===== src/Tun/Justified/Cleanup.antt =====
-- The cleanup of the iptables chains in mihomotui/tun_routing_linux.go runs justified commands only.
use mihomo_loongnix.Config.Store.{ok, err, Result}
use mihomo_loongnix.Tun.Legacy.{
  chain_op, deletion, after_deletion, tun_main_jump_commands, removed_chain, remove_legacy_chain,
  cleanup_legacy_tun_iptables, delete_main_jumps, delete_all,
}
use mihomo_loongnix.Prelude.{
  All-IsIn, zero, ◌+◌, suc, All-imp, String, ℕ, ◌≡◌, refl, true, List, string_eq, IsIn,
}
use mihomo_loongnix.Tun.{Command, StateFile, Step, Host}
use mihomo_loongnix.Tun.Actions.{Reason}
use mihomo_loongnix.Tun.Actions.Traces.{
  Quiet-attempt, Quiet-join_errors, Quiet-pure, Quiet-if, Quiet-get, Quiet-raise, Quiet-gather,
  Quiet-bind,
}
use mihomo_loongnix.Tun.Nft.{tun_chain_names, is_tun_project_chain}
use mihomo_loongnix.Tun.ReadOnly.{is_printing}
use mihomo_loongnix.Tun.Justified.{empties_chain, deletes_jump, IsJustified}
use mihomo_loongnix.Tun.Justified.Runs.{Safe, Safe-run, Safe-show}

module _ {M : Type 0} (h : Host M) (f : StateFile) where
  Safe-deletion :
      (n : ℕ) (c : Command)
      → ((t : List Step) → IsJustified h t c "" f)
      → Safe h f (delete_all h n c)
  unfolding delete_all
  Safe-deletion zero c k = Quiet-raise _
  Safe-deletion (suc n) c k =
      Quiet-bind _ _ (Quiet-attempt _ (Safe-run h f c k)) (again (Safe-deletion n c k))
    where
      again :
          Safe h f (delete_all h n c)
          → (r : Result (List Reason) String) → Safe h f (after_deletion (delete_all h n c) r)
      again ih (ok out) = ih
      again ih (err e) = Quiet-if _ _ _ (Quiet-pure tt) (Quiet-raise e)

  pub Safe-jumps : (c : Command) → IsIn c tun_main_jump_commands → Safe h f (delete_main_jumps h c)
  unfolding delete_main_jumps
  Safe-jumps c k =
      Quiet-bind _ _ (Quiet-get _)
        (λ n. Safe-deletion (n + 1) (deletion c) (λ t. deletes_jump c f k))

  Safe-old_chain :
      (chain : String) → is_tun_project_chain chain ≡ true → Safe h f (remove_legacy_chain h chain)
  unfolding remove_legacy_chain is_printing removed_chain
  Safe-old_chain chain k =
      Quiet-bind _ _ (Quiet-attempt _ (Safe-show h f (chain_op "-S" chain) refl)) removed
    where
      removed : (r : Result (List Reason) String) → Safe h f (removed_chain h chain r)
      removed (err e) = Quiet-if _ _ _ (Quiet-pure tt) (Quiet-raise e)
      removed (ok out) =
          Quiet-bind _ _
            (Safe-run h f (chain_op "-F" chain) (λ t. empties_chain "-F" chain f refl k))
            λ _.
              Quiet-bind _ _
                (Safe-run h f (chain_op "-X" chain) (λ t. empties_chain "-X" chain f refl k))
                λ _. Quiet-pure tt

  pub Safe-iptables : Safe h f (cleanup_legacy_tun_iptables h)
  unfolding cleanup_legacy_tun_iptables is_tun_project_chain
  Safe-iptables =
      Quiet-bind _ _
        (Quiet-gather _ _
          (All-imp Safe-jumps tun_main_jump_commands (All-IsIn tun_main_jump_commands)))
        λ of_jumps.
          Quiet-bind _ _
            (Quiet-gather _ tun_chain_names
              (Safe-old_chain _ refl, (Safe-old_chain _ refl, (Safe-old_chain _ refl, tt))))
            λ of_chains. Quiet-join_errors _
