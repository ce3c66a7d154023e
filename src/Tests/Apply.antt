-- ===== src/Tests/Apply.antt =====
-- The theorems on the runs of the reconciler at concrete inputs.
use mihomo_loongnix.Prelude.{not, ◌&&◌, ◌||◌, ◌⊎◌, ◌↔◌, ◌≡◌, true, false, Bool}
use mihomo_loongnix.Reconcile.{
  Action, generate, setup_tun, reload, restart, restore_tun, ReconcileRequest, applied,
  run_reconcile, run_reconcile-applied,
}

abbrev turn_on : ReconcileRequest
turn_on = record { reason = "config"; old_tun = false; new_tun = true; sync_tun = true }

abbrev no_routes : Action → Bool
no_routes generate = true
no_routes setup_tun = false
no_routes reload = true
no_routes restart = true
no_routes restore_tun = true

run_reconcile-applied_example : ((run_reconcile no_routes true true turn_on).report ≡ applied) ↔ (
    (no_routes generate ≡ true)
    × ((true ≡ false)
        ⊎ ((true ≡ true)
            × ((no_routes reload || no_routes restart) ≡ true)
            × ((turn_on.sync_tun && turn_on.new_tun && not (no_routes setup_tun)) ≡ false)
            × ((turn_on.sync_tun && not turn_on.new_tun && not (no_routes restore_tun)) ≡ false))))
run_reconcile-applied_example = run_reconcile-applied no_routes true true turn_on
