-- ===== src/Reconcile.antt =====
-- `runReconcile` of mihomotui/reconcile.go: bringing the running core in line with the committed
-- configuration. The queue makes the runs follow each other, so that a run is one function.
use mihomo_loongnix.Prelude.{
  String, Bool, true, false, not, ◌&&◌, ◌||◌, List, [], ◌∷◌, if◌then◌else◌, ◌≡◌, ◌⊎◌, ◌↔◌, arith,
}

-- The calls that a run makes.
pub data Action : Type 0 where
  generate setup_tun reload restart restore_tun : Action

-- `old_tun` is only logged.
pub record ReconcileRequest : Type 0 where
  pub reason : String
  pub old_tun : Bool
  pub new_tun : Bool
  pub sync_tun : Bool

-- How a run ends: applied, or the stage that failed.
pub data ApplyReport : Type 0 where
  applied : ApplyReport
  failed : String → ApplyReport

-- The calls in order, and the report.
pub record Run : Type 0 where
  pub actions : List Action
  pub report : ApplyReport

abbrev pub then_run : Action → Run → Run
then_run a r = record r { actions = a ∷ r.actions }

abbrev pub stop : ApplyReport → Run
stop report = record { actions = []; report = report }

-- `answers` tells which calls succeed, `running` whether the core runs, and `has_api` whether
-- there is a client for it.
module _ (answers : Action → Bool) (running has_api : Bool) (req : ReconcileRequest) where
  -- The third stage: the routes are removed after TUN was turned off.
  unfoldable pub finish : Run
  finish =
      if req.sync_tun && not req.new_tun && running
      then then_run restore_tun (stop (if answers restore_tun then applied else failed "tun"))
      else stop applied

  -- The reload, or else the restart.
  unfoldable pub reload_core : Run
  reload_core =
      if not running
      then finish
      else if not has_api
      then stop (failed "reload")
      else if answers reload
      then then_run reload finish
      else then_run reload
          (then_run restart (if answers restart then finish else stop (failed "restart")))

  -- The second stage: the routes are there before TUN is turned on.
  unfoldable pub prepare : Run
  prepare =
      if req.sync_tun && req.new_tun && running
      then then_run setup_tun (if answers setup_tun then reload_core else stop (failed "tun"))
      else reload_core

  unfoldable pub run_reconcile : Run
  run_reconcile = then_run generate (if answers generate then prepare else stop (failed "generate"))

  finish-applied :
      (finish.report ≡ applied)
      ↔ ((req.sync_tun && not req.new_tun && running && not (answers restore_tun)) ≡ false)
  unfolding finish
  finish-applied = ground (arith, req.sync_tun, req.new_tun, running, answers restore_tun)

  reload_core-applied : (reload_core.report ≡ applied) ↔ (
      (finish.report ≡ applied)
      × ((running ≡ false) ⊎ ((has_api ≡ true) × ((answers reload || answers restart) ≡ true))))
  unfolding reload_core
  reload_core-applied = ground (arith, running, has_api, answers reload, answers restart)

  -- A run reports success exactly when the configuration was generated and, with a running core,
  -- there is a client for it, the reload or else the restart succeeded, the routes were set up if
  -- TUN was turned on, and they were removed if TUN was turned off.
  pub run_reconcile-applied : (run_reconcile.report ≡ applied) ↔ (
      (answers generate ≡ true)
      × ((running ≡ false)
          ⊎ ((has_api ≡ true)
              × ((answers reload || answers restart) ≡ true)
              × ((req.sync_tun && req.new_tun && not (answers setup_tun)) ≡ false)
              × ((req.sync_tun && not req.new_tun && not (answers restore_tun)) ≡ false))))
  unfolding run_reconcile prepare
  run_reconcile-applied = ground (
    arith,
    reload_core-applied,
    finish-applied,
    answers generate,
    answers setup_tun,
    running,
    req.sync_tun,
    req.new_tun,
    answers restore_tun,
  )
