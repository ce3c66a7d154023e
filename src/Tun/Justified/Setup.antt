-- ===== src/Tun/Justified/Setup.antt =====
-- The whole setup of mihomotui/tun_routing_linux.go.
use mihomo_loongnix.Prelude.{◌≡◌, String, List, string_eq, ◌⊎◌, ◌∙◌, ◌∙◌}
use mihomo_loongnix.Config.Store.{Result, ok, err}
use mihomo_loongnix.Tun.{TunState, StateFile, Host, Tun, holds, missing}
use mihomo_loongnix.Tun.Actions.{◌>>◌, Reason}
use mihomo_loongnix.Tun.Actions.Traces.{Each}
use mihomo_loongnix.Tun.Preflight.{TunPreflight}
use mihomo_loongnix.Tun.Refusal.{IsApproved}
use mihomo_loongnix.Tun.Justified.{Justified}
use mihomo_loongnix.Tun.Justified.Install.{prepared}

module _ {M : Type 0} (h : Host M) where
  -- What the state file says once the setup is complete.
  abbrev pub completed : String → TunPreflight → TunState
  completed id p = record (prepared h id p.interface p.gateway p.backend) { phase = "active" }

  -- The installation is complete, or the state file still says what there is to clean up.
  abbrev IsInstalled : String → TunPreflight → Result (List Reason) Unit × Tun M → Type 0
  IsInstalled id p (r, w) =
      Each (Justified h) w.trace
      × (((r ≡ ok tt) × (w.saved ≡ holds (completed id p)))
          ⊎ ((e : List Reason) × (r ≡ err e)
              × (w.saved ≡ holds (prepared h id p.interface p.gateway p.backend))))

  -- The end of a setup that began with the state file `f`.
  abbrev pub IsSettled : StateFile → Result (List Reason) Unit × Tun M → Type 0
  IsSettled f (r, w) =
      Each (Justified h) w.trace
      × (((r ≡ ok tt)
            × ((id : String) × (p : TunPreflight) × IsApproved h p
                × (w.saved ≡ holds (completed id p))))
          ⊎ ((e : List Reason) × (r ≡ err e)
              × ((w.saved ≡ f)
                  ⊎ ((w.saved ≡ missing)
                      ⊎ ((s : TunState) × (w.saved ≡ holds s) × (s.phase ≡ "preparing"))))))

  module _ (f : StateFile) (p : TunPreflight) (approved : IsApproved h p) where
    module _ (id : String) where
      abbrev from : StateFile
      from = holds (prepared h id p.interface p.gateway p.backend)
