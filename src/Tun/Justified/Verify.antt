-- ===== src/Tun/Justified/Verify.antt =====
-- The firewall and the verification of mihomotui/tun_routing_linux.go.
use mihomo_loongnix.Prelude.{◌≡◌, refl, true, String, ◌==◌, string_eq, All, if-intro}
use mihomo_loongnix.Tun.{Command, TunState, StateFile, Host, holds}
use mihomo_loongnix.Tun.Actions.Traces.{Quiet-for_each, Quiet-bind, Quiet-pure, Quiet-raise}
use mihomo_loongnix.Tun.Setup.{run_check, verification, verify_tun_routing, setup_tun_firewall}
use mihomo_loongnix.Tun.ReadOnly.{is_printing}
use mihomo_loongnix.Tun.Justified.Runs.{Safe, Safe-show}
use mihomo_loongnix.Tun.Justified.Install.{prepared, Safe-nft, Safe-legacy}

module _ {M : Type 0} (h : Host M) where
  pub Safe-verify : (f : StateFile) (backend : String) → Safe h f (verify_tun_routing h backend)
  unfolding verify_tun_routing verification run_check is_printing
  Safe-verify f backend = Quiet-for_each _ (verification h backend) (
    check _ refl,
    (
      check _ refl,
      if-intro (All (λ c. Safe h f (run_check h c))) (backend == "nft") (λ _. (check _ refl, tt))
          (λ _. (check _ refl, (check _ refl, (check _ refl, tt)))),
    ),
  )
    where
      check : (c : Command) → is_printing c ≡ true → Safe h f (run_check h c)
      check c k = Quiet-bind _ _ (Safe-show h f c k) λ _. Quiet-pure tt

  pub Safe-setup_firewall :
      (id iface gateway backend : String)
      → Safe h
          (holds (prepared h id iface gateway backend))
          (setup_tun_firewall h backend iface (prepared h id iface gateway backend))
  unfolding setup_tun_firewall
  Safe-setup_firewall id iface gateway backend =
      if-intro (Safe h (holds s)) (backend == "nft") (Safe-nft h id iface gateway backend) (λ _.
        if-intro (Safe h (holds s)) (backend == "iptables-legacy")
          (Safe-legacy h id iface gateway backend) (λ _. Quiet-raise _))
    where
      s : TunState
      s = prepared h id iface gateway backend
