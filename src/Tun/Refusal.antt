-- ===== src/Tun/Refusal.antt =====
-- What mihomotui/tun_routing_linux.go checks before it changes anything.
use mihomo_loongnix.Prelude.{
  arith, ◌≡◌, refl, sym, ap, subst, ◌⊎◌, inl, inr, false, String, List, [], ◌∷◌, All, ◌==◌,
  string_eq, nat_eq, some,
}
use mihomo_loongnix.Config.Store.{Result, ok, err}
use mihomo_loongnix.Tun.{Host, Tun}
use mihomo_loongnix.Tun.Actions.{Result-cases, Reason, ◌>>=◌, ◌>>◌, next, lift, raise, pure}
use mihomo_loongnix.Tun.ReadOnly.{IsPrinting, IsUnchanged, Quiet-print, Quiet-approve}
use mihomo_loongnix.Tun.Commands.{ip, run_tun_command}
use mihomo_loongnix.Prelude.Lines.{split_lines}
use mihomo_loongnix.Tun.Preflight.{
  TunPreflight, get_default_gateway, detect_tun_firewall_backend, first_route,
  validate_tun_interface_name, collect_tun_preflight, validate_for_apply,
}
use mihomo_loongnix.Tun.Setup.{approve, setup_tun_routing_locked, replace_routing}

first_route-named :
    (ls : List String) (r : String × String) → first_route ls ≡ some r → (r.1 == "") ≡ false
unfolding first_route
first_route-named [] r e = absurd cc
first_route-named (l ∷ ls) r e = ground (arith, first_route-named ls r)

module _ {M : Type 0} (h : Host M) where
  -- What `approve` has checked when it returns a preflight.
  abbrev pub IsApproved : TunPreflight → Type 0
  IsApproved p =
      (h.euid ≡ 0)
      × (p.external_tuns ≡ [])
      × (validate_tun_interface_name p.interface ≡ ok tt)
      × ((p.gateway == "") ≡ false)

  -- The setup that ends without having changed anything.
  abbrev pub IsUntouched : Tun M → Result (List Reason) Unit × Tun M → Type 0
  IsUntouched w (r, w') =
      ((e : List Reason) × (r ≡ err e)) × (w'.saved ≡ w.saved) × All IsPrinting w'.trace

  gateway-named :
      (w : Tun M) (r : String × String) → (get_default_gateway h w).0 ≡ ok r → (r.1 == "") ≡ false
  unfolding get_default_gateway ◌>>=◌ lift
  gateway-named w r e =
      elim (Result-cases (run_tun_command h (ip ("route" ∷ "show" ∷ "default" ∷ [])) w).0) [
        | inl (out, k) ↦ ground (arith, first_route-named (split_lines out) r)
        | inr (q, k) ↦ ground arith
      ]

  Preflight-checked :
      (backend : String) (w : Tun M) (p : TunPreflight)
      → (collect_tun_preflight h backend w).0 ≡ ok p
      → (validate_tun_interface_name p.interface ≡ ok tt) × ((p.gateway == "") ≡ false)
  unfolding collect_tun_preflight ◌>>=◌ pure lift
  Preflight-checked backend w p e = elim (Result-cases (get_default_gateway h w).0) [
    | inl (r, k) ↦ ground (arith, gateway-named w r k)
    | inr (q, k) ↦ ground arith
  ]

  approved-checked :
      (b : String) (w : Tun M) (p : TunPreflight)
      → ((do p ← collect_tun_preflight h b; lift (validate_for_apply h p); pure p) w).0 ≡ ok p
      → (validate_tun_interface_name p.interface ≡ ok tt)
        × ((p.gateway == "") ≡ false)
        × (validate_for_apply h p ≡ ok tt)
  unfolding ◌>>=◌ pure lift
  approved-checked b w p e = elim (Result-cases (collect_tun_preflight h b w).0) [
    | inl (q, r) ↦ ground (arith, Preflight-checked b w q r)
    | inr (q, r) ↦ ground arith
  ]

  pub Approve-checked : (w : Tun M) (p : TunPreflight) → (approve h w).0 ≡ ok p → IsApproved p
  unfolding approve ◌>>=◌ raise validate_for_apply
  Approve-checked w p e = elim (Result-cases (detect_tun_firewall_backend h w).0) [
    | inl (b, r) ↦ ground (arith, approved-checked b (detect_tun_firewall_backend h w).1 p)
    | inr (q, r) ↦ ground arith
  ]

  -- With no command run before, the setup either fails with the state file as it was, having run
  -- only commands that print, or its checks have passed: the daemon runs as root, no other active
  -- TUN device was found, and the interface and the gateway of the default route have names.
  pub setup-refused :
      (w : Tun M)
      → w.trace ≡ []
      → IsUntouched w (setup_tun_routing_locked h w)
        ⊎ ((p : TunPreflight) × ((approve h w).0 ≡ ok p) × IsApproved p)
  unfolding setup_tun_routing_locked ◌>>=◌
  setup-refused w e =
      go (approve h w) refl
        ((Quiet-approve h (Quiet-print h w.saved)).at w (refl, subst (All IsPrinting) (sym e) tt))
    where
      go :
          (q : Result (List Reason) TunPreflight × Tun M)
          → approve h w ≡ q
          → IsUnchanged h w.saved q.1
          → IsUntouched w (next (replace_routing h) q)
            ⊎ ((p : TunPreflight) × ((approve h w).0 ≡ ok p) × IsApproved p)
      go (err e, w') q (same, k) = inl ((e, refl), same, k)
      go (ok p, w') q k = inr (p, ap (λ x. x.0) q, Approve-checked w p (ap (λ x. x.0) q))
