-- ===== src/Config/Validate/Scalars/Ports.antt =====
-- The port checks report nothing exactly on ports that are in range and distinct.
use mihomo_loongnix.Config.Types.{MihomoConfig}
use mihomo_loongnix.Prelude.Loops.{collect-eq-nil, collect}
use mihomo_loongnix.Config.Validate.Scalars.{named_ports, validate_ports, port_step}
use mihomo_loongnix.Prelude.{
  inr, All-const, ◌↔◌, All-imp, refl, All-and, String, true, false, List, [], ◌∷◌, none, ◌≡◌, ◌==◌,
  find_value, All, ◌⊎◌, arith,
}
use mihomo_loongnix.Prelude.Int.{ℤ, pos, ◌≤ℤ◌, int_eq}

-- 0 disables a port; any other is a TCP port.
abbrev pub PortOk : ℤ → Type 0
PortOk p = (p ≡ pos 0) ⊎ ((pos 1 ≤ℤ p) × (p ≤ℤ pos 65535))

-- Two ports differ, unless the second is disabled.
abbrev pub NoConflict : ℤ → ℤ → Type 0
NoConflict p q = ((q == pos 0) ≡ true) ⊎ ((q == p) ≡ false)

abbrev pub NoConflicts : List (String × ℤ) → Type 0
NoConflicts [] = Unit {0}
NoConflicts ((n, p) ∷ ps) = All (λ q. NoConflict p q.1) ps × NoConflicts ps

abbrev IsUnused : List (ℤ × String) → String × ℤ → Type 0
IsUnused seen (n, p) = ((p == pos 0) ≡ true) ⊎ (find_value p seen ≡ none)

step→ :
    (seen : List (ℤ × String)) (n : String) (p : ℤ)
    → (port_step seen (n, p)).0 ≡ []
    → PortOk p × IsUnused seen (n, p)
unfolding port_step
step→ seen n p h = ground arith

step← :
    (seen : List (ℤ × String)) (n : String) (p : ℤ)
    → PortOk p
    → IsUnused seen (n, p)
    → (port_step seen (n, p)).0 ≡ []
unfolding port_step
step← seen n p k u = ground (arith, int_eq.beq_iff p (pos 0))

later→ :
    (seen : List (ℤ × String)) (n m : String) (p q : ℤ)
    → (port_step seen (n, p)).0 ≡ []
    → IsUnused (port_step seen (n, p)).1 (m, q)
    → IsUnused seen (m, q) × NoConflict p q
unfolding port_step
later→ seen n m p q h u = ground (arith, int_eq.beq_iff p (pos 0))

later← :
    (seen : List (ℤ × String)) (n m : String) (p q : ℤ)
    → IsUnused seen (m, q)
    → NoConflict p q
    → IsUnused (port_step seen (n, p)).1 (m, q)
unfolding port_step
later← seen n m p q u c = ground (arith, int_eq.beq_iff p (pos 0))

ports→ :
    (seen : List (ℤ × String)) (ps : List (String × ℤ))
    → (collect port_step seen ps).0 ≡ []
    → All (λ p. PortOk p.1) ps × NoConflicts ps × All (IsUnused seen) ps
ports→ seen [] h = (tt, tt, tt)
ports→ seen ((n, p) ∷ ps) h =
    let (here, there) = collect-eq-nil port_step seen (n, p) ps h in
    let (ok, unused) = step→ seen n p here in
    let (oks, apart, rest) = ports→ (port_step seen (n, p)).1 ps there in
    let both = All-imp (λ q u. later→ seen n q.0 p q.1 here u) ps rest in
    ((ok, oks), (All-imp (λ q u. u.1) ps both, apart), (unused, All-imp (λ q u. u.0) ps both))

ports← :
    (seen : List (ℤ × String)) (ps : List (String × ℤ))
    → All (λ p. PortOk p.1) ps
    → NoConflicts ps
    → All (IsUnused seen) ps
    → (collect port_step seen ps).0 ≡ []
ports← seen [] k a u = refl
ports← seen ((n, p) ∷ ps) k a u =
    let later = All-and (λ q v c. later← seen n q.0 p q.1 v c) ps u.1 a.0 in
    let rest = ports← (port_step seen (n, p)).1 ps k.1 a.1 later in
    ground (arith, rest, step← seen n p k.0 u.0)

-- The validator accepts the ports exactly when each is 0 or lies in 1..65535, and no enabled
-- port is used twice.
pub validate_ports_iff :
    (m : MihomoConfig)
    → (validate_ports m ≡ [])
      ↔ (All (λ p. PortOk p.1) (named_ports m) × NoConflicts (named_ports m))
unfolding validate_ports
validate_ports_iff m = (
  λ h. let (oks, apart, _) = ports→ [] (named_ports m) h in (oks, apart),
  λ k.
      ports← [] (named_ports m) k.0 k.1
        (All-const {P = IsUnused []} (λ p. inr refl) (named_ports m)),
)
