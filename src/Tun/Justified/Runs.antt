-- ===== src/Tun/Justified/Runs.antt =====
-- Running one command in mihomotui/tun_routing_linux.go: what it keeps, and what is known afterwards.
use mihomo_loongnix.Prelude.{
  arith, ◌≡◌, refl, sym, subst, Bool, true, String, List, [], ◌∷◌, Option, none, some,
}
use mihomo_loongnix.Config.Store.{Result, ok, err}
use mihomo_loongnix.Tun.{Command, Outcome, StateFile, Step, Host, Tun}
use mihomo_loongnix.Tun.Actions.{Reason, run_failed, Routine, attempt}
use mihomo_loongnix.Tun.Actions.Traces.{Quiet, IsQuiet, Known, quiet_rules}
use mihomo_loongnix.Tun.Commands.{
  run_tun_command, run_tun_command_input, result_of, failure_text, run_forgiving,
  run_tun_command_ignoring_not_found, is_tun_not_found_error,
}
use mihomo_loongnix.Tun.ReadOnly.{is_printing, Quiet-run_input, after}
use mihomo_loongnix.Tun.Justified.{IsJustified, Justified, With, HasPrinted, prints}

ok-inj : (a b : String) → ◌≡◌ {A = Result (List Reason) String} (ok a) (ok b) → a ≡ b
ok-inj a b e = ground arith

module _ {M : Type 0} (h : Host M) where
  pub run-With :
      (f : StateFile) (K : List Step → Type 0)
      → ((s : Step) (t : List Step) → K t → K (s ∷ t))
      → (c : Command) (input : String) → ((t : List Step) → K t → IsJustified h t c input f)
      → Quiet (With h f K) (run_tun_command_input h c input)
  run-With f K grows c input k = Quiet-run_input h c input λ w o machine (q, known). (
    (q.0, (subst (λ g. IsJustified h w.trace c input g) (sym q.0) (k w.trace known), q.1)),
    grows (record { command = c; input = input; outcome = o; file = w.saved }) w.trace known,
  )

  -- What a command that only prints has printed.
  pub run-Known :
      (f : StateFile) (c : Command)
      → is_printing c ≡ true
      → (w : Tun M) → IsQuiet (Justified h) f w
      → Known (IsQuiet (Justified h) f) (λ out. With h f (HasPrinted c out)) (run_tun_command h c w)
  unfolding run_tun_command run_tun_command_input
  run-Known f c k w (same, each) = go (h.execute c "" w.machine).0 (h.execute c "" w.machine).1
    where
      kept : (o : Outcome) (machine : M) → IsQuiet (Justified h) f (after c "" o machine w)
      kept o machine = (same, (prints c w.saved k, each))

      shown :
          (o : Outcome) (machine : M) (e : Option String)
          → Known
              (IsQuiet (Justified h) f)
              (λ out. With h f (HasPrinted c out))
              (
                elim e [
                  | none ↦ ok o.output
                  | some e ↦ err (run_failed (failure_text c o.output e) ∷ [])
                ],
                after c "" o machine w,
              )
      shown o machine none = (kept o machine, (_, (0, refl), refl, refl))
      shown o machine (some e) = kept o machine

      go :
          (o : Outcome) (machine : M)
          → Known
              (IsQuiet (Justified h) f)
              (λ out. With h f (HasPrinted c out))
              (result_of c o, after c "" o machine w)
      go o machine = shown o machine o.error

  -- The same, where the error is looked at.
  pub attempt-Known :
      (f : StateFile) (c : Command)
      → is_printing c ≡ true
      → (w : Tun M) → IsQuiet (Justified h) f w
      → Known
          (IsQuiet (Justified h) f)
          (λ r. With h f λ t. (out : String) → r ≡ ok out → HasPrinted c out t)
          (attempt (run_tun_command h c) w)
  unfolding attempt
  attempt-Known f c k w i = go (run_tun_command h c w) (run-Known f c k w i)
    where
      go :
          (p : Result (List Reason) String × Tun M)
          → Known (IsQuiet (Justified h) f) (λ out. With h f (HasPrinted c out)) p
          → With h f (λ t. (out : String) → p.0 ≡ ok out → HasPrinted c out t) p.1
      go (ok out, w') (q, printed) =
          (q, λ out' e. subst (λ o. HasPrinted c o w'.trace) (ok-inj out out' e) printed)
      go (err e, w') q = (q, λ out e'. absurd cc)

  -- The action runs justified commands only, and leaves the state file alone.
  abbrev pub Safe : {A : Type 0} → StateFile → Routine (Tun M) A → Type 0
  Safe f m = Quiet (IsQuiet (Justified h) f) m

  -- An error that a test allows is forgiven.
  pub Quiet-forgiving :
      {I : Tun M → Type 0} (p : List Reason → Bool) (c : Command)
      → Quiet I (run_tun_command h c)
      → Quiet I (run_forgiving h p c)
  unfolding run_forgiving
  Quiet-forgiving p c k = search (quiet_rules, k) depth 9

  module _ (f : StateFile) where
    pub Safe-run_input :
        (c : Command) (input : String)
        → ((t : List Step) → IsJustified h t c input f)
        → Safe f (run_tun_command_input h c input)
    Safe-run_input c input k = Quiet-run_input h c input λ w o machine (same, each).
        (same, (subst (λ g. IsJustified h w.trace c input g) (sym same) (k w.trace), each))

    pub Safe-run :
        (c : Command) → ((t : List Step) → IsJustified h t c "" f) → Safe f (run_tun_command h c)
    unfolding run_tun_command
    Safe-run c k = Safe-run_input c "" k

    pub Safe-forgiving :
        (p : List Reason → Bool) (c : Command)
        → ((t : List Step) → IsJustified h t c "" f)
        → Safe f (run_forgiving h p c)
    Safe-forgiving p c k = Quiet-forgiving p c (Safe-run c k)

    pub Safe-ignoring :
        (c : Command)
        → ((t : List Step) → IsJustified h t c "" f)
        → Safe f (run_tun_command_ignoring_not_found h c)
    unfolding run_tun_command_ignoring_not_found
    Safe-ignoring c k = Safe-forgiving is_tun_not_found_error c k

    pub Safe-show : (c : Command) → is_printing c ≡ true → Safe f (run_tun_command h c)
    Safe-show c k = Safe-run c (λ t. prints c f k)
