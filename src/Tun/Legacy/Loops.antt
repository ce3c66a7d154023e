-- ===== src/Tun/Legacy/Loops.antt =====
-- The loops of mihomotui/tun_routing_linux.go that delete a jump until there is none.
use mihomo_loongnix.Prelude.{
  ℕ, zero, suc, ◌<◌, ◌≤◌, ◌≡◌, refl, ◌⊎◌, inl, inr, String, List, [], ◌∷◌, Option, none, some,
  if-intro, arith,
}
use mihomo_loongnix.Config.Store.{Result, ok, err}
use mihomo_loongnix.Tun.{Command, Host, Tun}
use mihomo_loongnix.Tun.Actions.{Reason, Routine, pure, raise, ◌>>=◌, run_failed, attempt}
use mihomo_loongnix.Tun.Commands.{
  run_tun_command, run_tun_command_input, failure_text, is_tun_not_found_error,
}
use mihomo_loongnix.Tun.Legacy.{deletion, delete_all, delete_main_jumps, after_deletion}

-- The loop has ended: no rule is left, or a command failed with its text.
abbrev pub HasEnded : Result (List Reason) Unit → Type 0
HasEnded r = (r ≡ ok tt) ⊎ ((t : String) × (r ≡ err (run_failed t ∷ [])))

module _ {M : Type 0} (h : Host M) (left : Command → M → ℕ) where
  -- A deletion of this command that succeeds leaves fewer rules.
  abbrev pub DeletesOne : Command → Type 0
  DeletesOne c =
      (m : M) → (h.execute c "" m).0.error ≡ none → left c (h.execute c "" m).1 < left c m

  delete_all-HasEnded :
      (c : Command)
      → DeletesOne c
      → (n : ℕ) (w : Tun M) → left c w.machine < n
      → HasEnded (delete_all h n c w).0
  unfolding delete_all ◌>>=◌ attempt run_tun_command run_tun_command_input pure raise
  delete_all-HasEnded c d zero w k = absurd (omega (arith, k))
  delete_all-HasEnded c d (suc n) w k =
      go (h.execute c "" w.machine).0.error refl
        (λ less. delete_all-HasEnded c d n after (omega (arith, k, less)))
    where
      after : Tun M
      after = record w {
        machine = (h.execute c "" w.machine).1;
        trace =
            record {
              command = c;
              input = "";
              outcome = (h.execute c "" w.machine).0;
              file = w.saved;
            }
            ∷ w.trace;
      }

      go :
          (e : Option String)
          → (h.execute c "" w.machine).0.error ≡ e
          → (left c after.machine < left c w.machine → HasEnded (delete_all h n c after).0)
          → HasEnded
              (after_deletion
                (delete_all h n c)
                (elim e [
                  | none ↦ ok (h.execute c "" w.machine).0.output
                  | some t ↦
                      err (run_failed (failure_text c (h.execute c "" w.machine).0.output t) ∷ [])
                ])
                after).0
      go none q ih = ih (d w.machine q)
      go (some t) q ih =
          if-intro {A = Routine (Tun M) Unit} (λ m. HasEnded (m after).0) (is_tun_not_found_error _)
            (λ _. inl refl) (λ _. inr (_, refl))

  -- When each successful deletion leaves fewer rules, and the fuel is at least their number, the
  -- loop ends: without an error, or with the error of a command.
  pub delete_main_jumps-HasEnded :
      (c : Command)
      → DeletesOne (deletion c)
      → ((m : M) → left (deletion c) m ≤ h.rounds (deletion c) m)
      → (w : Tun M) → HasEnded (delete_main_jumps h c w).0
  unfolding delete_main_jumps ◌>>=◌
  delete_main_jumps-HasEnded c d enough w =
      delete_all-HasEnded (deletion c) d _ w (omega (arith, enough w.machine))
