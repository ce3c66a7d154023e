-- ===== src/Tun/Justified/Outcome.antt =====
-- How the cleanup of mihomotui/tun_routing_linux.go ends.
use mihomo_loongnix.Prelude.{
  All-IsIn, ◌&&◌, ◌≡◌, refl, true, ◌++◌, String, List, [], ◌∷◌, if◌then◌else◌, ◌==◌, string_eq, suc,
  All-imp, ◌⊎◌, inl, inr, if-intro,
}
use mihomo_loongnix.Prelude.Text.{contains_text}
use mihomo_loongnix.Config.Store.{Result, ok, err}
use mihomo_loongnix.Tun.{Command, TunState, StateFile, Host, Step, Tun, holds, missing, unreadable}
use mihomo_loongnix.Tun.Actions.{pure, lift, Reason, Routine, ◌>>=◌, attempt, problems}
use mihomo_loongnix.Tun.Actions.Traces.{
  Leads, Leads-bind, Quiet-gather, Quiet-bind, Quiet-attempt, Quiet-pure, Quiet-raise, Quiet-if,
  Quiet-join_errors, Quiet, Quiet-bind-Known, Each,
}
use mihomo_loongnix.Tun.Commands.{
  run_tun_command, run_tun_command_ignoring_not_found, is_tun_not_found_error,
}
use mihomo_loongnix.Tun.Policy.{
  is_owned_current_nft_table, tun_rule_comment_for_state, tun_policy_cleanup_commands, state_in,
  load_tun_routing_state,
}
use mihomo_loongnix.Tun.Nft.{delete_table, owned_table, cleanup_tun_nft_firewall}
use mihomo_loongnix.Tun.Setup.{
  is_present, cleanup_nft, cleanup_tun_firewall, cleanup_policy, policy_commands_of, state_or_none,
  finish_cleanup, cleanup_tun_routing_with_backend,
}
use mihomo_loongnix.Tun.ReadOnly.{is_printing}
use mihomo_loongnix.Tun.Justified.{Justified, removes, deletes_table, list_table, HasPrinted, With}
use mihomo_loongnix.Tun.Justified.Artifacts.{Safe-artifacts}
use mihomo_loongnix.Tun.Justified.Cleanup.{Safe-iptables}
use mihomo_loongnix.Tun.Justified.Runs.{
  Safe, Safe-ignoring, Quiet-forgiving, run-With, attempt-Known,
}

module _ {M : Type 0} (h : Host M) where
  -- What the listing of the table printed, if it succeeded.
  abbrev Lists : Result (List Reason) String → List Step → Type 0
  Lists r t = (out : String) → r ≡ ok out → HasPrinted list_table out t

  Lists-more :
      (r : Result (List Reason) String) (s : Step) (t : List Step) → Lists r t → Lists r (s ∷ t)
  Lists-more r s t k out e = let (p, (n, at), c, o) = k out e in (p, (suc n, at), c, o)

  module _ (s : TunState) (owned : is_owned_current_nft_table s ≡ true) where
    -- The deletion after a listing that shows the state's comment.
    Lists-deletion :
        (out : String)
        → contains_text out (h.quote (tun_rule_comment_for_state s)) ≡ true
        → Quiet
            (With h (holds s) (Lists (ok out)))
            (run_tun_command_ignoring_not_found h delete_table)
    unfolding run_tun_command_ignoring_not_found run_tun_command
    Lists-deletion out e = Quiet-forgiving h is_tun_not_found_error delete_table (
        run-With h (holds s) (Lists (ok out)) (Lists-more (ok out)) delete_table ""
          λ t k. deletes_table s owned (inr (out, k out refl, e)))

    Lists-rest :
        (r : Result (List Reason) String)
        → Quiet (With h (holds s) (Lists r)) (do
          present ← lift (owned_table h s r)
          if present then run_tun_command_ignoring_not_found h delete_table else pure tt)
    unfolding owned_table ◌>>=◌ lift
    Lists-rest (ok out) =
        if-intro
          (λ r. Quiet (With h (holds s) (Lists (ok out))) (
            lift r >>= λ b.
            if b then run_tun_command_ignoring_not_found h delete_table else pure tt))
          (contains_text out (h.quote (tun_rule_comment_for_state s)))
          (λ e. record { at = λ w k. (Lists-deletion out e).at w k })
          (λ _. record { at = λ w k. k })
    Lists-rest (err e) =
        if-intro
          (λ r. Quiet (With h (holds s) (Lists (err e))) (
            lift r >>= λ b.
            if b then run_tun_command_ignoring_not_found h delete_table else pure tt))
          (is_tun_not_found_error e) (λ _. Quiet-pure tt) (λ _. record { at = λ w k. k })

    Safe-table : Safe h (holds s) (cleanup_tun_nft_firewall h s)
    unfolding cleanup_tun_nft_firewall is_printing
    Safe-table =
        if-intro (Safe h (holds s)) (s.instance_id == "")
          (λ e. Safe-ignoring h (holds s) delete_table (λ t. deletes_table s owned (inl e)))
          λ _.
            Quiet-bind-Known (λ r. With h (holds s) (Lists r))
              (attempt (run_tun_command h list_table))
              (λ r. lift (owned_table h s r) >>= λ b.
                if b then run_tun_command_ignoring_not_found h delete_table else pure tt)
              (attempt-Known h (holds s) list_table refl) (λ r w k. k.0) Lists-rest

  -- The project's table is touched only for a state that owns it.
  Safe-own :
      (f : StateFile)
      → Safe h f (
          if is_owned_current_nft_table (state_or_none h (state_in f))
          then cleanup_tun_nft_firewall h (state_or_none h (state_in f))
          else pure tt)
  unfolding is_owned_current_nft_table
  Safe-own missing = Quiet-pure tt
  Safe-own unreadable = Quiet-pure tt
  Safe-own (holds s) =
      if-intro (Safe h (holds s)) (is_owned_current_nft_table s) (λ e. Safe-table s e)
        (λ _. Quiet-pure tt)

  Safe-firewall :
      (f : StateFile) (backend : String)
      → Safe h f (cleanup_tun_firewall h backend (state_or_none h (state_in f)))
  unfolding cleanup_tun_firewall cleanup_nft
  Safe-firewall f backend =
      Quiet-if (backend == "nft") _ _
        (Quiet-bind _ _ (Quiet-attempt _ (Safe-own f)) λ own.
          Quiet-bind _ _ (Quiet-attempt _ (Safe-artifacts h f))
            λ legacy. Quiet-join_errors (problems own ++ problems legacy))
        (Quiet-if (backend == "iptables-legacy") _ _ (Safe-iptables h f) (Quiet-raise _))

  Safe-policy : (f : StateFile) → Safe h f (cleanup_policy h (policy_commands_of h (state_in f)))
  unfolding cleanup_policy policy_commands_of tun_policy_cleanup_commands
  Safe-policy missing = Quiet-gather _ [] tt
  Safe-policy unreadable = Quiet-pure _
  Safe-policy (holds s) = go (tun_policy_cleanup_commands s) refl
    where
      go :
          (r : Result (List Reason) (List Command))
          → tun_policy_cleanup_commands s ≡ r
          → Safe h (holds s) (cleanup_policy h r)
      go (err e) q = Quiet-pure e
      go (ok cs) q = Quiet-gather _ cs (
          All-imp (λ c k. Safe-ignoring h (holds s) c (λ t. removes c s (cs, q, k))) cs
            (All-IsIn cs))

  -- Only justified commands were run, and the state file is gone exactly when there is no error.
  abbrev pub IsEnd : StateFile → Result (List Reason) Unit × Tun M → Type 0
  IsEnd f (r, w) =
      Each (Justified h) w.trace
      × (((r ≡ ok tt) × (w.saved ≡ missing)) ⊎ ((e : List Reason) × (r ≡ err e) × (w.saved ≡ f)))

  abbrev Ends : StateFile → Routine (Tun M) Unit → Type 0
  Ends f m = Leads (Justified h) f (IsEnd f) m

  Ends-bind :
      (f : StateFile) {A : Type 0} (m : Routine (Tun M) A) (g : A → Routine (Tun M) Unit)
      → Safe h f m
      → ((a : A) → Ends f (g a))
      → Ends f (m >>= g)
  Ends-bind f m g km kg =
      Leads-bind (Justified h) f (IsEnd f) m g km (λ e w (same, k). (k, inr (e, refl, same))) kg

  Ends-finish : (f : StateFile) (es : List Reason) → Ends f (finish_cleanup h es)
  unfolding finish_cleanup
  Ends-finish f (e ∷ es) w (same, k) = (k, inr (e ∷ es, refl, same))
  Ends-finish f [] w (same, k) =
      if-intro (IsEnd f) (is_present w.saved && h.remove_fails w.machine)
        (λ _. (k, inr (_, refl, same))) (λ _. (k, inl (refl, refl)))

  -- From any state file: the rest of the cleanup once the file has been read.
  Ends-rest :
      (f : StateFile) (backend : String)
      → Ends f (do
        of_policy ← cleanup_policy h (policy_commands_of h (state_in f))
        of_firewall ← attempt (cleanup_tun_firewall h backend (state_or_none h (state_in f)))
        finish_cleanup h (of_policy ++ problems of_firewall))
  Ends-rest f backend = Ends-bind f _ _ (Safe-policy f) λ es.
      Ends-bind f _ _ (Quiet-attempt _ (Safe-firewall f backend))
        λ r. Ends-finish f (es ++ problems r)

  pub cleanup_tun_routing-IsEnd :
      (backend : String) (w : Tun M)
      → Each (Justified h) w.trace
      → IsEnd w.saved (cleanup_tun_routing_with_backend h backend w)
  unfolding cleanup_tun_routing_with_backend load_tun_routing_state
  cleanup_tun_routing-IsEnd backend w k = Ends-rest w.saved backend w (refl, k)
