-- ===== src/Tun/Actions/Traces.antt =====
-- Actions that leave the state file alone and run only commands that a predicate allows.
use mihomo_loongnix.Prelude.{◌++◌, ◌≡◌, Bool, true, false, if◌then◌else◌, List, [], ◌∷◌, All}
use mihomo_loongnix.Config.Store.{Result, ok, err}
use mihomo_loongnix.Tun.{StateFile, Step, Tun}
use mihomo_loongnix.Tun.Actions.{
  problems, Reason, Routine, pure, raise, lift, get, attempt, recovered, next, ◌>>=◌, for_each,
  gather, join_errors,
}

-- Each command is allowed, given those before it.
abbrev pub Each : (List Step → Step → Type 0) → List Step → Type 0
Each P [] = Unit
Each P (s ∷ before) = P before s × Each P before

-- The state file is `f` and the commands run so far are allowed.
abbrev pub IsQuiet : {M : Type 0} → (List Step → Step → Type 0) → StateFile → Tun M → Type 0
IsQuiet P f w = (w.saved ≡ f) × Each P w.trace

-- The action keeps an invariant, whether it returns or fails.
pub record Quiet {M A : Type 0} (I : Tun M → Type 0) (m : Routine (Tun M) A) : Type 0 where
  pub at : (w : Tun M) → I w → I (m w).1

-- `J` of a returned value, or else `I`.
abbrev pub Known :
    {M A : Type 0}
    → (Tun M → Type 0)
    → (A → Tun M → Type 0)
    → Result (List Reason) A × Tun M
    → Type 0
Known I J (ok a, w) = J a w
Known I J (err e, w) = I w

pub Known-bind :
    {M A B : Type 0} (I : Tun M → Type 0) (K : A → Tun M → Type 0) (L : B → Tun M → Type 0)
    (m : Routine (Tun M) A) (g : A → Routine (Tun M) B) (w : Tun M)
    → Known I K (m w)
    → ((a : A) (w' : Tun M) → K a w' → Known I L (g a w'))
    → Known I L ((m >>= g) w)
unfolding ◌>>=◌
Known-bind {M} {A} {B} I K L m g w h kg = go (m w) h
  where
    go : (p : Result (List Reason) A × Tun M) → Known I K p → Known I L (next g p)
    go (ok a, w') h = kg a w' h
    go (err e, w') h = h

module _ {M : Type 0} {I : Tun M → Type 0} where
  pub Quiet-pure : {A : Type 0} (a : A) → Quiet I (pure a)
  unfolding pure
  Quiet-pure a = record { at = λ w h. h }

  pub Quiet-raise : {A : Type 0} (e : List Reason) → Quiet I (raise {A = A} e)
  unfolding raise
  Quiet-raise e = record { at = λ w h. h }

  pub Quiet-lift : {A : Type 0} (r : Result (List Reason) A) → Quiet I (lift r)
  unfolding lift
  Quiet-lift r = record { at = λ w h. h }

  pub Quiet-get : {A : Type 0} (g : Tun M → A) → Quiet I (get g)
  unfolding get
  Quiet-get g = record { at = λ w h. h }

  pub Quiet-if :
      {A : Type 0} (b : Bool) (m n : Routine (Tun M) A)
      → Quiet I m
      → Quiet I n
      → Quiet I (if b then m else n)
  Quiet-if true m n km kn = km
  Quiet-if false m n km kn = kn

  pub Quiet-bind :
      {A B : Type 0} (m : Routine (Tun M) A) (g : A → Routine (Tun M) B)
      → Quiet I m
      → ((a : A) → Quiet I (g a))
      → Quiet I (m >>= g)
  unfolding ◌>>=◌
  Quiet-bind {A} {B} m g km kg = record { at = λ w h. go (m w) (km.at w h) }
    where
      go : (p : Result (List Reason) A × Tun M) → I p.1 → I (next g p).1
      go (ok a, w) h = (kg a).at w h
      go (err e, w) h = h

  -- The rest may use what holds of a returned value.
  pub Quiet-bind-Known :
      {A B : Type 0} (J : A → Tun M → Type 0) (m : Routine (Tun M) A) (g : A → Routine (Tun M) B)
      → ((w : Tun M) → I w → Known I J (m w))
      → ((a : A) (w : Tun M) → J a w → I w)
      → ((a : A) → Quiet (J a) (g a))
      → Quiet I (m >>= g)
  unfolding ◌>>=◌
  Quiet-bind-Known {A} {B} J m g km keeps kg = record { at = λ w h. go (m w) (km w h) }
    where
      go : (p : Result (List Reason) A × Tun M) → Known I J p → I (next g p).1
      go (ok a, w) h = keeps a _ ((kg a).at w h)
      go (err e, w) h = h

  pub Quiet-attempt : {A : Type 0} (m : Routine (Tun M) A) → Quiet I m → Quiet I (attempt m)
  unfolding attempt
  Quiet-attempt {A} m km = record { at = λ w h. go (m w) (km.at w h) }
    where
      go : (p : Result (List Reason) A × Tun M) → I p.1 → I (recovered p).1
      go (r, w) h = h

  pub Quiet-join_errors : (es : List Reason) → Quiet I (join_errors es)
  unfolding join_errors
  Quiet-join_errors [] = Quiet-pure tt
  Quiet-join_errors (e ∷ es) = Quiet-raise (e ∷ es)

  pub Quiet-for_each :
      {X : Type 0} (g : X → Routine (Tun M) Unit) (xs : List X)
      → All (λ x. Quiet I (g x)) xs
      → Quiet I (for_each g xs)
  unfolding for_each
  Quiet-for_each g [] k = Quiet-pure tt
  Quiet-for_each g (x ∷ xs) k = Quiet-bind _ _ k.0 (λ _. Quiet-for_each g xs k.1)

  pub Quiet-gather :
      {X : Type 0} (g : X → Routine (Tun M) Unit) (xs : List X)
      → All (λ x. Quiet I (g x)) xs
      → Quiet I (gather g xs)
  unfolding gather
  Quiet-gather g [] k = Quiet-pure []
  Quiet-gather g (x ∷ xs) k =
      Quiet-bind _ _ (Quiet-attempt _ k.0)
        (λ r. Quiet-bind _ _ (Quiet-gather g xs k.1) (λ more. Quiet-pure (problems r ++ more)))

-- From the state file `f` and allowed commands, the action ends in `Q`.
abbrev pub Leads :
    {M A : Type 0} (P : List Step → Step → Type 0) (f : StateFile)
    (Q : Result (List Reason) A × Tun M → Type 0)
    → Routine (Tun M) A
    → Type 0
Leads {M} P f Q m = (w : Tun M) → IsQuiet P f w → Q (m w)

pub Leads-bind :
    {M A B : Type 0} (P : List Step → Step → Type 0) (f : StateFile)
    (Q : Result (List Reason) B × Tun M → Type 0) (m : Routine (Tun M) A)
    (g : A → Routine (Tun M) B)
    → Quiet (IsQuiet P f) m
    → ((e : List Reason) (w : Tun M) → IsQuiet P f w → Q (err e, w))
    → ((a : A) → Leads P f Q (g a))
    → Leads P f Q (m >>= g)
unfolding ◌>>=◌
Leads-bind {M} {A} {B} P f Q m g km ke kg w k = go (m w) (km.at w k)
  where
    go : (p : Result (List Reason) A × Tun M) → IsQuiet P f p.1 → Q (next g p)
    go (ok a, w') k' = kg a w' k'
    go (err e, w') k' = ke e w' k'

pub ruleset quiet_rules = (
  Quiet-pure, Quiet-raise, Quiet-lift, Quiet-get, Quiet-if, Quiet-bind, Quiet-attempt,
  Quiet-join_errors,
)
