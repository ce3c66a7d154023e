-- ===== src/Tun/Actions.antt =====
-- The functions of mihomotui/tun_routing_linux.go as actions that may fail. An error is the list
-- of what `errors.Join` joins; the texts that only wrap another error are left out.
pub mod Traces
use mihomo_loongnix.Prelude.{◌≡◌, refl, ◌⊎◌, inl, inr, String, List, [], ◌∷◌, ◌++◌}
use mihomo_loongnix.Config.Store.{Result, ok, err}

pub data Reason : Type 0 where
  no_gateway bad_json not_root no_backend nft_missing no_random : Reason
  empty_comment artifacts_left endless : Reason
  state_unreadable state_incomplete state_without_values state_of_nft : Reason
  state_unwritten state_unremoved : Reason
  run_failed bad_interface table_taken other_route not_owner unknown_backend : String → Reason
  external_tuns pref_taken : List String → Reason

abbrev pub Routine : Type 0 → Type 0 → Type 0
Routine S A = S → Result (List Reason) A × S

module _ {S A : Type 0} where
  unfoldable pub pure : A → Routine S A
  pure a s = (ok a, s)

  unfoldable pub raise : List Reason → Routine S A
  raise e s = (err e, s)

  unfoldable pub lift : Result (List Reason) A → Routine S A
  lift r s = (r, s)

  unfoldable pub get : (S → A) → Routine S A
  get f s = (ok (f s), s)

  abbrev pub recovered :
      Result (List Reason) A × S → Result (List Reason) (Result (List Reason) A) × S
  recovered (r, s) = (ok r, s)

  -- `err` is looked at instead of being returned.
  unfoldable pub attempt : Routine S A → Routine S (Result (List Reason) A)
  attempt m s = recovered (m s)

module _ {S A B : Type 0} where
  abbrev pub next : (A → Routine S B) → Result (List Reason) A × S → Result (List Reason) B × S
  next f (ok a, s) = f a s
  next f (err e, s) = (err e, s)

  infixl 10 ◌>>=◌ ◌>>◌
  unfoldable pub ◌>>=◌ : Routine S A → (A → Routine S B) → Routine S B
  unfolding pure raise lift get attempt
  ◌>>=◌ m f s = next f (m s)

  abbrev pub ◌>>◌ : Routine S A → Routine S B → Routine S B
  m >> n = m >>= λ _. n

pub Result-cases :
    {E A : Type 0} (r : Result E A) → ((a : A) × (r ≡ ok a)) ⊎ ((e : E) × (r ≡ err e))
Result-cases (ok a) = inl (a, refl)
Result-cases (err e) = inr (e, refl)

abbrev pub problems : {A : Type 0} → Result (List Reason) A → List Reason
problems (ok a) = []
problems (err e) = e

module _ {S X : Type 0} where
  unfoldable pub for_each : (X → Routine S Unit) → List X → Routine S Unit
  unfolding ◌>>=◌
  for_each f [] = pure tt
  for_each f (x ∷ xs) = do f x; for_each f xs

  -- The errors of all rounds, collected.
  unfoldable pub gather : (X → Routine S Unit) → List X → Routine S (List Reason)
  unfolding ◌>>=◌
  gather f [] = pure []
  gather f (x ∷ xs) = do r ← attempt (f x); more ← gather f xs; pure (problems r ++ more)

-- `errors.Join(errs...)`: no error when there is none.
unfoldable pub join_errors : {S : Type 0} → List Reason → Routine S Unit
unfolding pure raise
join_errors [] = pure tt
join_errors (e ∷ es) = raise (e ∷ es)
