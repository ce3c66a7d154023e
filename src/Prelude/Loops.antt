-- ===== src/Prelude/Loops.antt =====
-- A loop over a slice that carries state and collects what each round appends.
use mathlib.Core.Path.{◌≡◌}
use mathlib.Core.List.{List, [], ◌∷◌, ◌++◌}
use mihomo_loongnix.Prelude.Lists.{append-eq-nil}

module _ {P S X : Type 0} (step : S → X → List P × S) where
  abbrev pub collect : S → List X → List P × S
  collect s [] = ([], s)
  collect s (x ∷ xs) = let (ps, s') = step s x in let (qs, s'') = collect s' xs in (ps ++ qs, s'')

  pub collect-eq-nil :
      (s : S) (x : X) (xs : List X)
      → (collect s (x ∷ xs)).0 ≡ []
      → ((step s x).0 ≡ []) × ((collect (step s x).1 xs).0 ≡ [])
  collect-eq-nil s x xs h = append-eq-nil _ _ h
