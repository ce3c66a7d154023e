-- ===== src/Prelude/Pigeonhole.antt =====
-- A list without repetitions is no longer than a list that contains its elements.
use mihomo_loongnix.Prelude.{
  suc, ◌≤◌, ◌≡◌, refl, sym, ap, ◌∙◌, true, false, ◌||◌, List, [], ◌∷◌, length, contains, All,
  All-and, IsDistinct, Eq, ◌==◌, ==→eq, Bool-cases, inl, inr, if◌then◌else◌, arith,
}

module _ {ℓ} {A : Type ℓ} ⦃e : Eq A⦄ where
  abbrev without_first : A → List A → List A
  without_first x [] = []
  without_first x (y ∷ ys) = let rest = without_first x ys in if x == y then ys else y ∷ rest

  length-without_first :
      (x : A) (ys : List A) → contains ys x ≡ true → suc (length (without_first x ys)) ≡ length ys
  length-without_first x [] h = absurd cc
  length-without_first x (y ∷ ys) h = elim (Bool-cases (x == y)) [
    | inl t ↦ rw t refl
    | inr f ↦ rw f (ap suc (length-without_first x ys (sym (ap (λ b. b || contains ys x) f) ∙ h)))
  ]

  contains-without_first :
      (x z : A) (ys : List A)
      → (z == x) ≡ false
      → contains ys z ≡ true
      → contains (without_first x ys) z ≡ true
  contains-without_first x z [] d h = absurd cc
  contains-without_first x z (y ∷ ys) d h = elim (Bool-cases (x == y)) [
    | inl t ↦
        rw t (sym (ap (λ b. b || contains ys z) (ap (λ w. z == w) (sym (==→eq x y t)) ∙ d)) ∙ h)
    | inr f ↦ rw f (elim (Bool-cases (z == y)) [
      | inl t ↦ ap (λ b. b || contains (without_first x ys) z) t
      | inr g ↦
          ap (λ b. b || contains (without_first x ys) z) g
          ∙ contains-without_first x z ys d (sym (ap (λ b. b || contains ys z) g) ∙ h)
    ])
  ]

  pub length-IsDistinct :
      (xs ys : List A) → IsDistinct xs → All (λ x. contains ys x ≡ true) xs → length xs ≤ length ys
  length-IsDistinct [] ys d h = omega arith
  length-IsDistinct (x ∷ xs) ys (away, d) (here, h) =
      let shorter =
        length-IsDistinct xs (without_first x ys) d
          (All-and (λ z p q. contains-without_first x z ys p q) xs away h) in
      omega (arith, shorter, length-without_first x ys here)
