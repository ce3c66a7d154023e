-- ===== src/Prelude/Lines.antt =====
-- `strings.Split(s, "\n")`, `strings.Fields` and `strings.Join`, and searches that disregard case.
use mihomo_loongnix.Prelude.{
  ℕ, Bool, ◌||◌, List, [], ◌∷◌, if◌then◌else◌, ◌==◌, nat_eq, keep, not, string_eq,
}
use mihomo_loongnix.Prelude.Text.{is_space, has_prefix_by, lower}
use Prim.Native.Char.{Char, code}
use Prim.Native.String
use Prim.Native.String.{String, [], ◌∷◌}

infixr 40 ◌^◌
abbrev pub ◌^◌ : String → String → String
s ^ t = String.◌++◌ s t

abbrev onto_first : Char → List String → List String
onto_first c [] = (c ∷ "") ∷ []
onto_first c (p ∷ ps) = (c ∷ p) ∷ ps

-- The parts between the characters that a test finds; a text without one is its only part.
unfoldable pub split_by : (ℕ → Bool) → String → List String
split_by sep [] = "" ∷ []
split_by sep (c ∷ s) =
    let parts = split_by sep s in if sep (code c) then "" ∷ parts else onto_first c parts

unfoldable pub split_lines : String → List String
unfolding split_by
split_lines = split_by (λ c. c == 10)

unfoldable pub fields : String → List String
unfolding split_by
fields s = keep (λ p. not (p == "")) (split_by is_space s)

unfoldable pub join : String → List String → String
join sep [] = ""
join sep (p ∷ []) = p
join sep (p ∷ q ∷ ps) = p ^ sep ^ join sep (q ∷ ps)

-- `strings.Contains(strings.ToLower(s), p)` for an ASCII text `p`.
unfoldable pub contains_lower : String → String → Bool
unfolding has_prefix_by lower
contains_lower [] p = has_prefix_by lower "" p
contains_lower (c ∷ s) p = has_prefix_by lower (c ∷ s) p || contains_lower s p
