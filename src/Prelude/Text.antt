-- ===== src/Prelude/Text.antt =====
-- The operations of Go's `strings` package that the modelled code calls, over native texts.
use mihomo_loongnix.Prelude.{ap, and-eq-true, not, refl, eqb_iff, arith, ◌≡◌}
use Prim.Native.Char.{Char, code}
use Prim.Native.String
use text.Mathlib.TextLemmas.{cons-append}
use Prim.Native.String.{String, [], ◌∷◌}
use mihomo_loongnix.Prelude.Tests.{leb, if◌then◌else◌, ◌==◌, nat_eq, string_eq}
use Prim.Native.Nat.{ℕ, ◌+◌, ◌-◌}
use mathlib.Core.Bool.{Bool, true, false, ◌&&◌, ◌||◌}
use mathlib.Core.Option.{Option, none, some}

-- `unicode.IsSpace`.
unfoldable pub is_space : ℕ → Bool
is_space c =
    (leb 9 c && leb c 13)
    || c == 32
    || c == 0x85
    || c == 0xA0
    || c == 0x1680
    || (leb 0x2000 c && leb c 0x200A)
    || c == 0x2028
    || c == 0x2029
    || c == 0x202F
    || c == 0x205F
    || c == 0x3000

unfoldable pub trim_left : String → String
trim_left [] = []
trim_left (c ∷ s) = let rest = trim_left s in if is_space (code c) then rest else c ∷ s

unfoldable pub trim_right : String → String
trim_right [] = []
trim_right (c ∷ s) =
    let rest = trim_right s in if rest == "" && is_space (code c) then "" else c ∷ rest

-- `strings.TrimSpace`.
unfoldable pub trim_space : String → String
trim_space s = trim_right (trim_left s)

-- `strings.TrimSpace(s) == ""`.
unfoldable pub is_blank : String → Bool
is_blank s = trim_space s == ""

-- `strings.HasPrefix`.
unfoldable pub has_prefix : String → String → Bool
has_prefix s [] = true
has_prefix [] (d ∷ p) = false
has_prefix (c ∷ s) (d ∷ p) = code c == code d && has_prefix s p

-- `strings.TrimPrefix`.
unfoldable pub strip : String → String → Option String
strip s [] = some s
strip [] (d ∷ p) = none
strip (c ∷ s) (d ∷ p) = if code c == code d then strip s p else none

unfoldable pub trim_prefix : String → String → String
unfolding strip
trim_prefix s p = elim (strip s p) [ none ↦ s | some rest ↦ rest ]

-- A byte `c` of the text.
unfoldable pub has_char : ℕ → String → Bool
has_char d [] = false
has_char d (c ∷ s) = code c == d || has_char d s

-- `strings.Contains`.
unfoldable pub contains_text : String → String → Bool
unfolding has_prefix
contains_text [] p = has_prefix "" p
contains_text (c ∷ s) p = has_prefix (c ∷ s) p || contains_text s p

-- Upper and lower case as far as a comparison with an ASCII text can tell: the code points whose
-- upper (lower) case is ASCII. Beyond the ASCII letters these are U+0131 and U+017F (U+0130 and
-- U+212A).
unfoldable pub upper : ℕ → ℕ
upper c =
    if leb b'a' c && leb c b'z'
    then c - 32
    else if c == 0x131
    then b'I'
    else if c == 0x17F
    then b'S'
    else c

unfoldable pub lower : ℕ → ℕ
lower c =
    if leb b'A' c && leb c b'Z'
    then c + 32
    else if c == 0x130
    then b'i'
    else if c == 0x212A
    then b'k'
    else c

-- `strings.HasPrefix(strings.ToUpper(s), p)` and its like, for an ASCII text `p`.
unfoldable pub has_prefix_by : (ℕ → ℕ) → String → String → Bool
has_prefix_by f s [] = true
has_prefix_by f [] (d ∷ p) = false
has_prefix_by f (c ∷ s) (d ∷ p) = f (code c) == code d && has_prefix_by f s p

-- A text begins with what it was built from.
pub has_prefix-append : (p q : String) → has_prefix (String.◌++◌ p q) p ≡ true
unfolding has_prefix
has_prefix-append [] q = refl
has_prefix-append (c ∷ p) q =
    rw (cons-append c p q) (ground (arith, eqb_iff (code c) (code c), has_prefix-append p q))

abbrev pub is_spaceless : String → Bool
is_spaceless [] = true
is_spaceless (d ∷ p) = not (is_space (code d)) && is_spaceless p

has_prefix-trim_right :
    (s p : String)
    → is_spaceless p ≡ true
    → has_prefix s p ≡ true
    → has_prefix (trim_right s) p ≡ true
unfolding has_prefix trim_right
has_prefix-trim_right s [] n h = ground arith
has_prefix-trim_right [] (d ∷ p) n h = cc
has_prefix-trim_right (c ∷ s) (d ∷ p) n h =
    let (same, more) = and-eq-true (code c == code d) (has_prefix s p) h in
    let (solid, rest) = and-eq-true (not (is_space (code d))) (is_spaceless p) n in
    let e = ap is_space ((eqb_iff (code c) (code d)).0 same) in
    ground (arith, has_prefix-trim_right s p rest more)

has_prefix-trim_left :
    (s p : String) (d : Char)
    → is_spaceless (d ∷ p) ≡ true
    → has_prefix s (d ∷ p) ≡ true
    → trim_left s ≡ s
unfolding has_prefix trim_left
has_prefix-trim_left [] p d n h = refl
has_prefix-trim_left (c ∷ s) p d n h =
    let (same, more) = and-eq-true (code c == code d) (has_prefix s p) h in
    let e = ap is_space ((eqb_iff (code c) (code d)).0 same) in ground arith

-- Trimming keeps a prefix that has no spaces.
pub has_prefix-trim_space :
    (s p : String) (d : Char)
    → is_spaceless (d ∷ p) ≡ true
    → has_prefix s (d ∷ p) ≡ true
    → has_prefix (trim_space s) (d ∷ p) ≡ true
unfolding trim_space
has_prefix-trim_space s p d n h =
    rw (has_prefix-trim_left s p d n h) (has_prefix-trim_right s (d ∷ p) n h)
