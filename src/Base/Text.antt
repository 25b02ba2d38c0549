-- ===== src/Base/Text.antt =====
-- Go strings, as the list of their code points (the program's strings are UTF-8 text). Comparing
-- by code points agrees with Go's comparison by bytes.
pub mod Trim
use Prim.Native.Nat.{ℕ, ◌+◌}
use Prim.Native.Char.{code}
use Prim.Native.String.{String}
use mathlib.Core.Path.{◌≡◌, refl}
use mathlib.Core.Logic.{◌↔◌}
use mathlib.Core.Bool.{Bool, true, false, not, ◌&&◌, ◌||◌}
use mathlib.Core.List.{List, [], ◌∷◌, ◌++◌, reverse}
use native.Mathlib.Omega.{arith}
use moltenhub.Base.Tests.{ltb, leb, ◌==◌, if◌then◌else◌}

abbrev pub Text : Type 0
Text = List ℕ

-- A literal.
abbrev pub text : String → Text
text String.[] = []
text (String.◌∷◌ c s) = code c ∷ text s

unfoldable pub text_eq : Text → Text → Bool
text_eq [] [] = true
text_eq (a ∷ as') (b ∷ bs) = a == b && text_eq as' bs
text_eq _ _ = false

-- `a <= b` on strings.
unfoldable pub text_le : Text → Text → Bool
text_le [] b = true
text_le (x ∷ a) [] = false
text_le (x ∷ a) (y ∷ b) = ltb x y || (x == y && text_le a b)

pub text_eq_iff : (a b : Text) → (text_eq a b ≡ true) ↔ (a ≡ b)
unfolding text_eq
text_eq_iff [] [] = ground arith
text_eq_iff [] (y ∷ b) = ground arith
text_eq_iff (x ∷ a) [] = ground arith
text_eq_iff (x ∷ a) (y ∷ b) = ground (arith, text_eq_iff a b)

pub text_eq_refl : (a : Text) → text_eq a a ≡ true
text_eq_refl a = (text_eq_iff a a).1 refl

pub text_le_total : (a b : Text) → text_le a b ≡ false → text_le b a ≡ true
unfolding text_le
text_le_total [] b h = ground arith
text_le_total (x ∷ a) [] h = ground arith
text_le_total (x ∷ a) (y ∷ b) h = ground (arith, text_le_total a b)

pub text_le_antisym : (a b : Text) → text_le a b ≡ true → text_le b a ≡ true → a ≡ b
unfolding text_le
text_le_antisym [] [] h k = refl
text_le_antisym [] (y ∷ b) h k = ground arith
text_le_antisym (x ∷ a) [] h k = ground arith
text_le_antisym (x ∷ a) (y ∷ b) h k = ground (arith, text_le_antisym a b)

-- unicode.IsSpace
unfoldable pub is_space : ℕ → Bool
is_space c =
    (leb 9 c && leb c 13)
    || c == 32
    || c == 0x85
    || c == 0xa0
    || c == 0x1680
    || (leb 0x2000 c && leb c 0x200a)
    || c == 0x2028
    || c == 0x2029
    || c == 0x202f
    || c == 0x205f
    || c == 0x3000

-- Drops the longest prefix whose code points pass the test.
unfoldable pub drop_while : (ℕ → Bool) → Text → Text
drop_while p [] = []
drop_while p (c ∷ s) = let rest = drop_while p s in if p c then rest else c ∷ s

-- strings.TrimFunc: the longest prefix and the longest suffix.
unfoldable pub trim_func : (ℕ → Bool) → Text → Text
unfolding drop_while
trim_func p s = reverse (drop_while p (reverse (drop_while p s)))

-- strings.TrimSpace
unfoldable pub trim_space : Text → Text
unfolding trim_func is_space
trim_space = trim_func is_space

-- strings.ToLower: exact for ASCII, for the two other code points whose lower case is ASCII, and
-- for the Latin-1, Greek and Cyrillic letters. The letters of other scripts keep their case here.
unfoldable pub lower : ℕ → ℕ
lower c =
    if (leb b'A' c && leb c b'Z')
      || (leb 0xc0 c && leb c 0xde && not (c == 0xd7))
      || (leb 0x391 c && leb c 0x3a9 && not (c == 0x3a2))
      || (leb 0x410 c && leb c 0x42f)
    then c + 32
    else if leb 0x400 c && leb c 0x40f
    then c + 80
    else if c == 0x130
    then b'i'
    else if c == 0x212a
    then b'k'
    else c

unfoldable pub to_lower : Text → Text
unfolding lower
to_lower [] = []
to_lower (c ∷ s) = lower c ∷ to_lower s

-- strings.EqualFold: as `lower`, but for the letters that have two lower cases, or whose lower case
-- is not their folding.
fold : ℕ → ℕ
fold c =
    if c == 0x130
    then c
    else if c == 0x17f
    then b's'
    else if c == 0x3c2
    then 0x3c3
    else if c == 0xb5
    then 0x3bc
    else lower c

folded : Text → Text
unfolding fold
folded [] = []
folded (c ∷ s) = fold c ∷ folded s

unfoldable pub equal_fold : Text → Text → Bool
unfolding folded
equal_fold a b = text_eq (folded a) (folded b)

-- strings.Contains(s, "c") for one code point.
unfoldable pub contains_char : ℕ → Text → Bool
contains_char c [] = false
contains_char c (d ∷ s) = d == c || contains_char c s

cons_head : ℕ → List Text → List Text
cons_head c [] = (c ∷ []) ∷ []
cons_head c (p ∷ ps) = (c ∷ p) ∷ ps

-- strings.Split(s, sep) for a separator of one code point.
unfoldable pub split : ℕ → Text → List Text
unfolding cons_head
split sep [] = [] ∷ []
split sep (c ∷ s) = let parts = split sep s in if c == sep then [] ∷ parts else cons_head c parts

-- strings.Join(parts, sep)
unfoldable pub join : Text → List Text → Text
join sep [] = []
join sep (p ∷ []) = p
join sep (p ∷ q ∷ ps) = p ++ (sep ++ join sep (q ∷ ps))
