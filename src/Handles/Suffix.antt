-- ===== src/Handles/Suffix.antt =====
-- A normalized handle with a numbered suffix, normalized again.
use moltenhub.Base.{
  ℕ, zero, suc, ◌+◌, ◌≤◌, ◌<◌, ◌≡◌, refl, ap, ◌∙◌, inl, inr, Bool, true, false, ◌&&◌, [], ◌∷◌, ◌++◌,
  length, length-append, arith, ltb, Bool-cases, All, is_empty,
}
use moltenhub.Base.{take}
use moltenhub.Base.Text.{Text}
use moltenhub.Base.Text.Trim.{drop_end}
use moltenhub.Model.Clock.Decimal.{IsDigit}
use moltenhub.Handles.{is_alnum, is_sep, clip, trim_seps, normalize, max_length}
use moltenhub.Handles.Shape.{is_spaced, IsNormal, normalize_long, trim_seps-is_spaced}

is_spaced-digits : (blocked : Bool) (d : Text) → All IsDigit d → is_spaced blocked d ≡ true
unfolding is_spaced is_alnum
is_spaced-digits blocked [] h = refl
is_spaced-digits blocked (c ∷ d) h = ground (arith, is_spaced-digits false d h.1)

drop_end-digits : (d : Text) → All IsDigit d → drop_end is_sep d ≡ d
unfolding drop_end is_sep
drop_end-digits [] h = refl
drop_end-digits (c ∷ d) h = ground (arith, drop_end-digits d h.1)

drop_end-tail : (c : ℕ) (s : Text) → drop_end is_sep (c ∷ s) ≡ c ∷ s → drop_end is_sep s ≡ s
unfolding drop_end
drop_end-tail c s e = elim (Bool-cases (is_empty (drop_end is_sep s) && is_sep c)) [
  | inl cut ↦ ground arith
  | inr kept ↦ ground arith
]

is_spaced_step :
    (blocked : Bool) (c : ℕ) (s t : Text)
    → (is_spaced false s ≡ true → is_spaced false t ≡ true)
    → (is_spaced true s ≡ true → is_spaced true t ≡ true)
    → is_spaced blocked (c ∷ s) ≡ true
    → is_spaced blocked (c ∷ t) ≡ true
unfolding is_spaced
is_spaced_step blocked c s t f g h = ground arith

is_spaced_separated : (d : Text) → All IsDigit d → is_spaced false (b'-' ∷ d) ≡ true
unfolding is_spaced is_sep is_alnum
is_spaced_separated d h = is_spaced-digits true d h

is_spaced_last :
    (blocked : Bool) (c : ℕ) (t : Text)
    → is_sep c ≡ false
    → is_spaced false t ≡ true
    → is_spaced blocked (c ∷ []) ≡ true
    → is_spaced blocked (c ∷ t) ≡ true
unfolding is_spaced
is_spaced_last blocked c t e h k = ground arith

last_not_sep : (c : ℕ) → drop_end is_sep (c ∷ []) ≡ c ∷ [] → is_sep c ≡ false
unfolding drop_end
last_not_sep c e = ground arith

-- A text that ends in a letter or digit goes on with a separator and digits.
is_spaced-suffix :
    (blocked : Bool) (base d : Text)
    → 0 < length base
    → is_spaced blocked base ≡ true
    → drop_end is_sep base ≡ base
    → All IsDigit d
    → is_spaced blocked (base ++ b'-' ∷ d) ≡ true
is_spaced-suffix blocked [] d n s e h = absurd (omega arith)
is_spaced-suffix blocked (c ∷ []) d n s e h =
    is_spaced_last blocked c (b'-' ∷ d) (last_not_sep c e) (is_spaced_separated d h) s
is_spaced-suffix blocked (c ∷ c' ∷ base) d n s e h =
    let kept = drop_end-tail c (c' ∷ base) e in
    is_spaced_step blocked c (c' ∷ base) (c' ∷ (base ++ b'-' ∷ d))
      (λ k. is_spaced-suffix false (c' ∷ base) d (omega arith) k kept h)
      (λ k. is_spaced-suffix true (c' ∷ base) d (omega arith) k kept h) s

drop_end-suffix :
    (base d : Text)
    → 0 < length d
    → All IsDigit d
    → drop_end is_sep (base ++ b'-' ∷ d) ≡ base ++ b'-' ∷ d
unfolding drop_end
drop_end-suffix [] (c ∷ d) n h = rw (drop_end-digits (c ∷ d) h) refl
drop_end-suffix [] [] n h = absurd (omega arith)
drop_end-suffix (c ∷ base) d n h = ground (arith, drop_end-suffix base d n h, nonempty base d)
  where
    nonempty : (s t : Text) → is_empty (s ++ b'-' ∷ t) ≡ false
    nonempty [] t = refl
    nonempty (c ∷ s) t = refl

normalize-suffix :
    (base d : Text)
    → 0 < length base
    → IsNormal base
    → 0 < length d
    → All IsDigit d
    → normalize (base ++ b'-' ∷ d) ≡ clip (base ++ b'-' ∷ d)
normalize-suffix base d n b m h =
    normalize_long (base ++ b'-' ∷ d) (is_spaced-suffix true base d n b.spaced b.ended h)
      (drop_end-suffix base d m h)

clip_short : (s : Text) → length s ≤ max_length → clip s ≡ s
unfolding clip
clip_short s h = let fits : ltb max_length (length s) ≡ false = ground arith in rw fits

clip_long : (s : Text) → max_length < length s → clip s ≡ trim_seps (take max_length s)
unfolding clip
clip_long s h = let long : ltb max_length (length s) ≡ true = ground arith in rw long

-- A base that leaves room for the suffix keeps it.
pub normalize-suffix_short :
    (base d : Text)
    → 0 < length base
    → IsNormal base
    → 0 < length d
    → All IsDigit d
    → length base + 1 + length d ≤ max_length
    → normalize (base ++ b'-' ∷ d) ≡ base ++ b'-' ∷ d
normalize-suffix_short base d n b m h fits =
    normalize-suffix base d n b m h
    ∙ clip_short (base ++ b'-' ∷ d) (omega (arith, length-append base (b'-' ∷ d)))

take-append : (n : ℕ) (base t : Text) → length base ≡ n → take n (base ++ t) ≡ base
take-append zero [] t e = refl
take-append zero (c ∷ base) t e = absurd (omega arith)
take-append (suc n) [] t e = absurd (omega arith)
take-append (suc n) (c ∷ base) t e = ap (λ s. c ∷ s) (take-append n base t (omega arith))

-- A base that has the greatest length loses the suffix.
pub normalize-suffix_long :
    (base d : Text)
    → IsNormal base
    → length base ≡ max_length
    → 0 < length d
    → All IsDigit d
    → normalize (base ++ b'-' ∷ d) ≡ base
normalize-suffix_long base d b e m h =
    normalize-suffix base d (omega arith) b m h
    ∙ clip_long (base ++ b'-' ∷ d) (omega (arith, length-append base (b'-' ∷ d)))
    ∙ ap trim_seps (take-append max_length base (b'-' ∷ d) e)
    ∙ trim_seps-is_spaced base b.spaced
    ∙ b.ended
