-- ===== src/Handles/Shape.antt =====
-- The shape of a normalized handle, and that normalizing gives it and leaves it alone.
use moltenhub.Base.{
  ℕ, zero, suc, ◌≤◌, ◌≡◌, refl, ap, ◌∙◌, inl, inr, Bool, true, false, not, ◌&&◌, ◌||◌, [], ◌∷◌,
  length, arith, ltb, leb, Bool-cases,
}
use moltenhub.Base.{take}
use moltenhub.Base.Text.{Text, drop_while, trim_space, is_space, lower, to_lower}
use moltenhub.Base.Text.Trim.{
  drop_end, trim_func_lem, length-drop_end, drop_end_idem, Avoids, trim_func-Avoids,
}
use moltenhub.Handles.{
  is_alnum, is_sep, is_handle_char, separator, scan, trim_seps, clip, normalize, max_length,
  matches_handle_regex, all_chars,
}

-- Letters, digits and separators; a separator neither first, if `blocked`, nor after another.
unfoldable pub is_spaced : Bool → Text → Bool
is_spaced blocked [] = true
is_spaced blocked (c ∷ s) =
    (is_alnum c && is_spaced false s) || (is_sep c && not blocked && is_spaced true s)

alnum_not_sep : (c : ℕ) → is_alnum c ≡ true → is_sep c ≡ false
unfolding is_alnum is_sep
alnum_not_sep c h = ground arith

separator-is_sep : (c : ℕ) → is_sep (separator c) ≡ true
unfolding separator is_sep
separator-is_sep c = ground arith

is_spaced-scan : (blocked : Bool) (s : Text) → is_spaced blocked (scan blocked s) ≡ true
unfolding is_spaced scan
is_spaced-scan blocked [] = refl
is_spaced-scan true (c ∷ s) = elim (Bool-cases (is_alnum c)) [
  | inl e ↦ rw (e, scan) (rw (e, is_spaced-scan false s))
  | inr e ↦ rw (e, scan) (is_spaced-scan true s)
]
is_spaced-scan false (c ∷ s) = elim (Bool-cases (is_alnum c)) [
  | inl e ↦ rw (e, scan) (rw (e, is_spaced-scan false s))
  | inr e ↦
      rw (e, scan)
        (ground (arith, separator-is_sep c, is_spaced-scan true s, alnum_not_sep (separator c)))
]

-- A spaced text passes the scan as it is.
scan_fix : (blocked : Bool) (s : Text) → is_spaced blocked s ≡ true → scan blocked s ≡ s
unfolding is_spaced scan
scan_fix blocked [] h = refl
scan_fix true (c ∷ s) h = elim (Bool-cases (is_alnum c)) [
  | inl e ↦ rw (e, scan) (ap (λ t. c ∷ t) (scan_fix false s (ground (arith, alnum_not_sep c))))
  | inr e ↦ ground arith
]
scan_fix false (c ∷ s) h = elim (Bool-cases (is_alnum c)) [
  | inl e ↦ rw (e, scan) (ap (λ t. c ∷ t) (scan_fix false s (ground (arith, alnum_not_sep c))))
  | inr e ↦
      rw (e, scan) (ground (arith, separator_fix c (ground arith), scan_fix true s (ground arith)))
]
  where
    separator_fix : (d : ℕ) → is_sep d ≡ true → separator d ≡ d
    separator_fix d e = unfold separator is_sep in ground arith

pub is_spaced-take :
    (n : ℕ) (blocked : Bool) (s : Text)
    → is_spaced blocked s ≡ true
    → is_spaced blocked (take n s) ≡ true
unfolding is_spaced
is_spaced-take zero blocked s h = refl
is_spaced-take (suc n) blocked [] h = refl
is_spaced-take (suc n) blocked (c ∷ s) h =
    ground (arith, is_spaced-take n false s, is_spaced-take n true s)

is_spaced-drop_end :
    (p : ℕ → Bool) (blocked : Bool) (s : Text)
    → is_spaced blocked s ≡ true
    → is_spaced blocked (drop_end p s) ≡ true
unfolding is_spaced drop_end
is_spaced-drop_end p blocked [] h = refl
is_spaced-drop_end p blocked (c ∷ s) h =
    ground (arith, is_spaced-drop_end p false s, is_spaced-drop_end p true s)

drop_while-is_spaced : (s : Text) → is_spaced true s ≡ true → drop_while is_sep s ≡ s
unfolding is_spaced drop_while
drop_while-is_spaced [] h = refl
drop_while-is_spaced (c ∷ s) h = ground (arith, alnum_not_sep c)

-- Trimming separators takes one from the end, if there is one.
pub trim_seps-is_spaced : (s : Text) → is_spaced true s ≡ true → trim_seps s ≡ drop_end is_sep s
unfolding trim_seps
trim_seps-is_spaced s h = trim_func_lem is_sep s ∙ ap (drop_end is_sep) (drop_while-is_spaced s h)

length-take-le : (n : ℕ) (s : Text) → length (take n s) ≤ n
length-take-le zero s = omega arith
length-take-le (suc n) [] = omega arith
length-take-le (suc n) (c ∷ s) = omega (arith, length-take-le n s)

-- What `Normalize` returns: lower-case letters, digits and single separators between them, at most
-- `max_length` of all.
pub record IsNormal (s : Text) : Type 0 where
  pub spaced : is_spaced true s ≡ true
  pub ended : drop_end is_sep s ≡ s
  pub short : length s ≤ max_length

trimmed-spaced : (s : Text) → is_spaced true s ≡ true → is_spaced true (trim_seps s) ≡ true
trimmed-spaced s h = rw (trim_seps-is_spaced s h) (is_spaced-drop_end is_sep true s h)

trimmed-ended : (s : Text) → is_spaced true s ≡ true → drop_end is_sep (trim_seps s) ≡ trim_seps s
trimmed-ended s h = rw (trim_seps-is_spaced s h) (drop_end_idem is_sep s)

clip-IsNormal : (s : Text) → is_spaced true s ≡ true → drop_end is_sep s ≡ s → IsNormal (clip s)
unfolding clip
clip-IsNormal s spaced ended = elim (Bool-cases (ltb max_length (length s))) [
  | inl long ↦
      let cut : is_spaced true (take max_length s) ≡ true =
        is_spaced-take max_length true s spaced in
      rw (long, clip)
        (record {
          spaced = trimmed-spaced (take max_length s) cut;
          ended = trimmed-ended (take max_length s) cut;
          short = rw (trim_seps-is_spaced (take max_length s) cut) (
              omega
                (arith, length-drop_end is_sep (take max_length s), length-take-le max_length s));
        })
  | inr fits ↦ rw (fits, clip) (record { spaced = spaced; ended = ended; short = ground arith })
]

-- Whatever the input, the normalized handle consists of letters, digits and single separators
-- between them, and has at most 64 characters.
pub normalize-IsNormal : (raw : Text) → IsNormal (normalize raw)
unfolding normalize
normalize-IsNormal raw =
    clip-IsNormal (trim_seps scanned) (trimmed-spaced scanned spaced) (trimmed-ended scanned spaced)
  where
    scanned : Text
    scanned = scan true (trim_space (to_lower raw))

    spaced : is_spaced true scanned ≡ true
    spaced = is_spaced-scan true (trim_space (to_lower raw))

handle_char_plain : (c : ℕ) → is_handle_char c ≡ true → (lower c ≡ c) × (is_space c ≡ false)
unfolding is_handle_char lower is_space
handle_char_plain c h = ground arith

is_spaced_chars :
    (blocked : Bool) (s : Text) → is_spaced blocked s ≡ true → all_chars is_handle_char s ≡ true
unfolding is_spaced all_chars is_handle_char
is_spaced_chars blocked [] h = refl
is_spaced_chars blocked (c ∷ s) h = ground (arith, is_spaced_chars false s, is_spaced_chars true s)

to_lower_plain : (s : Text) → all_chars is_handle_char s ≡ true → to_lower s ≡ s
unfolding to_lower all_chars
to_lower_plain [] h = refl
to_lower_plain (c ∷ s) h = ground (arith, handle_char_plain c, to_lower_plain s)

no_spaces : (s : Text) → all_chars is_handle_char s ≡ true → Avoids is_space s
unfolding all_chars
no_spaces [] h = tt
no_spaces (c ∷ s) h = ground (arith, handle_char_plain c, no_spaces s)

-- Of a text of that shape, but for its length, only the length matters.
pub normalize_long :
    (s : Text) → is_spaced true s ≡ true → drop_end is_sep s ≡ s → normalize s ≡ clip s
unfolding normalize trim_space
normalize_long s spaced ended =
    rw
      (
        to_lower_plain s chars,
        trim_func-Avoids is_space s (no_spaces s chars),
        scan_fix true s spaced,
        trim_seps-is_spaced s spaced,
        ended,
      )
      refl
  where
    chars : all_chars is_handle_char s ≡ true
    chars = is_spaced_chars true s spaced

-- A text of that shape is its own normal form.
pub normalize_fix : (s : Text) → IsNormal s → normalize s ≡ s
unfolding clip
normalize_fix s n = normalize_long s n.spaced n.ended ∙ rw fits
  where
    fits : ltb max_length (length s) ≡ false
    fits = let short = n.short in ground arith

-- Normalizing a text twice is normalizing it once.
pub normalize_idem : (raw : Text) → normalize (normalize raw) ≡ normalize raw
normalize_idem raw = normalize_fix (normalize raw) (normalize-IsNormal raw)

-- A normalized handle matches the handle pattern exactly if it has two characters or more.
pub matches_handle_regex-normalize :
    (raw : Text) → matches_handle_regex (normalize raw) ≡ leb 2 (length (normalize raw))
unfolding matches_handle_regex is_spaced
matches_handle_regex-normalize raw = matches_IsNormal (normalize raw) (normalize-IsNormal raw)
  where
    matches_IsNormal : (s : Text) → IsNormal s → matches_handle_regex s ≡ leb 2 (length s)
    matches_IsNormal [] n = refl
    matches_IsNormal (c ∷ s) n =
        let spaced = n.spaced in let short = n.short in ground (arith, is_spaced_chars false s)
