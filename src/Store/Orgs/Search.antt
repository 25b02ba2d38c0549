-- ===== src/Store/Orgs/Search.antt =====
-- The search for the handle of a personal organization: `free_handle` on enough fuel, and on a base
-- that is too long.
use moltenhub.Base.{
  ℕ, zero, suc, ◌+◌, ◌^◌, ◌≤◌, ◌<◌, ◌≡◌, refl, subst, inl, inr, true, false, none, some, [], ◌∷◌,
  ◌++◌, length, arith, Bool-cases, Option-cases, ◌==◌,
}
use moltenhub.Base.Text.{Text, text_eq, text_eq_iff}
use moltenhub.Base.Dict.{Dict, get, remove, get-remove}
use moltenhub.Model.Clock.{decimal}
use moltenhub.Model.Clock.Decimal.{
  decimal_injective, decimal-IsDigit, length-decimal-pos, length-decimal,
}
use moltenhub.Handles.{normalize, max_length}
use moltenhub.Handles.Shape.{IsNormal}
use moltenhub.Handles.Suffix.{normalize-suffix_short, normalize-suffix_long}
use moltenhub.Store.Orgs.{is_taken, normalize_org_handle_key, free_handle}

candidate : Text → ℕ → Text
candidate base i = base ++ b'-' ∷ decimal i

-- A base of 64 characters that is taken: every candidate has the same key, and the search goes on
-- whatever the fuel.
pub stuck :
    (fuel i : ℕ) (taken : Dict Text) (base handle : Text)
    → IsNormal base
    → length base ≡ max_length
    → is_taken taken base ≡ true
    → normalize handle ≡ base
    → free_handle fuel taken base handle i ≡ none
unfolding free_handle normalize_org_handle_key
stuck zero i taken base handle b e t n = refl
stuck (suc fuel) i taken base handle b e t n =
    let again : normalize (base ++ b'-' ∷ decimal i) ≡ base =
      normalize-suffix_long base (decimal i) b e (length-decimal-pos i) (decimal-IsDigit i) in
    rw (n, t) (stuck fuel (i + 1) taken base (base ++ b'-' ∷ decimal i) b e t again)

-- What is removed leaves a shorter map.
length-remove-le : (m : Dict Text) (k : Text) → length (remove m k) ≤ length m
unfolding remove
length-remove-le [] k = omega arith
length-remove-le ((j, v) ∷ m) k = ground (arith, length-remove-le m k)

length-remove : (m : Dict Text) (k : Text) → is_taken m k ≡ true → length (remove m k) < length m
unfolding remove is_taken get
length-remove [] k h = ground arith
length-remove ((j, v) ∷ m) k h = elim (Bool-cases (text_eq j k)) [
  | inl same ↦ rw (same, remove) (omega (arith, length-remove-le m k))
  | inr other ↦ rw (other, remove) (omega (arith, length-remove m k (ground arith)))
]

is_taken-remove :
    (m : Dict Text) (k j : Text)
    → text_eq k j ≡ false
    → is_taken m j ≡ true
    → is_taken (remove m k) j ≡ true
unfolding is_taken
is_taken-remove m k j e h = ground (arith, get-remove m k j)

-- More names than entries are not all taken.
exhaust :
    (n i : ℕ) (f : ℕ → Text) (m : Dict Text)
    → ((a b : ℕ) → f a ≡ f b → a ≡ b)
    → ((j : ℕ) → i ≤ j → j < i + n → is_taken m (f j) ≡ true)
    → n ≤ length m
exhaust zero i f m inj all = omega arith
exhaust (suc n) i f m inj all =
    let fewer = length-remove m (f i) (all i (omega arith) (omega arith)) in
    let others =
      exhaust n (i + 1) f (remove m (f i)) inj (λ j g h.
        is_taken-remove m (f i) (f j) (distinct j g) (all j (omega arith) (omega arith))) in
    omega arith
  where
    distinct : (k : ℕ) → i + 1 ≤ k → text_eq (f i) (f k) ≡ false
    distinct k h = ground (arith, text_eq_iff (f i) (f k), inj i k)

append_injective : (base s t : Text) → base ++ s ≡ base ++ t → s ≡ t
append_injective [] s t h = h
append_injective (c ∷ base) s t h = append_injective base s t cc

candidate_injective : (base : Text) (a b : ℕ) → candidate base a ≡ candidate base b → a ≡ b
unfolding candidate
candidate_injective base a b h =
    let same = append_injective base (b'-' ∷ decimal a) (b'-' ∷ decimal b) h in
    decimal_injective a b cc

-- A search that runs out of fuel has met a taken key, and goes on.
goes_on :
    (fuel i : ℕ) (taken : Dict Text) (base handle : Text)
    → free_handle (suc fuel) taken base handle i ≡ none
    → (is_taken taken (normalize handle) ≡ true)
      × (free_handle fuel taken base (candidate base i) (i + 1) ≡ none)
unfolding free_handle normalize_org_handle_key candidate
goes_on fuel i taken base handle h = ground arith

-- The keys of the candidates that it has met are taken.
tried :
    (fuel i : ℕ) (taken : Dict Text) (base handle : Text)
    → free_handle fuel taken base handle i ≡ none
    → (j : ℕ) → i ≤ j
    → j + 1 < i + fuel
    → is_taken taken (normalize (candidate base j)) ≡ true
tried zero i taken base handle h j g l = absurd (omega arith)
tried (suc zero) i taken base handle h j g l = absurd (omega arith)
tried (suc (suc fuel)) i taken base handle h j g l =
    let (_, rest) = goes_on (suc fuel) i taken base handle h in
    elim (Bool-cases (i == j)) [
      | inl here ↦
          let same : i ≡ j = ground arith in
          subst (λ k. is_taken taken (normalize (candidate base k)) ≡ true) same
            (goes_on fuel (i + 1) taken base (candidate base i) rest).0
      | inr later ↦
          tried (suc fuel) (i + 1) taken base (candidate base i) rest j (ground arith) (omega arith)
    ]

-- What the search returns is free.
pub free_handle-free :
    (fuel i : ℕ) (taken : Dict Text) (base handle found : Text)
    → free_handle fuel taken base handle i ≡ some found
    → is_taken taken (normalize found) ≡ false
unfolding free_handle normalize_org_handle_key
free_handle-free zero i taken base handle found h = absurd cc
free_handle-free (suc fuel) i taken base handle found h =
    ground (arith, free_handle-free fuel (i + 1) taken base (base ++ b'-' ∷ decimal i) found)

-- Enough fuel, for a base that leaves room for a number of suc k digits.
pub free_handle-ends :
    (k : ℕ) (taken : Dict Text) (base : Text)
    → IsNormal base
    → 0 < length base
    → length base + 2 + k ≤ max_length
    → length taken + 3 < 10 ^ suc k
    → (h : Text) × (free_handle (length taken + 2) taken base base 2 ≡ some h)
free_handle-ends k taken base b n fits few =
    elim (Option-cases (free_handle (length taken + 2) taken base base 2)) [
      | inl out ↦ absurd (full out)
      | inr found ↦ found
    ]
  where
    kept : (j : ℕ) → j < length taken + 3 → normalize (candidate base j) ≡ candidate base j
    kept j l =
        unfold candidate in
        normalize-suffix_short base (decimal j) n b (length-decimal-pos j) (decimal-IsDigit j)
          (omega (arith, length-decimal j k (omega arith)))

    full : free_handle (length taken + 2) taken base base 2 ≡ none → ⊥
    full out =
        let many =
          exhaust (length taken + 1) 2 (candidate base) taken (candidate_injective base) (λ j g l.
            subst (λ t. is_taken taken t ≡ true) (kept j (omega arith))
              (tried (length taken + 2) 2 taken base base out j g (omega arith))) in
        omega arith
