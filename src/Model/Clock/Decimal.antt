-- ===== src/Model/Clock/Decimal.antt =====
-- Decimal digits: reading back what `decimal` writes.
use moltenhub.Base.{
  ℕ, zero, suc, ◌+◌, ◌-◌, ◌*◌, ◌/◌, ◌%◌, ◌^◌, ◌≤◌, ◌<◌, ◌≡◌, sym, ap, ◌∙◌, inl, inr, [], ◌∷◌, arith,
  ltb, length, Bool-cases, All,
}
use moltenhub.Base.Text.{Text}
use moltenhub.Model.Clock.{decimal, digits_onto}

value : ℕ → Text → ℕ
value v [] = v
value v (c ∷ s) = value (v * 10 + (c - 48)) s

value-digits_onto : (f n : ℕ) (acc : Text) → n < f → value 0 (digits_onto f n acc) ≡ value n acc
unfolding digits_onto value
value-digits_onto zero n acc h = absurd (omega arith)
value-digits_onto (suc f) n acc h = elim (Bool-cases (ltb n 10)) [
  | inl small ↦ rw (small, digits_onto) (ap (λ v. value v acc) (omega arith))
  | inr big ↦
      rw (big, digits_onto)
        (value-digits_onto f (n / 10) ((48 + n % 10) ∷ acc) (ground arith)
          ∙ ap (λ v. value v acc) (omega arith))
]

-- Two numbers with the same digits are equal.
pub decimal_injective : (m n : ℕ) → decimal m ≡ decimal n → m ≡ n
unfolding decimal value
decimal_injective m n h =
    sym (value-digits_onto (suc m) m [] (omega arith))
    ∙ ap (value 0) h
    ∙ value-digits_onto (suc n) n [] (omega arith)

abbrev pub IsDigit : ℕ → Type 0
IsDigit c = (48 ≤ c) × (c ≤ 57)

digits_onto-IsDigit :
    (f n : ℕ) (acc : Text) → n < f → All IsDigit acc → All IsDigit (digits_onto f n acc)
unfolding digits_onto
digits_onto-IsDigit zero n acc h a = a
digits_onto-IsDigit (suc f) n acc h a = elim (Bool-cases (ltb n 10)) [
  | inl small ↦ rw (small, digits_onto) ((omega arith, ground arith), a)
  | inr big ↦
      rw (big, digits_onto)
        (digits_onto-IsDigit f (n / 10) ((48 + n % 10) ∷ acc) (ground arith)
          ((omega arith, omega arith), a))
]

pub decimal-IsDigit : (n : ℕ) → All IsDigit (decimal n)
unfolding decimal
decimal-IsDigit n = digits_onto-IsDigit (suc n) n [] (omega arith) tt

length-digits_onto-pos :
    (f n : ℕ) (acc : Text) → n < f → 1 + length acc ≤ length (digits_onto f n acc)
unfolding digits_onto
length-digits_onto-pos zero n acc h = absurd (omega arith)
length-digits_onto-pos (suc f) n acc h = elim (Bool-cases (ltb n 10)) [
  | inl small ↦ rw (small, digits_onto) (omega arith)
  | inr big ↦
      rw (big, digits_onto)
        (omega (arith, length-digits_onto-pos f (n / 10) ((48 + n % 10) ∷ acc) (ground arith)))
]

-- There is a digit.
pub length-decimal-pos : (n : ℕ) → 1 ≤ length (decimal n)
unfolding decimal
length-decimal-pos n = length-digits_onto-pos (suc n) n [] (omega arith)

length-digits_onto :
    (f n k : ℕ) (acc : Text)
    → n < f
    → n < 10 ^ suc k
    → length (digits_onto f n acc) ≤ suc k + length acc
unfolding digits_onto
length-digits_onto zero n k acc h b = absurd (omega arith)
length-digits_onto (suc f) n zero acc h b = ground arith
length-digits_onto (suc f) n (suc k) acc h b = elim (Bool-cases (ltb n 10)) [
  | inl small ↦ rw (small, digits_onto) (omega arith)
  | inr big ↦
      rw (big, digits_onto)
        (let bound : 10 ^ suc (suc k) ≡ 10 * 10 ^ suc k = omega arith in
          omega (
            arith,
            length-digits_onto f (n / 10) k ((48 + n % 10) ∷ acc) (ground arith)
                (omega (arith, bound)),
          ))
]

-- A number below 10 ^ k has at most k digits, for k from 1.
pub length-decimal : (n k : ℕ) → n < 10 ^ suc k → length (decimal n) ≤ suc k
unfolding decimal
length-decimal n k b = omega (arith, length-digits_onto (suc n) n k [] (omega arith) b)
