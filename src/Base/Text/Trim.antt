-- ===== src/Base/Text/Trim.antt =====
-- Trimming by recursion from the left: the form that inductions use.
use moltenhub.Base.Tests.{if◌then◌else◌, Bool-cases}
use moltenhub.Base.Lists.{length, is_empty}
use Prim.Native.Nat.{ℕ, ◌≤◌}
use mathlib.Core.Path.{◌≡◌, refl, ap, ◌∙◌}
use mathlib.Core.Logic.{inl, inr}
use mathlib.Core.Bool.{Bool, false, ◌&&◌}
use mathlib.Core.List.{[], ◌∷◌, ◌++◌, reverse, reverse-cons, reverse-append}
use native.Mathlib.Omega.{arith}
use moltenhub.Base.Text.{Text, drop_while, trim_func}

-- Without the longest suffix whose code points pass the test.
unfoldable pub drop_end : (ℕ → Bool) → Text → Text
drop_end p [] = []
drop_end p (c ∷ s) = let rest = drop_end p s in if is_empty rest && p c then [] else c ∷ rest

drop_while-append :
    (p : ℕ → Bool) (s : Text) (c : ℕ)
    → drop_while p (s ++ c ∷ [])
      ≡ (if is_empty (drop_while p s) then drop_while p (c ∷ []) else drop_while p s ++ c ∷ [])
unfolding drop_while
drop_while-append p [] c = refl
drop_while-append p (d ∷ s) c = elim (Bool-cases (p d)) [
  | inl passes ↦ rw passes (drop_while-append p s c)
  | inr fails ↦ rw fails
]

is_empty-append : (s : Text) (c : ℕ) → is_empty (s ++ c ∷ []) ≡ false
is_empty-append [] c = refl
is_empty-append (d ∷ s) c = refl

is_empty-reverse : (s : Text) → is_empty (reverse s) ≡ is_empty s
is_empty-reverse [] = refl
is_empty-reverse (c ∷ s) = ap is_empty (reverse-cons c s) ∙ is_empty-append (reverse s) c

last_step :
    (p : ℕ → Bool) (c : ℕ) (ys : Text)
    → reverse (if is_empty ys then drop_while p (c ∷ []) else ys ++ c ∷ [])
      ≡ (if is_empty (reverse ys) && p c then [] else c ∷ reverse ys)
last_step p c [] = elim (Bool-cases (p c)) [
  | inl passes ↦ unfold drop_while in rw passes
  | inr fails ↦ unfold drop_while in rw fails
]
last_step p c (y ∷ ys) = rw (is_empty-reverse (y ∷ ys)) (reverse-append (y ∷ ys) (c ∷ []))

pub reverse-drop_while-reverse :
    (p : ℕ → Bool) (s : Text) → reverse (drop_while p (reverse s)) ≡ drop_end p s
unfolding drop_end
reverse-drop_while-reverse p [] = unfold drop_while in refl
reverse-drop_while-reverse p (c ∷ s) =
    ap (λ r. reverse (drop_while p r)) (reverse-cons c s)
    ∙ ap reverse (drop_while-append p (reverse s) c)
    ∙ last_step p c (drop_while p (reverse s))
    ∙ ap (λ t. if is_empty t && p c then [] else c ∷ t) (reverse-drop_while-reverse p s)

-- strings.TrimFunc, without its reversals.
pub trim_func_lem : (p : ℕ → Bool) (s : Text) → trim_func p s ≡ drop_end p (drop_while p s)
unfolding trim_func
trim_func_lem p s = reverse-drop_while-reverse p (drop_while p s)

-- Nothing is longer after it.
pub length-drop_end : (p : ℕ → Bool) (s : Text) → length (drop_end p s) ≤ length s
unfolding drop_end
length-drop_end p [] = omega arith
length-drop_end p (c ∷ s) = ground (arith, length-drop_end p s)

pub drop_end_idem : (p : ℕ → Bool) (s : Text) → drop_end p (drop_end p s) ≡ drop_end p s
unfolding drop_end
drop_end_idem p [] = refl
drop_end_idem p (c ∷ s) = ground (arith, drop_end_idem p s)

-- A text none of whose code points pass is left as it is.
abbrev pub Avoids : (ℕ → Bool) → Text → Type 0
Avoids p [] = Unit
Avoids p (c ∷ s) = (p c ≡ false) × Avoids p s

pub drop_while-Avoids : (p : ℕ → Bool) (s : Text) → Avoids p s → drop_while p s ≡ s
unfolding drop_while
drop_while-Avoids p [] h = refl
drop_while-Avoids p (c ∷ s) h = rw h.0

pub drop_end-Avoids : (p : ℕ → Bool) (s : Text) → Avoids p s → drop_end p s ≡ s
unfolding drop_end
drop_end-Avoids p [] h = refl
drop_end-Avoids p (c ∷ s) h = ground (arith, drop_end-Avoids p s h.1)

pub trim_func-Avoids : (p : ℕ → Bool) (s : Text) → Avoids p s → trim_func p s ≡ s
trim_func-Avoids p s h =
    trim_func_lem p s ∙ ap (drop_end p) (drop_while-Avoids p s h) ∙ drop_end-Avoids p s h
