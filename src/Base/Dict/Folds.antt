-- ===== src/Base/Dict/Folds.antt =====
-- A sum over the values of a map, in any commutative monoid: what one write or one deletion does to
-- it. Counting entries, counting queued messages and finding the oldest time are such sums.
use moltenhub.Base.Tests.{Bool-cases, Option-cases}
use moltenhub.Base.Text.{Text, text_eq, text_eq_iff}
use mathlib.Core.Path.{◌≡◌, refl, sym, ap, ◌∙◌}
use mathlib.Core.Logic.{inl, inr}
use mathlib.Core.Option.{none, some}
use mathlib.Core.List.{[], ◌∷◌}
use native.Mathlib.Omega.{arith}
use moltenhub.Base.Dict.{Dict, get, get_or, put, remove, IsMap}

pub record IsCommMonoid {ℓ} {A : Type ℓ} (op : A → A → A) (unit : A) : Type ℓ where
  pub assoc : (a b c : A) → op (op a b) c ≡ op a (op b c)
  pub comm : (a b : A) → op a b ≡ op b a
  pub unit_left : (a : A) → op unit a ≡ a

abbrev pub fold_values {ℓ κ} : {V : Type ℓ} {A : Type κ} → (A → A → A) → A → (V → A) → Dict V → A
fold_values op unit f [] = unit
fold_values op unit f ((k, v) ∷ m) = op (f v) (fold_values op unit f m)

-- A key that is not there is not deleted.
pub remove_absent {ℓ} : {V : Type ℓ} (m : Dict V) (k : Text) → get m k ≡ none → remove m k ≡ m
unfolding get remove
remove_absent [] k h = refl
remove_absent ((j, v) ∷ m) k h = ground (arith, remove_absent m k)

module _ {ℓ κ} {V : Type ℓ} {A : Type κ} (op : A → A → A) (unit : A) (laws : IsCommMonoid op unit)
    (f : V → A) where
  exchange : (a b c : A) → op a (op b c) ≡ op b (op a c)
  exchange a b c = sym (laws.assoc a b c) ∙ ap (λ x. op x c) (laws.comm a b) ∙ laws.assoc b a c

  pub fold-put :
      (m : Dict V) (k : Text) (v : V)
      → IsMap m
      → fold_values op unit f (put m k v) ≡ op (f v) (fold_values op unit f (remove m k))
  unfolding put remove
  fold-put [] k v h = refl
  fold-put ((j, w) ∷ m) k v h = elim (Bool-cases (text_eq j k)) [
    | inl e ↦
        let same = (text_eq_iff j k).0 e in
        rw (e, put, remove)
          (ap (λ r. op (f v) (fold_values op unit f r))
            (sym (remove_absent m k (subst_key same h.0))))
    | inr e ↦
        rw (e, put, remove)
          (ap (op (f w)) (fold-put m k v h.1)
            ∙ exchange (f w) (f v) (fold_values op unit f (remove m k)))
  ]
    where
      subst_key : j ≡ k → get m j ≡ none → get m k ≡ none
      subst_key p q = rw (← p) q

  pub fold-remove :
      (m : Dict V) (k : Text) (v : V)
      → IsMap m
      → get m k ≡ some v
      → fold_values op unit f m ≡ op (f v) (fold_values op unit f (remove m k))
  unfolding get remove
  fold-remove [] k v h g = cc
  fold-remove ((j, w) ∷ m) k v h g = elim (Bool-cases (text_eq j k)) [
    | inl e ↦
        let gone : remove m k ≡ m = remove_absent m k (ground (arith, text_eq_iff j k)) in
        let same : w ≡ v = ground arith in rw (e, remove, gone, same)
    | inr e ↦
        let found : get m k ≡ some v = ground arith in
        rw (e, remove)
          (ap (op (f w)) (fold-remove m k v h.1 found)
            ∙ exchange (f w) (f v) (fold_values op unit f (remove m k)))
  ]

  -- The same where a missing key reads as a value that adds nothing.
  pub fold-get_or :
      (m : Dict V) (k : Text) (d : V)
      → IsMap m
      → f d ≡ unit
      → fold_values op unit f m ≡ op (f (get_or m k d)) (fold_values op unit f (remove m k))
  fold-get_or m k d h zero_d = elim (Option-cases (get m k)) [
    | inl e ↦ rw (e, zero_d, remove_absent m k e, laws.unit_left (fold_values op unit f m))
    | inr (v, e) ↦ rw e (fold-remove m k v h e)
  ]
