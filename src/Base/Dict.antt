-- ===== src/Base/Dict.antt =====
-- Go maps with string keys, as association lists. The order of entries is the program's unspecified
-- iteration order: no property rests on it.
pub mod Folds
use mathlib.Core.Path.{◌≡◌, refl}
use mathlib.Core.Bool.{Bool}
use mathlib.Core.Option.{Option, none, some}
use mathlib.Core.List.{List, [], ◌∷◌}
use native.Mathlib.Omega.{arith}
use mathlib.Core.Logic.{inl, inr}
use moltenhub.Base.Tests.{if◌then◌else◌, Bool-cases}
use moltenhub.Base.Text.{Text, text_eq, text_eq_iff, text_eq_refl}

abbrev pub Dict {ℓ} : Type ℓ → Type ℓ
Dict V = List (Text × V)

module _ {ℓ} {V : Type ℓ} where
  -- v, ok := m[k]
  unfoldable pub get : Dict V → Text → Option V
  get [] k = none
  get ((j, v) ∷ m) k = if text_eq j k then some v else get m k

  -- m[k] = v
  unfoldable pub put : Dict V → Text → V → Dict V
  put [] k v = (k, v) ∷ []
  put ((j, w) ∷ m) k v = if text_eq j k then (k, v) ∷ m else (j, w) ∷ put m k v

  -- delete(m, k)
  unfoldable pub remove : Dict V → Text → Dict V
  remove [] k = []
  remove ((j, v) ∷ m) k = let rest = remove m k in if text_eq j k then rest else (j, v) ∷ rest

  abbrev pub keys : Dict V → List Text
  keys [] = []
  keys ((j, v) ∷ m) = j ∷ keys m

  abbrev pub values : Dict V → List V
  values [] = []
  values ((j, v) ∷ m) = v ∷ values m

  -- The values that pass a test, in the order of the map.
  unfoldable pub select : (V → Bool) → Dict V → List V
  select p [] = []
  select p ((j, v) ∷ m) = let rest = select p m in if p v then v ∷ rest else rest

  -- delete(m, k) for every entry whose value passes a test.
  unfoldable pub delete_where : (V → Bool) → Dict V → Dict V
  unfolding remove
  delete_where p [] = []
  delete_where p ((j, v) ∷ m) =
      let rest = delete_where p m in if p v then remove rest j else (j, v) ∷ rest

  -- m[k] where a missing key reads as the zero value.
  abbrev pub or_default : Option V → V → V
  or_default none d = d
  or_default (some v) d = v

  abbrev pub get_or : Dict V → Text → V → V
  get_or m k d = or_default (get m k) d

  -- No key stands twice: what a Go map guarantees.
  abbrev pub IsMap : Dict V → Type ℓ
  IsMap [] = Unit
  IsMap ((j, v) ∷ m) = (get m j ≡ none) × IsMap m

  pub get-put :
      (m : Dict V) (k j : Text) (v : V)
      → get (put m k v) j ≡ (if text_eq k j then some v else get m j)
  unfolding get put
  get-put [] k j v = refl
  get-put ((i, w) ∷ m) k j v =
      ground (arith, text_eq_iff k j, text_eq_iff i k, text_eq_iff i j, get-put m k j v)

  pub get-remove :
      (m : Dict V) (k j : Text) → get (remove m k) j ≡ (if text_eq k j then none else get m j)
  unfolding get remove
  get-remove [] k j = ground arith
  get-remove ((i, w) ∷ m) k j =
      ground (arith, text_eq_iff k j, text_eq_iff i k, text_eq_iff i j, get-remove m k j)

  pub get-put_self : (m : Dict V) (k : Text) (v : V) → get (put m k v) k ≡ some v
  get-put_self m k v = ground (arith, get-put m k k v, text_eq_refl k)

  pub get-remove_self : (m : Dict V) (k : Text) → get (remove m k) k ≡ none
  get-remove_self m k = ground (arith, get-remove m k k, text_eq_refl k)

  pub put-IsMap : (m : Dict V) (k : Text) (v : V) → IsMap m → IsMap (put m k v)
  unfolding get put
  put-IsMap [] k v h = ground arith
  put-IsMap ((i, w) ∷ m) k v h =
      ground (arith, text_eq_iff i k, text_eq_iff k i, put-IsMap m k v, get-put m k i v)

  pub remove-IsMap : (m : Dict V) (k : Text) → IsMap m → IsMap (remove m k)
  unfolding get remove
  remove-IsMap [] k h = tt
  remove-IsMap ((i, w) ∷ m) k h = ground (arith, remove-IsMap m k, get-remove m k i)

  pub get-delete_where :
      (p : V → Bool) (m : Dict V) (k : Text)
      → get (delete_where p m) k
        ≡ elim (get m k) [ none ↦ none | some v ↦ if p v then none else some v ]
  unfolding get delete_where
  get-delete_where p [] k = refl
  get-delete_where p ((j, v) ∷ m) k = elim (Bool-cases (text_eq j k)) [
    | inl same ↦ elim (Bool-cases (p v)) [
      | inl gone ↦ rw (same, gone) (ground (arith, get-remove (delete_where p m) j k))
      | inr kept ↦ rw (same, kept) (rw (same, get) refl)
    ]
    | inr other ↦ elim (Bool-cases (p v)) [
      | inl gone ↦
          rw (other, gone)
            (ground (arith, get-remove (delete_where p m) j k, get-delete_where p m k))
      | inr kept ↦ rw (other, kept) (rw (other, get) (get-delete_where p m k))
    ]
  ]
