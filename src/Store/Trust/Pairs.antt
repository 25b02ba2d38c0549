-- ===== src/Store/Trust/Pairs.antt =====
-- The index key of a pair, in either order.
use moltenhub.Base.{◌≡◌, ap, ◌≢◌, ◌⊎◌, inl, inr, [], ◌∷◌, ◌++◌, arith, Bool-cases, All}
use moltenhub.Base.Text.{Text, text_le, text_le_total, text_le_antisym}
use moltenhub.Store.Trust.Edge.{canonical_pair, pair_key}

pub canonical_pair_comm : (a b : Text) → canonical_pair a b ≡ canonical_pair b a
unfolding canonical_pair
canonical_pair_comm a b = elim (Bool-cases (text_le a b)) [
  | inl ab ↦ elim (Bool-cases (text_le b a)) [
    | inl ba ↦ rw (ab, ba, text_le_antisym a b ab ba)
    | inr nba ↦ rw (ab, nba)
  ]
  | inr nab ↦ rw (nab, text_le_total a b nab)
]

pub pair_key_comm : (a b : Text) → pair_key a b ≡ pair_key b a
unfolding pair_key
pair_key_comm a b = ap (λ (p : Text × Text). p.0 ++ 0 ∷ p.1) (canonical_pair_comm a b)

-- An id without the NUL byte.
abbrev pub IsPlain : Text → Type 0
IsPlain s = All (λ c. c ≢ 0) s

-- Cutting at the first NUL byte gives the two parts back.
append-nul_injective :
    (a b c d : Text) → IsPlain a → IsPlain c → a ++ 0 ∷ b ≡ c ++ 0 ∷ d → (a ≡ c) × (b ≡ d)
append-nul_injective [] b [] d pa pc e = ground arith
append-nul_injective [] b (y ∷ c) d pa pc e = absurd (pc.0 (ground arith))
append-nul_injective (x ∷ a) b [] d pa pc e = absurd (pa.0 (ground arith))
append-nul_injective (x ∷ a) b (y ∷ c) d pa pc e =
    ground (arith, append-nul_injective a b c d pa.1 pc.1)

canonical-IsPlain : (a b : Text) → IsPlain a → IsPlain b → IsPlain (canonical_pair a b).0
unfolding canonical_pair
canonical-IsPlain a b pa pb = elim (Bool-cases (text_le a b)) [
  | inl e ↦ rw (e, canonical_pair) pa
  | inr e ↦ rw (e, canonical_pair) pb
]

canonical_pair_same :
    (a b c d : Text)
    → canonical_pair a b ≡ canonical_pair c d
    → ((a ≡ c) × (b ≡ d)) ⊎ ((a ≡ d) × (b ≡ c))
unfolding canonical_pair
canonical_pair_same a b c d e = ground arith

-- Two pairs of plain ids share a key only if they are the same pair, in either order.
pub pair_key_injective :
    (a b c d : Text)
    → IsPlain a
    → IsPlain b
    → IsPlain c
    → IsPlain d
    → pair_key a b ≡ pair_key c d
    → ((a ≡ c) × (b ≡ d)) ⊎ ((a ≡ d) × (b ≡ c))
unfolding pair_key
pair_key_injective a b c d pa pb pc pd e =
    let parts =
      append-nul_injective (canonical_pair a b).0 (canonical_pair a b).1 (canonical_pair c d).0
        (canonical_pair c d).1 (canonical-IsPlain a b pa pb) (canonical-IsPlain c d pc pd) e in
    canonical_pair_same a b c d (λ i. (parts.0 i, parts.1 i))
