-- ===== src/Store/Trust/Graph.antt =====
-- A trust graph: its edges by id, and the index from pairs to edges.
use moltenhub.Base.{◌≡◌, refl, sym, ap, subst, ◌∙◌, inl, inr, none, some, arith, Bool-cases}
use moltenhub.Base.Text.{Text, text_eq, text_eq_iff}
use moltenhub.Base.Dict.{Dict, get, put, get-put}
use moltenhub.Model.{TrustEdge}
use moltenhub.Store.Trust.Edge.{pair_key}
use moltenhub.Store.Trust.Consent.{IsConsistent, SameEnds}

-- The edge under `id`, joining the pair of `key`.
abbrev pub Joins : Dict TrustEdge → Text → Text → Type 0
Joins edges key id =
    (e : TrustEdge) × (get edges id ≡ some e) × (pair_key e.left_id e.right_id ≡ key)

pub record IsGraph (edges : Dict TrustEdge) (by_pair : Dict Text) : Type 0 where
  pub keyed : (id : Text) (e : TrustEdge) → get edges id ≡ some e → e.edge_id ≡ id
  pub consistent : (id : Text) (e : TrustEdge) → get edges id ≡ some e → IsConsistent e
  pub indexed : (key id : Text) → get by_pair key ≡ some id → Joins edges key id

module _ (edges : Dict TrustEdge) (by_pair : Dict Text) (g : IsGraph edges by_pair) where
  -- An edge changes, and keeps its id and its ends.
  pub update-IsGraph :
      (id : Text) (e f : TrustEdge)
      → get edges id ≡ some e
      → SameEnds e f
      → IsConsistent f
      → IsGraph (put edges id f) by_pair
  update-IsGraph id e f found same c = record {
    keyed = λ j q h. elim (Bool-cases (text_eq id j)) [
      | inl hit ↦
          let k : f ≡ q = ground (arith, get-put edges id j f) in
          ap (λ (x : TrustEdge). x.edge_id) (sym k)
          ∙ same.same_id
          ∙ g.keyed id e found
          ∙ (text_eq_iff id j).0 hit
      | inr miss ↦ g.keyed j q (ground (arith, get-put edges id j f))
    ];
    consistent = λ j q h. elim (Bool-cases (text_eq id j)) [
      | inl hit ↦
          let k : f ≡ q = ground (arith, get-put edges id j f) in subst (λ x. IsConsistent x) k c
      | inr miss ↦ g.consistent j q (ground (arith, get-put edges id j f))
    ];
    indexed = λ key j h.
        let (q, at, joins) = g.indexed key j h in
        elim (Bool-cases (text_eq id j)) [
          | inl hit ↦
              let k : q ≡ e = ground (arith, text_eq_iff id j) in
              (
                f,
                ground (arith, get-put edges id j f),
                rw (same.same_left, same.same_right, ← k) joins,
              )
          | inr miss ↦ (q, ground (arith, get-put edges id j f), joins)
        ];
  }

  -- A new edge, under an id that no edge has.
  pub insert-IsGraph :
      (id key : Text) (f : TrustEdge)
      → get edges id ≡ none
      → f.edge_id ≡ id
      → pair_key f.left_id f.right_id ≡ key
      → IsConsistent f
      → IsGraph (put edges id f) (put by_pair key id)
  insert-IsGraph id key f fresh own joins c = record {
    keyed = λ j q h. elim (Bool-cases (text_eq id j)) [
      | inl hit ↦
          let k : f ≡ q = ground (arith, get-put edges id j f) in
          ap (λ (x : TrustEdge). x.edge_id) (sym k) ∙ own ∙ (text_eq_iff id j).0 hit
      | inr miss ↦ g.keyed j q (ground (arith, get-put edges id j f))
    ];
    consistent = λ j q h. elim (Bool-cases (text_eq id j)) [
      | inl hit ↦
          let k : f ≡ q = ground (arith, get-put edges id j f) in subst (λ x. IsConsistent x) k c
      | inr miss ↦ g.consistent j q (ground (arith, get-put edges id j f))
    ];
    indexed = λ other j h. elim (Bool-cases (text_eq key other)) [
      | inl hit ↦
          let k : id ≡ j = ground (arith, get-put by_pair key other id) in
          (
            f,
            ground (arith, get-put edges id j f, text_eq_iff id j),
            joins ∙ (text_eq_iff key other).0 hit,
          )
      | inr miss ↦
          let (q, at, joined) = g.indexed other j (ground (arith, get-put by_pair key other id)) in
          (q, ground (arith, get-put edges id j f, text_eq_iff id j), joined)
    ];
  }

  -- A new edge `e`, as the request that makes it leaves it.
  pub request-IsGraph :
      (key : Text) (e f : TrustEdge)
      → get edges e.edge_id ≡ none
      → pair_key e.left_id e.right_id ≡ key
      → SameEnds e f
      → IsConsistent f
      → IsGraph (put edges f.edge_id f) (put by_pair key f.edge_id)
  request-IsGraph key e f fresh joins same c =
      insert-IsGraph f.edge_id key f (rw same.same_id fresh) refl
        (rw (same.same_left, same.same_right) joins) c

  -- The edge under an id, stored again under its own id.
  pub store-IsGraph :
      (id : Text) (e f : TrustEdge)
      → get edges id ≡ some e
      → SameEnds e f
      → IsConsistent f
      → IsGraph (put edges f.edge_id f) by_pair
  store-IsGraph id e f found same c =
      let own : f.edge_id ≡ id = same.same_id ∙ g.keyed id e found in
      subst (λ k. IsGraph (put edges k f) by_pair) (sym own) (update-IsGraph id e f found same c)
