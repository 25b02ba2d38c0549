-- ===== src/Store/Agents/Names.antt =====
-- The index of agents by URI, under each way in which the store changes agents: every agent that is
-- not revoked is found under its URI.
pub mod Steps
pub mod Ops
pub mod Moves
pub mod History
use moltenhub.Base.{
  ◌≡◌, refl, sym, ap, subst, ◌∙◌, ◌≢◌, inl, inr, Option, none, some, [], ◌∷◌, arith, Bool, true,
  false, Bool-cases, Option-cases, if◌then◌else◌,
}
use moltenhub.Base.Text.{Text, text_eq, text_eq_iff, text_eq_refl}
use moltenhub.Base.Dict.{Dict, get, put, remove, get-put, get-remove, get-put_self}
use moltenhub.Model.{Agent}
use moltenhub.Store.Queue.{is_revoked}
use moltenhub.Store.Humans.{is_available}
use moltenhub.Store.Audit.Agents.{SameAgents}

pub record IsNamed (agents : Dict Agent) (by_uri : Dict Text) : Type 0 where
  pub keyed : (id : Text) (a : Agent) → get agents id ≡ some a → a.agent_uuid ≡ id
  pub named :
      (id : Text) (a : Agent)
      → get agents id ≡ some a
      → is_revoked a.status ≡ false
      → get by_uri a.agent_id ≡ some id

-- Two agents that are not revoked and share their URI are one.
pub IsNamed-unique :
    (agents : Dict Agent) (by_uri : Dict Text) (i j : Text) (a b : Agent)
    → IsNamed agents by_uri
    → get agents i ≡ some a
    → get agents j ≡ some b
    → is_revoked a.status ≡ false
    → is_revoked b.status ≡ false
    → a.agent_id ≡ b.agent_id
    → i ≡ j
IsNamed-unique agents by_uri i j a b n fa fb la lb e =
    let at = n.named i a fa la in
    let also = n.named j b fb lb in some_injective (sym at ∙ ap (get by_uri) e ∙ also)
  where
    some_injective : {x y : Text} → ◌≡◌ {A = Option Text} (some x) (some y) → x ≡ y
    some_injective h = cc

pub SameAgents-IsNamed :
    (old new : Dict Agent) (by_uri : Dict Text)
    → SameAgents old new
    → IsNamed old by_uri
    → IsNamed new by_uri
SameAgents-IsNamed old new by_uri same n = record {
  keyed = λ id a h.
      let (b, m, found, e) = source id a h in
      ap (λ (x : Agent). x.agent_uuid) (sym e) ∙ n.keyed id b found;
  named = λ id a h live.
      let (b, m, found, e) = source id a h in
      ap (λ (x : Agent). get by_uri x.agent_id) (sym e)
      ∙ n.named id b found (ap (λ (x : Agent). is_revoked x.status) e ∙ live);
}
  where
    source :
        (id : Text) (a : Agent)
        → get new id ≡ some a
        → (b : Agent) × (m : _) × (get old id ≡ some b) × (record b { metadata = m } ≡ a)
    source id a h = elim (Option-cases (get old id)) [
      | inl missing ↦ let gone = same.absent id missing in absurd cc
      | inr (b, found) ↦ let (m, e) = same.stays id b found in (b, m, found, cc)
    ]

-- An agent stored under its id.
pub put-IsNamed :
    (agents : Dict Agent) (old new : Dict Text) (id : Text) (a : Agent)
    → IsNamed agents old
    → a.agent_uuid ≡ id
    → (is_revoked a.status ≡ false → get new a.agent_id ≡ some id)
    → ((j : Text) (b : Agent)
        → text_eq id j ≡ false
        → get agents j ≡ some b
        → is_revoked b.status ≡ false
        → get new b.agent_id ≡ get old b.agent_id)
    → IsNamed (put agents id a) new
put-IsNamed agents old new id a n own here others = record {
  keyed = λ j b h. elim (Bool-cases (text_eq id j)) [
    | inl same ↦ ground (arith, get-put agents id j a, text_eq_iff id j)
    | inr other ↦ n.keyed j b (ground (arith, get-put agents id j a))
  ];
  named = λ j b h live. elim (Bool-cases (text_eq id j)) [
    | inl same ↦
        let e : a ≡ b = ground (arith, get-put agents id j a) in
        let i : id ≡ j = ground (arith, text_eq_iff id j) in
        ap (λ (x : Agent). get new x.agent_id) (sym e)
        ∙ here (ap (λ (x : Agent). is_revoked x.status) e ∙ live)
        ∙ ap some i
    | inr other ↦
        let found : get agents j ≡ some b = ground (arith, get-put agents id j a) in
        others j b other found live ∙ n.named j b found live
  ];
}

-- A new agent under a URI that nobody has.
pub add-IsNamed :
    (agents : Dict Agent) (by_uri : Dict Text) (id : Text) (a : Agent)
    → IsNamed agents by_uri
    → a.agent_uuid ≡ id
    → get by_uri a.agent_id ≡ none
    → IsNamed (put agents id a) (put by_uri a.agent_id id)
add-IsNamed agents by_uri id a n own free =
    put-IsNamed agents by_uri (put by_uri a.agent_id id) id a n own
      (λ live. get-put_self by_uri a.agent_id id)
      (λ j b other found live. elim (Bool-cases (text_eq a.agent_id b.agent_id)) [
        | inl same ↦
            let e : a.agent_id ≡ b.agent_id = (text_eq_iff a.agent_id b.agent_id).0 same in
            absurd (clash (sym free ∙ ap (get by_uri) e ∙ n.named j b found live))
        | inr differ ↦ ground (arith, get-put by_uri a.agent_id b.agent_id id)
      ])
  where
    clash : {j : Text} → ◌≡◌ {A = Option Text} none (some j) → ⊥
    clash h = cc

-- An agent that keeps its URI, or that is revoked and keeps the index as it is.
pub update-IsNamed :
    (agents : Dict Agent) (by_uri : Dict Text) (id : Text) (old a : Agent)
    → IsNamed agents by_uri
    → get agents id ≡ some old
    → a.agent_uuid ≡ old.agent_uuid
    → a.agent_id ≡ old.agent_id
    → (is_revoked a.status ≡ false → is_revoked old.status ≡ false)
    → IsNamed (put agents id a) by_uri
update-IsNamed agents by_uri id old a n found own same keeps =
    put-IsNamed agents by_uri by_uri id a n (own ∙ n.keyed id old found)
      (λ live. ap (get by_uri) same ∙ n.named id old found (keeps live)) (λ j b other at live. refl)

-- The others do not have the URI of an agent that is not revoked.
pub differs :
    (agents : Dict Agent) (by_uri : Dict Text) (id j : Text) (a b : Agent)
    → IsNamed agents by_uri
    → get agents id ≡ some a
    → is_revoked a.status ≡ false
    → text_eq id j ≡ false
    → get agents j ≡ some b
    → is_revoked b.status ≡ false
    → text_eq a.agent_id b.agent_id ≡ false
differs agents by_uri id j a b n fa la other fb lb =
    elim (Bool-cases (text_eq a.agent_id b.agent_id)) [
      | inl same ↦
          let e =
            IsNamed-unique agents by_uri id j a b n fa fb la lb
              ((text_eq_iff a.agent_id b.agent_id).0 same) in
          ground (arith, text_eq_iff id j)
      | inr differ ↦ differ
    ]

-- An agent revoked, and its URI free again.
pub revoke-IsNamed :
    (agents : Dict Agent) (by_uri : Dict Text) (id : Text) (old a : Agent)
    → IsNamed agents by_uri
    → get agents id ≡ some old
    → is_revoked old.status ≡ false
    → a.agent_uuid ≡ old.agent_uuid
    → is_revoked a.status ≡ true
    → IsNamed (put agents id a) (remove by_uri old.agent_id)
revoke-IsNamed agents by_uri id old a n found live own dead =
    put-IsNamed agents by_uri (remove by_uri old.agent_id) id a n (own ∙ n.keyed id old found)
      (λ alive. absurd (ground arith))
      (λ j b other at alive. ground (
        arith,
        differs agents by_uri id j old b n found live other at alive,
        get-remove by_uri old.agent_id b.agent_id,
      ))

unavailable :
    (by_uri : Dict Text) (uri id j : Text)
    → get by_uri uri ≡ some j
    → text_eq id j ≡ false
    → is_available by_uri uri id ≡ true
    → ⊥
unfolding is_available
unavailable by_uri uri id j at other free = ground (arith, text_eq_iff id j, text_eq_iff j id)

-- An agent gone, its URI still in the index.
pub remove-IsNamed :
    (agents : Dict Agent) (by_uri : Dict Text) (id : Text)
    → IsNamed agents by_uri
    → IsNamed (remove agents id) by_uri
remove-IsNamed agents by_uri id n = record {
  keyed = λ j b h. n.keyed j b (ground (arith, get-remove agents id j));
  named = λ j b h live. n.named j b (ground (arith, get-remove agents id j)) live;
}

-- An agent under another URI, which nobody else has.
pub rename-IsNamed :
    (agents : Dict Agent) (by_uri : Dict Text) (id : Text) (old a : Agent)
    → IsNamed agents by_uri
    → get agents id ≡ some old
    → is_revoked old.status ≡ false
    → a.agent_uuid ≡ old.agent_uuid
    → is_available by_uri a.agent_id id ≡ true
    → IsNamed (put agents id a) (put (remove by_uri old.agent_id) a.agent_id id)
rename-IsNamed agents by_uri id old a n found live own free =
    put-IsNamed agents by_uri (put (remove by_uri old.agent_id) a.agent_id id) id a n
      (own ∙ n.keyed id old found)
      (λ alive. get-put_self (remove by_uri old.agent_id) a.agent_id id)
      (λ j b other at alive.
        let apart = differs agents by_uri id j old b n found live other at alive in
        elim (Bool-cases (text_eq a.agent_id b.agent_id)) [
          | inl same ↦
              let e : a.agent_id ≡ b.agent_id = (text_eq_iff a.agent_id b.agent_id).0 same in
              absurd (
                unavailable by_uri a.agent_id id j (ap (get by_uri) e ∙ n.named j b at alive) other
                  free)
          | inr differ ↦ ground (
            arith,
            get-put (remove by_uri old.agent_id) a.agent_id b.agent_id id,
            get-remove by_uri old.agent_id b.agent_id,
          )
        ])
