-- ===== src/Store/Trust/Reopen.antt =====
-- Trust between two organizations after it was blocked or revoked.
use moltenhub.Base.{◌≡◌, refl, sym, ap, ◌∙◌, ◌⊎◌, inl, inr, Bool, true, false, some, arith}
use moltenhub.Base.Text.{Text}
use moltenhub.Base.Dict.{get, put, get_or, get-put_self}
use moltenhub.Model.{TrustEdge, org, Status, pending, blocked, revoked}
use moltenhub.Model.Value.{Metadata}
use moltenhub.Model.Clock.{Time}
use moltenhub.Store.State.{MemoryStore, Trusts, Result-cases, Outcome, ok, err_not_ok, settled}
use moltenhub.Store.Trust.Edge.{
  canonical_pair, pair_key, apply_trust_request, no_edge, reopen, approve_side, settle,
}
use moltenhub.Store.Trust.Request.{create_or_join_org_trust}
use moltenhub.Store.Trust.Decide.{
  load_edge_for_actor, store_edge, decided, approve_loaded, approve_edge, close_edge,
  approve_org_trust, approve_trust, block_org_trust, block_trust, revoke_org_trust, revoke_trust,
  is_agent,
}
use moltenhub.Store.Trust.Consent.{approve_edge-SameEnds}
use moltenhub.Store.Trust.Decisions.{load_edge_for_actor_ok}
use moltenhub.Store.Trust.Safety.{IsTrusted, trusts-append_audit}
use moltenhub.Store.Trust.Orgs.{Accepted, request-Accepted}

-- A closed edge: it was blocked or revoked at some time.
abbrev IsClosedOf : TrustEdge → TrustEdge → Type 0
IsClosedOf e f =
    (state : Status) × (now : Time) × ((state ≡ blocked) ⊎ (state ≡ revoked))
    × (f ≡ close_edge state now e)

approve_edge-pending :
    (e : TrustEdge) (state : Status) (then_ now : Time) (left : Bool)
    → (state ≡ blocked) ⊎ (state ≡ revoked)
    → (approve_edge left now (close_edge state then_ e)).state ≡ pending
unfolding approve_edge close_edge approve_side settle
approve_edge-pending e state then_ now true h = ground arith
approve_edge-pending e state then_ now false h = ground arith

apply_trust_request-pending :
    (e : TrustEdge) (state : Status) (then_ now : Time) (left : Bool)
    → (state ≡ blocked) ⊎ (state ≡ revoked)
    → (apply_trust_request (close_edge state then_ e) left now).state ≡ pending
unfolding apply_trust_request close_edge reopen approve_side settle
apply_trust_request-pending e state then_ now true h = ground arith
apply_trust_request-pending e state then_ now false h = ground arith

-- What a decision on an organization edge stores.
decided_lem :
    (side actor action : Text) (details : Metadata) (now : Time) (e f : TrustEdge)
    (s t : MemoryStore)
    → decided org side actor action details now e s ≡ (ok f, t)
    → (e ≡ f) × (get t.org_trusts e.edge_id ≡ some f)
unfolding decided store_edge
decided_lem side actor action details now e f s t h =
    let (same, stored) = settled h in
    (
      same,
      sym (ap (λ (u : MemoryStore). get u.org_trusts e.edge_id) stored)
          ∙ ap (λ (u : Trusts). get u.org_trusts e.edge_id) (trusts-append_audit _ _ _ _ _ _ _ _)
          ∙ get-put_self s.org_trusts e.edge_id e
          ∙ ap (λ (x : TrustEdge). some x) same,
    )

closed_decision :
    (id side actor action : Text) (details : Metadata) (now : Time) (state : Status)
    (e f : TrustEdge) (s t : MemoryStore)
    → (state ≡ blocked) ⊎ (state ≡ revoked)
    → e.edge_id ≡ id
    → decided org side actor action details now (close_edge state now e) s ≡ (ok f, t)
    → (old : TrustEdge) × (old.edge_id ≡ id) × IsClosedOf old f × (get t.org_trusts id ≡ some f)
unfolding close_edge
closed_decision id side actor action details now state e f s t which own h =
    let (same, stored) =
      decided_lem side actor action details now (close_edge state now e) f s t h in
    (e, own, (state, now, which, sym same), ap (get t.org_trusts) (sym own) ∙ stored)

closed_state : (e f : TrustEdge) → IsClosedOf e f → (f.state ≡ blocked) ⊎ (f.state ≡ revoked)
unfolding close_edge
closed_state e f (state, now, which, made) =
    let same : f.state ≡ state = ap (λ (x : TrustEdge). x.state) made in
    elim which [ inl b ↦ inl (same ∙ b) | inr r ↦ inr (same ∙ r) ]

-- A block or a revocation that was accepted.
abbrev pub Closes : Text → Text → Time → Bool → MemoryStore → TrustEdge → MemoryStore → Type 0
Closes id actor now super s f t =
    (block_org_trust id actor now super s ≡ (ok f, t))
    ⊎ (revoke_org_trust id actor now super s ≡ (ok f, t))

closed :
    (id actor : Text) (now : Time) (super : Bool) (s t : MemoryStore) (f : TrustEdge)
    → IsTrusted s.trusts
    → Closes id actor now super s f t
    → (old : TrustEdge) × (old.edge_id ≡ id) × IsClosedOf old f × (get t.org_trusts id ≡ some f)
unfolding block_trust revoke_trust
closed id actor now super s t f v h =
    elim (Result-cases (load_edge_for_actor org id actor super s)) [
      | inr (x, refused) ↦ absurd (elim h [
        | inl b ↦ err_not_ok (ap (λ (o : Outcome TrustEdge). o.0) (rw (refused, block_trust) at b))
        | inr r ↦ err_not_ok (ap (λ (o : Outcome TrustEdge). o.0) (rw (refused, revoke_trust) at r))
      ])
      | inl ((e, left, side), loaded) ↦
          let own =
            v.org_graph.keyed id e
              (load_edge_for_actor_ok org id actor super s e left side loaded) in
          elim h [
            | inl b ↦
                closed_decision id side actor _ _ now blocked e f s t (inl refl) own
                  (rw (loaded, block_trust) at b)
            | inr r ↦
                closed_decision id side actor _ _ now revoked e f s t (inr refl) own
                  (rw (loaded, revoke_trust) at r)
          ]
    ]

-- An accepted approval of the edge, or an accepted request of one of the organizations that the
-- edge joins.
abbrev pub Returns : Text → Text → Time → Bool → MemoryStore → TrustEdge → MemoryStore → Type 0
Returns id actor now super t g u =
    (approve_org_trust id actor now super t ≡ (ok g, u))
    ⊎ ((side : Text) × (peer : Text) × (left : Text) × (right : Text) × (new_id : Text)
        × (new : Bool) × (canonical_pair side peer ≡ (left, right))
        × (get t.org_trust_by_pair (pair_key left right) ≡ some id)
        × (create_or_join_org_trust side peer actor new_id now super t ≡ (ok (g, new), u)))

approved :
    (id actor : Text) (now : Time) (super : Bool) (t u : MemoryStore) (old f g : TrustEdge)
    → old.edge_id ≡ id
    → IsClosedOf old f
    → get t.org_trusts id ≡ some f
    → approve_org_trust id actor now super t ≡ (ok g, u)
    → (g.state ≡ pending) × (get u.org_trusts id ≡ some g)
unfolding approve_trust approve_loaded is_agent close_edge
approved id actor now super t u old f g own (state, then_, which, made) at h =
    elim (Result-cases (load_edge_for_actor org id actor super t)) [
      | inr (x, refused) ↦
          absurd
            (err_not_ok (ap (λ (o : Outcome TrustEdge). o.0) (rw (refused, approve_trust) at h)))
      | inl ((e, left, side), loaded) ↦
          let stored = load_edge_for_actor_ok org id actor super t e left side loaded in
          let it : e ≡ close_edge state then_ old = cc in
          let (same, kept) =
            decided_lem side actor _ _ now (approve_edge left now e) g t u
              (rw (loaded, approve_trust) at h) in
          let named =
            (approve_edge-SameEnds e now left).same_id
            ∙ ap (λ (x : TrustEdge). x.edge_id) it
            ∙ own in
          (
            ap (λ (x : TrustEdge). x.state) (sym same)
                ∙ ap (λ (x : TrustEdge). (approve_edge left now x).state) it
                ∙ approve_edge-pending old state then_ now left which,
            ap (get u.org_trusts) (sym named) ∙ kept,
          )
    ]

requested :
    (id side left right actor new_id : Text) (now : Time) (t u : MemoryStore) (old f g : TrustEdge)
    → IsClosedOf old f
    → get t.org_trusts id ≡ some f
    → get t.org_trust_by_pair (pair_key left right) ≡ some id
    → Accepted side left right actor new_id now t g u
    → (g.state ≡ pending) × (get u.org_trusts id ≡ some g)
requested id side left right actor new_id now t u old f g c at known (inl (fresh, made, stored)) =
    absurd cc
requested id side left right actor new_id now t u old f g (state, then_, which, closed_as) at known
      (inr (k, index, made, stored)) =
    let same : k ≡ id = cc in
    let held : get_or t.org_trusts k no_edge ≡ close_edge state then_ old =
      (rw (ap (get t.org_trusts) same ∙ at) refl) ∙ closed_as in
    (
      ap (λ (x : TrustEdge). x.state) made
          ∙ rw held (apply_trust_request-pending old state then_ now _ which),
      ap (λ (x : Trusts). get x.org_trusts id) stored
          ∙ ap (λ j. get (put t.org_trusts j g) id) same
          ∙ get-put_self t.org_trusts id g,
    )

returned :
    (id other : Text) (later : Time) (super : Bool) (t u : MemoryStore) (old f g : TrustEdge)
    → old.edge_id ≡ id
    → IsClosedOf old f
    → get t.org_trusts id ≡ some f
    → Returns id other later super t g u
    → (g.state ≡ pending) × (get u.org_trusts id ≡ some g)
returned id other later super t u old f g own c at (inl a) =
    approved id other later super t u old f g own c at a
returned id other later super t u old f g own c at
      (inr (side, peer, left, right, new_id, new, ends, known, r)) =
    requested id side left right other new_id later t u old f g c at known
      (request-Accepted side peer other new_id later super t u g new left right r ends)

-- An accepted block or revocation of the edge between two organizations in a consistent trust graph
-- leaves it blocked or revoked, and then one side alone cannot bring it back: an accepted approval of
-- the edge, or an accepted request of one of the two for trust in the other, whoever makes it,
-- leaves it pending.
pub one_side_after_close :
    (id actor : Text) (now : Time) (super : Bool) (s t : MemoryStore) (f : TrustEdge) (other : Text)
    (later : Time) (other_super : Bool) (u : MemoryStore) (g : TrustEdge)
    → IsTrusted s.trusts
    → Closes id actor now super s f t
    → Returns id other later other_super t g u
    → ((f.state ≡ blocked) ⊎ (f.state ≡ revoked))
      × (g.state ≡ pending)
      × (get u.org_trusts id ≡ some g)
one_side_after_close id actor now super s t f other later other_super u g v h k =
    let (old, own, c, at) = closed id actor now super s t f v h in
    let (waits, stored) = returned id other later other_super t u old f g own c at k in
    (closed_state old f c, waits, stored)
