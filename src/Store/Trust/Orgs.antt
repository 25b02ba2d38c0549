-- ===== src/Store/Trust/Orgs.antt =====
-- Trust between two organizations that both ask for it.
use moltenhub.Base.{
  ◌≡◌, refl, sym, ap, subst, ◌∙◌, ◌⊎◌, inl, inr, Bool, true, false, not, ◌&&◌, ◌||◌, none, some,
  arith, Option-cases,
}
use moltenhub.Base.Text.{Text, text_eq}
use moltenhub.Base.Dict.{get, put, get_or, get-put_self}
use moltenhub.Model.{TrustEdge, org, admin}
use moltenhub.Model.Clock.{Time}
use moltenhub.Store.State.{MemoryStore, Trusts, ok, passed, settled}
use moltenhub.Store.Roles.{is_active, has_role_at_least, membership_role}
use moltenhub.Store.Publish.{trusted}
use moltenhub.Store.Trust.Edge.{
  canonical_pair, pair_key, apply_trust_request, new_edge, no_edge, is_closed, reopen, approve_side,
  settle,
}
use moltenhub.Store.Trust.Request.{
  join_org, create_or_join_org, create_or_join_trust, create_or_join_org_trust, is_missing,
}
use moltenhub.Store.Trust.Safety.{trusts-append_audit}

-- The two ways in which a request for trust between `left` and `right` is accepted: it makes a new
-- edge, or it joins the edge that the index has for the two.
abbrev pub Accepted :
    Text → Text → Text → Text → Text → Time → MemoryStore → TrustEdge → MemoryStore → Type 0
Accepted side left right actor id now s e t =
    ((get s.org_trust_by_pair (pair_key left right) ≡ none)
      × (e ≡ apply_trust_request (new_edge org id left right actor now) (text_eq side left) now)
      × (t.trusts ≡ record s.trusts {
        org_trusts = put s.org_trusts e.edge_id e;
        org_trust_by_pair = put s.org_trust_by_pair (pair_key left right) e.edge_id;
      }))
    ⊎ ((old : Text) × (get s.org_trust_by_pair (pair_key left right) ≡ some old)
        × (e
            ≡ apply_trust_request (get_or s.org_trusts old no_edge)
                (text_eq side (get_or s.org_trusts old no_edge).left_id) now)
        × (t.trusts ≡ record s.trusts { org_trusts = put s.org_trusts old e }))

join_org-Accepted :
    (side left right actor id : Text) (now : Time) (s t : MemoryStore) (e : TrustEdge) (new : Bool)
    → join_org
        (get s.org_trust_by_pair (pair_key left right))
        (pair_key left right)
        side
        left
        right
        actor
        id
        now
        s
      ≡ (ok (e, new), t)
    → Accepted side left right actor id now s e t
unfolding join_org
join_org-Accepted side left right actor id now s t e new h =
    elim (Option-cases (get s.org_trust_by_pair (pair_key left right))) [
      | inl fresh ↦
          let (made, left_store) = settled (rw (fresh, join_org) at h) in
          let same = ap (λ (p : TrustEdge × Bool). p.0) made in
          inl (
            fresh,
            sym same,
            sym (ap (λ (u : MemoryStore). u.trusts) left_store)
                ∙ trusts-append_audit _ _ _ _ _ _ _ _
                ∙ ap
                    (λ (x : TrustEdge). record s.trusts {
                      org_trusts = put s.org_trusts x.edge_id x;
                      org_trust_by_pair = put s.org_trust_by_pair (pair_key left right) x.edge_id;
                    })
                    same,
          )
      | inr (old, known) ↦
          let (made, left_store) = settled (rw (known, join_org) at h) in
          let same = ap (λ (p : TrustEdge × Bool). p.0) made in
          inr (
            old,
            known,
            sym same,
            sym (ap (λ (u : MemoryStore). u.trusts) left_store)
                ∙ trusts-append_audit _ _ _ _ _ _ _ _
                ∙ ap (λ (x : TrustEdge). record s.trusts { org_trusts = put s.org_trusts old x })
                    same,
          )
    ]

pub request-Accepted :
    (side peer actor id : Text) (now : Time) (super : Bool) (s t : MemoryStore) (e : TrustEdge)
    (new : Bool) (left right : Text)
    → create_or_join_org_trust side peer actor id now super s ≡ (ok (e, new), t)
    → canonical_pair side peer ≡ (left, right)
    → Accepted side left right actor id now s e t
unfolding create_or_join_org_trust create_or_join_trust create_or_join_org
request-Accepted side peer actor id now super s t e new left right h ends =
    let p = canonical_pair side peer in
    let role = membership_role s.directory side actor in
    let (_, a) = passed (text_eq side peer) _ _ _ h in
    let (_, b) = passed (is_missing (get s.orgs p.0) || is_missing (get s.orgs p.1)) _ _ _ a in
    let (_, c) = passed (not super && not (has_role_at_least role admin)) _ _ _ b in
    subst (λ (q : Text × Text). Accepted side q.0 q.1 actor id now s e t) ends
      (join_org-Accepted side p.0 p.1 actor id now s t e new c)

-- The edge has the approvals `l` and `r`, and is active if it has both.
record Asked (left : Text) (l r : Bool) (e : TrustEdge) : Type 0 where
  ends : e.left_id ≡ left
  left_asked : e.left_approved ≡ l
  right_asked : e.right_approved ≡ r
  opened : is_closed e.state ≡ false
  agreed : is_active e.state ≡ (l && r)

apply_trust_request-Asked :
    (left : Text) (l r by_left : Bool) (e : TrustEdge) (now : Time)
    → Asked left l r e
    → Asked left (l || by_left) (r || not by_left) (apply_trust_request e by_left now)
unfolding apply_trust_request reopen approve_side settle
apply_trust_request-Asked left l r true e now q =
    let a = q.ends in
    let b = q.left_asked in
    let c = q.right_asked in
    let d = q.opened in
    record {
      ends = ground arith;
      left_asked = ground arith;
      right_asked = ground arith;
      opened = ground arith;
      agreed = ground arith;
    }
apply_trust_request-Asked left l r false e now q =
    let a = q.ends in
    let b = q.left_asked in
    let c = q.right_asked in
    let d = q.opened in
    record {
      ends = ground arith;
      left_asked = ground arith;
      right_asked = ground arith;
      opened = ground arith;
      agreed = ground arith;
    }

-- What the store has for the pair after the requests `l` and `r` of its two sides.
abbrev HasAsked : Text → Text → Bool → Bool → MemoryStore → Type 0
HasAsked left right l r s =
    ((get s.org_trust_by_pair (pair_key left right) ≡ none) × (l ≡ false) × (r ≡ false))
    ⊎ ((id : Text) × (e : TrustEdge) × (get s.org_trust_by_pair (pair_key left right) ≡ some id)
        × (get s.org_trusts id ≡ some e)
        × Asked left l r e)

-- A history of two organizations that starts before they have an edge: requests of either, of
-- which `l` and `r` tell whether there has been an accepted one of the left and of the right, and
-- anything that leaves their edge, such as requests and decisions on other edges and refused ones
-- on theirs.
pub data OrgAsked (left right : Text) : Bool → Bool → MemoryStore → Type 0 where
  starts :
      (s : MemoryStore)
      → get s.org_trust_by_pair (pair_key left right) ≡ none
      → OrgAsked left right false false s
  asks :
      {l r : Bool} {s t : MemoryStore} (side peer actor id : Text) (now : Time) (super new : Bool)
      (e : TrustEdge)
      → OrgAsked left right l r s
      → canonical_pair side peer ≡ (left, right)
      → create_or_join_org_trust side peer actor id now super s ≡ (ok (e, new), t)
      → OrgAsked left right (l || text_eq side left) (r || not (text_eq side left)) t
  elsewhere :
      {l r : Bool} {s : MemoryStore} (t : MemoryStore)
      → OrgAsked left right l r s
      → get t.org_trust_by_pair (pair_key left right)
        ≡ get s.org_trust_by_pair (pair_key left right)
      → ((id : Text)
          → get s.org_trust_by_pair (pair_key left right) ≡ some id
          → get t.org_trusts id ≡ get s.org_trusts id)
      → OrgAsked left right l r t

new_edge-Asked :
    (left right actor id : Text) (now : Time)
    → Asked left false false (new_edge org id left right actor now)
unfolding new_edge
new_edge-Asked left right actor id now = record {
  ends = refl;
  left_asked = refl;
  right_asked = refl;
  opened = refl;
  agreed = refl;
}

Accepted-HasAsked :
    (side left right actor id : Text) (now : Time) (s t : MemoryStore) (e : TrustEdge) (l r : Bool)
    → Accepted side left right actor id now s e t
    → HasAsked left right l r s
    → HasAsked left right (l || text_eq side left) (r || not (text_eq side left)) t
Accepted-HasAsked side left right actor id now s t e l r (inl (fresh, made, stored))
      (inr (old, f, at, found, q)) =
    absurd cc
Accepted-HasAsked side left right actor id now s t e l r (inr (old, at, made, stored))
      (inl (fresh, nl, nr)) =
    absurd cc
Accepted-HasAsked side left right actor id now s t e l r (inl (fresh, made, stored))
      (inl (_, nl, nr)) =
    inr (
      e.edge_id,
      e,
      ap (λ (u : Trusts). get u.org_trust_by_pair (pair_key left right)) stored
          ∙ get-put_self s.org_trust_by_pair (pair_key left right) e.edge_id,
      ap (λ (u : Trusts). get u.org_trusts e.edge_id) stored
          ∙ get-put_self s.org_trusts e.edge_id e,
      rw made (
          apply_trust_request-Asked left l r (text_eq side left)
            (new_edge org id left right actor now) now
            (subst (λ b. Asked left b r (new_edge org id left right actor now)) (sym nl)
              (subst (λ b. Asked left false b (new_edge org id left right actor now)) (sym nr)
                (new_edge-Asked left right actor id now)))),
    )
Accepted-HasAsked side left right actor id now s t e l r (inr (old, at, made, stored))
      (inr (old2, f, at2, found, q)) =
    let same : old2 ≡ old = cc in
    let held : get_or s.org_trusts old no_edge ≡ f =
      rw (ap (get s.org_trusts) (sym same) ∙ found) refl in
    inr (
      old,
      e,
      ap (λ (u : Trusts). get u.org_trust_by_pair (pair_key left right)) stored ∙ at,
      ap (λ (u : Trusts). get u.org_trusts old) stored ∙ get-put_self s.org_trusts old e,
      subst
          (λ (x : TrustEdge). Asked left (l || text_eq side left) (r || not (text_eq side left)) x)
          (ap (λ (x : TrustEdge). apply_trust_request x (text_eq side left) now) (sym held)
            ∙ ap (λ k. apply_trust_request (get_or s.org_trusts old no_edge) (text_eq side k) now)
                (sym (ap (λ (x : TrustEdge). x.left_id) held ∙ q.ends))
            ∙ sym made)
          (apply_trust_request-Asked left l r (text_eq side left) f now q),
    )

OrgAsked-HasAsked :
    {left right : Text} {l r : Bool} {s : MemoryStore}
    → OrgAsked left right l r s
    → HasAsked left right l r s
OrgAsked-HasAsked (starts s fresh) = inl (fresh, refl, refl)
OrgAsked-HasAsked {left} {right}
      (asks {l} {r} {s} {t} side peer actor id now super new e before ends h) =
    Accepted-HasAsked side left right actor id now s t e l r
      (request-Accepted side peer actor id now super s t e new left right h ends)
      (OrgAsked-HasAsked before)
OrgAsked-HasAsked {left} {right} (elsewhere {s = s} t before index edges) =
    elim (OrgAsked-HasAsked before) [
      | inl (fresh, nl, nr) ↦ inl (index ∙ fresh, nl, nr)
      | inr (id, e, at, found, q) ↦ inr (id, e, index ∙ at, edges id at ∙ found, q)
    ]

-- Two organizations that have no edge yet trust each other, as `CanPublish` reads it, exactly if
-- each of them has asked for it: after any history of requests of the two, accepted or refused,
-- with anything in between that leaves their edge.
pub requests_both_sides :
    {left right : Text} {l r : Bool} {s : MemoryStore}
    → OrgAsked left right l r s
    → trusted s.org_trust_by_pair s.org_trusts (pair_key left right) ≡ (l && r)
unfolding trusted
requests_both_sides h = elim (OrgAsked-HasAsked h) [
  | inl (fresh, nl, nr) ↦ rw (fresh, trusted) (ground arith)
  | inr (id, e, at, found, q) ↦ rw (at, trusted) (rw found (let a = q.agreed in ground arith))
]
