-- ===== src/Store/Trust/RevokeAgent.antt =====
-- The loop over the agent edges of `RevokeAgent` in internal/store/memory.go: the edges of the
-- agent are revoked.
use moltenhub.Base.{
  ◌≡◌, refl, sym, ap, subst, ◌∙◌, inl, inr, ◌&&◌, ◌||◌, not, none, some, [], ◌∷◌, arith,
  if◌then◌else◌, Bool-cases, Option-cases,
}
use moltenhub.Base.Text.{Text, text_eq}
use moltenhub.Base.Dict.{Dict, get}
use moltenhub.Model.{TrustEdge, revoked}
use moltenhub.Model.Clock.{Time}
use moltenhub.Store.State.{MemoryStore}
use moltenhub.Store.Queue.{is_revoked}
use moltenhub.Store.Trust.Request.{with_trusts}
use moltenhub.Store.Trust.Decide.{close_edge}
use moltenhub.Store.Trust.Consent.{IsConsistent, SameEnds, close_edge-IsConsistent}
use moltenhub.Store.Trust.Graph.{IsGraph}
use moltenhub.Store.Trust.Safety.{IsTrusted}

unfoldable pub revoke_agent_edge : Text → Time → TrustEdge → TrustEdge
revoke_agent_edge uuid now e =
    if (text_eq e.left_id uuid || text_eq e.right_id uuid) && not (is_revoked e.state)
    then close_edge revoked now e
    else e

unfoldable pub revoke_agent_edges : Text → Time → Dict TrustEdge → Dict TrustEdge
unfolding revoke_agent_edge
revoke_agent_edges uuid now [] = []
revoke_agent_edges uuid now ((k, e) ∷ edges) =
    (k, revoke_agent_edge uuid now e) ∷ revoke_agent_edges uuid now edges

unfoldable pub revoke_agent_trusts : Text → Time → MemoryStore → MemoryStore
unfolding revoke_agent_edges
revoke_agent_trusts uuid now s =
    with_trusts s (record s.trusts { agent_trusts = revoke_agent_edges uuid now s.agent_trusts })

module _ (uuid : Text) (now : Time) where
  revoke_agent_edge-IsConsistent :
      (e : TrustEdge) → IsConsistent e → IsConsistent (revoke_agent_edge uuid now e)
  unfolding revoke_agent_edge
  revoke_agent_edge-IsConsistent e c =
      elim (Bool-cases
        ((text_eq e.left_id uuid || text_eq e.right_id uuid) && not (is_revoked e.state))) [
          | inl own ↦ rw (own, revoke_agent_edge) (close_edge-IsConsistent e now revoked refl)
          | inr other ↦ rw (other, revoke_agent_edge) c
        ]

  revoke_agent_edge-SameEnds : (e : TrustEdge) → SameEnds e (revoke_agent_edge uuid now e)
  unfolding revoke_agent_edge close_edge
  revoke_agent_edge-SameEnds e = ground arith

  pub get-revoke_agent_edges :
      (edges : Dict TrustEdge) (id : Text)
      → get (revoke_agent_edges uuid now edges) id
        ≡ elim (get edges id) [ none ↦ none | some e ↦ some (revoke_agent_edge uuid now e) ]
  unfolding revoke_agent_edges get
  get-revoke_agent_edges [] id = refl
  get-revoke_agent_edges ((k, e) ∷ edges) id = elim (Bool-cases (text_eq k id)) [
    | inl same ↦ rw same
    | inr other ↦ rw other (get-revoke_agent_edges edges id)
  ]

  -- An edge that is found afterwards comes from one that was there.
  origin :
      (edges : Dict TrustEdge) (id : Text) (q : TrustEdge)
      → get (revoke_agent_edges uuid now edges) id ≡ some q
      → (e : TrustEdge) × (get edges id ≡ some e) × (revoke_agent_edge uuid now e ≡ q)
  origin edges id q h = elim (Option-cases (get edges id)) [
    | inl missing ↦ absurd (nothing missing)
    | inr (e, found) ↦ (e, found, ground (arith, get-revoke_agent_edges edges id))
  ]
    where
      nothing : get edges id ≡ none → ⊥
      nothing missing = ground (arith, get-revoke_agent_edges edges id)

  revoke_agent_edges-IsGraph :
      (edges : Dict TrustEdge) (by_pair : Dict Text)
      → IsGraph edges by_pair
      → IsGraph (revoke_agent_edges uuid now edges) by_pair
  revoke_agent_edges-IsGraph edges by_pair g = record {
    keyed = λ id q h.
        let (e, found, own) = origin edges id q h in
        ap (λ (x : TrustEdge). x.edge_id) (sym own)
        ∙ (revoke_agent_edge-SameEnds e).same_id
        ∙ g.keyed id e found;
    consistent = λ id q h.
        let (e, found, own) = origin edges id q h in
        subst (λ x. IsConsistent x) own
          (revoke_agent_edge-IsConsistent e (g.consistent id e found));
    indexed = λ key id h.
        let (e, found, joins) = g.indexed key id h in
        let same = revoke_agent_edge-SameEnds e in
        (
          revoke_agent_edge uuid now e,
          ground (arith, get-revoke_agent_edges edges id),
          rw (same.same_left, same.same_right) joins,
        );
  }

  pub revoke_agent_trusts-IsTrusted :
      (s : MemoryStore) → IsTrusted s.trusts → IsTrusted (revoke_agent_trusts uuid now s).trusts
  unfolding revoke_agent_trusts
  revoke_agent_trusts-IsTrusted s v = record {
    org_graph = v.org_graph;
    agent_graph = revoke_agent_edges-IsGraph s.agent_trusts s.agent_trust_by_pair v.agent_graph;
  }
