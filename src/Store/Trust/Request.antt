-- ===== src/Store/Trust/Request.antt =====
-- Asking for trust: `createOrJoinTrustLocked` of internal/store/memory.go and its two callers.
use moltenhub.Base.{
  Bool, true, false, not, ◌&&◌, ◌||◌, Option, none, some, [], ◌∷◌, if◌then◌else◌, is_empty,
}
use moltenhub.Base.Text.{Text, text, text_eq, trim_space}
use moltenhub.Base.Dict.{get, put, get_or}
use moltenhub.Model.{TrustEdge, EdgeType, org, agent, unknown, Agent, admin}
use moltenhub.Model.Value.{string}
use moltenhub.Model.Clock.{Time}
use moltenhub.Store.State.{
  MemoryStore, Trusts, Outcome, ok, err, org_not_found, agent_not_found, unauthorized_role,
  invalid_edge_type, self_trust,
}
use moltenhub.Store.Roles.{
  has_role_at_least, membership_role, can_manage_agent, can_request_agent_trust,
}
use moltenhub.Store.Queue.{live_agent}
use moltenhub.Store.Audit.{append_audit}
use moltenhub.Store.Trust.Edge.{
  canonical_pair, pair_key, apply_trust_request, apply_agent_trust_request, opposite, state_text,
  no_edge, new_edge, force_active,
}

abbrev pub with_trusts : MemoryStore → Trusts → MemoryStore
with_trusts s t = record s { trusts = t }

audit_org_request : Text → Text → TrustEdge → Time → MemoryStore → MemoryStore
unfolding state_text opposite
audit_org_request side actor e now =
    append_audit side actor (text "trust_org") (text "request") e.edge_id
      ((text "peer_org_id", string (opposite e side))
        ∷ (text "state", string (state_text e.state))
        ∷ [])
      now

audit_agent_request : Text → Text → Text → TrustEdge → Time → MemoryStore → MemoryStore
unfolding state_text opposite
audit_agent_request side_org actor side e now =
    append_audit side_org actor (text "trust_agent") (text "request") e.edge_id
      ((text "agent_uuid", string (trim_space side))
        ∷ (text "peer_agent_uuid", string (opposite e side))
        ∷ (text "state", string (state_text e.state))
        ∷ [])
      now

unfoldable pub join_org :
    Option Text
    → Text
    → Text
    → Text
    → Text
    → Text
    → Text
    → Time
    → MemoryStore
    → Outcome (TrustEdge × Bool)
unfolding audit_org_request new_edge
join_org (some id) key side left right actor edge_id now s =
    let existing = get_or s.org_trusts id no_edge in
    let e = apply_trust_request existing (text_eq side existing.left_id) now in
    (
      ok (e, false),
      audit_org_request side actor e now
          (with_trusts s (record s.trusts { org_trusts = put s.org_trusts id e })),
    )
join_org none key side left right actor edge_id now s =
    let e =
      apply_trust_request (new_edge org edge_id left right actor now) (text_eq side left) now in
    (
      ok (e, true),
      audit_org_request side actor e now (
          with_trusts s (record s.trusts {
            org_trusts = put s.org_trusts e.edge_id e;
            org_trust_by_pair = put s.org_trust_by_pair key e.edge_id;
          })),
    )

abbrev pub is_missing {ℓ} : {V : Type ℓ} → Option V → Bool
is_missing none = true
is_missing (some _) = false

unfoldable pub create_or_join_org :
    Text → Text → Text → Text → Time → Bool → MemoryStore → Outcome (TrustEdge × Bool)
unfolding join_org
create_or_join_org side peer actor edge_id now super s =
    let (left, right) = canonical_pair side peer in
    if is_missing (get s.orgs left) || is_missing (get s.orgs right)
    then (err org_not_found, s)
    else if not super && not (has_role_at_least (membership_role s.directory side actor) admin)
    then (err unauthorized_role, s)
    else join_org (get s.org_trust_by_pair (pair_key left right)) (pair_key left right) side left
        right actor edge_id now s

unfoldable pub join_agent :
    Option Text
    → Text
    → Text
    → Bool
    → Text
    → Text
    → Text
    → Text
    → Text
    → Time
    → Bool
    → MemoryStore
    → Outcome (TrustEdge × Bool)
unfolding audit_agent_request new_edge force_active
join_agent (some id) key side_org can_approve side left right actor edge_id now super s =
    let existing = get_or s.agent_trusts id no_edge in
    let e =
      force_active s.directory super actor now
        (apply_agent_trust_request existing (text_eq side existing.left_id) can_approve now) in
    (
      ok (e, false),
      audit_agent_request side_org actor side e now
          (with_trusts s (record s.trusts { agent_trusts = put s.agent_trusts id e })),
    )
join_agent none key side_org can_approve side left right actor edge_id now super s =
    let e = force_active s.directory super actor now (
      apply_agent_trust_request (new_edge agent edge_id left right actor now) (text_eq side left)
        can_approve now) in
    (
      ok (e, true),
      audit_agent_request side_org actor side e now (
          with_trusts s (record s.trusts {
            agent_trusts = put s.agent_trusts e.edge_id e;
            agent_trust_by_pair = put s.agent_trust_by_pair key e.edge_id;
          })),
    )

unfoldable pub agent_request :
    Agent → Text → Text → Text → Text → Time → Bool → MemoryStore → Outcome (TrustEdge × Bool)
unfolding join_agent
agent_request side_agent side peer actor edge_id now super s =
    let (left, right) = canonical_pair side peer in
    let can_approve = super || can_manage_agent s.directory side_agent actor in
    if not super && not (can_request_agent_trust s.directory side_agent actor)
    then (err unauthorized_role, s)
    else join_agent (get s.agent_trust_by_pair (pair_key left right)) (pair_key left right)
        side_agent.org_id can_approve side left right actor edge_id now super s

unfoldable pub create_or_join_agent :
    Text → Text → Text → Text → Time → Bool → MemoryStore → Outcome (TrustEdge × Bool)
unfolding agent_request
create_or_join_agent side peer actor edge_id now super s =
    let (left, right) = canonical_pair side peer in
    if is_missing (get s.agents left) || is_missing (get s.agents right)
    then (err agent_not_found, s)
    else elim (get s.agents side) [
      | none ↦ (err agent_not_found, s)
      | some side_agent ↦ agent_request side_agent side peer actor edge_id now super s
    ]

unfoldable pub create_or_join_trust :
    EdgeType → Text → Text → Text → Text → Time → Bool → MemoryStore → Outcome (TrustEdge × Bool)
unfolding create_or_join_org create_or_join_agent
create_or_join_trust (unknown _) side peer actor edge_id now super s = (err invalid_edge_type, s)
create_or_join_trust org side peer actor edge_id now super s =
    if text_eq side peer
    then (err self_trust, s)
    else create_or_join_org side peer actor edge_id now super s
create_or_join_trust agent side peer actor edge_id now super s =
    if text_eq side peer
    then (err self_trust, s)
    else create_or_join_agent side peer actor edge_id now super s

unfoldable pub create_or_join_org_trust :
    Text → Text → Text → Text → Time → Bool → MemoryStore → Outcome (TrustEdge × Bool)
create_or_join_org_trust = create_or_join_trust org

unfoldable pub create_or_join_agent_trust :
    Text → Text → Text → Text → Text → Time → Bool → MemoryStore → Outcome (TrustEdge × Bool)
unfolding live_agent
create_or_join_agent_trust org_id uuid peer_uuid actor edge_id now super s =
    elim (live_agent s.agents uuid) [
      | none ↦ (err agent_not_found, s)
      | some a ↦
          if not (is_empty org_id) && not (text_eq a.org_id org_id)
          then (err unauthorized_role, s)
          else if not super && not (can_request_agent_trust s.directory a actor)
          then (err unauthorized_role, s)
          else elim (live_agent s.agents peer_uuid) [
            | none ↦ (err agent_not_found, s)
            | some _ ↦ create_or_join_trust agent uuid peer_uuid actor edge_id now super s
          ]
    ]
