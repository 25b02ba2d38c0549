-- ===== src/Store/Trust/Decide.antt =====
-- Deciding on an edge: approving, blocking and revoking it, in internal/store/memory.go.
use moltenhub.Base.{Bool, true, false, ◌&&◌, ◌||◌, none, some, [], ◌∷◌, ◌++◌, if◌then◌else◌}
use moltenhub.Base.Text.{Text, text}
use moltenhub.Base.Dict.{get, put}
use moltenhub.Model.{
  TrustEdge, EdgeType, org, agent, unknown, Status, pending, blocked, revoked, Agent, admin,
}
use moltenhub.Model.Value.{Metadata, string}
use moltenhub.Model.Clock.{Time}
use moltenhub.Store.State.{
  MemoryStore, Trusts, Directory, Result, Outcome, ok, err, agent_not_found, trust_not_found,
  unauthorized_role, invalid_edge_type,
}
use moltenhub.Store.Roles.{has_role_at_least, membership_role, can_manage_agent}
use moltenhub.Store.Audit.{append_audit}
use moltenhub.Store.Trust.Edge.{state_text, settle, approve_side, activate, manages_both, is_closed}
use moltenhub.Store.Trust.Request.{with_trusts}

-- The edge that an actor may decide on, whether the actor stands on its left, and the organization
-- that the decision is recorded for.
abbrev pub Loaded : Type 0
Loaded = Result (TrustEdge × Bool × Text)

unfoldable pub load_org_edge : TrustEdge → Text → Bool → Directory → Loaded
load_org_edge e actor super d =
    if super
    then ok (e, true, e.left_id)
    else if has_role_at_least (membership_role d e.left_id actor) admin
    then ok (e, true, e.left_id)
    else if has_role_at_least (membership_role d e.right_id actor) admin
    then ok (e, false, e.right_id)
    else err unauthorized_role

load_agents_edge : TrustEdge → Agent → Agent → Text → Bool → Directory → Loaded
load_agents_edge e left right actor super d =
    if super
    then ok (e, true, left.org_id)
    else if can_manage_agent d left actor
    then ok (e, true, left.org_id)
    else if can_manage_agent d right actor
    then ok (e, false, right.org_id)
    else err unauthorized_role

unfoldable pub load_agent_edge : TrustEdge → Text → Bool → Directory → Loaded
unfolding load_agents_edge
load_agent_edge e actor super d = elim (get d.agents e.left_id) [
  | none ↦ err agent_not_found
  | some left ↦ elim (get d.agents e.right_id) [
    | none ↦ err agent_not_found
    | some right ↦ load_agents_edge e left right actor super d
  ]
]

unfoldable pub load_edge_for_actor : EdgeType → Text → Text → Bool → MemoryStore → Loaded
unfolding load_org_edge load_agent_edge
load_edge_for_actor (unknown _) edge_id actor super s = err invalid_edge_type
load_edge_for_actor org edge_id actor super s = elim (get s.org_trusts edge_id) [
  | none ↦ err trust_not_found
  | some e ↦ load_org_edge e actor super s.directory
]
load_edge_for_actor agent edge_id actor super s = elim (get s.agent_trusts edge_id) [
  | none ↦ err trust_not_found
  | some e ↦ load_agent_edge e actor super s.directory
]

unfoldable pub store_edge : EdgeType → TrustEdge → Trusts → Trusts
store_edge org e t = record t { org_trusts = put t.org_trusts e.edge_id e }
store_edge agent e t = record t { agent_trusts = put t.agent_trusts e.edge_id e }
store_edge (unknown _) e t = record t { agent_trusts = put t.agent_trusts e.edge_id e }

kind_text : EdgeType → Text
kind_text org = text "org"
kind_text agent = text "agent"
kind_text (unknown t) = t

pair_details : TrustEdge → Metadata
pair_details e =
    (text "agent_uuid", string e.left_id) ∷ (text "peer_agent_uuid", string e.right_id) ∷ []

-- Stores the edge and records the decision.
unfoldable pub decided :
    EdgeType → Text → Text → Text → Metadata → Time → TrustEdge → MemoryStore → Outcome TrustEdge
unfolding kind_text store_edge
decided kind org_id actor action details now e s = (
  ok e,
  append_audit org_id actor (text "trust_" ++ kind_text kind) action e.edge_id details now
      (with_trusts s (store_edge kind e s.trusts)),
)

unfoldable pub is_agent : EdgeType → Bool
is_agent agent = true
is_agent _ = false

-- The approval of one side of a loaded edge.
unfoldable pub approve_edge : Bool → Time → TrustEdge → TrustEdge
unfolding approve_side settle
approve_edge actor_left now e =
    settle now
      (approve_side actor_left (if is_closed e.state then record e { state = pending } else e))

unfoldable pub approve_loaded :
    EdgeType → Text → Time → Bool → TrustEdge → Bool → Text → MemoryStore → Outcome TrustEdge
unfolding decided is_agent approve_edge pair_details state_text
approve_loaded kind actor now super e actor_left org_id s =
    let approved =
      if is_agent kind && (super || manages_both s.directory e actor)
      then activate now e
      else approve_edge actor_left now e in
    decided kind org_id actor (text "approve")
      ((text "state", string (state_text approved.state)) ∷ pair_details approved) now approved s

unfoldable pub close_edge : Status → Time → TrustEdge → TrustEdge
close_edge state now e = record e {
  state = state;
  left_approved = false;
  right_approved = false;
  updated_at = now;
}

unfoldable pub approve_trust :
    EdgeType → Text → Text → Time → Bool → MemoryStore → Outcome TrustEdge
unfolding approve_loaded
approve_trust kind edge_id actor now super s =
    elim (load_edge_for_actor kind edge_id actor super s) [
      | err x ↦ (err x, s)
      | ok (e, actor_left, org_id) ↦ approve_loaded kind actor now super e actor_left org_id s
    ]

unfoldable pub block_trust : EdgeType → Text → Text → Time → Bool → MemoryStore → Outcome TrustEdge
unfolding decided close_edge pair_details
block_trust kind edge_id actor now super s = elim (load_edge_for_actor kind edge_id actor super s) [
  | err x ↦ (err x, s)
  | ok (e, _, org_id) ↦
      decided kind org_id actor (text "block") (pair_details e) now (close_edge blocked now e) s
]

unfoldable pub revoke_trust : EdgeType → Text → Text → Time → Bool → MemoryStore → Outcome TrustEdge
unfolding decided close_edge pair_details
revoke_trust kind edge_id actor now super s =
    elim (load_edge_for_actor kind edge_id actor super s) [
      | err x ↦ (err x, s)
      | ok (e, _, org_id) ↦
          decided kind org_id actor (text "revoke") (pair_details e) now (close_edge revoked now e)
            s
    ]

-- The exported methods fix the kind of the edge.
abbrev pub approve_org_trust : Text → Text → Time → Bool → MemoryStore → Outcome TrustEdge
approve_org_trust = approve_trust org

abbrev pub block_org_trust : Text → Text → Time → Bool → MemoryStore → Outcome TrustEdge
block_org_trust = block_trust org

abbrev pub revoke_org_trust : Text → Text → Time → Bool → MemoryStore → Outcome TrustEdge
revoke_org_trust = revoke_trust org

abbrev pub approve_agent_trust : Text → Text → Time → Bool → MemoryStore → Outcome TrustEdge
approve_agent_trust = approve_trust agent

abbrev pub block_agent_trust : Text → Text → Time → Bool → MemoryStore → Outcome TrustEdge
block_agent_trust = block_trust agent

abbrev pub revoke_agent_trust : Text → Text → Time → Bool → MemoryStore → Outcome TrustEdge
revoke_agent_trust = revoke_trust agent
