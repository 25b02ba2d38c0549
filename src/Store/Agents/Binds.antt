-- ===== src/Store/Agents/Binds.antt =====
-- Bind tokens in internal/store/memory.go: one-time tokens for adding an agent, which a human or an
-- agent creates and the new agent redeems. The ids that the source draws are arguments.
use moltenhub.Base.{
  Bool, true, not, ◌&&◌, ◌||◌, Option, none, some, [], ◌∷◌, if◌then◌else◌, is_empty,
}
use moltenhub.Base.Text.{Text, text, text_eq, trim_space}
use moltenhub.Base.Dict.{get, put}
use moltenhub.Model.{Agent, BindToken, TrustEdge, agent, member, admin, active}
use moltenhub.Model.Value.{string, string_pointer, time}
use moltenhub.Model.Clock.{Time}
use moltenhub.Store.State.{
  MemoryStore, Error, Result, Outcome, ok, err, id_failed, invalid_token, org_not_found,
  membership_not_found, unauthorized_role, agent_not_found, hosted_agent_restricted, bind_not_found,
  bind_used, bind_expired,
}
use moltenhub.Store.Roles.{has_role_at_least, membership_role}
use moltenhub.Store.Audit.{append_audit}
use moltenhub.Store.Queue.{live_agent}
use moltenhub.Store.Members.{has_role}
use moltenhub.Store.Invites.{is_after}
use moltenhub.Store.Trust.Edge.{canonical_pair, pair_key, state_text}
use moltenhub.Store.Trust.Request.{is_missing, with_trusts}
use moltenhub.Store.Agents.{
  normalize_agent_name_key, new_agent_uri, new_agent, add_agent, agent_creation_audit_details,
}

unfoldable pub store_bind : BindToken → MemoryStore → MemoryStore
store_bind b s = record s {
  registry = record s.registry {
    binds = put s.binds b.bind_id b;
    bind_by_hash = put s.bind_by_hash b.token_hash b.bind_id;
  };
}

-- What keeps the actor from creating a token for the organization and the owner.
unfoldable pub bind_refusal : MemoryStore → Text → Option Text → Text → Bool → Option Error
bind_refusal s org_id none actor super =
    if is_empty org_id
    then some membership_not_found
    else if is_missing (get s.orgs org_id)
    then some org_not_found
    else if not super && not (has_role_at_least (membership_role s.directory org_id actor) member)
    then some unauthorized_role
    else none
bind_refusal s org_id (some owner) actor super =
    let actor_role = membership_role s.directory org_id actor in
    if is_empty org_id
    then (if is_empty (trim_space owner) || is_missing (get s.humans owner)
        then some membership_not_found
        else if not super && not (text_eq actor owner)
        then some unauthorized_role
        else none)
    else if is_missing (get s.orgs org_id)
    then some org_not_found
    else if not super && not (has_role_at_least actor_role member)
    then some unauthorized_role
    else if not (has_role s org_id owner)
    then some membership_not_found
    else if not super && not (text_eq actor owner) && not (has_role_at_least actor_role admin)
    then some unauthorized_role
    else none

unfoldable pub new_bind : Text → Text → Option Text → Text → Text → Text → Time → Time → BindToken
new_bind id org_id owner host hash creator expires_at now = record {
  bind_id = id;
  org_id = org_id;
  owner_human_id = owner;
  host_agent_uuid = host;
  token_hash = hash;
  created_by = creator;
  created_at = now;
  expires_at = expires_at;
  used_at = none;
}

unfoldable pub create_bind_token :
    Text → Option Text → Text → Text → Text → Time → Time → Bool → MemoryStore → Outcome BindToken
unfolding bind_refusal new_bind store_bind
create_bind_token org_id owner actor bind_id hash expires_at now super s =
    let b = new_bind bind_id org_id owner [] hash actor expires_at now in
    let stored = store_bind b s in
    elim (bind_refusal s org_id owner actor super) [
      | some e ↦ (err e, s)
      | none ↦
          if not (is_missing (get s.bind_by_hash hash))
          then (err invalid_token, s)
          else if is_empty org_id
          then (ok b, stored)
          else (
            ok b,
            append_audit org_id actor (text "agent_bind") (text "create") bind_id
                ((text "owner_human_id", string_pointer owner)
                  ∷ (text "expires_at", time expires_at)
                  ∷ [])
                now stored,
          )
    ]

unfoldable pub create_agent_invite_bind_token :
    Text → Text → Text → Time → Time → MemoryStore → Outcome BindToken
unfolding new_bind store_bind
create_agent_invite_bind_token host_uuid bind_id hash expires_at now s =
    elim (live_agent s.agents (trim_space host_uuid)) [
      | none ↦ (err agent_not_found, s)
      | some host ↦
          let b =
            new_bind bind_id host.org_id none host.agent_uuid hash host.agent_uuid expires_at now in
          let stored = store_bind b s in
          if not (is_empty (trim_space host.host_agent_uuid))
          then (err hosted_agent_restricted, s)
          else if not (is_missing (get s.bind_by_hash hash))
          then (err invalid_token, s)
          else if is_empty host.org_id
          then (ok b, stored)
          else (
            ok b,
            append_audit host.org_id host.agent_uuid (text "agent_bind") (text "create") bind_id
                ((text "host_agent_uuid", string host.agent_uuid)
                  ∷ (text "expires_at", time expires_at)
                  ∷ [])
                now stored,
          )
    ]

-- The edge between a host and the agent that it invited.
unfoldable pub host_edge : Text → Text → Text → Time → TrustEdge
host_edge id host uuid now =
    let (left, right) = canonical_pair host uuid in
    record {
      edge_id = id;
      edge_type = agent;
      left_id = left;
      right_id = right;
      state = active;
      left_approved = true;
      right_approved = true;
      created_by = host;
      created_at = now;
      updated_at = now;
    }

unfoldable pub trust_host : Text → BindToken → Agent → Time → MemoryStore → MemoryStore
trust_host edge_id b a now s =
    let e = host_edge edge_id b.host_agent_uuid a.agent_uuid now in
    append_audit b.org_id b.host_agent_uuid (text "trust_agent") (text "request") edge_id
      ((text "agent_uuid", string b.host_agent_uuid)
        ∷ (text "peer_agent_uuid", string a.agent_uuid)
        ∷ (text "state", string (state_text e.state))
        ∷ (text "source", string (text "agent_invite"))
        ∷ [])
      now
      (with_trusts s (record s.trusts {
        agent_trusts = put s.agent_trusts edge_id e;
        agent_trust_by_pair = put s.agent_trust_by_pair (pair_key e.left_id e.right_id) edge_id;
      }))

-- bind.UsedAt = now; s.binds[bind.BindID] = bind
unfoldable pub use_bind : BindToken → Time → MemoryStore → MemoryStore
use_bind b now s = record s {
  registry = record s.registry { binds = put s.binds b.bind_id (record b { used_at = some now }) };
}

-- The new agent, the spent token, the edge to the host and the audit entries.
unfoldable pub bind_agent : BindToken → Agent → Text → Time → MemoryStore → MemoryStore
unfolding agent_creation_audit_details
bind_agent b a edge_id now s =
    let created =
      append_audit b.org_id b.created_by (text "agent") (text "create") a.agent_uuid
        (agent_creation_audit_details a (text "bind") b.bind_id) now
        (use_bind b now (add_agent a s)) in
    let trusted =
      if is_empty b.host_agent_uuid then created else trust_host edge_id b a now created in
    if is_empty b.org_id
    then trusted
    else append_audit b.org_id b.created_by (text "agent_bind") (text "redeem") b.bind_id
        ((text "agent_id", string a.agent_id) ∷ (text "agent_uuid", string a.agent_uuid) ∷ []) now
        trusted

-- The id of the edge: it is drawn for a host only.
unfoldable pub edge_id_for : Text → Option Text → Option Text
edge_id_for host drawn = if is_empty host then some [] else drawn

unfoldable pub redeem :
    BindToken → Text → Text → Time → Option Text → Option Text → MemoryStore → Outcome Agent
unfolding edge_id_for
redeem b agent_id token_hash now drawn drawn_edge s =
    let handle = normalize_agent_name_key agent_id in
    elim (new_agent_uri s b.org_id b.owner_human_id handle true true) [
      | err e ↦ (err e, s)
      | ok uri ↦ elim drawn [
        | none ↦ (err id_failed, s)
        | some uuid ↦ elim (edge_id_for b.host_agent_uuid drawn_edge) [
          | none ↦ (err id_failed, s)
          | some edge_id ↦
              let a =
                new_agent uuid uri handle none b.org_id b.owner_human_id b.host_agent_uuid
                  token_hash b.created_by now in
              (ok a, bind_agent b a edge_id now s)
        ]
      ]
    ]

-- The token that a hash stands for.
unfoldable pub find_bind : MemoryStore → Text → Option BindToken
find_bind s hash = elim (get s.bind_by_hash hash) [ none ↦ none | some id ↦ get s.binds id ]

unfoldable pub redeem_bind_token :
    Text → Text → Text → Time → Option Text → Option Text → MemoryStore → Outcome Agent
redeem_bind_token hash agent_id token_hash now drawn drawn_edge s = elim (find_bind s hash) [
  | none ↦ (err bind_not_found, s)
  | some b ↦
      if not (is_missing b.used_at)
      then (err bind_used, s)
      else if is_after now b.expires_at
      then (err bind_expired, s)
      else redeem b agent_id token_hash now drawn drawn_edge s
]

unfoldable pub peek_bind_token : Text → MemoryStore → Result BindToken
peek_bind_token hash s = elim (get s.bind_by_hash hash) [
  | none ↦ err bind_not_found
  | some id ↦ elim (get s.binds id) [
    | none ↦ err bind_not_found
    | some b ↦ if is_empty id then err bind_not_found else ok b
  ]
]
