-- ===== src/Store/Agents/Names/Ops.antt =====
-- The operations on agents, as a whole, keep the index by URI.
use moltenhub.Base.{
  inl, inr, Option, none, some, [], Bool, true, false, not, ◌&&◌, ◌||◌, Bool-cases, Option-cases,
  if◌then◌else◌, is_empty,
}
use moltenhub.Base.Text.{Text}
use moltenhub.Base.Dict.{get}
use moltenhub.Model.{Agent, BindToken, member}
use moltenhub.Model.Clock.{Time}
use moltenhub.Store.State.{MemoryStore, Result-cases}
use moltenhub.Store.Roles.{can_manage_agent, can_delete_agent, has_role_at_least, membership_role}
use moltenhub.Store.Queue.{is_revoked, live_agent}
use moltenhub.Store.Queue.Purge.{purge_agent_queues}
use moltenhub.Store.Trust.RevokeAgent.{revoke_agent_trusts}
use moltenhub.Store.Trust.Request.{is_missing}
use moltenhub.Store.Invites.{is_after}
use moltenhub.Store.Agents.{
  new_agent_uri, new_agent, add_agent, register_agent, audit_registration, normalize_agent_name_key,
  owner_is,
}
use moltenhub.Store.Agents.Binds.{
  redeem_bind_token, redeem, bind_agent, trust_host, use_bind, find_bind, edge_id_for,
}
use moltenhub.Store.Agents.Retire.{
  rotate_agent_token, revoke_agent, delete_agent, delete_agent_trusts, delete_agent_queues,
}
use moltenhub.Store.Agents.Names.Steps.{
  Named, append_audit-Named, new_agent_uri_free, add_agent-Named, replace_token-Named,
  close_agent-Named, archive_agent-Named, live_agent_lem,
}

if-Named : (b : Bool) (s t : MemoryStore) → Named s → Named t → Named (if b then s else t)
if-Named true s t m n = m
if-Named false s t m n = n

audit_registration-Named :
    (a : Agent) (actor : Text) (now : Time) (s : MemoryStore)
    → Named s
    → Named (audit_registration a actor now s)
unfolding audit_registration
audit_registration-Named a actor now s n =
    let created = append_audit-Named _ _ _ _ _ _ _ s n in
    if-Named _ _ _ created (append_audit-Named _ _ _ _ _ _ _ _ created)

pub register_agent-Named :
    (org_id agent_id : Text) (owner : Option Text) (token actor : Text) (now : Time) (super : Bool)
    (drawn : Option Text) (s : MemoryStore)
    → Named s
    → Named (register_agent org_id agent_id owner token actor now super drawn s).1
unfolding register_agent
register_agent-Named org_id agent_id owner token actor now super none s n =
    elim (Result-cases (
      new_agent_uri s org_id owner (normalize_agent_name_key agent_id)
        (not (is_empty org_id) || super || owner_is owner actor)
        (super || has_role_at_least (membership_role s.directory org_id actor) member))) [
          | inl (uri, free) ↦ rw (free, register_agent) n
          | inr (e, refused) ↦ rw (refused, register_agent) n
        ]
register_agent-Named org_id agent_id owner token actor now super (some uuid) s n =
    elim (Result-cases (
      new_agent_uri s org_id owner (normalize_agent_name_key agent_id)
        (not (is_empty org_id) || super || owner_is owner actor)
        (super || has_role_at_least (membership_role s.directory org_id actor) member))) [
          | inl (uri, free) ↦
              let a =
                new_agent uuid uri (normalize_agent_name_key agent_id) (some now) org_id owner []
                  token actor now in
              rw (free, register_agent)
                (audit_registration-Named a actor now _
                  (add_agent-Named a s (new_agent_uri_free s _ _ _ _ _ uri free) n))
          | inr (e, refused) ↦ rw (refused, register_agent) n
        ]

trust_host-Named :
    (edge_id : Text) (b : BindToken) (a : Agent) (now : Time) (s : MemoryStore)
    → Named s
    → Named (trust_host edge_id b a now s)
unfolding trust_host
trust_host-Named edge_id b a now s n = append_audit-Named _ _ _ _ _ _ _ _ n

bind_agent-Named :
    (b : BindToken) (a : Agent) (edge_id : Text) (now : Time) (s : MemoryStore)
    → Named (add_agent a s)
    → Named (bind_agent b a edge_id now s)
unfolding bind_agent use_bind
bind_agent-Named b a edge_id now s n =
    let created = append_audit-Named _ _ _ _ _ _ _ (use_bind b now (add_agent a s)) n in
    let trusted =
      if-Named (is_empty b.host_agent_uuid) _ _ created
        (trust_host-Named edge_id b a now _ created) in
    if-Named _ _ _ trusted (append_audit-Named _ _ _ _ _ _ _ _ trusted)

redeem-Named :
    (b : BindToken) (agent_id token : Text) (now : Time) (drawn edge : Option Text)
    (s : MemoryStore)
    → Named s
    → Named (redeem b agent_id token now drawn edge s).1
unfolding redeem
redeem-Named b agent_id token now drawn edge s n =
    elim (Result-cases
      (new_agent_uri s b.org_id b.owner_human_id (normalize_agent_name_key agent_id) true true)) [
        | inr (e, refused) ↦ rw (refused, redeem) n
        | inl (uri, free) ↦ elim (Option-cases drawn) [
          | inl failed ↦ rw (free, redeem) (rw (failed, redeem) n)
          | inr (uuid, drew) ↦ elim (Option-cases (edge_id_for b.host_agent_uuid edge)) [
            | inl failed ↦ rw (free, redeem) (rw (drew, redeem) (rw (failed, redeem) n))
            | inr (edge_id, drew_edge) ↦
                let a =
                  new_agent uuid uri (normalize_agent_name_key agent_id) none b.org_id
                    b.owner_human_id b.host_agent_uuid token b.created_by now in
                rw (free, redeem)
                  (rw (drew, redeem)
                    (rw (drew_edge, redeem)
                      (bind_agent-Named b a edge_id now s
                        (add_agent-Named a s (new_agent_uri_free s _ _ _ _ _ uri free) n))))
          ]
        ]
      ]

pub redeem_bind_token-Named :
    (hash agent_id token : Text) (now : Time) (drawn edge : Option Text) (s : MemoryStore)
    → Named s
    → Named (redeem_bind_token hash agent_id token now drawn edge s).1
unfolding redeem_bind_token
redeem_bind_token-Named hash agent_id token now drawn edge s n =
    elim (Option-cases (find_bind s hash)) [
      | inl missing ↦ rw (missing, redeem_bind_token) n
      | inr (b, found) ↦ elim (Bool-cases (not (is_missing b.used_at))) [
        | inl used ↦ rw (found, redeem_bind_token) (rw (used, redeem_bind_token) n)
        | inr unused ↦ elim (Bool-cases (is_after now b.expires_at)) [
          | inl late ↦
              rw (found, redeem_bind_token)
                (rw (unused, redeem_bind_token) (rw (late, redeem_bind_token) n))
          | inr timely ↦
              rw (found, redeem_bind_token)
                (rw (unused, redeem_bind_token)
                  (rw (timely, redeem_bind_token)
                    (redeem-Named b agent_id token now drawn edge s n)))
        ]
      ]
    ]

pub rotate_agent_token-Named :
    (id actor token : Text) (now : Time) (super : Bool) (s : MemoryStore)
    → Named s
    → Named (rotate_agent_token id actor token now super s).1
unfolding rotate_agent_token
rotate_agent_token-Named id actor token now super s n =
    elim (Option-cases (live_agent s.agents id)) [
      | inl missing ↦ rw (missing, rotate_agent_token) n
      | inr (a, found) ↦
          elim (Bool-cases (not super && not (can_manage_agent s.directory a actor))) [
            | inl denied ↦ rw (found, rotate_agent_token) (rw (denied, rotate_agent_token) n)
            | inr granted ↦
                rw (found, rotate_agent_token)
                  (rw (granted, rotate_agent_token)
                    (append_audit-Named _ _ _ _ _ _ _ _
                      (replace_token-Named id token a s (live_agent_lem s.agents id a found).0 n)))
          ]
    ]

pub revoke_agent-Named :
    (id actor : Text) (now : Time) (super : Bool) (s : MemoryStore)
    → Named s
    → Named (revoke_agent id actor now super s).1
unfolding revoke_agent purge_agent_queues revoke_agent_trusts
revoke_agent-Named id actor now super s n = elim (Option-cases (get s.agents id)) [
  | inl missing ↦ rw (missing, revoke_agent) n
  | inr (a, found) ↦ elim (Bool-cases (not super && not (can_manage_agent s.directory a actor))) [
    | inl denied ↦ rw (found, revoke_agent) (rw (denied, revoke_agent) n)
    | inr granted ↦ elim (Bool-cases (is_revoked a.status)) [
      | inl already ↦
          rw (found, revoke_agent) (rw (granted, revoke_agent) (rw (already, revoke_agent) n))
      | inr live ↦
          rw (found, revoke_agent)
            (rw (granted, revoke_agent)
              (rw (live, revoke_agent)
                (append_audit-Named _ _ _ _ _ _ _ _ (close_agent-Named id a now s found live n))))
    ]
  ]
]

pub delete_agent-Named :
    (id actor : Text) (now : Time) (super : Bool) (s : MemoryStore)
    → Named s
    → Named (delete_agent id actor now super s).1
unfolding delete_agent delete_agent_queues delete_agent_trusts
delete_agent-Named id actor now super s n = elim (Option-cases (get s.agents id)) [
  | inl missing ↦ rw (missing, delete_agent) n
  | inr (a, found) ↦ elim (Bool-cases (not super && not (can_delete_agent s.directory a actor))) [
    | inl denied ↦ rw (found, delete_agent) (rw (denied, delete_agent) n)
    | inr granted ↦
        rw (found, delete_agent)
          (rw (granted, delete_agent)
            (append_audit-Named _ _ _ _ _ _ _ _ (archive_agent-Named id a now s n)))
  ]
]
