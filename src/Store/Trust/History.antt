-- ===== src/Store/Trust/History.antt =====
-- Trust as a transition system, and what it means for sending messages.
use moltenhub.Base.{
  Option, ◌≡◌, ◌⊎◌, inl, inr, Bool, true, false, none, some, arith, Bool-cases, Option-cases,
}
use moltenhub.Base.Text.{Text, trim_space}
use moltenhub.Base.Dict.{Dict, get}
use moltenhub.Model.{TrustEdge, EdgeType, org, Agent}
use moltenhub.Model.Clock.{Time}
use moltenhub.Store.State.{MemoryStore, new_memory_store}
use moltenhub.Store.Roles.{is_active}
use moltenhub.Store.Publish.{can_publish_locked, orgs_differ, trusted}
use moltenhub.Store.Trust.Edge.{pair_key}
use moltenhub.Store.Trust.Request.{create_or_join_trust, create_or_join_agent_trust}
use moltenhub.Store.Agents.Binds.{redeem_bind_token}
use moltenhub.Store.Agents.Retire.{revoke_agent, delete_agent}
use moltenhub.Store.Trust.Agents.{
  revoke_agent-IsTrusted, delete_agent-IsTrusted, redeem_bind_token-IsTrusted,
}
use moltenhub.Store.Trust.Decide.{approve_trust, block_trust, revoke_trust}
use moltenhub.Store.Trust.Graph.{IsGraph}
use moltenhub.Store.Trust.Safety.{IsTrusted, IsFresh, create_or_join_trust-IsTrusted}
use moltenhub.Store.Trust.Decisions.{
  approve_trust-IsTrusted, block_trust-IsTrusted, revoke_trust-IsTrusted,
  create_or_join_agent_trust-IsTrusted,
}

-- The ids of new edges are fresh, as the handlers draw them. Other operations may move the rest of
-- the store between two steps, and leave the trusts.
pub data TrustStep (s : MemoryStore) : MemoryStore → Type 0 where
  requests_org :
      (side peer actor id : Text) (now : Time) (super : Bool)
      → IsFresh s.trusts id
      → TrustStep s (create_or_join_trust org side peer actor id now super s).1
  requests_agent :
      (org_id side peer actor id : Text) (now : Time) (super : Bool)
      → IsFresh s.trusts id
      → TrustStep s (create_or_join_agent_trust org_id side peer actor id now super s).1
  approves :
      (kind : EdgeType) (id actor : Text) (now : Time) (super : Bool)
      → TrustStep s (approve_trust kind id actor now super s).1
  blocks :
      (kind : EdgeType) (id actor : Text) (now : Time) (super : Bool)
      → TrustStep s (block_trust kind id actor now super s).1
  revokes :
      (kind : EdgeType) (id actor : Text) (now : Time) (super : Bool)
      → TrustStep s (revoke_trust kind id actor now super s).1
  revokes_agent :
      (uuid actor : Text) (now : Time) (super : Bool)
      → TrustStep s (revoke_agent uuid actor now super s).1
  deletes_agent :
      (uuid actor : Text) (now : Time) (super : Bool)
      → TrustStep s (delete_agent uuid actor now super s).1
  redeems :
      (hash agent_id token : Text) (now : Time) (drawn edge : Option Text)
      → ((id : Text) → edge ≡ some id → IsFresh s.trusts id)
      → TrustStep s (redeem_bind_token hash agent_id token now drawn edge s).1
  elsewhere : (t : MemoryStore) → t.trusts ≡ s.trusts → TrustStep s t

pub data TrustReach (s : MemoryStore) : MemoryStore → Type 0 where
  here : TrustReach s s
  next : {t u : MemoryStore} → TrustReach s t → TrustStep t u → TrustReach s u

pub TrustStep-IsTrusted :
    {s t : MemoryStore} → TrustStep s t → IsTrusted s.trusts → IsTrusted t.trusts
TrustStep-IsTrusted {s} (requests_org side peer actor id now super fresh) v =
    create_or_join_trust-IsTrusted org side peer actor id now super s fresh v
TrustStep-IsTrusted {s} (requests_agent org_id side peer actor id now super fresh) v =
    create_or_join_agent_trust-IsTrusted org_id side peer actor id now super s fresh v
TrustStep-IsTrusted {s} (approves kind id actor now super) v =
    approve_trust-IsTrusted kind id actor now super s v
TrustStep-IsTrusted {s} (blocks kind id actor now super) v =
    block_trust-IsTrusted kind id actor now super s v
TrustStep-IsTrusted {s} (revokes kind id actor now super) v =
    revoke_trust-IsTrusted kind id actor now super s v
TrustStep-IsTrusted {s} (revokes_agent uuid actor now super) v =
    revoke_agent-IsTrusted uuid actor now super s v
TrustStep-IsTrusted {s} (deletes_agent uuid actor now super) v =
    delete_agent-IsTrusted uuid actor now super s v
TrustStep-IsTrusted {s} (redeems hash agent_id token now drawn edge fresh) v =
    redeem_bind_token-IsTrusted hash agent_id token now drawn edge s fresh v
TrustStep-IsTrusted {s} (elsewhere t same) v = rw same v

new_memory_store-IsTrusted : IsTrusted new_memory_store.trusts
unfolding new_memory_store get
new_memory_store-IsTrusted = record {
  org_graph = record { keyed = λ id e h. cc; consistent = λ id e h. cc; indexed = λ key id h. cc };
  agent_graph = record {
    keyed = λ id e h. cc;
    consistent = λ id e h. cc;
    indexed = λ key id h. cc;
  };
}

pub TrustReach-IsTrusted : {s : MemoryStore} → TrustReach new_memory_store s → IsTrusted s.trusts
TrustReach-IsTrusted here = new_memory_store-IsTrusted
TrustReach-IsTrusted (next r st) = TrustStep-IsTrusted st (TrustReach-IsTrusted r)

-- An edge that both of its sides approve, joining the pair of a key.
abbrev pub HasConsent : Dict TrustEdge → Text → Type 0
HasConsent edges key =
    (id : Text) × (e : TrustEdge) × (get edges id ≡ some e)
    × (pair_key e.left_id e.right_id ≡ key)
    × (e.left_approved ≡ true)
    × (e.right_approved ≡ true)

trusted_consent :
    (edges : Dict TrustEdge) (by_pair : Dict Text) (key : Text)
    → IsGraph edges by_pair
    → trusted by_pair edges key ≡ true
    → HasConsent edges key
unfolding trusted
trusted_consent edges by_pair key g h = elim (Option-cases (get by_pair key)) [
  | inl missing ↦ absurd (no_index missing)
  | inr (id, at) ↦
      let (e, found, joins) = g.indexed key id at in
      let open_edge : is_active e.state ≡ true = ground arith in
      let consent = (g.consistent id e found).consent in
      (id, e, found, joins, ground arith, ground arith)
]
  where
    no_index : get by_pair key ≡ none → ⊥
    no_index missing = ground arith

-- After any history of requests, approvals, blocks and revocations of trust, and of agents
-- invited, revoked and deleted, two agents may exchange messages only over an edge between them
-- that both sides approve, and, where their organizations differ, over one between the
-- organizations too.
pub can_publish_consent :
    {s : MemoryStore} (sender receiver : Agent)
    → TrustReach new_memory_store s
    → can_publish_locked s.trusts sender receiver ≡ true
    → HasConsent s.agent_trusts (pair_key sender.agent_uuid receiver.agent_uuid)
      × ((orgs_differ (trim_space sender.org_id) (trim_space receiver.org_id) ≡ false)
          ⊎ HasConsent s.org_trusts
              (pair_key (trim_space sender.org_id) (trim_space receiver.org_id)))
unfolding can_publish_locked
can_publish_consent {s} sender receiver r h =
    let v = TrustReach-IsTrusted r in
    (
      trusted_consent s.agent_trusts s.agent_trust_by_pair _ v.agent_graph (ground arith),
      elim (Bool-cases (orgs_differ (trim_space sender.org_id) (trim_space receiver.org_id))) [
        | inl differ ↦
            inr (trusted_consent s.org_trusts s.org_trust_by_pair _ v.org_graph (ground arith))
        | inr same ↦ inl same
      ],
    )
