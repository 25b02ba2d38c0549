-- ===== src/Store/Publish/Laws.antt =====
-- The two directions of sending, and what a block does to them.
use moltenhub.Base.{◌≡◌, refl, ◌∙◌, inl, inr, Bool, false, some, arith}
use moltenhub.Base.Text.{Text, text_eq_iff, trim_space}
use moltenhub.Base.Dict.{get, get-put}
use moltenhub.Model.{TrustEdge, agent, Status, blocked, Agent}
use moltenhub.Model.Clock.{Time}
use moltenhub.Store.State.{Result-cases, err_not_ok, MemoryStore, Trusts, ok}
use moltenhub.Store.Roles.{is_active}
use moltenhub.Store.Publish.{can_publish_locked, hosted_agent_pair_allowed, orgs_differ, trusted}
use moltenhub.Store.Trust.Edge.{pair_key}
use moltenhub.Store.Trust.Pairs.{pair_key_comm}
use moltenhub.Store.Trust.Decide.{block_trust, close_edge, load_edge_for_actor, store_edge, decided}
use moltenhub.Store.Trust.Safety.{IsTrusted, trusts-append_audit}
use moltenhub.Store.Trust.Decisions.{load_edge_for_actor_ok}

host_pair_comm : (a b : Agent) → hosted_agent_pair_allowed a b ≡ hosted_agent_pair_allowed b a
unfolding hosted_agent_pair_allowed
host_pair_comm a b = ground arith

orgs_differ_comm : (a b : Text) → orgs_differ a b ≡ orgs_differ b a
unfolding orgs_differ
orgs_differ_comm a b = ground (arith, text_eq_iff a b, text_eq_iff b a)

-- Whoever may send to an agent may hear from it.
pub can_publish_locked_comm :
    (t : Trusts) (a b : Agent) → can_publish_locked t a b ≡ can_publish_locked t b a
unfolding can_publish_locked
can_publish_locked_comm t a b = rw (
  host_pair_comm a b,
  orgs_differ_comm (trim_space a.org_id) (trim_space b.org_id),
  pair_key_comm (trim_space a.org_id) (trim_space b.org_id),
  pair_key_comm a.agent_uuid b.agent_uuid,
)

-- The agent edge of a pair, stored again in a state that is not active, lets nothing through.
inactive_stops :
    (t : Trusts) (id : Text) (e : TrustEdge) (a b : Agent) (state : Status) (now : Time)
    → IsTrusted t
    → get t.agent_trust_by_pair (pair_key a.agent_uuid b.agent_uuid) ≡ some id
    → get t.agent_trusts id ≡ some e
    → is_active state ≡ false
    → can_publish_locked (store_edge agent (close_edge state now e) t) a b ≡ false
unfolding can_publish_locked store_edge trusted close_edge
inactive_stops t id e a b state now v at found closed =
    let own : e.edge_id ≡ id = v.agent_graph.keyed id e found in
    ground (
      arith,
      get-put t.agent_trusts e.edge_id id (close_edge state now e),
      text_eq_iff e.edge_id id,
    )

module _ (id actor : Text) (now : Time) (super : Bool) (s : MemoryStore) (a b : Agent)
    (v : IsTrusted s.trusts)
    (at : get s.agent_trust_by_pair (pair_key a.agent_uuid b.agent_uuid) ≡ some id) where
  -- Where the index of a consistent trust graph gives an edge for two agents, an accepted block of
  -- that edge stops messages between them in both directions at once.
  pub block_trust-can_publish :
      (f : TrustEdge)
      → (block_trust agent id actor now super s).0 ≡ ok f
      → (can_publish_locked (block_trust agent id actor now super s).1.trusts a b ≡ false)
        × (can_publish_locked (block_trust agent id actor now super s).1.trusts b a ≡ false)
  unfolding block_trust decided
  block_trust-can_publish f h = (stopped, can_publish_locked_comm _ b a ∙ stopped)
    where
      stopped : can_publish_locked (block_trust agent id actor now super s).1.trusts a b ≡ false
      stopped = elim (Result-cases (load_edge_for_actor agent id actor super s)) [
        | inr (x, refused) ↦ absurd (err_not_ok (rw (refused, block_trust) at h))
        | inl ((e, left, side), loaded) ↦
            rw (loaded, block_trust)
              (simp trusts-append_audit (
                inactive_stops s.trusts id e a b blocked now v at
                  (load_edge_for_actor_ok agent id actor super s e left side loaded) refl))
      ]
