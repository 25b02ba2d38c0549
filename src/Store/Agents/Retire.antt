-- ===== src/Store/Agents/Retire.antt =====
-- The tokens and the end of agents in internal/store/memory.go: `RotateAgentToken`, `RevokeAgent`
-- and `DeleteAgent`.
use moltenhub.Base.{
  ℕ, ◌+◌, Bool, not, ◌&&◌, ◌||◌, none, some, List, [], ◌∷◌, if◌then◌else◌, is_empty, length,
}
use moltenhub.Base.Text.{Text, text, text_eq}
use moltenhub.Base.Dict.{Dict, get, put, remove, select, delete_where}
use moltenhub.Model.{Agent, Message, TrustEdge, revoked, deleted}
use moltenhub.Model.Value.{string, number}
use moltenhub.Model.Clock.{Time}
use moltenhub.Store.State.{MemoryStore, Outcome, ok, err, agent_not_found, unauthorized_role}
use moltenhub.Store.Roles.{can_manage_agent, can_delete_agent}
use moltenhub.Store.Audit.{append_audit}
use moltenhub.Store.Queue.{live_agent, is_revoked}
use moltenhub.Store.Queue.Purge.{purge_agent_queues, purge_queue, is_about}
use moltenhub.Store.Metrics.{recompute_queue_metrics}
use moltenhub.Store.Trust.Edge.{pair_key, state_text}
use moltenhub.Store.Trust.Request.{with_trusts}
use moltenhub.Store.Trust.RevokeAgent.{revoke_agent_trusts}
use moltenhub.Store.Agents.{unindex_name}

abbrev store_agent : Text → Agent → MemoryStore → MemoryStore
store_agent uuid a s = record s { directory = record s.directory { agents = put s.agents uuid a } }

-- The agent with another token in place of its own.
unfoldable pub replace_token : Text → Text → Agent → MemoryStore → MemoryStore
replace_token uuid token_hash a s =
    record (store_agent uuid (record a { token_hash = token_hash }) s) {
      registry = record s.registry {
        agent_token_idx = put (remove s.agent_token_idx a.token_hash) token_hash uuid;
      };
    }

unfoldable pub rotate_agent_token :
    Text → Text → Text → Time → Bool → MemoryStore → Outcome (Unit {0})
rotate_agent_token uuid actor token_hash now super s = elim (live_agent s.agents uuid) [
  | none ↦ (err agent_not_found, s)
  | some a ↦
      if not super && not (can_manage_agent s.directory a actor)
      then (err unauthorized_role, s)
      else (
        ok tt,
        append_audit a.org_id actor (text "agent") (text "rotate_token") uuid
            ((text "agent_id", string a.agent_id) ∷ []) now (replace_token uuid token_hash a s),
      )
]

unfoldable pub touches : Text → TrustEdge → Bool
touches uuid e = text_eq e.left_id uuid || text_eq e.right_id uuid

-- The edges of the agent that are not revoked yet.
open_edges : Text → Dict TrustEdge → ℕ
unfolding touches
open_edges uuid edges =
    length (select (λ (e : TrustEdge). touches uuid e && not (is_revoked e.state)) edges)

count_about : Text → List Message → ℕ
count_about uuid [] = 0
count_about uuid (m ∷ queue) =
    let rest = count_about uuid queue in if is_about uuid m then rest + 1 else rest

purged_messages : Text → Dict (List Message) → ℕ
unfolding count_about
purged_messages uuid [] = 0
purged_messages uuid ((_, queue) ∷ queues) = count_about uuid queue + purged_messages uuid queues

-- The agent revoked, and out of every index.
unfoldable pub close_agent : Text → Agent → Time → MemoryStore → MemoryStore
close_agent uuid a now s =
    let named = unindex_name a s.registry in
    record (store_agent uuid (record a { status = revoked; revoked_at = some now }) s) {
      registry = record named {
        agent_token_idx = remove s.agent_token_idx a.token_hash;
        agent_by_uri = remove s.agent_by_uri a.agent_id;
        agent_presence = remove s.agent_presence uuid;
      };
    }

unfoldable pub revoke_agent : Text → Text → Time → Bool → MemoryStore → Outcome (Unit {0})
unfolding open_edges purged_messages
revoke_agent uuid actor now super s = elim (get s.agents uuid) [
  | none ↦ (err agent_not_found, s)
  | some a ↦
      if not super && not (can_manage_agent s.directory a actor)
      then (err unauthorized_role, s)
      else if is_revoked a.status
      then (ok tt, s)
      else (
        ok tt,
        append_audit a.org_id actor (text "agent") (text "revoke") uuid
            ((text "agent_id", string a.agent_id)
              ∷ (text "revoked_agent_trust_edges", number (open_edges uuid s.agent_trusts))
              ∷ (text "purged_queued_messages", number (purged_messages uuid s.queues))
              ∷ [])
            now (purge_agent_queues uuid (revoke_agent_trusts uuid now (close_agent uuid a now s))),
      )
]

unfoldable pub drop_pairs : Text → Dict TrustEdge → Dict Text → Dict Text
unfolding touches
drop_pairs uuid [] by_pair = by_pair
drop_pairs uuid ((_, e) ∷ edges) by_pair =
    let rest = drop_pairs uuid edges by_pair in
    if touches uuid e then remove rest (pair_key e.left_id e.right_id) else rest

unfoldable pub delete_agent_trusts : Text → MemoryStore → MemoryStore
unfolding drop_pairs touches
delete_agent_trusts uuid s = with_trusts s (record s.trusts {
  agent_trusts = delete_where (touches uuid) s.agent_trusts;
  agent_trust_by_pair = drop_pairs uuid s.agent_trusts s.agent_trust_by_pair;
})

-- The queue of the agent goes whole, and the others lose the messages from and to it.
unfoldable pub delete_queues : Text → Dict (List Message) → Dict (List Message)
unfolding purge_queue
delete_queues uuid [] = []
delete_queues uuid ((k, queue) ∷ queues) =
    let rest = delete_queues uuid queues in
    let filtered = purge_queue uuid queue in
    if text_eq k uuid
    then rest
    else if is_empty queue
    then (k, queue) ∷ rest
    else if is_empty filtered
    then rest
    else (k, filtered) ∷ rest

deleted_messages : Text → Dict (List Message) → ℕ
unfolding count_about
deleted_messages uuid [] = 0
deleted_messages uuid ((k, queue) ∷ queues) =
    (if text_eq k uuid then length queue else count_about uuid queue) + deleted_messages uuid queues

unfoldable pub delete_agent_queues : Text → MemoryStore → MemoryStore
unfolding delete_queues
delete_agent_queues uuid s = record s {
  mailbox = recompute_queue_metrics (record s.mailbox { queues = delete_queues uuid s.queues });
}

-- The agent in the archive, and out of the maps of agents, tokens and presence.
unfoldable pub archive_agent : Text → Agent → Time → MemoryStore → MemoryStore
archive_agent uuid a now s = record s {
  directory = record s.directory { agents = remove s.agents uuid };
  registry = record s.registry {
    archived_agents =
        put s.archived_agents uuid (record a { status = deleted; revoked_at = some now });
    agent_token_idx = remove s.agent_token_idx a.token_hash;
    agent_presence = remove s.agent_presence uuid;
  };
}

unfoldable pub delete_agent : Text → Text → Time → Bool → MemoryStore → Outcome (Unit {0})
unfolding touches deleted_messages
delete_agent uuid actor now super s = elim (get s.agents uuid) [
  | none ↦ (err agent_not_found, s)
  | some a ↦
      if not super && not (can_delete_agent s.directory a actor)
      then (err unauthorized_role, s)
      else (
        ok tt,
        append_audit a.org_id actor (text "agent") (text "delete") uuid
            ((text "agent_id", string a.agent_id)
              ∷ (
                text "deleted_agent_trusts",
                number (length (select (touches uuid) s.agent_trusts)),
              )
              ∷ (text "purged_queued_messages", number (deleted_messages uuid s.queues))
              ∷ (text "deleted_previous_status", string (state_text a.status))
              ∷ [])
            now (delete_agent_queues uuid (delete_agent_trusts uuid (archive_agent uuid a now s))),
      )
]
