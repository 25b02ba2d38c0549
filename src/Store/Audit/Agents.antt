-- ===== src/Store/Audit/Agents.antt =====
-- What an entry of the audit trail does to the agents: it may change their metadata, nothing else.
use moltenhub.Base.{
  ◌≡◌, inl, inr, none, some, List, [], ◌∷◌, arith, Bool-cases, Option-cases, Bool, true, false,
  if◌then◌else◌,
}
use moltenhub.Base.Text.{Text, text_eq, text_eq_iff}
use moltenhub.Base.Dict.{Dict, get, put, get-put}
use moltenhub.Model.{Agent, AuditEvent}
use moltenhub.Model.Value.{Metadata}
use moltenhub.Model.Clock.{Time}
use moltenhub.Store.State.{MemoryStore}
use moltenhub.Store.Audit.{
  append_audit, append_system_activity_from_audit, append_to_targets,
  append_system_activity_to_agent, activity_targets_from_audit_event, log_activity,
}
use moltenhub.Store.Audit.Labels.{audit_activity_label}

-- The same agents under the same ids, but for their metadata.
pub record SameAgents (old new : Dict Agent) : Type 0 where
  pub stays :
      (id : Text) (a : Agent)
      → get old id ≡ some a
      → (m : Metadata) × (get new id ≡ some (record a { metadata = m }))
  pub absent : (id : Text) → get old id ≡ none → get new id ≡ none

pub SameAgents-refl : (agents : Dict Agent) → SameAgents agents agents
SameAgents-refl agents = record { stays = λ id a h. (a.metadata, h); absent = λ id h. h }

SameAgents-trans : (a b c : Dict Agent) → SameAgents a b → SameAgents b c → SameAgents a c
SameAgents-trans a b c p q = record {
  stays = λ id x h. let (m, e) = p.stays id x h in q.stays id (record x { metadata = m }) e;
  absent = λ id h. q.absent id (p.absent id h);
}

put-SameAgents :
    (agents : Dict Agent) (id : Text) (a : Agent) (m : Metadata)
    → get agents id ≡ some a
    → SameAgents agents (put agents id (record a { metadata = m }))
put-SameAgents agents id a m found = record {
  stays = λ j x h. elim (Bool-cases (text_eq id j)) [
    | inl same ↦
        (m, ground (arith, get-put agents id j (record a { metadata = m }), text_eq_iff id j))
    | inr other ↦ (x.metadata, ground (arith, get-put agents id j (record a { metadata = m })))
  ];
  absent = λ j h. ground (arith, get-put agents id j (record a { metadata = m }), text_eq_iff id j);
}

to_agent-SameAgents :
    (t : Text) (event : AuditEvent) (activity : Text) (agents : Dict Agent)
    → SameAgents agents (append_system_activity_to_agent t event activity agents)
unfolding append_system_activity_to_agent
to_agent-SameAgents t event activity agents = elim (Option-cases (get agents t)) [
  | inl missing ↦ rw (missing, append_system_activity_to_agent) (SameAgents-refl agents)
  | inr (a, found) ↦
      rw (found, append_system_activity_to_agent)
        (put-SameAgents agents t a (log_activity a.metadata event activity) found)
]

to_targets-SameAgents :
    (ts : List Text) (event : AuditEvent) (activity : Text) (agents : Dict Agent)
    → SameAgents agents (append_to_targets ts event activity agents)
unfolding append_to_targets
to_targets-SameAgents [] event activity agents = SameAgents-refl agents
to_targets-SameAgents (t ∷ ts) event activity agents =
    SameAgents-trans _ (append_system_activity_to_agent t event activity agents) _
      (to_agent-SameAgents t event activity agents) (to_targets-SameAgents ts event activity _)

from_audit-SameAgents :
    (event : AuditEvent) (agents : Dict Agent)
    → SameAgents agents (append_system_activity_from_audit event agents)
unfolding append_system_activity_from_audit
from_audit-SameAgents event agents = either _ agents _ (
    either _ agents _ (
      to_targets-SameAgents (activity_targets_from_audit_event agents event) event
        (audit_activity_label agents event) agents))
  where
    either :
        (b : Bool) (old new : Dict Agent)
        → SameAgents old new
        → SameAgents old (if b then old else new)
    either true old new h = SameAgents-refl old
    either false old new h = h

pub agents-append_audit :
    (side actor category action subject : Text) (details : Metadata) (now : Time) (s : MemoryStore)
    → SameAgents s.agents (append_audit side actor category action subject details now s).agents
unfolding append_audit
agents-append_audit side actor category action subject details now s =
    from_audit-SameAgents _ s.agents
