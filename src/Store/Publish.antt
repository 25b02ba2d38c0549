-- ===== src/Store/Publish.antt =====
-- Who may send to whom: `CanPublish` of internal/store/memory.go.
pub mod Laws
use moltenhub.Base.{
  ℕ, zero, suc, ◌+◌, ◌-◌, ◌≤◌, ◌<◌, ◌≡◌, refl, sym, ap, subst, ◌∙◌, ◌≢◌, ◌↔◌, ◌⊎◌, inl, inr, Bool,
  true, false, not, ◌&&◌, ◌||◌, Option, none, some, List, [], ◌∷◌, ◌++◌, map, length, length-append,
  arith, ltb, leb, ◌==◌, if◌then◌else◌, Bool-cases, Option-cases, is_empty, All,
}
use moltenhub.Base.Text.{Text, text_eq, trim_space}
use moltenhub.Base.Dict.{Dict, get}
use moltenhub.Model.{Agent, TrustEdge, Status, active}
use moltenhub.Store.State.{
  MemoryStore, Trusts, Result, Error, ok, err, agent_not_found, no_trust_path,
}
use moltenhub.Store.Roles.{is_active}
use moltenhub.Store.Queue.{live_agent}
use moltenhub.Store.Trust.Edge.{pair_key}

host_allows : Text → Text → Bool
host_allows host peer = is_empty host || text_eq host peer

-- A hosted agent talks to its host alone.
unfoldable pub hosted_agent_pair_allowed : Agent → Agent → Bool
unfolding host_allows
hosted_agent_pair_allowed sender receiver =
    host_allows (trim_space sender.host_agent_uuid) receiver.agent_uuid
    && host_allows (trim_space receiver.host_agent_uuid) sender.agent_uuid

edge_active : Option TrustEdge → Bool
edge_active none = false
edge_active (some e) = is_active e.state

-- The edge that the index gives for a pair is there and active.
unfoldable pub trusted : Dict Text → Dict TrustEdge → Text → Bool
unfolding edge_active
trusted by_pair edges key = elim (get by_pair key) [
  | none ↦ false
  | some id ↦ edge_active (get edges id)
]

unfoldable pub orgs_differ : Text → Text → Bool
orgs_differ a b = not (is_empty a) && not (is_empty b) && not (text_eq a b)

unfoldable pub can_publish_locked : Trusts → Agent → Agent → Bool
can_publish_locked t sender receiver =
    let sender_org = trim_space sender.org_id in
    let receiver_org = trim_space receiver.org_id in
    if not (hosted_agent_pair_allowed sender receiver)
    then false
    else if orgs_differ sender_org receiver_org
        && not (trusted t.org_trust_by_pair t.org_trusts (pair_key sender_org receiver_org))
    then false
    else trusted t.agent_trust_by_pair t.agent_trusts
        (pair_key sender.agent_uuid receiver.agent_uuid)

-- The two organizations come back beside the error too.
unfoldable pub can_publish : Text → Text → MemoryStore → Text × Text × Option Error
unfolding live_agent
can_publish sender_uuid receiver_uuid s = elim (live_agent s.agents sender_uuid) [
  | none ↦ ([], [], some agent_not_found)
  | some sender ↦ elim (live_agent s.agents receiver_uuid) [
    | none ↦ ([], [], some agent_not_found)
    | some receiver ↦ (
      sender.org_id,
      receiver.org_id,
      (if can_publish_locked s.trusts sender receiver then none else some no_trust_path),
    )
  ]
]
