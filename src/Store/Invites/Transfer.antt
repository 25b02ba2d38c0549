-- ===== src/Store/Invites/Transfer.antt =====
-- `transferHumanOwnedAgentsToOrgLocked` of internal/store/memory.go: the agents that a human owns
-- outside every organization move to the organization that the human joins.
pub mod Frame
use moltenhub.Base.{
  Bool, false, ◌&&◌, Option, not, ◌||◌, none, some, List, [], ◌∷◌, ◌++◌, if◌then◌else◌, is_empty,
}
use moltenhub.Base.Text.{Text, text, trim_space}
use moltenhub.Base.Dict.{Dict, get, put, remove, keys}
use moltenhub.Model.{Organization, Agent}
use moltenhub.Model.Value.{string}
use moltenhub.Model.Clock.{Time}
use moltenhub.Handles.{normalize, build_agent_uri}
use moltenhub.Store.State.{MemoryStore}
use moltenhub.Store.Roles.{owns}
use moltenhub.Store.Audit.{append_audit}
use moltenhub.Store.Leases.{sort_strings}
use moltenhub.Store.Humans.{is_valid_handle, is_available}
use moltenhub.Store.Queue.{is_revoked}

unfoldable pub human_owned_agent_name_key : Text → Text → Text → Text
human_owned_agent_name_key org_id human_id agent_id =
    org_id ++ 0 ∷ (human_id ++ 0 ∷ normalize agent_id)

unfoldable pub org_owned_agent_name_key : Text → Text → Text
org_owned_agent_name_key org_id agent_id = org_id ++ 0 ∷ normalize agent_id

-- Of no organization, not revoked, and owned by the human.
unfoldable pub is_movable : Text → Option Agent → Bool
is_movable human_id none = false
is_movable human_id (some agent) =
    not (is_revoked agent.status) && is_empty agent.org_id && owns agent.owner_human_id human_id

-- The ids of the agents to move, before they are sorted: the loop goes through the ids of the map.
unfoldable pub movable : Text → Dict Agent → List Text → List Text
unfolding is_movable
movable human_id agents [] = []
movable human_id agents (uuid ∷ uuids) =
    let rest = movable human_id agents uuids in
    if is_movable human_id (get agents uuid) then uuid ∷ rest else rest

-- The agent in the organization, under another URI, and in the index of names there.
unfoldable pub relocate : Text → Text → Text → Text → Agent → MemoryStore → MemoryStore
relocate org_id human_id next_id uuid agent s =
    let next_key = human_owned_agent_name_key org_id human_id agent.handle in
    let old_key = human_owned_agent_name_key [] human_id agent.handle in
    record s {
      directory = record s.directory {
        agents = put s.agents uuid (record agent { org_id = org_id; agent_id = next_id });
      };
      registry = record s.registry {
        human_owned_agent_name_idx =
            put (remove s.human_owned_agent_name_idx old_key) next_key uuid;
        agent_by_uri = put (remove s.agent_by_uri agent.agent_id) next_id uuid;
      };
    }

unfoldable pub move_agent :
    Text → Organization → Text → Text → Time → Text → Agent → MemoryStore → MemoryStore
unfolding relocate
move_agent org_id org human_id owner_handle now uuid agent s =
    let next_id = build_agent_uri org.handle (some owner_handle) agent.handle in
    let next_key = human_owned_agent_name_key org_id human_id agent.handle in
    if not (is_available s.human_owned_agent_name_idx next_key uuid)
    then s
    else if not (is_available s.agent_by_uri next_id uuid)
    then s
    else append_audit org_id human_id (text "agent") (text "transfer_on_invite_accept") uuid
        ((text "old_org_id", string [])
          ∷ (text "new_org_id", string org_id)
          ∷ (text "old_agent_id", string agent.agent_id)
          ∷ (text "new_agent_id", string next_id)
          ∷ [])
        now (relocate org_id human_id next_id uuid agent s)

unfoldable pub move_agents :
    Text → Organization → Text → Text → Time → List Text → MemoryStore → MemoryStore
unfolding move_agent
move_agents org_id org human_id owner_handle now [] s = s
move_agents org_id org human_id owner_handle now (uuid ∷ uuids) s = elim (get s.agents uuid) [
  | none ↦ move_agents org_id org human_id owner_handle now uuids s
  | some agent ↦
      move_agents org_id org human_id owner_handle now uuids
        (move_agent org_id org human_id owner_handle now uuid agent s)
]

unfoldable pub transfer_to : Text → Text → Time → MemoryStore → MemoryStore
unfolding movable move_agents
transfer_to org_id human_id now s = elim (get s.orgs org_id) [
  | none ↦ s
  | some org ↦ elim (get s.humans human_id) [
    | none ↦ s
    | some human ↦
        if not (is_valid_handle human.handle)
        then s
        else move_agents org_id org human_id human.handle now
            (sort_strings (movable human_id s.agents (keys s.agents))) s
  ]
]

unfoldable pub transfer_human_owned_agents_to_org : Text → Text → Time → MemoryStore → MemoryStore
unfolding transfer_to
transfer_human_owned_agents_to_org raw_org_id raw_human_id now s =
    let org_id = trim_space raw_org_id in
    let human_id = trim_space raw_human_id in
    if is_empty org_id || is_empty human_id then s else transfer_to org_id human_id now s
