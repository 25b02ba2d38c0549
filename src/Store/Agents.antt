-- ===== src/Store/Agents.antt =====
-- The registration of agents in internal/store/memory.go: their names and URIs, `RegisterAgent`,
-- and the lookups by id and by token. The id of a new agent, which the source draws, is an
-- argument; `none` is the error of drawing it.
pub mod Binds
pub mod Retire
pub mod Finalize
pub mod Names
pub mod Once
pub mod Tokens
pub mod Resolve
pub mod Activity
use moltenhub.Base.{
  ℕ, ◌+◌, Bool, true, false, not, ◌&&◌, ◌||◌, Option, none, some, List, [], ◌∷◌, ◌++◌,
  if◌then◌else◌, is_empty, length,
}
use moltenhub.Base.Text.{Text, text, text_eq, trim_space}
use moltenhub.Base.Dict.{Dict, get, put, remove, select}
use moltenhub.Model.{Agent, Human, Organization, member, active}
use moltenhub.Model.Value.{Metadata, string, string_pointer}
use moltenhub.Model.Clock.{Time}
use moltenhub.Handles.{normalize, build_agent_uri, build_human_agent_uri}
use moltenhub.Store.State.{
  MemoryStore, Registry, Result, Outcome, ok, err, or_error, id_failed, invalid_token,
  invalid_handle, human_not_found, org_not_found, membership_not_found, unauthorized_role,
  agent_exists, agent_not_found,
}
use moltenhub.Store.Roles.{has_role_at_least, membership_role, is_active, owns}
use moltenhub.Store.Audit.{append_audit}
use moltenhub.Store.Queue.{live_agent, queue_of}
use moltenhub.Store.Humans.{is_valid_handle}
use moltenhub.Store.Members.{has_role}
use moltenhub.Store.Invites.Transfer.{human_owned_agent_name_key, org_owned_agent_name_key}
use moltenhub.Store.Trust.Request.{is_missing}

-- normalizeAgentNameKey
unfoldable pub normalize_agent_name_key : Text → Text
normalize_agent_name_key = normalize

-- The handle of the agent's owner, if it has one: the owner must be there, and the name free.
-- `permitted` says that the actor may name this owner.
unfoldable pub owner_handle : MemoryStore → Text → Option Text → Text → Bool → Result (Option Text)
owner_handle s org_id none handle permitted =
    if is_empty org_id
    then err membership_not_found
    else if not
        (is_missing (get s.org_owned_agent_name_idx (org_owned_agent_name_key org_id handle)))
    then err agent_exists
    else ok none
owner_handle s org_id (some owner) handle permitted =
    let key = human_owned_agent_name_key org_id owner handle in
    if not (is_empty org_id) && not (has_role s org_id owner)
    then err membership_not_found
    else if not permitted
    then err unauthorized_role
    else elim (get s.humans owner) [
      | none ↦ err human_not_found
      | some human ↦
          if not (is_valid_handle human.handle)
          then err invalid_handle
          else if not (is_missing (get s.human_owned_agent_name_idx key))
          then err agent_exists
          else ok (some human.handle)
    ]

-- The URI of an agent. `permitted` says that the actor may add agents to the organization.
unfoldable pub agent_uri : MemoryStore → Text → Option Text → Text → Bool → Result Text
agent_uri s org_id owner handle permitted =
    if is_empty org_id
    then elim owner [
      | none ↦ err membership_not_found
      | some human ↦ ok (build_human_agent_uri human handle)
    ]
    else elim (get s.orgs org_id) [
      | none ↦ err org_not_found
      | some org ↦
          if not permitted
          then err unauthorized_role
          else ok (build_agent_uri org.handle owner handle)
    ]

-- A URI that no agent has.
unfoldable pub free_uri : MemoryStore → Result Text → Result Text
free_uri s (err e) = err e
free_uri s (ok uri) = if is_missing (get s.agent_by_uri uri) then ok uri else err agent_exists

-- The URI of a new agent, by all the checks on its name.
unfoldable pub new_agent_uri : MemoryStore → Text → Option Text → Text → Bool → Bool → Result Text
unfolding owner_handle agent_uri free_uri
new_agent_uri s org_id owner handle owner_permitted org_permitted =
    if not (is_valid_handle handle)
    then err invalid_handle
    else elim (owner_handle s org_id owner handle owner_permitted) [
      | err e ↦ err e
      | ok human ↦ free_uri s (agent_uri s org_id human handle org_permitted)
    ]

abbrev pub default_agent_metadata : Metadata
default_agent_metadata = (text "agent_type", string (text "unknown")) ∷ []

abbrev pub new_agent :
    Text → Text → Text → Option Time → Text → Option Text → Text → Text → Text → Time → Agent
new_agent uuid uri handle finalized org_id owner host token_hash creator now = record {
  agent_uuid = uuid;
  agent_id = uri;
  handle = handle;
  handle_finalized_at = finalized;
  org_id = org_id;
  owner_human_id = owner;
  host_agent_uuid = host;
  token_hash = token_hash;
  status = active;
  metadata = default_agent_metadata;
  created_by = creator;
  created_at = now;
  revoked_at = none;
}

-- The name of an agent in the index of its owner's names or of its organization's.
unfoldable pub index_name : Agent → Text → Registry → Registry
index_name a uuid r = elim a.owner_human_id [
  | none ↦ record r {
    org_owned_agent_name_idx =
        put r.org_owned_agent_name_idx (org_owned_agent_name_key a.org_id a.handle) uuid;
  }
  | some owner ↦ record r {
    human_owned_agent_name_idx =
        put r.human_owned_agent_name_idx (human_owned_agent_name_key a.org_id owner a.handle) uuid;
  }
]

unfoldable pub unindex_name : Agent → Registry → Registry
unindex_name a r = elim a.owner_human_id [
  | none ↦ record r {
    org_owned_agent_name_idx =
        remove r.org_owned_agent_name_idx (org_owned_agent_name_key a.org_id a.handle);
  }
  | some owner ↦ record r {
    human_owned_agent_name_idx =
        remove r.human_owned_agent_name_idx (human_owned_agent_name_key a.org_id owner a.handle);
  }
]

-- A new agent in every map that knows agents, with a queue.
unfoldable pub add_agent : Agent → MemoryStore → MemoryStore
unfolding index_name
add_agent a s = record s {
  directory = record s.directory { agents = put s.agents a.agent_uuid a };
  registry = index_name a a.agent_uuid (record s.registry {
    agent_by_uri = put s.agent_by_uri a.agent_id a.agent_uuid;
    agent_token_idx = put s.agent_token_idx a.token_hash a.agent_uuid;
  });
  mailbox = record s.mailbox {
    queues = put s.queues a.agent_uuid (queue_of s.mailbox a.agent_uuid);
  };
}

unfoldable pub agent_creation_audit_details : Agent → Text → Text → Metadata
agent_creation_audit_details a flow bind_id =
    let bind = trim_space bind_id in
    (text "agent_id", string (trim_space a.agent_id))
    ∷ (text "agent_uuid", string (trim_space a.agent_uuid))
    ∷ (text "handle", string (trim_space a.handle))
    ∷ (text "owner_human_id", string_pointer a.owner_human_id)
    ∷ (text "creation_flow", string (trim_space flow))
    ∷ (if is_empty bind then [] else (text "bind_id", string bind) ∷ [])

unfoldable pub audit_registration : Agent → Text → Time → MemoryStore → MemoryStore
unfolding agent_creation_audit_details
audit_registration a actor now s =
    let created =
      append_audit a.org_id actor (text "agent") (text "create") a.agent_uuid
        (agent_creation_audit_details a (text "register") []) now s in
    if is_empty a.org_id
    then created
    else append_audit a.org_id actor (text "agent") (text "register") a.agent_uuid
        ((text "agent_id", string a.agent_id)
          ∷ (text "agent_uuid", string a.agent_uuid)
          ∷ (text "owner_human_id", string_pointer a.owner_human_id)
          ∷ (text "handle", string a.handle)
          ∷ [])
        now created

unfoldable pub owner_is : Option Text → Text → Bool
owner_is none actor = true
owner_is (some owner) actor = text_eq actor owner

unfoldable pub register_agent :
    Text
    → Text
    → Option Text
    → Text
    → Text
    → Time
    → Bool
    → Option Text
    → MemoryStore
    → Outcome Agent
unfolding owner_is audit_registration
register_agent org_id agent_id owner token_hash actor now super drawn s =
    let handle = normalize_agent_name_key agent_id in
    let may_own = not (is_empty org_id) || super || owner_is owner actor in
    let may_add = super || has_role_at_least (membership_role s.directory org_id actor) member in
    elim (new_agent_uri s org_id owner handle may_own may_add) [
      | err e ↦ (err e, s)
      | ok uri ↦ elim drawn [
        | none ↦ (err id_failed, s)
        | some uuid ↦
            let a = new_agent uuid uri handle (some now) org_id owner [] token_hash actor now in
            (ok a, audit_registration a actor now (add_agent a s))
      ]
    ]

unfoldable pub agent_uuid_for_token_hash : Text → MemoryStore → Result Text
agent_uuid_for_token_hash token_hash s = elim (get s.agent_token_idx token_hash) [
  | none ↦ err invalid_token
  | some uuid ↦ elim (live_agent s.agents uuid) [ none ↦ err invalid_token | some _ ↦ ok uuid ]
]

owned_actives : Text → Agent → Bool
owned_actives human_id a = owns a.owner_human_id human_id && is_active a.status

unfoldable pub count_active_human_owned_agents : Text → MemoryStore → ℕ
unfolding owned_actives
count_active_human_owned_agents human_id s = length (select (owned_actives human_id) s.agents)
