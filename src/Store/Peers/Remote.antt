-- ===== src/Store/Peers/Remote.antt =====
-- The trust in remote organizations and agents in internal/store/memory.go.
use moltenhub.Base.{Bool, false, Option, none, some, [], if◌then◌else◌}
use moltenhub.Base.Text.{Text, trim_space}
use moltenhub.Base.Dict.{get, put, remove, get_or}
use moltenhub.Handles.{normalize}
use moltenhub.Model.{RemoteOrgTrust, RemoteAgentTrust, unset, active, revoked}
use moltenhub.Model.Clock.{Time}
use moltenhub.Store.State.{
  MemoryStore, Peers, Outcome, ok, err, org_not_found, agent_not_found, peer_instance_not_found,
  remote_org_trust_not_found, remote_agent_trust_not_found,
}
use moltenhub.Store.Queue.{live_agent}
use moltenhub.Store.Roles.{is_active}
use moltenhub.Store.Trust.Request.{is_missing}
use moltenhub.Store.Peers.{remote_org_trust_key, remote_agent_trust_key, with_peers}

abbrev no_org_trust : RemoteOrgTrust
no_org_trust = record {
  trust_id = [];
  local_org_id = [];
  peer_id = [];
  remote_org_handle = [];
  status = unset;
  created_by = [];
  created_at = 0;
  updated_at = 0;
}

abbrev no_agent_trust : RemoteAgentTrust
no_agent_trust = record {
  trust_id = [];
  local_agent_uuid = [];
  peer_id = [];
  remote_agent_uri = [];
  status = unset;
  created_by = [];
  created_at = 0;
  updated_at = 0;
}

unfoldable pub new_org_trust : Text → Text → Text → Text → Text → Time → RemoteOrgTrust
new_org_trust org_id peer_id handle actor trust_id now = record {
  trust_id = trust_id;
  local_org_id = org_id;
  peer_id = peer_id;
  remote_org_handle = normalize handle;
  status = active;
  created_by = actor;
  created_at = now;
  updated_at = now;
}

-- The trust under the key is made active again, or a new one is stored.
unfoldable pub join_remote_org :
    Option Text → Text → RemoteOrgTrust → Time → MemoryStore → Outcome RemoteOrgTrust
join_remote_org none key trust now s = (
  ok trust,
  with_peers s (record s.peers {
    remote_org_trusts = put s.remote_org_trusts trust.trust_id trust;
    remote_org_trust_by_key = put s.remote_org_trust_by_key key trust.trust_id;
  }),
)
join_remote_org (some id) key trust now s =
    let existing = record (get_or s.remote_org_trusts id no_org_trust) {
      status = active;
      updated_at = now;
    } in
    (
      ok existing,
      with_peers s (record s.peers { remote_org_trusts = put s.remote_org_trusts id existing }),
    )

unfoldable pub create_remote_org_trust :
    Text → Text → Text → Text → Text → Time → MemoryStore → Outcome RemoteOrgTrust
unfolding join_remote_org
create_remote_org_trust org_id peer_id handle actor trust_id now s =
    if is_missing (get s.orgs org_id)
    then (err org_not_found, s)
    else if is_missing (get s.peer_instances peer_id)
    then (err peer_instance_not_found, s)
    else let key = remote_org_trust_key org_id peer_id handle in
      join_remote_org (get s.remote_org_trust_by_key key) key
        (new_org_trust org_id peer_id handle actor trust_id now) now s

unfoldable pub delete_remote_org_trust : Text → Time → MemoryStore → Outcome RemoteOrgTrust
delete_remote_org_trust trust_id now s = elim (get s.remote_org_trusts (trim_space trust_id)) [
  | none ↦ (err remote_org_trust_not_found, s)
  | some t ↦ (
    ok (record t { status = revoked; updated_at = now }),
    with_peers s (record s.peers {
      remote_org_trusts = remove s.remote_org_trusts t.trust_id;
      remote_org_trust_by_key =
          remove s.remote_org_trust_by_key
            (remote_org_trust_key t.local_org_id t.peer_id t.remote_org_handle);
    }),
  )
]

org_trust_active : Option RemoteOrgTrust → Bool
org_trust_active none = false
org_trust_active (some t) = is_active t.status

unfoldable pub has_active_remote_org_trust : Peers → Text → Text → Text → Bool
unfolding org_trust_active
has_active_remote_org_trust p org_id peer_id handle =
    elim (get p.remote_org_trust_by_key (remote_org_trust_key org_id peer_id handle)) [
      | none ↦ false
      | some id ↦ org_trust_active (get p.remote_org_trusts id)
    ]

unfoldable pub new_agent_trust : Text → Text → Text → Text → Text → Time → RemoteAgentTrust
new_agent_trust uuid peer_id uri actor trust_id now = record {
  trust_id = trust_id;
  local_agent_uuid = uuid;
  peer_id = peer_id;
  remote_agent_uri = trim_space uri;
  status = active;
  created_by = actor;
  created_at = now;
  updated_at = now;
}

unfoldable pub join_remote_agent :
    Option Text → Text → RemoteAgentTrust → Time → MemoryStore → Outcome RemoteAgentTrust
join_remote_agent none key trust now s = (
  ok trust,
  with_peers s (record s.peers {
    remote_agent_trusts = put s.remote_agent_trusts trust.trust_id trust;
    remote_agent_trust_by_key = put s.remote_agent_trust_by_key key trust.trust_id;
  }),
)
join_remote_agent (some id) key trust now s =
    let existing = record (get_or s.remote_agent_trusts id no_agent_trust) {
      status = active;
      updated_at = now;
    } in
    (
      ok existing,
      with_peers s (record s.peers { remote_agent_trusts = put s.remote_agent_trusts id existing }),
    )

unfoldable pub create_remote_agent_trust :
    Text → Text → Text → Text → Text → Time → MemoryStore → Outcome RemoteAgentTrust
unfolding join_remote_agent live_agent
create_remote_agent_trust uuid peer_id uri actor trust_id now s =
    if is_missing (live_agent s.agents uuid)
    then (err agent_not_found, s)
    else if is_missing (get s.peer_instances peer_id)
    then (err peer_instance_not_found, s)
    else let key = remote_agent_trust_key uuid peer_id uri in
      join_remote_agent (get s.remote_agent_trust_by_key key) key
        (new_agent_trust uuid peer_id uri actor trust_id now) now s

unfoldable pub delete_remote_agent_trust : Text → Time → MemoryStore → Outcome RemoteAgentTrust
delete_remote_agent_trust trust_id now s = elim (get s.remote_agent_trusts (trim_space trust_id)) [
  | none ↦ (err remote_agent_trust_not_found, s)
  | some t ↦ (
    ok (record t { status = revoked; updated_at = now }),
    with_peers s (record s.peers {
      remote_agent_trusts = remove s.remote_agent_trusts t.trust_id;
      remote_agent_trust_by_key =
          remove s.remote_agent_trust_by_key
            (remote_agent_trust_key t.local_agent_uuid t.peer_id t.remote_agent_uri);
    }),
  )
]

agent_trust_active : Option RemoteAgentTrust → Bool
agent_trust_active none = false
agent_trust_active (some t) = is_active t.status

unfoldable pub has_active_remote_agent_trust : Peers → Text → Text → Text → Bool
unfolding agent_trust_active
has_active_remote_agent_trust p uuid peer_id uri =
    elim (get p.remote_agent_trust_by_key (remote_agent_trust_key uuid peer_id uri)) [
      | none ↦ false
      | some id ↦ agent_trust_active (get p.remote_agent_trusts id)
    ]
