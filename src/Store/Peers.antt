-- ===== src/Store/Peers.antt =====
-- Federation with other hubs in internal/store/memory.go: peer instances, and the trust of local
-- organizations and agents in remote ones.
pub mod Outbound
pub mod Remote
pub mod Grants
pub mod Orphans
use moltenhub.Base.{
  ℕ, Bool, true, false, not, ◌||◌, Option, none, some, List, [], ◌∷◌, ◌++◌, ◌==◌, is_empty,
  if◌then◌else◌,
}
use moltenhub.Base.Text.{Text, text_eq, trim_space, to_lower}
use moltenhub.Base.Text.Trim.{drop_end}
use moltenhub.Base.Dict.{Dict, get, put, remove, get_or}
use moltenhub.Handles.{normalize}
use moltenhub.Model.{
  PeerInstance, RemoteOrgTrust, RemoteAgentTrust, PeerOutboundMessage, Status, unset, active,
  revoked,
}
use moltenhub.Model.Clock.{Time}
use moltenhub.Store.State.{
  MemoryStore, Peers, Outcome, Result, ok, err, invalid_token, org_not_found, agent_not_found,
  peer_instance_not_found, peer_instance_exists, remote_org_trust_not_found,
  remote_agent_trust_not_found,
}
use moltenhub.Store.Queue.{live_agent}
use moltenhub.Store.Roles.{is_active}
use moltenhub.Store.Trust.Request.{is_missing}

is_slash : ℕ → Bool
is_slash c = c == b'/'

unfoldable pub normalize_base_url : Text → Text
unfolding is_slash
normalize_base_url raw = to_lower (drop_end is_slash (trim_space raw))

-- Three parts joined by NUL bytes.
unfoldable pub remote_org_trust_key : Text → Text → Text → Text
remote_org_trust_key org_id peer_id handle =
    trim_space org_id ++ 0 ∷ (trim_space peer_id ++ 0 ∷ normalize handle)

unfoldable pub remote_agent_trust_key : Text → Text → Text → Text
remote_agent_trust_key uuid peer_id uri =
    trim_space uuid ++ 0 ∷ (trim_space peer_id ++ 0 ∷ trim_space uri)

abbrev pub with_peers : MemoryStore → Peers → MemoryStore
with_peers s p = record s { peers = p }

new_peer : Text → Text → Text → Text → Text → Time → PeerInstance
unfolding normalize_base_url
new_peer canonical delivery secret actor peer_id now = record {
  peer_id = peer_id;
  canonical_base_url = normalize_base_url canonical;
  delivery_base_url = normalize_base_url delivery;
  shared_secret = trim_space secret;
  status = active;
  created_by = actor;
  created_at = now;
  updated_at = now;
  last_successful_at = none;
  last_failure_at = none;
  last_failure_reason = [];
}

peer_active : Option PeerInstance → Bool
peer_active none = false
peer_active (some p) = is_active p.status

-- Another active peer has the address.
is_taken : Peers → Text → Bool
unfolding peer_active
is_taken p key = elim (get p.peer_by_canonical_base key) [
  | none ↦ false
  | some id ↦ peer_active (get p.peer_instances id)
]

unfoldable pub create_peer_instance :
    Text → Text → Text → Text → Text → Time → MemoryStore → Outcome PeerInstance
unfolding is_taken new_peer
create_peer_instance canonical delivery secret actor peer_id now s =
    if is_empty (trim_space canonical)
      || is_empty (trim_space delivery)
      || is_empty (trim_space secret)
    then (err invalid_token, s)
    else if not (is_missing (get s.peer_instances (trim_space peer_id)))
    then (err peer_instance_exists, s)
    else if is_taken s.peers (normalize_base_url canonical)
    then (err peer_instance_exists, s)
    else let peer = new_peer canonical delivery secret actor peer_id now in
      (
        ok peer,
        with_peers s (record s.peers {
          peer_instances = put s.peer_instances peer_id peer;
          peer_by_canonical_base =
              put s.peer_by_canonical_base (normalize_base_url canonical) peer_id;
        }),
      )

unfoldable pub get_peer_instance : Text → MemoryStore → Result PeerInstance
get_peer_instance peer_id s = elim (get s.peer_instances (trim_space peer_id)) [
  | none ↦ err peer_instance_not_found
  | some p ↦ ok p
]

unfoldable pub resolve_peer_by_canonical_base : Text → MemoryStore → Result PeerInstance
resolve_peer_by_canonical_base url s =
    elim (get s.peer_by_canonical_base (normalize_base_url url)) [
      | none ↦ err peer_instance_not_found
      | some id ↦ elim (get s.peer_instances id) [
        | none ↦ err peer_instance_not_found
        | some p ↦ ok p
      ]
    ]

-- The entries of a map whose values pass a test: a loop that deletes the others.
unfoldable pub keep_values : {V : Type 0} → (V → Bool) → Dict V → Dict V
keep_values p [] = []
keep_values p ((k, v) ∷ m) = let rest = keep_values p m in if p v then (k, v) ∷ rest else rest

remove_org_keys : Text → Dict RemoteOrgTrust → Dict Text → Dict Text
unfolding remote_org_trust_key
remove_org_keys peer_id [] keys = keys
remove_org_keys peer_id ((id, t) ∷ ts) keys =
    let rest = remove_org_keys peer_id ts keys in
    if text_eq t.peer_id peer_id
    then remove rest (remote_org_trust_key t.local_org_id t.peer_id t.remote_org_handle)
    else rest

remove_agent_keys : Text → Dict RemoteAgentTrust → Dict Text → Dict Text
unfolding remote_agent_trust_key
remove_agent_keys peer_id [] keys = keys
remove_agent_keys peer_id ((id, t) ∷ ts) keys =
    let rest = remove_agent_keys peer_id ts keys in
    if text_eq t.peer_id peer_id
    then remove rest (remote_agent_trust_key t.local_agent_uuid t.peer_id t.remote_agent_uri)
    else rest

unfoldable pub drop_peer : PeerInstance → Peers → Peers
unfolding keep_values remove_org_keys remove_agent_keys
drop_peer peer p = record p {
  peer_instances = remove p.peer_instances peer.peer_id;
  peer_by_canonical_base = remove p.peer_by_canonical_base peer.canonical_base_url;
  peer_outbound_by_peer = remove p.peer_outbound_by_peer peer.peer_id;
  peer_outbounds =
      keep_values (λ (o : PeerOutboundMessage). not (text_eq o.peer_id peer.peer_id))
        p.peer_outbounds;
  remote_org_trusts =
      keep_values (λ (t : RemoteOrgTrust). not (text_eq t.peer_id peer.peer_id))
        p.remote_org_trusts;
  remote_org_trust_by_key =
      remove_org_keys peer.peer_id p.remote_org_trusts p.remote_org_trust_by_key;
  remote_agent_trusts =
      keep_values (λ (t : RemoteAgentTrust). not (text_eq t.peer_id peer.peer_id))
        p.remote_agent_trusts;
  remote_agent_trust_by_key =
      remove_agent_keys peer.peer_id p.remote_agent_trusts p.remote_agent_trust_by_key;
}

unfoldable pub delete_peer_instance : Text → Time → MemoryStore → Outcome PeerInstance
unfolding drop_peer
delete_peer_instance peer_id now s = elim (get s.peer_instances (trim_space peer_id)) [
  | none ↦ (err peer_instance_not_found, s)
  | some peer ↦ (
    ok (record peer { status = revoked; updated_at = now }),
    with_peers s (drop_peer peer s.peers),
  )
]

unfoldable pub set_peer : PeerInstance → Peers → Peers
set_peer peer p = record p { peer_instances = put p.peer_instances peer.peer_id peer }

unfoldable pub record_peer_delivery_success : Text → Time → MemoryStore → MemoryStore
record_peer_delivery_success peer_id now s = elim (get s.peer_instances (trim_space peer_id)) [
  | none ↦ s
  | some peer ↦ with_peers s (
      set_peer
        (record peer {
          last_successful_at = some now;
          last_failure_at = none;
          last_failure_reason = [];
          updated_at = now;
        })
        s.peers)
]

unfoldable pub record_peer_delivery_failure : Text → Text → Time → MemoryStore → MemoryStore
record_peer_delivery_failure peer_id reason now s =
    elim (get s.peer_instances (trim_space peer_id)) [
      | none ↦ s
      | some peer ↦ with_peers s (
          set_peer
            (record peer {
              last_failure_at = some now;
              last_failure_reason = trim_space reason;
              updated_at = now;
            })
            s.peers)
    ]
