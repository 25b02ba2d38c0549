-- ===== src/Store/Tests/Peers.antt =====
-- Federation on sample data: a peer `p`, and trust in its organization `far`.
use moltenhub.Base.{ℕ, ◌<◌, ◌≡◌, refl, true, false, none, [], ◌∷◌}
use moltenhub.Base.Text.{text, text_eq, trim_space, trim_func, drop_while, is_space}
use moltenhub.Base.Dict.{get}
use moltenhub.Model.{PeerInstance, Organization, active, revoked}
use moltenhub.Store.State.{MemoryStore, new_memory_store}
use moltenhub.Store.Peers.{delete_peer_instance}
use moltenhub.Store.Peers.Remote.{
  create_remote_org_trust, delete_remote_org_trust, has_active_remote_org_trust, new_org_trust,
}
use moltenhub.Store.Peers.Grants.{create_remote_org_trust-active, delete_remote_org_trust-create}
use moltenhub.Store.Peers.Orphans.{IsWithout, delete_peer_instance-IsWithout}
use moltenhub.Store.Peers.Outbound.{list_due_peer_outbounds, enqueue_peer_outbound}
use moltenhub.Store.Peers.Outbound.Due.{IsDueList, list_due_peer_outbounds-AllDue}
use moltenhub.Store.Tests.{hello}

abbrev peer : PeerInstance
peer = record {
  peer_id = text "p";
  canonical_base_url = text "https://far";
  delivery_base_url = text "https://far";
  shared_secret = text "s";
  status = active;
  created_by = text "h";
  created_at = 1;
  updated_at = 1;
  last_successful_at = none;
  last_failure_at = none;
  last_failure_reason = [];
}

abbrev near : Organization
near = record {
  org_id = text "o";
  handle = text "near";
  display_name = text "Near";
  metadata = [];
  created_at = 1;
  created_by = text "h";
}

abbrev federated : MemoryStore
federated = record new_memory_store {
  directory = record {
    orgs = (text "o", near) ∷ [];
    memberships = [];
    membership_by_org_user = [];
    agents = [];
  };
  peers = record {
    peer_instances = (text "p", peer) ∷ [];
    peer_by_canonical_base = (text "https://far", text "p") ∷ [];
    remote_org_trusts = [];
    remote_org_trust_by_key = [];
    remote_agent_trusts = [];
    remote_agent_trust_by_key = [];
    peer_outbounds = [];
    peer_outbound_by_peer = [];
  };
}

create_remote_org_trust-active_example :
    has_active_remote_org_trust
      (create_remote_org_trust
        (text "o")
        (text "p")
        (text "Far")
        (text "h")
        (text "t")
        2
        federated).1.peers
      (text "o")
      (text "p")
      (text "Far")
    ≡ true
unfolding create_remote_org_trust get text_eq
create_remote_org_trust-active_example =
    create_remote_org_trust-active (text "o") (text "p") (text "Far") (text "h") (text "t") 2
      federated (new_org_trust (text "o") (text "p") (text "Far") (text "h") (text "t") 2) refl

delete_remote_org_trust-create_example :
    has_active_remote_org_trust
      (delete_remote_org_trust
        (text "t")
        3
        (create_remote_org_trust
          (text "o")
          (text "p")
          (text "Far")
          (text "h")
          (text "t")
          2
          federated).1).1.peers
      (text "o")
      (text "p")
      (text "Far")
    ≡ false
unfolding get text_eq trim_space trim_func drop_while is_space
delete_remote_org_trust-create_example =
    delete_remote_org_trust-create (text "o") (text "p") (text "Far") (text "h") (text "t") 2 3
      federated refl refl refl refl

abbrev waiting : MemoryStore
waiting = (enqueue_peer_outbound (text "p") (text "x") hello 5 federated).1

delete_peer_instance-IsWithout_example :
    IsWithout (delete_peer_instance (text "p") 3 waiting).1.peers (text "p")
unfolding delete_peer_instance enqueue_peer_outbound get text_eq trim_space trim_func drop_while
    is_space
delete_peer_instance-IsWithout_example =
    delete_peer_instance-IsWithout (text "p") 3 waiting
      (record peer { status = revoked; updated_at = 3 }) refl

list_due_peer_outbounds-AllDue_example :
    IsDueList 6 32 waiting.peer_outbounds (list_due_peer_outbounds 6 0 waiting)
    × ((limit : ℕ)
        → 0 < limit
        → IsDueList 6 limit waiting.peer_outbounds (list_due_peer_outbounds 6 limit waiting))
list_due_peer_outbounds-AllDue_example = list_due_peer_outbounds-AllDue 6 waiting
