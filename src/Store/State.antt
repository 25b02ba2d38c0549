-- ===== src/Store/State.antt =====
-- The fields of `MemoryStore` in internal/store/memory.go that the modelled operations read or
-- write, in the groups that the operations share, and `NewMemoryStore`. The mutexes are not state:
-- each operation holds `mu` throughout, so a run is a sequence of operations.
use moltenhub.Base.{
  ◌⊎◌, inl, inr, ◌≡◌, refl, ap, Bool, true, false, if◌then◌else◌, Option, none, some, List, [],
}
use moltenhub.Base.Text.{Text}
use moltenhub.Base.Dict.{Dict}
use moltenhub.Model.Value.{Metadata}
use moltenhub.Model.{
  Organization, Human, Membership, Invite, OrgAccessKey, BindToken, Agent, PeerInstance,
  RemoteOrgTrust, RemoteAgentTrust, TrustEdge, Message, MessageRecord, MessageDelivery,
  QueueMetrics, PeerOutboundMessage, OrgStats, OrgDailyStats, AuditEvent,
}

pub record Directory : Type 0 where
  pub orgs : Dict Organization
  pub memberships : Dict Membership
  pub membership_by_org_user : Dict Text
  pub agents : Dict Agent

pub record Accounts : Type 0 where
  pub org_by_handle : Dict Text
  pub personal_org_by_human : Dict Text
  pub archived_orgs : Dict Organization
  pub humans : Dict Human
  pub human_by_auth_key : Dict Text
  pub human_by_handle : Dict Text
  pub human_presence : Dict Metadata

pub record Grants : Type 0 where
  pub invites : Dict Invite
  pub invite_by_secret_hash : Dict Text
  pub org_access_keys : Dict OrgAccessKey
  pub org_access_key_by_hash : Dict Text

pub record Registry : Type 0 where
  pub archived_agents : Dict Agent
  pub agent_by_uri : Dict Text
  pub agent_token_idx : Dict Text
  pub org_owned_agent_name_idx : Dict Text
  pub human_owned_agent_name_idx : Dict Text
  pub binds : Dict BindToken
  pub bind_by_hash : Dict Text
  pub agent_presence : Dict Metadata

pub record Mailbox : Type 0 where
  pub queues : Dict (List Message)
  pub message_records : Dict MessageRecord
  pub message_by_client_msg : Dict Text
  pub message_deliveries : Dict MessageDelivery
  pub queue_metrics : QueueMetrics

pub record Trusts : Type 0 where
  pub org_trusts : Dict TrustEdge
  pub org_trust_by_pair : Dict Text
  pub agent_trusts : Dict TrustEdge
  pub agent_trust_by_pair : Dict Text

pub record Peers : Type 0 where
  pub peer_instances : Dict PeerInstance
  pub peer_by_canonical_base : Dict Text
  pub remote_org_trusts : Dict RemoteOrgTrust
  pub remote_org_trust_by_key : Dict Text
  pub remote_agent_trusts : Dict RemoteAgentTrust
  pub remote_agent_trust_by_key : Dict Text
  pub peer_outbounds : Dict PeerOutboundMessage
  pub peer_outbound_by_peer : Dict (List Text)

pub record Ledger : Type 0 where
  pub audit_by_org : Dict (List AuditEvent)
  pub stats_by_org : Dict OrgStats
  pub stats_daily : Dict (Dict OrgDailyStats)

pub record MemoryStore : Type 0 where
  pub directory : Directory
  pub open directory use *
  pub accounts : Accounts
  pub open accounts use *
  pub grants : Grants
  pub open grants use *
  pub registry : Registry
  pub open registry use *
  pub mailbox : Mailbox
  pub open mailbox use *
  pub trusts : Trusts
  pub open trusts use *
  pub peers : Peers
  pub open peers use *
  pub ledger : Ledger
  pub open ledger use *

-- The sentinel errors of memory.go that the modelled operations return.
pub data Error : Type 0 where
  org_handle_taken human_not_found human_handle_taken invalid_handle membership_not_found : Error
  invite_not_found invite_invalid invite_exists invalid_role cannot_revoke_owner : Error
  org_access_key_not_found org_access_key_invalid org_access_scope_denied : Error
  agent_exists agent_handle_locked bind_not_found bind_expired bind_used : Error
  hosted_agent_restricted : Error
  invalid_token org_not_found agent_not_found trust_not_found unauthorized_role : Error
  invalid_edge_type self_trust no_trust_path agent_ambiguous : Error
  message_not_found message_delivery_not_found message_delivery_mismatch : Error
  peer_instance_not_found peer_instance_exists : Error
  remote_org_trust_not_found remote_agent_trust_not_found : Error
  -- The error of the caller's `idFactory` or of `newRandomUUID`, passed on.
  id_failed : Error

-- What a Go function returning `(T, error)` returns.
pub data Result {ℓ} (A : Type ℓ) : Type ℓ where
  ok : A → Result A
  err : Error → Result A

pub err_not_ok : {A : Type 0} {x : Error} {a : A} → ◌≡◌ {A = Result A} (err x) (ok a) → ⊥
err_not_ok e = cc

pub ok_not_err : {A : Type 0} {x : Error} {a : A} → ◌≡◌ {A = Result A} (ok a) (err x) → ⊥
ok_not_err e = cc

-- The result of a lookup that fails with an error.
abbrev pub or_error {ℓ} : {A : Type ℓ} → Option A → Error → Result A
or_error none e = err e
or_error (some a) e = ok a

abbrev pub no_metrics : QueueMetrics
no_metrics = record {
  available_messages = 0;
  leased_messages = 0;
  oldest_queued_at = none;
  oldest_lease_expiry_at = none;
}

abbrev pub empty_mailbox : Mailbox
empty_mailbox = record {
  queues = [];
  message_records = [];
  message_by_client_msg = [];
  message_deliveries = [];
  queue_metrics = no_metrics;
}

unfoldable pub new_memory_store : MemoryStore
new_memory_store = record {
  directory = record { orgs = []; memberships = []; membership_by_org_user = []; agents = [] };
  accounts = record {
    org_by_handle = [];
    personal_org_by_human = [];
    archived_orgs = [];
    humans = [];
    human_by_auth_key = [];
    human_by_handle = [];
    human_presence = [];
  };
  grants = record {
    invites = [];
    invite_by_secret_hash = [];
    org_access_keys = [];
    org_access_key_by_hash = [];
  };
  registry = record {
    archived_agents = [];
    agent_by_uri = [];
    agent_token_idx = [];
    org_owned_agent_name_idx = [];
    human_owned_agent_name_idx = [];
    binds = [];
    bind_by_hash = [];
    agent_presence = [];
  };
  mailbox = empty_mailbox;
  trusts = record {
    org_trusts = [];
    org_trust_by_pair = [];
    agent_trusts = [];
    agent_trust_by_pair = [];
  };
  peers = record {
    peer_instances = [];
    peer_by_canonical_base = [];
    remote_org_trusts = [];
    remote_org_trust_by_key = [];
    remote_agent_trusts = [];
    remote_agent_trust_by_key = [];
    peer_outbounds = [];
    peer_outbound_by_peer = [];
  };
  ledger = record { audit_by_org = []; stats_by_org = []; stats_daily = [] };
}

-- The result of an operation, and the store that it leaves behind, on an error too.
abbrev pub Outcome : Type 0 → Type 0
Outcome A = Result A × MemoryStore

-- What a guard that returns an error has let pass.
pub passed :
    {A : Type 0} {t : MemoryStore} {a : A} (test : Bool) (e : Error) (s : MemoryStore)
    (rest : Outcome A)
    → ◌≡◌ {A = Outcome A} (if test then (err e, s) else rest) (ok a, t)
    → (test ≡ false) × (rest ≡ (ok a, t))
passed true e s rest h = absurd (err_not_ok (ap (λ p. p.0) h))
passed false e s rest h = (refl, h)

pub ok_injective : {A : Type 0} {a b : A} → ◌≡◌ {A = Result A} (ok b) (ok a) → b ≡ a
ok_injective e = cc

pub settled :
    {A : Type 0} {t u : MemoryStore} {a b : A}
    → ◌≡◌ {A = Outcome A} (ok b, u) (ok a, t)
    → (b ≡ a) × (u ≡ t)
settled h = (ok_injective (ap (λ p. p.0) h), ap (λ p. p.1) h)

pub Result-cases :
    {A : Type 0} (r : Result A) → ((a : A) × (r ≡ ok a)) ⊎ ((x : Error) × (r ≡ err x))
Result-cases (ok a) = inl (a, refl)
Result-cases (err x) = inr (x, refl)
