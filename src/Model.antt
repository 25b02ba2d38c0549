-- ===== src/Model.antt =====
-- internal/model/types.go: the data of the hub. A Go pointer that may be nil is an `Option`; the
-- string constants of a closed set are the constructors of a data type.
pub mod Value
pub mod Clock
use moltenhub.Base.{ℕ, Bool, Option, List}
use moltenhub.Base.Text.{Text}
use Value.{Metadata}
use Clock.{Time}

pub data Role : Type 0 where
  owner admin member viewer : Role
  other : Text → Role

-- The statuses of agents, memberships, trust edges, peers and outbound messages; `unset` is the
-- zero value, the empty string.
pub data Status : Type 0 where
  unset pending active blocked revoked expired deleted : Status

pub data MessageStatus : Type 0 where
  queued leased acked failed forwarded : MessageStatus

pub data EdgeType : Type 0 where
  org agent : EdgeType
  unknown : Text → EdgeType

pub record Organization : Type 0 where
  pub org_id : Text
  pub handle : Text
  pub display_name : Text
  pub metadata : Metadata
  pub created_at : Time
  pub created_by : Text

pub record Human : Type 0 where
  pub human_id : Text
  pub handle : Text
  pub handle_confirmed_at : Option Time
  pub auth_provider : Text
  pub auth_subject : Text
  pub email : Text
  pub email_verified : Bool
  pub metadata : Metadata
  pub created_at : Time

pub record Membership : Type 0 where
  pub membership_id : Text
  pub org_id : Text
  pub human_id : Text
  pub role : Role
  pub status : Status
  pub created_at : Time

pub record Invite : Type 0 where
  pub invite_id : Text
  pub org_id : Text
  pub email : Text
  pub role : Role
  pub status : Status
  pub created_by : Text
  pub created_at : Time
  pub expires_at : Time
  pub accepted_at : Option Time
  pub revoked_at : Option Time
  pub invite_secret : Text

pub record Agent : Type 0 where
  pub agent_uuid : Text
  pub agent_id : Text
  pub handle : Text
  pub handle_finalized_at : Option Time
  pub org_id : Text
  pub owner_human_id : Option Text
  pub host_agent_uuid : Text
  pub token_hash : Text
  pub status : Status
  pub metadata : Metadata
  pub created_by : Text
  pub created_at : Time
  pub revoked_at : Option Time

pub record PeerInstance : Type 0 where
  pub peer_id : Text
  pub canonical_base_url : Text
  pub delivery_base_url : Text
  pub shared_secret : Text
  pub status : Status
  pub created_by : Text
  pub created_at : Time
  pub updated_at : Time
  pub last_successful_at : Option Time
  pub last_failure_at : Option Time
  pub last_failure_reason : Text

pub record RemoteOrgTrust : Type 0 where
  pub trust_id : Text
  pub local_org_id : Text
  pub peer_id : Text
  pub remote_org_handle : Text
  pub status : Status
  pub created_by : Text
  pub created_at : Time
  pub updated_at : Time

pub record RemoteAgentTrust : Type 0 where
  pub trust_id : Text
  pub local_agent_uuid : Text
  pub peer_id : Text
  pub remote_agent_uri : Text
  pub status : Status
  pub created_by : Text
  pub created_at : Time
  pub updated_at : Time

pub record BindToken : Type 0 where
  pub bind_id : Text
  pub org_id : Text
  pub owner_human_id : Option Text
  pub host_agent_uuid : Text
  pub token_hash : Text
  pub created_by : Text
  pub created_at : Time
  pub expires_at : Time
  pub used_at : Option Time

pub record TrustEdge : Type 0 where
  pub edge_id : Text
  pub edge_type : EdgeType
  pub left_id : Text
  pub right_id : Text
  pub state : Status
  pub left_approved : Bool
  pub right_approved : Bool
  pub created_by : Text
  pub created_at : Time
  pub updated_at : Time

pub record Message : Type 0 where
  pub message_id : Text
  pub from_agent_uuid : Text
  pub to_agent_uuid : Text
  pub from_agent_id : Text
  pub to_agent_id : Text
  pub from_agent_uri : Text
  pub to_agent_uri : Text
  pub sender_org_id : Text
  pub receiver_org_id : Text
  pub receiver_peer_id : Text
  pub content_type : Text
  pub payload : Text
  pub client_msg_id : Option Text
  pub created_at : Time

pub record MessageRecord : Type 0 where
  pub message : Message
  pub status : MessageStatus
  pub accepted_at : Time
  pub updated_at : Time
  pub first_received_at : Option Time
  pub last_leased_at : Option Time
  pub lease_expires_at : Option Time
  pub acked_at : Option Time
  pub last_delivery_id : Option Text
  pub delivery_attempts : ℕ
  pub requeue_count : ℕ
  pub idempotent_replays : ℕ
  pub last_failure_reason : Text
  pub last_failure_at : Option Time

pub record MessageDelivery : Type 0 where
  pub delivery_id : Text
  pub message_id : Text
  pub agent_uuid : Text
  pub attempt : ℕ
  pub leased_at : Time
  pub lease_expires_at : Time

pub record QueueMetrics : Type 0 where
  pub available_messages : ℕ
  pub leased_messages : ℕ
  pub oldest_queued_at : Option Time
  pub oldest_lease_expiry_at : Option Time

pub record PeerOutboundMessage : Type 0 where
  pub outbound_id : Text
  pub peer_id : Text
  pub message_id : Text
  pub message : Message
  pub status : Status
  pub created_at : Time
  pub updated_at : Time
  pub attempt_count : ℕ
  pub next_attempt_at : Time
  pub last_attempt_at : Option Time
  pub last_error : Text
  pub last_delivered_at : Option Time

pub record OrgStats : Type 0 where
  pub org_id : Text
  pub queued_messages : ℕ
  pub dropped_messages : ℕ
  pub acked_messages : ℕ
  pub expired_messages : ℕ
  pub redelivered_messages : ℕ
  pub duplicate_messages : ℕ

pub record OrgDailyStats : Type 0 where
  pub date : Text
  pub queued_messages : ℕ
  pub dropped_messages : ℕ
  pub acked_messages : ℕ
  pub expired_messages : ℕ
  pub redelivered_messages : ℕ
  pub duplicate_messages : ℕ

pub record AuditEvent : Type 0 where
  pub event_id : Text
  pub org_id : Text
  pub actor_human : Text
  pub category : Text
  pub action : Text
  pub subject_id : Text
  pub details : Metadata
  pub created_at : Time

pub record OrgAccessKey : Type 0 where
  pub key_id : Text
  pub org_id : Text
  pub label : Text
  pub scopes : List Text
  pub status : Status
  pub created_by : Text
  pub created_at : Time
  pub expires_at : Option Time
  pub last_used_at : Option Time
  pub revoked_at : Option Time
  pub token_hash : Text

pub record MembershipWithOrg : Type 0 where
  pub membership : Membership
  pub org : Organization

pub record OrgHumanView : Type 0 where
  pub human_id : Text
  pub handle : Text
  pub email : Text
  pub role : Role
  pub status : Status
  pub auth_provider : Text
  pub metadata : Metadata

pub record InviteWithOrg : Type 0 where
  pub invite : Invite
  pub org : Organization
