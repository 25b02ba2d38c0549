-- ===== src/Store/Messages.antt =====
-- The life of a message in internal/store/memory.go: its record from acceptance to acknowledgement,
-- and the leases (deliveries) under which its receiver works on it.
pub mod Frame
pub mod Linked
pub mod Replay
use moltenhub.Base.{
  ◌+◌, Bool, true, false, not, ◌||◌, Option, none, some, [], ◌∷◌, ◌++◌, is_empty, if◌then◌else◌,
}
use moltenhub.Base.Text.{Text, text, text_eq, trim_space}
use moltenhub.Base.Dict.{Dict, get, put, remove}
use moltenhub.Model.{Message, MessageRecord, queued, forwarded}
use moltenhub.Model.Value.{Metadata, boolean, string}
use moltenhub.Model.Clock.{Time}
use moltenhub.Store.State.{MemoryStore, Mailbox, Result, Outcome, ok, err, message_not_found}
use moltenhub.Store.Stats.{increment_duplicate}
use moltenhub.Store.Audit.{append_audit}

unfoldable pub normalized_archive_content_type : Text → Text
normalized_archive_content_type content_type =
    let trimmed = trim_space content_type in if is_empty trimmed then text "unknown" else trimmed

client_detail : Option Text → Metadata
client_detail none = []
client_detail (some id) = (text "client_msg_id", string (trim_space id)) ∷ []

unfoldable pub message_audit_details : Message → Metadata
unfolding normalized_archive_content_type client_detail
message_audit_details m =
    (text "from_agent_uuid", string (trim_space m.from_agent_uuid))
    ∷ (text "to_agent_uuid", string (trim_space m.to_agent_uuid))
    ∷ (text "from_agent_id", string (trim_space m.from_agent_id))
    ∷ (text "to_agent_id", string (trim_space m.to_agent_id))
    ∷ (text "from_agent_uri", string (trim_space m.from_agent_uri))
    ∷ (text "to_agent_uri", string (trim_space m.to_agent_uri))
    ∷ (text "sender_org_id", string (trim_space m.sender_org_id))
    ∷ (text "receiver_org_id", string (trim_space m.receiver_org_id))
    ∷ (text "receiver_peer_id", string (trim_space m.receiver_peer_id))
    ∷ (text "content_type", string (normalized_archive_content_type m.content_type))
    ∷ client_detail m.client_msg_id

-- if orgID := strings.TrimSpace(org); orgID != "" { appendAuditLocked(orgID, "", "message", …) }
unfoldable pub audit_message : Text → Text → Text → Metadata → Time → MemoryStore → MemoryStore
audit_message org action message_id details now s =
    let org_id = trim_space org in
    if is_empty org_id
    then s
    else append_audit org_id [] (text "message") action message_id details now s

-- messageClientKey: the two parts joined by a NUL byte.
unfoldable pub message_client_key : Text → Text → Text
message_client_key sender client = trim_space sender ++ 0 ∷ trim_space client

has_outbound : Text → Dict MessageRecord → Bool
has_outbound uuid [] = false
has_outbound uuid ((k, r) ∷ records) =
    text_eq (trim_space r.message.from_agent_uuid) uuid || has_outbound uuid records

unfoldable pub agent_has_prior_outbound_message : Mailbox → Text → Bool
unfolding has_outbound
agent_has_prior_outbound_message b raw =
    let uuid = trim_space raw in
    if is_empty uuid then false else has_outbound uuid b.message_records

abbrev pub set_record : Text → MessageRecord → Mailbox → Mailbox
set_record id r b = record b { message_records = put b.message_records id r }

-- The mailbox is replaced; the audit trail and the counters follow.
abbrev pub with_mailbox : MemoryStore → Mailbox → MemoryStore
with_mailbox s b = record s { mailbox = b }

unfoldable pub new_record : Message → Time → MessageRecord
new_record message accepted_at = record {
  message = message;
  status = queued;
  accepted_at = accepted_at;
  updated_at = accepted_at;
  first_received_at = none;
  last_leased_at = none;
  lease_expires_at = none;
  acked_at = none;
  last_delivery_id = none;
  delivery_attempts = 0;
  requeue_count = 0;
  idempotent_replays = 0;
  last_failure_reason = [];
  last_failure_at = none;
}

unfoldable pub replayed : MessageRecord → Time → MessageRecord
replayed r now = record r { idempotent_replays = r.idempotent_replays + 1; updated_at = now }

audit_replay : MessageRecord → Time → MemoryStore → MemoryStore
audit_replay r now s =
    audit_message r.message.sender_org_id (text "publish_replay") r.message.message_id
      (message_audit_details r.message) now s

-- The client's key of a message, if it has one.
abbrev pub client_key : Message → Option Text
client_key m = elim m.client_msg_id [
  | none ↦ none
  | some id ↦ some (message_client_key m.from_agent_uuid id)
]

abbrev put_client_key : Option Text → Text → Dict Text → Dict Text
put_client_key none id m = m
put_client_key (some key) id m = put m key id

abbrev remove_client_key : Option Text → Dict Text → Dict Text
remove_client_key none m = m
remove_client_key (some key) m = remove m key

unfoldable pub insert_message : Message → Time → MemoryStore → Outcome (MessageRecord × Bool)
unfolding new_record
insert_message message accepted_at s =
    let r = new_record message accepted_at in
    let first = not (agent_has_prior_outbound_message s.mailbox message.from_agent_uuid) in
    let b = record s.mailbox {
      message_records = put s.message_records message.message_id r;
      message_by_client_msg =
          put_client_key (client_key message) message.message_id s.message_by_client_msg;
    } in
    let details = message_audit_details message in
    let noted = if first then put details (text "first_message") (boolean true) else details in
    (
      ok (r, false),
      audit_message message.sender_org_id (text "publish") message.message_id noted accepted_at
          (with_mailbox s b),
    )

unfoldable pub replay_message :
    Text → MessageRecord → Time → MemoryStore → Outcome (MessageRecord × Bool)
unfolding replayed audit_replay
replay_message id existing now s =
    let r = replayed existing now in
    (ok (r, true), audit_replay r now (with_mailbox s (set_record id r s.mailbox)))

-- The branch of a message with a client key: `existing` is the message id stored under the key.
unfoldable pub by_client_key :
    Text → Option Text → Message → Time → MemoryStore → Outcome (MessageRecord × Bool)
unfolding insert_message replayed audit_replay
by_client_key key none message now s = insert_message message now s
by_client_key key (some id) message now s = elim (get s.message_records id) [
  | none ↦ insert_message message now (
      with_mailbox s
        (record s.mailbox { message_by_client_msg = remove s.message_by_client_msg key }))
  | some existing ↦
      let r = replayed existing now in
      (
        ok (r, true),
        audit_replay r now (
            increment_duplicate r.message.sender_org_id now
              (with_mailbox s (set_record id r s.mailbox))),
      )
]

unfoldable pub create_or_get_message_record :
    Message → Time → MemoryStore → Outcome (MessageRecord × Bool)
unfolding replay_message insert_message by_client_key
create_or_get_message_record message now s =
    if is_empty (trim_space message.message_id)
    then (err message_not_found, s)
    else elim (get s.message_records message.message_id) [
      | some existing ↦ replay_message message.message_id existing now s
      | none ↦ elim (client_key message) [
        | none ↦ insert_message message now s
        | some key ↦ by_client_key key (get s.message_by_client_msg key) message now s
      ]
    ]

unfoldable pub mark_message_forwarded : Text → Time → MemoryStore → Outcome MessageRecord
mark_message_forwarded id now s = elim (get s.message_records (trim_space id)) [
  | none ↦ (err message_not_found, s)
  | some existing ↦
      let r = record existing {
        status = forwarded;
        updated_at = now;
        last_failure_at = none;
        last_failure_reason = [];
      } in
      (
        ok r,
        audit_message r.message.sender_org_id (text "forward") r.message.message_id
            (message_audit_details r.message) now
            (with_mailbox s (set_record r.message.message_id r s.mailbox)),
      )
]

-- `now` is the time.Now() of the audit event.
unfoldable pub abort_message_record : Text → Time → MemoryStore → Outcome (Unit {0})
abort_message_record id now s = elim (get s.message_records id) [
  | none ↦ (err message_not_found, s)
  | some r ↦ (
    ok tt,
    audit_message r.message.sender_org_id (text "publish_abort") r.message.message_id
        (message_audit_details r.message) now
        (with_mailbox s (record s.mailbox {
          message_records = remove s.message_records id;
          message_by_client_msg = remove_client_key (client_key r.message) s.message_by_client_msg;
        })),
  )
]

unfoldable pub get_message_record : Text → MemoryStore → Result MessageRecord
get_message_record id s = elim (get s.message_records id) [
  | none ↦ err message_not_found
  | some r ↦ ok r
]
