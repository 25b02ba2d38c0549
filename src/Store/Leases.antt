-- ===== src/Store/Leases.antt =====
-- The leases (deliveries) of internal/store/memory.go: `LeaseMessage`, `AckMessageDelivery`,
-- `ReleaseMessageDelivery` and `ExpireMessageLeases`.
pub mod Exact
pub mod Sweep
pub mod Outcomes
pub mod Cycle
pub mod Atomic
use moltenhub.Base.{◌+◌, Option, none, some, List, [], ◌∷◌, ltb, if◌then◌else◌}
use moltenhub.Base.Text.{Text, text, text_eq, text_le, trim_space}
use moltenhub.Base.Dict.{get, put, remove, keys}
use moltenhub.Model.{Message, MessageRecord, MessageDelivery, queued, leased, acked}
use moltenhub.Model.Value.{number, string}
use moltenhub.Model.Clock.{Time}
use moltenhub.Store.State.{
  MemoryStore, Mailbox, Result, Outcome, ok, err, message_not_found, message_delivery_not_found,
  message_delivery_mismatch,
}
use moltenhub.Store.Metrics.{note_delivery_added, note_delivery_removed}
use moltenhub.Store.Stats.{increment_acked, increment_expired, increment_redelivered}
use moltenhub.Store.Messages.{audit_message, message_audit_details, set_record, with_mailbox}

unfoldable pub lease_record : MessageRecord → Text → Time → Time → MessageRecord
lease_record r delivery_id leased_at expires_at = record r {
  status = leased;
  updated_at = leased_at;
  first_received_at = elim r.first_received_at [ none ↦ some leased_at | some t ↦ some t ];
  last_leased_at = some leased_at;
  lease_expires_at = some expires_at;
  delivery_attempts = r.delivery_attempts + 1;
  last_delivery_id = some delivery_id;
}

unfoldable pub lease_delivery : MessageRecord → Text → Text → Time → Time → MessageDelivery
lease_delivery r receiver delivery_id leased_at expires_at = record {
  delivery_id = delivery_id;
  message_id = r.message.message_id;
  agent_uuid = receiver;
  attempt = r.delivery_attempts;
  leased_at = leased_at;
  lease_expires_at = expires_at;
}

pub add_delivery : MessageDelivery → Mailbox → Mailbox
unfolding note_delivery_added
add_delivery d b =
    note_delivery_added d
      (record b { message_deliveries = put b.message_deliveries d.delivery_id d })

unfoldable pub lease_message :
    Text → Text → Text → Time → Time → MemoryStore → Outcome (MessageDelivery × MessageRecord)
unfolding lease_record lease_delivery add_delivery
lease_message id receiver delivery_id leased_at expires_at s = elim (get s.message_records id) [
  | none ↦ (err message_not_found, s)
  | some existing ↦
      if text_eq existing.message.to_agent_uuid receiver
      then (let r = lease_record existing delivery_id leased_at expires_at in
          let d = lease_delivery r receiver delivery_id leased_at expires_at in
          let counted =
            if ltb 1 r.delivery_attempts
            then increment_redelivered r.message.sender_org_id leased_at s
            else s in
          let details =
            put (put (message_audit_details r.message) (text "delivery_id") (string delivery_id))
              (text "attempt") (number r.delivery_attempts) in
          (
            ok (d, r),
            audit_message r.message.receiver_org_id (text "lease") r.message.message_id details
                leased_at (with_mailbox counted (add_delivery d (set_record id r s.mailbox))),
          ))
      else (err message_delivery_mismatch, s)
]

pub drop_delivery : Text → Mailbox → Mailbox
drop_delivery id b = record b { message_deliveries = remove b.message_deliveries id }

-- The lookups that `AckMessageDelivery` and `ReleaseMessageDelivery` begin with.
unfoldable pub find_delivery : Mailbox → Text → Text → Result MessageDelivery
find_delivery b receiver delivery_id = elim (get b.message_deliveries delivery_id) [
  | none ↦ err message_delivery_not_found
  | some d ↦ if text_eq d.agent_uuid receiver then ok d else err message_delivery_mismatch
]

unfoldable pub ack_record : MessageRecord → Time → MessageRecord
ack_record r now = record r {
  status = acked;
  updated_at = now;
  acked_at = some now;
  lease_expires_at = none;
  last_failure_at = none;
  last_failure_reason = [];
}

unfoldable pub requeue_record : MessageRecord → Time → Text → MessageRecord
requeue_record r now reason = record r {
  status = queued;
  updated_at = now;
  lease_expires_at = none;
  requeue_count = r.requeue_count + 1;
  last_failure_reason = reason;
  last_failure_at = some now;
}

unfoldable pub ack_found : MessageDelivery → Text → Time → MemoryStore → Outcome MessageRecord
unfolding ack_record drop_delivery note_delivery_removed
ack_found d delivery_id now s =
    let dropped = note_delivery_removed d (drop_delivery delivery_id s.mailbox) in
    elim (get s.message_records d.message_id) [
      | none ↦ (err message_not_found, with_mailbox s dropped)
      | some existing ↦
          let r = ack_record existing now in
          let counted =
            increment_acked r.message.sender_org_id now
              (with_mailbox s (set_record d.message_id r dropped)) in
          (
            ok r,
            audit_message r.message.receiver_org_id (text "ack") r.message.message_id
                (put (message_audit_details r.message) (text "delivery_id") (string delivery_id))
                now counted,
          )
    ]

unfoldable pub ack_message_delivery : Text → Text → Time → MemoryStore → Outcome MessageRecord
unfolding find_delivery ack_found
ack_message_delivery receiver delivery_id now s =
    elim (find_delivery s.mailbox receiver delivery_id) [
      | err e ↦ (err e, s)
      | ok d ↦ ack_found d delivery_id now s
    ]

-- Where the record is missing the delivery goes, and the metrics are not told.
unfoldable pub release_found :
    MessageDelivery → Text → Time → Text → MemoryStore → Outcome (Message × MessageRecord)
unfolding requeue_record drop_delivery note_delivery_removed
release_found d delivery_id now reason s =
    let dropped = drop_delivery delivery_id s.mailbox in
    elim (get s.message_records d.message_id) [
      | none ↦ (err message_not_found, with_mailbox s dropped)
      | some existing ↦
          let r = requeue_record existing now (trim_space reason) in
          let details =
            put (put (message_audit_details r.message) (text "delivery_id") (string delivery_id))
              (text "reason") (string r.last_failure_reason) in
          (
            ok (r.message, r),
            audit_message r.message.receiver_org_id (text "nack") r.message.message_id details now
                (with_mailbox s (set_record d.message_id r (note_delivery_removed d dropped))),
          )
    ]

unfoldable pub release_message_delivery :
    Text → Text → Time → Text → MemoryStore → Outcome (Message × MessageRecord)
unfolding find_delivery release_found
release_message_delivery receiver delivery_id now reason s =
    elim (find_delivery s.mailbox receiver delivery_id) [
      | err e ↦ (err e, s)
      | ok d ↦ release_found d delivery_id now reason s
    ]

unfoldable pub insert_key : Text → List Text → List Text
insert_key k [] = k ∷ []
insert_key k (j ∷ js) = if text_le k j then k ∷ j ∷ js else j ∷ insert_key k js

-- sort.Strings
unfoldable pub sort_strings : List Text → List Text
unfolding insert_key
sort_strings [] = []
sort_strings (k ∷ ks) = insert_key k (sort_strings ks)

abbrev lease_expired : Text
lease_expired = text "lease_expired"

-- One expired delivery: its message back to the queue, if the record is there.
unfoldable pub expire_found :
    MessageDelivery → Text → Time → MemoryStore → Option Message × MemoryStore
unfolding requeue_record drop_delivery note_delivery_removed
expire_found d delivery_id now s =
    let dropped = note_delivery_removed d (drop_delivery delivery_id s.mailbox) in
    elim (get s.message_records d.message_id) [
      | none ↦ (none, with_mailbox s dropped)
      | some existing ↦
          let r = requeue_record existing now lease_expired in
          let counted =
            increment_expired r.message.sender_org_id now
              (with_mailbox s (set_record d.message_id r dropped)) in
          let details =
            put (put (message_audit_details r.message) (text "delivery_id") (string delivery_id))
              (text "reason") (string lease_expired) in
          (
            some r.message,
            audit_message r.message.receiver_org_id (text "lease_expire") r.message.message_id
                details now counted,
          )
    ]

-- The body of the loop. Every id of the loop has a delivery: a round deletes only its own.
unfoldable pub expire_one : Time → Text → MemoryStore → Option Message × MemoryStore
unfolding expire_found
expire_one now delivery_id s = elim (get s.message_deliveries delivery_id) [
  | none ↦ (none, s)
  | some d ↦ if ltb now d.lease_expires_at then (none, s) else expire_found d delivery_id now s
]

abbrev cons_some : Option Message → List Message → List Message
cons_some none ms = ms
cons_some (some m) ms = m ∷ ms

unfoldable pub expire_loop : Time → List Text → MemoryStore → List Message × MemoryStore
expire_loop now [] s = ([], s)
expire_loop now (id ∷ ids) s =
    let (found, s') = expire_one now id s in
    let (messages, t) = expire_loop now ids s' in (cons_some found messages, t)

unfoldable pub expire_message_leases : Time → MemoryStore → List Message × MemoryStore
unfolding sort_strings
expire_message_leases now s = expire_loop now (sort_strings (keys s.message_deliveries)) s
