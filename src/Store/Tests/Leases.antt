-- ===== src/Store/Tests/Leases.antt =====
-- Leases on sample data: the message `m1` is leased to `b` as `d1` until 900.
use moltenhub.Base.{◌+◌, ◌≡◌, refl, none, some, [], ◌∷◌}
use moltenhub.Base.Text.{text, text_eq, trim_space, trim_func, drop_while, is_space}
use moltenhub.Base.Dict.{remove, get, put}
use moltenhub.Model.{MessageRecord, MessageDelivery, queued}
use moltenhub.Store.State.{
  MemoryStore, new_memory_store, ok, err, message_delivery_not_found, message_delivery_mismatch,
}
use moltenhub.Store.Metrics.{compute_queue_metrics, note_delivery_added}
use moltenhub.Store.Messages.{
  create_or_get_message_record, insert_message, by_client_key, message_client_key, audit_message,
  agent_has_prior_outbound_message,
}
use moltenhub.Store.Queue.{enqueue, dequeue, live_agent}
use moltenhub.Store.Leases.{
  lease_message, ack_message_delivery, release_message_delivery, expire_message_leases,
  find_delivery, lease_record, ack_record, requeue_record, lease_delivery,
}
use moltenhub.Store.Leases.Sweep.{get-expire_message_leases, unexpired}
use moltenhub.Store.Leases.Outcomes.{ack_once, release_once}
use moltenhub.Store.Leases.Cycle.{lease_cycle}
use moltenhub.Store.Leases.Atomic.{ack_atomic, release_atomic, release_drifts}
use moltenhub.Store.Invariant.Leases.{Linked}
use moltenhub.Store.Invariant.Steps.{Reach-IsSound, new_memory_store-IsSound}
use moltenhub.Store.Tests.{hello, with_taken, with_lease}
use moltenhub.Store.Tests.Messages.{to_taken, to_lease}

with_lease-Linked : Linked with_lease.mailbox
with_lease-Linked = (Reach-IsSound new_memory_store-IsSound to_lease).linked

get-expire_message_leases_example :
    get (expire_message_leases 900 with_lease).1.message_deliveries (text "d1")
    ≡ unexpired 900 (get with_lease.message_deliveries (text "d1"))
get-expire_message_leases_example = get-expire_message_leases 900 (text "d1") with_lease

abbrev hello_record : MessageRecord
hello_record = record {
  message = hello;
  status = queued;
  accepted_at = 500;
  updated_at = 500;
  first_received_at = none;
  last_leased_at = none;
  lease_expires_at = none;
  acked_at = none;
  last_delivery_id = none;
  delivery_attempts = 0;
  requeue_count = 0;
  idempotent_replays = 0;
  last_failure_reason = [];
  last_failure_at = none;
}

abbrev held : MessageRecord
held = lease_record hello_record (text "d1") 600 900

found_record : get with_taken.message_records (text "m1") ≡ some hello_record
unfolding new_memory_store get put text_eq create_or_get_message_record insert_message by_client_key
    message_client_key trim_space trim_func drop_while is_space audit_message enqueue live_agent
    dequeue
found_record = refl

lease_cycle_example :
    ((ack_message_delivery (text "b") (text "d1") 700 with_lease).0 ≡ ok (ack_record held 700))
    × ((release_message_delivery (text "b") (text "d1") 700 (text "busy") with_lease).0
        ≡ ok (hello, requeue_record held 700 (trim_space (text "busy"))))
lease_cycle_example =
    lease_cycle (text "m1") (text "b") (text "d1") 600 900 with_taken hello_record
      (Reach-IsSound new_memory_store-IsSound to_taken).linked found_record refl 700 (text "busy")

ack_once_example :
    (ack_message_delivery
        (text "b")
        (text "d1")
        800
        (ack_message_delivery (text "b") (text "d1") 700 with_lease).1
      ≡ (
        err message_delivery_not_found,
        (ack_message_delivery (text "b") (text "d1") 700 with_lease).1,
      ))
    × (release_message_delivery
          (text "b")
          (text "d1")
          800
          (text "busy")
          (ack_message_delivery (text "b") (text "d1") 700 with_lease).1
        ≡ (
          err message_delivery_not_found,
          (ack_message_delivery (text "b") (text "d1") 700 with_lease).1,
        ))
ack_once_example =
    ack_once (text "b") (text "d1") 700 with_lease (ack_record held 700) (text "b") 800
      (text "busy") lease_cycle_example.0

release_once_example :
    (ack_message_delivery
        (text "b")
        (text "d1")
        800
        (release_message_delivery (text "b") (text "d1") 700 (text "busy") with_lease).1
      ≡ (
        err message_delivery_not_found,
        (release_message_delivery (text "b") (text "d1") 700 (text "busy") with_lease).1,
      ))
    × (release_message_delivery
          (text "b")
          (text "d1")
          800
          (text "busy")
          (release_message_delivery (text "b") (text "d1") 700 (text "busy") with_lease).1
        ≡ (
          err message_delivery_not_found,
          (release_message_delivery (text "b") (text "d1") 700 (text "busy") with_lease).1,
        ))
release_once_example =
    release_once (text "b") (text "d1") 700 with_lease hello
      (requeue_record held 700 (trim_space (text "busy"))) (text "busy") (text "b") 800
      (text "busy") lease_cycle_example.1

refused_lookup :
    find_delivery with_lease.mailbox (text "a") (text "d1") ≡ err message_delivery_mismatch
unfolding find_delivery new_memory_store get put text_eq create_or_get_message_record insert_message
    by_client_key message_client_key trim_space trim_func drop_while is_space audit_message enqueue
    live_agent dequeue lease_message lease_delivery note_delivery_added
    agent_has_prior_outbound_message
refused_lookup = refl

ack_refused :
    (ack_message_delivery (text "a") (text "d1") 700 with_lease).0 ≡ err message_delivery_mismatch
unfolding ack_message_delivery
ack_refused = rw (refused_lookup, ack_message_delivery)

release_refused :
    (release_message_delivery (text "a") (text "d1") 700 (text "busy") with_lease).0
    ≡ err message_delivery_mismatch
unfolding release_message_delivery
release_refused = rw (refused_lookup, release_message_delivery)

ack_atomic_example : (ack_message_delivery (text "a") (text "d1") 700 with_lease).1 ≡ with_lease
ack_atomic_example = ack_atomic (text "a") (text "d1") 700 with_lease with_lease-Linked ack_refused

release_atomic_example :
    (release_message_delivery (text "a") (text "d1") 700 (text "busy") with_lease).1 ≡ with_lease
release_atomic_example =
    release_atomic (text "a") (text "d1") 700 with_lease with_lease-Linked (text "busy")
      release_refused

abbrev orphan : MessageDelivery
orphan = record {
  delivery_id = text "d1";
  message_id = text "m1";
  agent_uuid = text "b";
  attempt = 1;
  leased_at = 600;
  lease_expires_at = 900;
}

abbrev orphaned : MemoryStore
orphaned = record new_memory_store {
  mailbox = record {
    queues = [];
    message_records = [];
    message_by_client_msg = [];
    message_deliveries = (text "d1", orphan) ∷ [];
    queue_metrics = record {
      available_messages = 0;
      leased_messages = 1;
      oldest_queued_at = none;
      oldest_lease_expiry_at = some 900;
    };
  };
}

abbrev drifted : MemoryStore
drifted = (release_message_delivery (text "b") (text "d1") 700 (text "busy") orphaned).1

release_drifts_example :
    (drifted.message_deliveries ≡ remove orphaned.message_deliveries (text "d1"))
    × (get drifted.message_deliveries (text "d1") ≡ none)
    × (drifted.queues ≡ orphaned.queues)
    × (drifted.queue_metrics.leased_messages
        ≡ (compute_queue_metrics drifted.mailbox).leased_messages + 1)
unfolding compute_queue_metrics find_delivery get text_eq
release_drifts_example =
    release_drifts (text "b") (text "d1") 700 (text "busy") orphaned orphan
      (record { queues_map = tt; deliveries_map = (refl, tt); exact = refl }) refl refl
