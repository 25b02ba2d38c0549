-- ===== src/Store/Leases/Atomic.antt =====
-- Acknowledgements and releases that are refused, and a release whose message has no record.
use moltenhub.Base.{◌+◌, ◌≡◌, ◌≢◌, refl, inl, inr, none, some, arith}
use moltenhub.Base.Text.{Text}
use moltenhub.Base.Dict.{get, remove, get-remove_self}
use moltenhub.Base.Dict.Folds.{fold-remove}
use moltenhub.Model.{MessageRecord, MessageDelivery}
use moltenhub.Model.Clock.{Time}
use moltenhub.Store.State.{Result-cases, ok_not_err, MemoryStore, Error, ok, err}
use moltenhub.Store.Metrics.{compute_queue_metrics}
use moltenhub.Store.Metrics.Sums.{sum-monoid}
use moltenhub.Store.Metrics.Exact.{IsExact, agrees, compute_queue_metrics-sums}
use moltenhub.Store.Messages.Linked.{record_of}
use moltenhub.Store.Leases.Exact.{find_delivery_ok}
use moltenhub.Store.Invariant.Leases.{Linked}
use moltenhub.Store.Leases.{
  ack_message_delivery, release_message_delivery, find_delivery, ack_found, release_found,
  drop_delivery,
}

ack_found_accepts :
    (d : MessageDelivery) (id : Text) (now : Time) (s : MemoryStore) (r : MessageRecord) {x : Error}
    → get s.message_records d.message_id ≡ some r
    → (ack_found d id now s).0 ≢ err x
unfolding ack_found
ack_found_accepts d id now s r {x} there h = ok_not_err (rw (there, ack_found) at h)

release_found_accepts :
    (d : MessageDelivery) (id : Text) (now : Time) (reason : Text) (s : MemoryStore)
    (r : MessageRecord) {x : Error}
    → get s.message_records d.message_id ≡ some r
    → (release_found d id now reason s).0 ≢ err x
unfolding release_found
release_found_accepts d id now reason s r {x} there h = ok_not_err (rw (there, release_found) at h)

module _ (receiver id : Text) (now : Time) (s : MemoryStore) (l : Linked s.mailbox)
    {x : Error} where
  -- Where records and deliveries are linked, an acknowledgement that returns an error has changed
  -- nothing.
  pub ack_atomic :
      (ack_message_delivery receiver id now s).0 ≡ err x
      → (ack_message_delivery receiver id now s).1 ≡ s
  unfolding ack_message_delivery
  ack_atomic h = elim (Result-cases (find_delivery s.mailbox receiver id)) [
    | inr (y, refused) ↦ rw (refused, ack_message_delivery)
    | inl (d, found) ↦
        let stored = (find_delivery_ok s.mailbox receiver id d found).0 in
        let (r, there) = record_of s.message_records d.message_id (l.recorded id d stored) in
        absurd (ack_found_accepts d id now s r there (rw (found, ack_message_delivery) at h))
  ]

  -- Where records and deliveries are linked, a release that returns an error has changed nothing.
  pub release_atomic :
      (reason : Text)
      → (release_message_delivery receiver id now reason s).0 ≡ err x
      → (release_message_delivery receiver id now reason s).1 ≡ s
  unfolding release_message_delivery
  release_atomic reason h = elim (Result-cases (find_delivery s.mailbox receiver id)) [
    | inr (y, refused) ↦ rw (refused, release_message_delivery)
    | inl (d, found) ↦
        let stored = (find_delivery_ok s.mailbox receiver id d found).0 in
        let (r, there) = record_of s.message_records d.message_id (l.recorded id d stored) in
        absurd (
          release_found_accepts d id now reason s r there
            (rw (found, release_message_delivery) at h))
  ]

-- Where the metrics are exact and the record of a delivery's message is gone, a release by the
-- delivery's agent deletes the delivery, puts no message back, and leaves the metrics counting one
-- leased message more than there are.
pub release_drifts :
    (receiver id : Text) (now : Time) (reason : Text) (s : MemoryStore) (d : MessageDelivery)
    → IsExact s.mailbox
    → find_delivery s.mailbox receiver id ≡ ok d
    → get s.message_records d.message_id ≡ none
    → let t = (release_message_delivery receiver id now reason s).1 in
      (t.message_deliveries ≡ remove s.message_deliveries id)
      × (get t.message_deliveries id ≡ none)
      × (t.queues ≡ s.queues)
      × (t.queue_metrics.leased_messages ≡ (compute_queue_metrics t.mailbox).leased_messages + 1)
unfolding release_message_delivery release_found drop_delivery
release_drifts receiver id now reason s d e found missing =
    rw (found, release_message_delivery)
      (rw (missing, release_found)
        (
          refl,
          get-remove_self s.message_deliveries id,
          refl,
          rw (compute_queue_metrics-sums (drop_delivery id s.mailbox)) (
              omega (
                arith,
                (agrees e).leased_agrees,
                fold-remove _ 0 sum-monoid (λ _. 1) s.message_deliveries id d e.deliveries_map
                    (find_delivery_ok s.mailbox receiver id d found).0,
              )),
        ))
