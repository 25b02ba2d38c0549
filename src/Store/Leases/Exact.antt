-- ===== src/Store/Leases/Exact.antt =====
-- The operations on leases keep the metrics exact.
use moltenhub.Base.{
  ◌≡◌, sym, ap, ◌∙◌, inl, inr, true, Option, none, some, List, [], ◌∷◌, arith, ltb, Bool-cases,
  Option-cases,
}
use moltenhub.Base.Text.{Text, text_eq}
use moltenhub.Base.Dict.{get, remove, put-IsMap, remove-IsMap}
use moltenhub.Base.Dict.Folds.{fold-put, fold-remove, remove_absent}
use moltenhub.Model.{MessageRecord, MessageDelivery}
use moltenhub.Model.Clock.{Time}
use moltenhub.Store.State.{Result-cases, MemoryStore, Mailbox, ok}
use moltenhub.Store.Metrics.{older, note_delivery_added, note_delivery_removed}
use moltenhub.Store.Metrics.Sums.{earlier, expiry, earlier-monoid, sum-monoid, oldest_after_removal}
use moltenhub.Store.Metrics.Exact.{
  IsExact, agrees, IsExact-of_Agrees, delivery_count, oldest_expiry,
  compute_oldest_lease_expiry_at_sum,
}
use moltenhub.Store.Messages.Frame.{frame, set_record-IsExact}
use moltenhub.Store.Leases.{
  add_delivery, drop_delivery, lease_message, ack_message_delivery, release_message_delivery,
  ack_found, release_found, expire_found, expire_one, expire_loop, expire_message_leases,
  find_delivery,
}

older_comm : (o : Option Time) (t : Time) → older o t ≡ earlier (some t) o
older_comm o t = unfold earlier in earlier-monoid.comm o (some t)

pub add_delivery-IsExact :
    (d : MessageDelivery) (b : Mailbox)
    → get b.message_deliveries d.delivery_id ≡ none
    → IsExact b
    → IsExact (add_delivery d b)
unfolding add_delivery note_delivery_added
add_delivery-IsExact d b fresh e =
    IsExact-of_Agrees e.queues_map (put-IsMap b.message_deliveries _ d e.deliveries_map) (record {
      available_agrees = (agrees e).available_agrees;
      leased_agrees = omega (
        arith,
        (agrees e).leased_agrees,
        fold-put _ 0 sum-monoid (λ _. 1) b.message_deliveries d.delivery_id d e.deliveries_map,
        ap delivery_count unchanged,
      );
      queued_at_agrees = (agrees e).queued_at_agrees;
      expiry_agrees =
          older_comm b.queue_metrics.oldest_lease_expiry_at d.lease_expires_at
          ∙ ap (earlier (expiry d)) ((agrees e).expiry_agrees ∙ sym (ap oldest_expiry unchanged))
          ∙ sym (
              fold-put earlier none earlier-monoid expiry b.message_deliveries d.delivery_id d
                e.deliveries_map);
    })
  where
    unchanged : remove b.message_deliveries d.delivery_id ≡ b.message_deliveries
    unchanged = remove_absent b.message_deliveries d.delivery_id fresh

pub removed-IsExact :
    (id : Text) (d : MessageDelivery) (b : Mailbox)
    → get b.message_deliveries id ≡ some d
    → IsExact b
    → IsExact (note_delivery_removed d (drop_delivery id b))
unfolding drop_delivery note_delivery_removed
removed-IsExact id d b found e =
    IsExact-of_Agrees e.queues_map (remove-IsMap b.message_deliveries id e.deliveries_map) (record {
      available_agrees = (agrees e).available_agrees;
      leased_agrees = omega (
        arith,
        (agrees e).leased_agrees,
        fold-remove _ 0 sum-monoid (λ _. 1) b.message_deliveries id d e.deliveries_map found,
      );
      queued_at_agrees = (agrees e).queued_at_agrees;
      expiry_agrees =
          rw
            (compute_oldest_lease_expiry_at_sum
              (record b { message_deliveries = remove b.message_deliveries id }))
            (oldest_after_removal d.lease_expires_at
              (oldest_expiry (remove b.message_deliveries id))
              b.queue_metrics.oldest_lease_expiry_at
              ((agrees e).expiry_agrees
                ∙ fold-remove earlier none earlier-monoid expiry b.message_deliveries id d
                    e.deliveries_map found));
    })

-- A lease under a fresh delivery id keeps the metrics exact, also where it is refused.
pub lease_message-IsExact :
    (id receiver delivery_id : Text) (leased_at expires_at : Time) (s : MemoryStore)
    → get s.message_deliveries delivery_id ≡ none
    → IsExact s.mailbox
    → IsExact (lease_message id receiver delivery_id leased_at expires_at s).1.mailbox
unfolding lease_message
lease_message-IsExact id receiver delivery_id leased_at expires_at s fresh e =
    elim (Option-cases (get s.message_records id)) [
      | inl missing ↦ rw (missing, lease_message) e
      | inr (r, found) ↦ elim (Bool-cases (text_eq r.message.to_agent_uuid receiver)) [
        | inl mine ↦
            rw (found, lease_message)
              (rw (mine, lease_message)
                (simp frame (add_delivery-IsExact _ _ fresh (set_record-IsExact id _ s.mailbox e))))
        | inr other ↦ rw (found, lease_message) (rw (other, lease_message) e)
      ]
    ]

ack_found-IsExact :
    (d : MessageDelivery) (id : Text) (now : Time) (s : MemoryStore)
    → get s.message_deliveries id ≡ some d
    → IsExact s.mailbox
    → IsExact (ack_found d id now s).1.mailbox
unfolding ack_found
ack_found-IsExact d id now s found e = elim (Option-cases (get s.message_records d.message_id)) [
  | inl missing ↦ rw (missing, ack_found) (removed-IsExact id d s.mailbox found e)
  | inr (r, there) ↦
      rw (there, ack_found)
        (simp frame (set_record-IsExact d.message_id _ _ (removed-IsExact id d s.mailbox found e)))
]

expire_found-IsExact :
    (d : MessageDelivery) (id : Text) (now : Time) (s : MemoryStore)
    → get s.message_deliveries id ≡ some d
    → IsExact s.mailbox
    → IsExact (expire_found d id now s).1.mailbox
unfolding expire_found
expire_found-IsExact d id now s found e = elim (Option-cases (get s.message_records d.message_id)) [
  | inl missing ↦ rw (missing, expire_found) (removed-IsExact id d s.mailbox found e)
  | inr (r, there) ↦
      rw (there, expire_found)
        (simp frame (set_record-IsExact d.message_id _ _ (removed-IsExact id d s.mailbox found e)))
]

-- What `find_delivery` finds is stored, and is the receiver's.
pub find_delivery_ok :
    (b : Mailbox) (receiver id : Text) (d : MessageDelivery)
    → find_delivery b receiver id ≡ ok d
    → (get b.message_deliveries id ≡ some d) × (text_eq d.agent_uuid receiver ≡ true)
unfolding find_delivery
find_delivery_ok b receiver id d h = ground arith

-- An acknowledgement keeps the metrics exact on every branch.
pub ack_message_delivery-IsExact :
    (receiver id : Text) (now : Time) (s : MemoryStore)
    → IsExact s.mailbox
    → IsExact (ack_message_delivery receiver id now s).1.mailbox
unfolding ack_message_delivery
ack_message_delivery-IsExact receiver id now s e =
    elim (Result-cases (find_delivery s.mailbox receiver id)) [
      | inl (d, found) ↦
          rw (found, ack_message_delivery)
            (ack_found-IsExact d id now s (find_delivery_ok s.mailbox receiver id d found).0 e)
      | inr (x, refused) ↦ rw (refused, ack_message_delivery) e
    ]

release_found-IsExact :
    (d : MessageDelivery) (id : Text) (now : Time) (reason : Text) (r : MessageRecord)
    (s : MemoryStore)
    → get s.message_deliveries id ≡ some d
    → get s.message_records d.message_id ≡ some r
    → IsExact s.mailbox
    → IsExact (release_found d id now reason s).1.mailbox
unfolding release_found
release_found-IsExact d id now reason r s found there e =
    rw (there, release_found)
      (simp frame (set_record-IsExact d.message_id _ _ (removed-IsExact id d s.mailbox found e)))

-- Every delivery is of a message that has a record.
pub record HasRecords (b : Mailbox) : Type 0 where
  pub has_record :
      (id : Text) (d : MessageDelivery)
      → get b.message_deliveries id ≡ some d
      → (r : MessageRecord) × (get b.message_records d.message_id ≡ some r)

-- So does a release, if each delivery's message has a record.
pub release_message_delivery-IsExact :
    (receiver id : Text) (now : Time) (reason : Text) (s : MemoryStore)
    → HasRecords s.mailbox
    → IsExact s.mailbox
    → IsExact (release_message_delivery receiver id now reason s).1.mailbox
unfolding release_message_delivery
release_message_delivery-IsExact receiver id now reason s h e =
    elim (Result-cases (find_delivery s.mailbox receiver id)) [
      | inl (d, found) ↦
          let stored = (find_delivery_ok s.mailbox receiver id d found).0 in
          let (r, there) = h.has_record id d stored in
          rw (found, release_message_delivery)
            (release_found-IsExact d id now reason r s stored there e)
      | inr (x, refused) ↦ rw (refused, release_message_delivery) e
    ]

expire_one-IsExact :
    (now : Time) (id : Text) (s : MemoryStore)
    → IsExact s.mailbox
    → IsExact (expire_one now id s).1.mailbox
unfolding expire_one
expire_one-IsExact now id s e = elim (Option-cases (get s.message_deliveries id)) [
  | inl missing ↦ rw (missing, expire_one) e
  | inr (d, found) ↦ elim (Bool-cases (ltb now d.lease_expires_at)) [
    | inl held ↦ rw (found, expire_one) (rw (held, expire_one) e)
    | inr over ↦
        rw (found, expire_one) (rw (over, expire_one) (expire_found-IsExact d id now s found e))
  ]
]

expire_loop-IsExact :
    (now : Time) (ids : List Text) (s : MemoryStore)
    → IsExact s.mailbox
    → IsExact (expire_loop now ids s).1.mailbox
unfolding expire_loop
expire_loop-IsExact now [] s e = e
expire_loop-IsExact now (id ∷ ids) s e =
    expire_loop-IsExact now ids (expire_one now id s).1 (expire_one-IsExact now id s e)

-- A sweep keeps the metrics exact, whatever it finds.
pub expire_message_leases-IsExact :
    (now : Time) (s : MemoryStore)
    → IsExact s.mailbox
    → IsExact (expire_message_leases now s).1.mailbox
unfolding expire_message_leases
expire_message_leases-IsExact now s e = expire_loop-IsExact now _ s e
