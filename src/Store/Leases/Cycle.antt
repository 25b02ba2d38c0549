-- ===== src/Store/Leases/Cycle.antt =====
-- From a lease to its settlement.
use moltenhub.Base.{◌≡◌, refl, ◌∙◌, true, some}
use moltenhub.Base.Text.{Text, text_eq, text_eq_iff, text_eq_refl, trim_space}
use moltenhub.Base.Dict.{get-put_self, get, put}
use moltenhub.Model.{MessageRecord, MessageDelivery}
use moltenhub.Model.Clock.{Time}
use moltenhub.Store.State.{MemoryStore, ok}
use moltenhub.Store.Messages.Frame.{frame}
use moltenhub.Store.Invariant.Leases.{Linked}
use moltenhub.Store.Leases.{
  lease_message, ack_message_delivery, release_message_delivery, find_delivery, ack_found,
  release_found, lease_record, lease_delivery, ack_record, requeue_record,
}

-- The delivery and the record that settle a lease.
record Settles (s : MemoryStore) (receiver delivery_id : Text) (r : MessageRecord) : Type 0 where
  delivery : MessageDelivery
  stored : find_delivery s.mailbox receiver delivery_id ≡ ok delivery
  recorded : get s.message_records delivery.message_id ≡ some r

ack-Settles :
    (s : MemoryStore) (receiver delivery_id : Text) (r : MessageRecord) (now : Time)
    → Settles s receiver delivery_id r
    → (ack_message_delivery receiver delivery_id now s).0 ≡ ok (ack_record r now)
unfolding ack_message_delivery ack_found
ack-Settles s receiver delivery_id r now p =
    rw (p.stored, ack_message_delivery) (rw (p.recorded, ack_found))

release-Settles :
    (s : MemoryStore) (receiver delivery_id : Text) (r : MessageRecord) (now : Time) (reason : Text)
    → Settles s receiver delivery_id r
    → (release_message_delivery receiver delivery_id now reason s).0
      ≡ ok (r.message, requeue_record r now (trim_space reason))
unfolding release_message_delivery release_found
release-Settles s receiver delivery_id r now reason p =
    rw (p.stored, release_message_delivery)
      (rw (p.recorded, release_found) (unfold requeue_record in refl))

module _ (id receiver delivery_id : Text) (leased_at expires_at : Time) (s : MemoryStore)
    (r : MessageRecord) (l : Linked s.mailbox) (found : get s.message_records id ≡ some r)
    (mine : r.message.to_agent_uuid ≡ receiver) where
  mine_eq : text_eq r.message.to_agent_uuid receiver ≡ true
  mine_eq = (text_eq_iff r.message.to_agent_uuid receiver).1 mine

  after : MemoryStore
  after = (lease_message id receiver delivery_id leased_at expires_at s).1

  deliveries_after :
      after.message_deliveries
      ≡ put s.message_deliveries delivery_id (
          lease_delivery
            (lease_record r delivery_id leased_at expires_at)
            receiver
            delivery_id
            leased_at
            expires_at)
  unfolding after lease_message
  deliveries_after = rw (found, lease_message, after) (rw (mine_eq, lease_message) (simp frame))

  records_after :
      after.message_records
      ≡ put s.message_records id (lease_record r delivery_id leased_at expires_at)
  unfolding after lease_message
  records_after = rw (found, lease_message, after) (rw (mine_eq, lease_message) (simp frame))

  lease-Settles :
      Settles after receiver delivery_id (lease_record r delivery_id leased_at expires_at)
  unfolding find_delivery lease_delivery lease_record
  lease-Settles = record {
    delivery =
        lease_delivery (lease_record r delivery_id leased_at expires_at) receiver delivery_id
          leased_at expires_at;
    stored =
        rw (deliveries_after, find_delivery)
          (rw (get-put_self s.message_deliveries delivery_id _, find_delivery)
            (rw (text_eq_refl receiver, find_delivery)));
    recorded = rw (records_after, l.keyed id r found) (get-put_self s.message_records id _);
  }

  -- Where records and deliveries are linked, and a message's record is there and is for the receiver,
  -- the receiver can settle a lease of the message: its acknowledgement is accepted and returns the
  -- acknowledged record, and its release returns the message and the requeued record.
  pub lease_cycle :
      (now : Time) (reason : Text)
      → let t = (lease_message id receiver delivery_id leased_at expires_at s).1 in
        let held = lease_record r delivery_id leased_at expires_at in
        ((ack_message_delivery receiver delivery_id now t).0 ≡ ok (ack_record held now))
        × ((release_message_delivery receiver delivery_id now reason t).0
            ≡ ok (r.message, requeue_record held now (trim_space reason)))
  unfolding after
  lease_cycle now reason = (
    ack-Settles after receiver delivery_id _ now lease-Settles,
    release-Settles after receiver delivery_id _ now reason lease-Settles
        ∙ (unfold lease_record in refl),
  )
