-- ===== src/Store/Leases/Outcomes.antt =====
-- What is left of a delivery after its settlement.
use moltenhub.Base.{◌≡◌, inl, inr, none, Option-cases}
use moltenhub.Base.Text.{Text}
use moltenhub.Base.Dict.{get, remove, get-remove_self}
use moltenhub.Model.{Message, MessageRecord, MessageDelivery}
use moltenhub.Model.Clock.{Time}
use moltenhub.Store.State.{
  Result-cases, err_not_ok, MemoryStore, Mailbox, ok, err, message_delivery_not_found,
}
use moltenhub.Store.Metrics.{note_delivery_removed}
use moltenhub.Store.Messages.Frame.{frame}
use moltenhub.Store.Leases.{
  ack_message_delivery, release_message_delivery, find_delivery, ack_found, release_found,
  drop_delivery,
}

find_gone :
    (b : Mailbox) (receiver id : Text)
    → get b.message_deliveries id ≡ none
    → find_delivery b receiver id ≡ err message_delivery_not_found
unfolding find_delivery
find_gone b receiver id h = rw (h, find_delivery)

deliveries-ack_found :
    (d : MessageDelivery) (id : Text) (now : Time) (s : MemoryStore)
    → (ack_found d id now s).1.message_deliveries ≡ remove s.message_deliveries id
unfolding ack_found drop_delivery note_delivery_removed
deliveries-ack_found d id now s = elim (Option-cases (get s.message_records d.message_id)) [
  | inl missing ↦ rw (missing, ack_found)
  | inr (r, there) ↦ rw (there, ack_found) (simp frame)
]

deliveries-release_found :
    (d : MessageDelivery) (id : Text) (now : Time) (reason : Text) (s : MemoryStore)
    → (release_found d id now reason s).1.message_deliveries ≡ remove s.message_deliveries id
unfolding release_found drop_delivery note_delivery_removed
deliveries-release_found d id now reason s =
    elim (Option-cases (get s.message_records d.message_id)) [
      | inl missing ↦ rw (missing, release_found)
      | inr (r, there) ↦ rw (there, release_found) (simp frame)
    ]

module _ (receiver id : Text) (now : Time) (s : MemoryStore) where
  -- A delivery is settled once: after an accepted acknowledgement nobody can acknowledge or release
  -- it again.
  pub ack_once :
      (r : MessageRecord) (other : Text) (later : Time) (reason : Text)
      → (ack_message_delivery receiver id now s).0 ≡ ok r
      → let t = (ack_message_delivery receiver id now s).1 in
        (ack_message_delivery other id later t ≡ (err message_delivery_not_found, t))
        × (release_message_delivery other id later reason t ≡ (err message_delivery_not_found, t))
  unfolding ack_message_delivery release_message_delivery
  ack_once r other later reason h =
      let gone = find_gone (ack_message_delivery receiver id now s).1.mailbox other id cleared in
      (rw (gone, ack_message_delivery), rw (gone, release_message_delivery))
    where
      cleared : get (ack_message_delivery receiver id now s).1.message_deliveries id ≡ none
      cleared = elim (Result-cases (find_delivery s.mailbox receiver id)) [
        | inr (x, refused) ↦ absurd (err_not_ok (rw (refused, ack_message_delivery) at h))
        | inl (d, found) ↦
            rw (found, ack_message_delivery)
              (rw (deliveries-ack_found d id now s) (get-remove_self s.message_deliveries id))
      ]

  -- After an accepted release of a delivery nobody can acknowledge it or release it again.
  pub release_once :
      (m : Message) (r : MessageRecord) (reason : Text) (other : Text) (later : Time) (again : Text)
      → (release_message_delivery receiver id now reason s).0 ≡ ok (m, r)
      → let t = (release_message_delivery receiver id now reason s).1 in
        (ack_message_delivery other id later t ≡ (err message_delivery_not_found, t))
        × (release_message_delivery other id later again t ≡ (err message_delivery_not_found, t))
  unfolding ack_message_delivery release_message_delivery
  release_once m r reason other later again h =
      let gone =
        find_gone (release_message_delivery receiver id now reason s).1.mailbox other id cleared in
      (rw (gone, ack_message_delivery), rw (gone, release_message_delivery))
    where
      cleared :
          get (release_message_delivery receiver id now reason s).1.message_deliveries id ≡ none
      cleared = elim (Result-cases (find_delivery s.mailbox receiver id)) [
        | inr (x, refused) ↦ absurd (err_not_ok (rw (refused, release_message_delivery) at h))
        | inl (d, found) ↦
            rw (found, release_message_delivery)
              (rw (deliveries-release_found d id now reason s)
                (get-remove_self s.message_deliveries id))
      ]
