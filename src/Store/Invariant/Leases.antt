-- ===== src/Store/Invariant/Leases.antt =====
-- The operations on leases keep records and deliveries linked.
use moltenhub.Base.{◌≡◌, ◌≢◌, inl, inr, none, List, [], ◌∷◌, ltb, Bool-cases, Option-cases}
use moltenhub.Base.Text.{Text, text_eq}
use moltenhub.Base.Dict.{get-put_self, Dict, get, put, remove}
use moltenhub.Model.{MessageRecord, MessageDelivery}
use moltenhub.Model.Clock.{Time}
use moltenhub.Store.State.{Result-cases, MemoryStore, Mailbox}
use moltenhub.Store.Messages.Frame.{frame}
use moltenhub.Store.Messages.Linked.{
  IsLinked, put_record-IsLinked, put_delivery-IsLinked, remove_delivery-IsLinked,
}
use moltenhub.Store.Leases.{
  lease_message, ack_message_delivery, release_message_delivery, ack_found, release_found,
  expire_found, expire_one, expire_loop, expire_message_leases, find_delivery,
}

abbrev pub Linked : Mailbox → Type 0
Linked b = IsLinked b.message_records b.message_deliveries

get-put_there : {V : Type 0} (m : Dict V) (k : Text) (v : V) → get (put m k v) k ≢ none
get-put_there m k v e = cc (get-put_self m k v)

pub lease_message-Linked :
    (id receiver delivery_id : Text) (leased_at expires_at : Time) (s : MemoryStore)
    → Linked s.mailbox
    → Linked (lease_message id receiver delivery_id leased_at expires_at s).1.mailbox
unfolding lease_message
lease_message-Linked id receiver delivery_id leased_at expires_at s l =
    elim (Option-cases (get s.message_records id)) [
      | inl missing ↦ rw (missing, lease_message) l
      | inr (r, found) ↦ elim (Bool-cases (text_eq r.message.to_agent_uuid receiver)) [
        | inl mine ↦
            let own : r.message.message_id ≡ id = l.keyed id r found in
            rw (found, lease_message)
              (rw (mine, lease_message)
                (simp frame (
                  put_delivery-IsLinked _ _ (put_record-IsLinked _ _ l id _ own) delivery_id _
                    (rw own (get-put_there s.message_records id _)))))
        | inr other ↦ rw (found, lease_message) (rw (other, lease_message) l)
      ]
    ]

-- A found delivery goes, and its message's record is rewritten under its own id.
settled-IsLinked :
    (s : MemoryStore) (d : MessageDelivery) (id : Text) (r : MessageRecord)
    → Linked s.mailbox
    → r.message.message_id ≡ d.message_id
    → IsLinked (put s.message_records d.message_id r) (remove s.message_deliveries id)
settled-IsLinked s d id r l own =
    remove_delivery-IsLinked _ _ (put_record-IsLinked _ _ l d.message_id r own) id

pub ack_found-Linked :
    (d : MessageDelivery) (id : Text) (now : Time) (s : MemoryStore)
    → Linked s.mailbox
    → Linked (ack_found d id now s).1.mailbox
unfolding ack_found
ack_found-Linked d id now s l = elim (Option-cases (get s.message_records d.message_id)) [
  | inl missing ↦ rw (missing, ack_found) (remove_delivery-IsLinked _ _ l id)
  | inr (r, there) ↦
      rw (there, ack_found)
        (simp frame (settled-IsLinked s d id _ l (l.keyed d.message_id r there)))
]

pub release_found-Linked :
    (d : MessageDelivery) (id : Text) (now : Time) (reason : Text) (s : MemoryStore)
    → Linked s.mailbox
    → Linked (release_found d id now reason s).1.mailbox
unfolding release_found
release_found-Linked d id now reason s l =
    elim (Option-cases (get s.message_records d.message_id)) [
      | inl missing ↦ rw (missing, release_found) (remove_delivery-IsLinked _ _ l id)
      | inr (r, there) ↦
          rw (there, release_found)
            (simp frame (settled-IsLinked s d id _ l (l.keyed d.message_id r there)))
    ]

expire_found-Linked :
    (d : MessageDelivery) (id : Text) (now : Time) (s : MemoryStore)
    → Linked s.mailbox
    → Linked (expire_found d id now s).1.mailbox
unfolding expire_found
expire_found-Linked d id now s l = elim (Option-cases (get s.message_records d.message_id)) [
  | inl missing ↦ rw (missing, expire_found) (remove_delivery-IsLinked _ _ l id)
  | inr (r, there) ↦
      rw (there, expire_found)
        (simp frame (settled-IsLinked s d id _ l (l.keyed d.message_id r there)))
]

pub ack_message_delivery-Linked :
    (receiver id : Text) (now : Time) (s : MemoryStore)
    → Linked s.mailbox
    → Linked (ack_message_delivery receiver id now s).1.mailbox
unfolding ack_message_delivery
ack_message_delivery-Linked receiver id now s l =
    elim (Result-cases (find_delivery s.mailbox receiver id)) [
      | inl (d, found) ↦ rw (found, ack_message_delivery) (ack_found-Linked d id now s l)
      | inr (x, refused) ↦ rw (refused, ack_message_delivery) l
    ]

pub release_message_delivery-Linked :
    (receiver id : Text) (now : Time) (reason : Text) (s : MemoryStore)
    → Linked s.mailbox
    → Linked (release_message_delivery receiver id now reason s).1.mailbox
unfolding release_message_delivery
release_message_delivery-Linked receiver id now reason s l =
    elim (Result-cases (find_delivery s.mailbox receiver id)) [
      | inl (d, found) ↦
          rw (found, release_message_delivery) (release_found-Linked d id now reason s l)
      | inr (x, refused) ↦ rw (refused, release_message_delivery) l
    ]

expire_one-Linked :
    (now : Time) (id : Text) (s : MemoryStore)
    → Linked s.mailbox
    → Linked (expire_one now id s).1.mailbox
unfolding expire_one
expire_one-Linked now id s l = elim (Option-cases (get s.message_deliveries id)) [
  | inl missing ↦ rw (missing, expire_one) l
  | inr (d, found) ↦ elim (Bool-cases (ltb now d.lease_expires_at)) [
    | inl held ↦ rw (found, expire_one) (rw (held, expire_one) l)
    | inr over ↦ rw (found, expire_one) (rw (over, expire_one) (expire_found-Linked d id now s l))
  ]
]

expire_loop-Linked :
    (now : Time) (ids : List Text) (s : MemoryStore)
    → Linked s.mailbox
    → Linked (expire_loop now ids s).1.mailbox
unfolding expire_loop
expire_loop-Linked now [] s l = l
expire_loop-Linked now (id ∷ ids) s l =
    expire_loop-Linked now ids (expire_one now id s).1 (expire_one-Linked now id s l)

pub expire_message_leases-Linked :
    (now : Time) (s : MemoryStore)
    → Linked s.mailbox
    → Linked (expire_message_leases now s).1.mailbox
unfolding expire_message_leases
expire_message_leases-Linked now s l = expire_loop-Linked now _ s l
