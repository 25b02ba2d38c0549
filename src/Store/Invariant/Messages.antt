-- ===== src/Store/Invariant/Messages.antt =====
-- The operations on records keep the invariant.
use moltenhub.Base.{
  ◌≡◌, refl, ◌≢◌, inl, inr, Option, none, some, Bool-cases, Option-cases, is_empty,
}
use moltenhub.Base.Text.{Text, trim_space}
use moltenhub.Base.Dict.{get}
use moltenhub.Model.{Message, MessageRecord, MessageDelivery}
use moltenhub.Model.Clock.{Time}
use moltenhub.Store.State.{MemoryStore, Mailbox}
use moltenhub.Store.Metrics.Exact.{IsExact}
use moltenhub.Store.Messages.Frame.{frame, records-IsExact}
use moltenhub.Store.Messages.Linked.{put_record-IsLinked, remove_record-IsLinked}
use moltenhub.Store.Messages.{
  client_key, insert_message, replay_message, by_client_key, create_or_get_message_record,
  mark_message_forwarded, abort_message_record,
}
use moltenhub.Store.Invariant.Leases.{Linked}

-- The metrics are exact, and records and deliveries point at one another.
pub record IsSound (b : Mailbox) : Type 0 where
  pub exact : IsExact b
  pub linked : Linked b

insert_message-IsSound :
    (message : Message) (now : Time) (s : MemoryStore)
    → IsSound s.mailbox
    → IsSound (insert_message message now s).1.mailbox
unfolding insert_message
insert_message-IsSound message now s v = simp frame (record {
  exact = records-IsExact s.mailbox _ _ v.exact;
  linked = put_record-IsLinked _ _ v.linked message.message_id _ refl;
})

replay_message-IsSound :
    (id : Text) (r : MessageRecord) (now : Time) (s : MemoryStore)
    → get s.message_records id ≡ some r
    → IsSound s.mailbox
    → IsSound (replay_message id r now s).1.mailbox
unfolding replay_message
replay_message-IsSound id r now s found v = simp frame (record {
  exact = records-IsExact s.mailbox _ _ v.exact;
  linked = put_record-IsLinked _ _ v.linked id _ (v.linked.keyed id r found);
})

by_client_key-IsSound :
    (key : Text) (o : Option Text) (message : Message) (now : Time) (s : MemoryStore)
    → IsSound s.mailbox
    → IsSound (by_client_key key o message now s).1.mailbox
unfolding by_client_key
by_client_key-IsSound key none message now s v = insert_message-IsSound message now s v
by_client_key-IsSound key (some id) message now s v =
    elim (Option-cases (get s.message_records id)) [
      | inl missing ↦
          rw (missing, by_client_key)
            (insert_message-IsSound message now _
              (record { exact = records-IsExact s.mailbox _ _ v.exact; linked = v.linked }))
      | inr (r, found) ↦
          rw (found, by_client_key)
            (simp frame (record {
              exact = records-IsExact s.mailbox _ _ v.exact;
              linked = put_record-IsLinked _ _ v.linked id _ (v.linked.keyed id r found);
            }))
    ]

pub create_or_get_message_record-IsSound :
    (message : Message) (now : Time) (s : MemoryStore)
    → IsSound s.mailbox
    → IsSound (create_or_get_message_record message now s).1.mailbox
unfolding create_or_get_message_record
create_or_get_message_record-IsSound message now s v =
    elim (Bool-cases (is_empty (trim_space message.message_id))) [
      | inl blank ↦ rw (blank, create_or_get_message_record) v
      | inr given ↦ elim (Option-cases (get s.message_records message.message_id)) [
        | inr (r, found) ↦
            rw (given, create_or_get_message_record)
              (rw (found, create_or_get_message_record)
                (replay_message-IsSound message.message_id r now s found v))
        | inl new ↦ elim (Option-cases (client_key message)) [
          | inl keyless ↦
              rw (given, create_or_get_message_record)
                (rw (new, create_or_get_message_record)
                  (rw (keyless, create_or_get_message_record)
                    (insert_message-IsSound message now s v)))
          | inr (key, keyed) ↦
              rw (given, create_or_get_message_record)
                (rw (new, create_or_get_message_record)
                  (rw (keyed, create_or_get_message_record)
                    (by_client_key-IsSound key _ message now s v)))
        ]
      ]
    ]

pub mark_message_forwarded-IsSound :
    (id : Text) (now : Time) (s : MemoryStore)
    → IsSound s.mailbox
    → IsSound (mark_message_forwarded id now s).1.mailbox
unfolding mark_message_forwarded
mark_message_forwarded-IsSound id now s v =
    elim (Option-cases (get s.message_records (trim_space id))) [
      | inl missing ↦ rw (missing, mark_message_forwarded) v
      | inr (r, found) ↦
          rw (found, mark_message_forwarded)
            (simp frame (record {
              exact = records-IsExact s.mailbox _ _ v.exact;
              linked = put_record-IsLinked _ _ v.linked r.message.message_id _ refl;
            }))
    ]

-- No delivery is of the message.
abbrev pub IsIdle : Mailbox → Text → Type 0
IsIdle b id =
    (j : Text) (d : MessageDelivery) → get b.message_deliveries j ≡ some d → d.message_id ≢ id

pub abort_message_record-IsSound :
    (id : Text) (now : Time) (s : MemoryStore)
    → IsIdle s.mailbox id
    → IsSound s.mailbox
    → IsSound (abort_message_record id now s).1.mailbox
unfolding abort_message_record
abort_message_record-IsSound id now s idle v = elim (Option-cases (get s.message_records id)) [
  | inl missing ↦ rw (missing, abort_message_record) v
  | inr (r, found) ↦
      rw (found, abort_message_record)
        (simp frame (record {
          exact = records-IsExact s.mailbox _ _ v.exact;
          linked = remove_record-IsLinked _ _ v.linked id idle;
        }))
]
