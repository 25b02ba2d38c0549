-- ===== src/Store/Messages/Replay.antt =====
-- Retries of a client: a message with a client id that its sender has used before.
use moltenhub.Base.{
  ◌≡◌, ◌∙◌, ap, inl, inr, Bool, true, false, Option, none, some, is_empty, Bool-cases, Option-cases,
  arith,
}
use moltenhub.Base.Text.{Text, text_eq_iff, trim_space}
use moltenhub.Base.Dict.{get-put_self, get, put, get-put}
use moltenhub.Model.{Message, MessageRecord}
use moltenhub.Model.Clock.{Time}
use moltenhub.Store.State.{err_not_ok, MemoryStore, Result, ok}
use moltenhub.Store.Messages.Frame.{frame}
use moltenhub.Store.Messages.{
  create_or_get_message_record, insert_message, by_client_key, client_key, replayed, new_record,
}

-- The record of a message, found by the message's id and by the client's key.
record IsKept (s : MemoryStore) (m : Message) (key : Text) (r : MessageRecord) : Type 0 where
  recorded : get s.message_records m.message_id ≡ some r
  indexed : get s.message_by_client_msg key ≡ some m.message_id

insert_message-IsKept :
    (m : Message) (now : Time) (s : MemoryStore) (key : Text) (r : MessageRecord)
    → client_key m ≡ some key
    → (insert_message m now s).0 ≡ ok (r, false)
    → IsKept (insert_message m now s).1 m key r
unfolding insert_message
insert_message-IsKept m now s key r k h = record {
  recorded =
      simp frame (get-put_self s.message_records m.message_id (new_record m now) ∙ ap some made);
  indexed = simp frame (rw k (get-put_self s.message_by_client_msg key m.message_id));
}
  where
    made : new_record m now ≡ r
    made = ground arith

repeated :
    {q r : MessageRecord}
    → ◌≡◌ {A = Result (MessageRecord × Bool)} (ok (q, true)) (ok (r, false))
    → ⊥
repeated e = ground arith

by_client_key-IsKept :
    (m : Message) (now : Time) (s : MemoryStore) (key : Text) (o : Option Text) (r : MessageRecord)
    → client_key m ≡ some key
    → (by_client_key key o m now s).0 ≡ ok (r, false)
    → IsKept (by_client_key key o m now s).1 m key r
unfolding by_client_key
by_client_key-IsKept m now s key none r k h = insert_message-IsKept m now s key r k h
by_client_key-IsKept m now s key (some id) r k h = elim (Option-cases (get s.message_records id)) [
  | inl missing ↦
      rw (missing, by_client_key)
        (insert_message-IsKept m now _ key r k (rw (missing, by_client_key) at h))
  | inr (old, there) ↦ absurd (repeated (rw (there, by_client_key) at h))
]

create-IsKept :
    (m : Message) (now : Time) (s : MemoryStore) (key : Text) (r : MessageRecord)
    → client_key m ≡ some key
    → (create_or_get_message_record m now s).0 ≡ ok (r, false)
    → IsKept (create_or_get_message_record m now s).1 m key r
unfolding create_or_get_message_record
create-IsKept m now s key r k h = elim (Bool-cases (is_empty (trim_space m.message_id))) [
  | inl blank ↦ absurd (err_not_ok (rw (blank, create_or_get_message_record) at h))
  | inr given ↦ elim (Option-cases (get s.message_records m.message_id)) [
    | inr (old, found) ↦ absurd (
        repeated (
          rw (found, create_or_get_message_record) at
            (rw (given, create_or_get_message_record) at h)))
    | inl new ↦
        rw (given, create_or_get_message_record)
          (rw (new, create_or_get_message_record)
            (rw (k, create_or_get_message_record)
              (by_client_key-IsKept m now s key (get s.message_by_client_msg key) r k (
                rw (k, create_or_get_message_record) at
                  (rw (new, create_or_get_message_record) at
                    (rw (given, create_or_get_message_record) at h))))))
  ]
]

-- A kept message is returned to a message with the same key and an id of its own, and no record is
-- made under that id.
replay_kept :
    (m again : Message) (later : Time) (t : MemoryStore) (key : Text) (r : MessageRecord)
    → IsKept t m key r
    → client_key again ≡ some key
    → is_empty (trim_space again.message_id) ≡ false
    → get t.message_records again.message_id ≡ none
    → ((create_or_get_message_record again later t).0 ≡ ok (replayed r later, true))
      × (get (create_or_get_message_record again later t).1.message_records again.message_id ≡ none)
unfolding create_or_get_message_record by_client_key
replay_kept m again later t key r kept k given new = (
  rw (given, create_or_get_message_record)
      (rw (new, create_or_get_message_record)
        (rw (k, create_or_get_message_record)
          (rw (kept.indexed, by_client_key) (rw (kept.recorded, by_client_key))))),
  rw (given, create_or_get_message_record)
      (rw (new, create_or_get_message_record)
        (rw (k, create_or_get_message_record)
          (rw (kept.indexed, by_client_key)
            (rw (kept.recorded, by_client_key) (simp frame untouched))))),
)
  where
    untouched : get (put t.message_records m.message_id (replayed r later)) again.message_id ≡ none
    untouched = ground (
      arith,
      get-put t.message_records m.message_id again.message_id (replayed r later),
      text_eq_iff m.message_id again.message_id,
    )

-- After a message with a client id is accepted as new, another with the same client key, and with a
-- message id that is not blank and has no record, gets the first record, counted as a replay, and
-- no record of its own.
pub retry_replays :
    (m again : Message) (now later : Time) (s : MemoryStore) (key : Text) (r : MessageRecord)
    → client_key m ≡ some key
    → client_key again ≡ some key
    → is_empty (trim_space again.message_id) ≡ false
    → (create_or_get_message_record m now s).0 ≡ ok (r, false)
    → let t = (create_or_get_message_record m now s).1 in
      get t.message_records again.message_id ≡ none
      → ((create_or_get_message_record again later t).0 ≡ ok (replayed r later, true))
        × (get (create_or_get_message_record again later t).1.message_records again.message_id
            ≡ none)
retry_replays m again now later s key r k l given h new =
    replay_kept m again later (create_or_get_message_record m now s).1 key r
      (create-IsKept m now s key r k h) l given new
