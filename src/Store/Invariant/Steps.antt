-- ===== src/Store/Invariant/Steps.antt =====
-- The message store as a transition system: each operation on the mailbox is a step.
use moltenhub.Base.{◌≡◌, refl, none}
use moltenhub.Base.Text.{Text}
use moltenhub.Base.Dict.{get}
use moltenhub.Model.{Message, Agent}
use moltenhub.Model.Clock.{Time}
use moltenhub.Store.State.{MemoryStore, Mailbox, new_memory_store}
use moltenhub.Store.Metrics.{compute_queue_metrics}
use moltenhub.Store.Queue.{enqueue, dequeue, record_message_queued, record_message_dropped}
use moltenhub.Store.Queue.Purge.{purge_agent_queues, purge_agent_queues-IsSound}
use moltenhub.Store.Queue.Exact.{enqueue-IsExact, dequeue-IsExact}
use moltenhub.Store.Queue.Linked.{
  enqueue-Linked, dequeue-Linked, mailbox-record_message_queued, mailbox-record_message_dropped,
}
use moltenhub.Store.Messages.{
  create_or_get_message_record, mark_message_forwarded, abort_message_record,
}
use moltenhub.Store.Leases.{
  lease_message, ack_message_delivery, release_message_delivery, expire_message_leases,
}
use moltenhub.Store.Leases.Exact.{
  lease_message-IsExact, ack_message_delivery-IsExact, release_message_delivery-IsExact,
  expire_message_leases-IsExact, HasRecords,
}
use moltenhub.Store.Messages.Linked.{record_of}
use moltenhub.Store.Invariant.Leases.{
  Linked, lease_message-Linked, ack_message_delivery-Linked, release_message_delivery-Linked,
  expire_message_leases-Linked,
}
use moltenhub.Store.Invariant.Messages.{
  IsSound, IsIdle, create_or_get_message_record-IsSound, mark_message_forwarded-IsSound,
  abort_message_record-IsSound,
}
use moltenhub.Store.Agents.{add_agent}
use moltenhub.Store.Agents.Retire.{delete_agent_queues}
use moltenhub.Store.Invariant.Agents.{add_agent-IsSound, delete_agent_queues-IsSound}

-- The operations on messages, and what the registration, the revocation and the deletion of an
-- agent do to the queues. What operations do elsewhere in the store is a step that leaves the
-- mailbox. A lease has a fresh delivery id, as the handlers draw it, and a record is aborted only
-- while no delivery is of its message: the handlers abort where the first enqueueing failed.
pub data Step (s : MemoryStore) : MemoryStore → Type 0 where
  creates : (m : Message) (now : Time) → Step s (create_or_get_message_record m now s).1
  forwards : (id : Text) (now : Time) → Step s (mark_message_forwarded id now s).1
  aborts : (id : Text) (now : Time) → IsIdle s.mailbox id → Step s (abort_message_record id now s).1
  enqueues : (m : Message) → Step s (enqueue m s).1
  dequeues : (uuid : Text) → Step s (dequeue uuid s).1
  leases :
      (id receiver delivery_id : Text) (leased_at expires_at : Time)
      → get s.message_deliveries delivery_id ≡ none
      → Step s (lease_message id receiver delivery_id leased_at expires_at s).1
  acks : (receiver id : Text) (now : Time) → Step s (ack_message_delivery receiver id now s).1
  releases :
      (receiver id : Text) (now : Time) (reason : Text)
      → Step s (release_message_delivery receiver id now reason s).1
  expires : (now : Time) → Step s (expire_message_leases now s).1
  counts : (org : Text) (now : Time) → Step s (record_message_queued org now s)
  drops : (org : Text) (now : Time) → Step s (record_message_dropped org now s)
  purges : (uuid : Text) → Step s (purge_agent_queues uuid s)
  adds : (a : Agent) → Step s (add_agent a s)
  deletes : (uuid : Text) → Step s (delete_agent_queues uuid s)
  elsewhere : (t : MemoryStore) → t.mailbox ≡ s.mailbox → Step s t

pub data Reach (s : MemoryStore) : MemoryStore → Type 0 where
  here : Reach s s
  next : {t u : MemoryStore} → Reach s t → Step t u → Reach s u

has_records : (b : Mailbox) → Linked b → HasRecords b
has_records b l = record {
  has_record = λ id d found. record_of b.message_records d.message_id (l.recorded id d found);
}

-- Every step keeps the metrics exact, and records and deliveries linked.
pub Step-IsSound : {s t : MemoryStore} → Step s t → IsSound s.mailbox → IsSound t.mailbox
Step-IsSound {s} (creates m now) v = create_or_get_message_record-IsSound m now s v
Step-IsSound {s} (forwards id now) v = mark_message_forwarded-IsSound id now s v
Step-IsSound {s} (aborts id now idle) v = abort_message_record-IsSound id now s idle v
Step-IsSound {s} (enqueues m) v = record {
  exact = enqueue-IsExact m s v.exact;
  linked = enqueue-Linked m s v.linked;
}
Step-IsSound {s} (dequeues uuid) v = record {
  exact = dequeue-IsExact uuid s v.exact;
  linked = dequeue-Linked uuid s v.linked;
}
Step-IsSound {s} (leases id receiver delivery_id leased_at expires_at fresh) v = record {
  exact = lease_message-IsExact id receiver delivery_id leased_at expires_at s fresh v.exact;
  linked = lease_message-Linked id receiver delivery_id leased_at expires_at s v.linked;
}
Step-IsSound {s} (acks receiver id now) v = record {
  exact = ack_message_delivery-IsExact receiver id now s v.exact;
  linked = ack_message_delivery-Linked receiver id now s v.linked;
}
Step-IsSound {s} (releases receiver id now reason) v = record {
  exact =
      release_message_delivery-IsExact receiver id now reason s (has_records s.mailbox v.linked)
        v.exact;
  linked = release_message_delivery-Linked receiver id now reason s v.linked;
}
Step-IsSound {s} (expires now) v = record {
  exact = expire_message_leases-IsExact now s v.exact;
  linked = expire_message_leases-Linked now s v.linked;
}
Step-IsSound {s} (counts org now) v = rw (mailbox-record_message_queued org now s) v
Step-IsSound {s} (drops org now) v = rw (mailbox-record_message_dropped org now s) v
Step-IsSound {s} (purges uuid) v = purge_agent_queues-IsSound uuid s v
Step-IsSound {s} (adds a) v = add_agent-IsSound a s v
Step-IsSound {s} (deletes uuid) v = delete_agent_queues-IsSound uuid s v
Step-IsSound {s} (elsewhere t same) v = rw same v

pub new_memory_store-IsSound : IsSound new_memory_store.mailbox
unfolding new_memory_store compute_queue_metrics get
new_memory_store-IsSound = record {
  exact = record { queues_map = tt; deliveries_map = tt; exact = refl };
  linked = record { keyed = λ id r h. cc; recorded = λ id d h. cc };
}

pub Reach-IsSound : {s t : MemoryStore} → IsSound s.mailbox → Reach s t → IsSound t.mailbox
Reach-IsSound v here = v
Reach-IsSound v (next r st) = Step-IsSound st (Reach-IsSound v r)

-- From an empty store, after any history of message operations, and of agents added, revoked and
-- deleted, in which each lease has a fresh delivery id and a record is aborted only while no
-- delivery is of its message, with other steps in between that leave the mailbox, the queue
-- metrics that the store has kept up to date are those that a count from scratch gives.
pub metrics_exact :
    {s : MemoryStore} → Reach new_memory_store s → s.queue_metrics ≡ compute_queue_metrics s.mailbox
metrics_exact r = (Reach-IsSound new_memory_store-IsSound r).exact.exact
