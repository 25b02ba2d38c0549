-- ===== src/Store/Queue/Linked.antt =====
-- The queues do not hold records or deliveries, and the counters do not hold the mailbox.
use moltenhub.Base.{◌≡◌, inl, inr, Option, none, some, List, [], ◌∷◌, Bool-cases, is_empty}
use moltenhub.Base.Text.{Text, trim_space}
use moltenhub.Model.{Message, Agent}
use moltenhub.Model.Clock.{Time}
use moltenhub.Store.State.{MemoryStore, Mailbox}
use moltenhub.Store.Metrics.{note_queued_message_added, note_queued_message_removed}
use moltenhub.Store.Messages.Frame.{
  mailbox-increment_queued, mailbox-increment_dropped, mailbox-append_audit,
}
use moltenhub.Store.Invariant.Leases.{Linked}
use moltenhub.Store.Queue.{
  push, pop, queue_of, deliver, enqueue, dequeue, record_message_queued, record_message_dropped,
}

deliver-Linked :
    (o : Option Agent) (message : Message) (s : MemoryStore)
    → Linked s.mailbox
    → Linked (deliver o message s).1.mailbox
unfolding deliver push note_queued_message_added
deliver-Linked none message s l = l
deliver-Linked (some agent) message s l = l

pub enqueue-Linked :
    (message : Message) (s : MemoryStore) → Linked s.mailbox → Linked (enqueue message s).1.mailbox
unfolding enqueue
enqueue-Linked message s l = elim (Bool-cases (is_empty message.to_agent_uuid)) [
  | inl blank ↦ rw (blank, enqueue) l
  | inr to ↦ rw (to, enqueue) (deliver-Linked _ message s l)
]

pop-Linked :
    (uuid : Text) (queue : List Message) (b : Mailbox) → Linked b → Linked (pop uuid queue b).1
unfolding pop note_queued_message_removed
pop-Linked uuid [] b l = l
pop-Linked uuid (message ∷ rest) b l = l

pub dequeue-Linked :
    (uuid : Text) (s : MemoryStore) → Linked s.mailbox → Linked (dequeue uuid s).1.mailbox
unfolding dequeue
dequeue-Linked uuid s l = pop-Linked uuid (queue_of s.mailbox uuid) s.mailbox l

pub mailbox-record_message_queued :
    (org : Text) (now : Time) (s : MemoryStore)
    → (record_message_queued org now s).mailbox ≡ s.mailbox
unfolding record_message_queued
mailbox-record_message_queued org now s = mailbox-increment_queued org now s

pub mailbox-record_message_dropped :
    (org : Text) (now : Time) (s : MemoryStore)
    → (record_message_dropped org now s).mailbox ≡ s.mailbox
unfolding record_message_dropped
mailbox-record_message_dropped org now s = elim (Bool-cases (is_empty (trim_space org))) [
  | inl blank ↦ rw (blank, record_message_dropped) (mailbox-increment_dropped org now s)
  | inr named ↦
      rw (named, record_message_dropped)
        (simp mailbox-append_audit (mailbox-increment_dropped org now s))
]
