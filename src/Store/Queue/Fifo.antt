-- ===== src/Store/Queue/Fifo.antt =====
-- The order of the queue of an agent.
use moltenhub.Base.{◌≡◌, ◌∙◌, false, some, List, [], ◌∷◌, ◌++◌, is_empty}
use moltenhub.Base.Text.{Text}
use moltenhub.Base.Dict.{get-put_self}
use moltenhub.Model.{Agent, Message}
use moltenhub.Store.State.{MemoryStore}
use moltenhub.Store.Metrics.{note_queued_message_added, note_queued_message_removed}
use moltenhub.Store.Queue.{live_agent, queue_of, enqueue, dequeue, deliver, push, pop}

queue_of-enqueue :
    (m : Message) (a : Agent) (s : MemoryStore)
    → is_empty m.to_agent_uuid ≡ false
    → live_agent s.agents m.to_agent_uuid ≡ some a
    → queue_of (enqueue m s).1.mailbox m.to_agent_uuid
      ≡ queue_of s.mailbox m.to_agent_uuid ++ record m { to_agent_id = a.agent_id } ∷ []
unfolding enqueue deliver push note_queued_message_added
queue_of-enqueue m a s given live =
    rw (given, enqueue) (rw (live, enqueue) (rw (get-put_self s.queues m.to_agent_uuid _)))

dequeue-first :
    (uuid : Text) (s : MemoryStore) (first : Message) (rest : List Message)
    → queue_of s.mailbox uuid ≡ first ∷ rest
    → ((dequeue uuid s).0 ≡ some first) × (queue_of (dequeue uuid s).1.mailbox uuid ≡ rest)
unfolding dequeue pop note_queued_message_removed
dequeue-first uuid s first rest h =
    (rw (h, dequeue), rw (h, dequeue) (rw (get-put_self s.queues uuid rest)))

-- After a message is queued for an agent that is there and not revoked, the next message that the
-- agent takes is the oldest of those that were waiting and the new one, and the others stay in
-- order.
pub dequeue-enqueue :
    (m : Message) (a : Agent) (s : MemoryStore) (first : Message) (rest : List Message)
    → is_empty m.to_agent_uuid ≡ false
    → live_agent s.agents m.to_agent_uuid ≡ some a
    → queue_of s.mailbox m.to_agent_uuid ++ record m { to_agent_id = a.agent_id } ∷ []
      ≡ first ∷ rest
    → let t = (enqueue m s).1 in
      ((dequeue m.to_agent_uuid t).0 ≡ some first)
      × (queue_of (dequeue m.to_agent_uuid t).1.mailbox m.to_agent_uuid ≡ rest)
dequeue-enqueue m a s first rest given live waiting =
    dequeue-first m.to_agent_uuid (enqueue m s).1 first rest
      (queue_of-enqueue m a s given live ∙ waiting)
