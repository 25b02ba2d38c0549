-- ===== src/Store/Tests/Messages.antt =====
-- The message store on sample data.
use moltenhub.Base.{◌≡◌, ◌≤◌, refl, true, none, some, [], ◌∷◌, length}
use moltenhub.Base.Text.{text}
use moltenhub.Model.{Message}
use moltenhub.Store.State.{new_memory_store, ok}
use moltenhub.Store.Audit.{append_audit, audit_of, audit_limit}
use moltenhub.Store.Audit.Bounds.{append_audit-audit_of}
use moltenhub.Store.Metrics.{compute_queue_metrics}
use moltenhub.Base.Text.{text_eq, trim_space, trim_func, drop_while, is_space}
use moltenhub.Base.Dict.{get, put}
use moltenhub.Store.Messages.Replay.{retry_replays}
use moltenhub.Store.Messages.{
  replayed, new_record, create_or_get_message_record, insert_message, by_client_key,
  message_client_key, audit_message, agent_has_prior_outbound_message,
}
use moltenhub.Store.Queue.Fifo.{dequeue-enqueue}
use moltenhub.Store.Queue.{queue_of, enqueue, dequeue, live_agent}
use moltenhub.Store.Metrics.{note_delivery_added}
use moltenhub.Store.Leases.{lease_message}
use moltenhub.Store.Invariant.Steps.{Step, Reach, metrics_exact}
use moltenhub.Store.Tests.{
  bob, with_record, hello, with_agents, with_message, with_taken, with_lease,
}

to_message : Reach new_memory_store with_message
to_message =
    Reach.next
      (Reach.next (Reach.next Reach.here (Step.elsewhere with_agents refl))
        (Step.creates hello 500))
      (Step.enqueues hello)

pub to_taken : Reach new_memory_store with_taken
to_taken = Reach.next to_message (Step.dequeues (text "b"))

pub to_lease : Reach new_memory_store with_lease
unfolding new_memory_store get put text_eq create_or_get_message_record insert_message by_client_key
    message_client_key trim_space trim_func drop_while is_space audit_message enqueue live_agent
    dequeue lease_message agent_has_prior_outbound_message note_delivery_added
to_lease = Reach.next to_taken (Step.leases (text "m1") (text "b") (text "d1") 600 900 refl)

metrics_of_message : with_message.queue_metrics.oldest_queued_at ≡ some 500
unfolding new_memory_store get put text_eq create_or_get_message_record insert_message by_client_key
    message_client_key trim_space trim_func drop_while is_space audit_message enqueue live_agent
    dequeue lease_message agent_has_prior_outbound_message note_delivery_added
metrics_of_message = refl

metrics_of_lease : with_lease.queue_metrics.oldest_lease_expiry_at ≡ some 900
unfolding new_memory_store get put text_eq create_or_get_message_record insert_message by_client_key
    message_client_key trim_space trim_func drop_while is_space audit_message enqueue live_agent
    dequeue lease_message agent_has_prior_outbound_message note_delivery_added
metrics_of_lease = refl

abbrev again : Message
again = record hello { message_id = text "m2" }

retry_replays_example :
    ((create_or_get_message_record again 550 with_record).0
      ≡ ok (replayed (new_record hello 500) 550, true))
    × (get (create_or_get_message_record again 550 with_record).1.message_records (text "m2")
        ≡ none)
unfolding new_memory_store get put text_eq create_or_get_message_record insert_message by_client_key
    message_client_key trim_space trim_func drop_while is_space audit_message new_record
    agent_has_prior_outbound_message
retry_replays_example =
    retry_replays hello again 500 550 with_agents (message_client_key (text "a") (text "c1"))
      (new_record hello 500) refl refl refl refl refl

metrics_exact_example : with_lease.queue_metrics ≡ compute_queue_metrics with_lease.mailbox
metrics_exact_example = metrics_exact to_lease

append_audit-audit_of_example :
    let t = append_audit (text "o") [] (text "agent") (text "create") (text "a") [] 9 with_agents in
    (length (audit_of t.ledger (text "o")) ≤ audit_limit)
    × (audit_of t.ledger (text "p") ≡ audit_of with_agents.ledger (text "p"))
unfolding text_eq
append_audit-audit_of_example =
    append_audit-audit_of (text "o") [] (text "agent") (text "create") (text "a") [] 9 with_agents
      (text "p") refl

-- A second message waits behind the first.
dequeue-enqueue_example :
    ((dequeue (text "b") (enqueue again with_message).1).0 ≡ some hello)
    × (queue_of (dequeue (text "b") (enqueue again with_message).1).1.mailbox (text "b")
        ≡ again ∷ [])
unfolding new_memory_store get put text_eq create_or_get_message_record insert_message by_client_key
    message_client_key trim_space trim_func drop_while is_space audit_message enqueue live_agent
    agent_has_prior_outbound_message
dequeue-enqueue_example = dequeue-enqueue again bob with_message hello (again ∷ []) refl refl refl
