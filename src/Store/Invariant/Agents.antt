-- ===== src/Store/Invariant/Agents.antt =====
-- What the registration and the deletion of agents do to the mailbox: a new agent gets a queue, and
-- the queue of a deleted one goes with the messages from and to it.
use moltenhub.Base.{◌≡◌, refl, sym, ◌∙◌, none, List, [], ◌∷◌, arith}
use moltenhub.Base.Text.{Text}
use moltenhub.Base.Dict.{Dict, get, put, IsMap, put-IsMap}
use moltenhub.Model.{Message, Agent}
use moltenhub.Store.State.{MemoryStore, Mailbox}
use moltenhub.Store.Metrics.{recompute_queue_metrics, compute_queue_metrics}
use moltenhub.Store.Metrics.Exact.{IsExact, agrees, IsExact-of_Agrees}
use moltenhub.Store.Queue.{queue_of}
use moltenhub.Store.Queue.Exact.{available_split, available-put, oldest_split, oldest_put}
use moltenhub.Store.Invariant.Messages.{IsSound}
use moltenhub.Store.Agents.{add_agent}
use moltenhub.Store.Agents.Retire.{delete_queues, delete_agent_queues}

get-delete_queues :
    (uuid : Text) (queues : Dict (List Message)) (j : Text)
    → get queues j ≡ none
    → get (delete_queues uuid queues) j ≡ none
unfolding delete_queues get
get-delete_queues uuid [] j h = h
get-delete_queues uuid ((k, queue) ∷ queues) j h = ground (arith, get-delete_queues uuid queues j)

delete_queues-IsMap :
    (uuid : Text) (queues : Dict (List Message)) → IsMap queues → IsMap (delete_queues uuid queues)
unfolding delete_queues
delete_queues-IsMap uuid [] h = tt
delete_queues-IsMap uuid ((k, queue) ∷ queues) h =
    ground (arith, delete_queues-IsMap uuid queues, get-delete_queues uuid queues k)

pub delete_agent_queues-IsSound :
    (uuid : Text) (s : MemoryStore)
    → IsSound s.mailbox
    → IsSound (delete_agent_queues uuid s).mailbox
unfolding delete_agent_queues recompute_queue_metrics compute_queue_metrics
delete_agent_queues-IsSound uuid s v = record {
  exact = record {
    queues_map = delete_queues-IsMap uuid s.queues v.exact.queues_map;
    deliveries_map = v.exact.deliveries_map;
    exact = refl;
  };
  linked = record { keyed = v.linked.keyed; recorded = v.linked.recorded };
}

-- The queue that an agent has, or an empty one, is stored again.
same_queue-IsExact :
    (uuid : Text) (b : Mailbox)
    → IsExact b
    → IsExact (record b { queues = put b.queues uuid (queue_of b uuid) })
same_queue-IsExact uuid b e =
    IsExact-of_Agrees (put-IsMap b.queues _ _ e.queues_map) e.deliveries_map (record {
      available_agrees = omega (
        arith,
        (agrees e).available_agrees,
        available_split b uuid e,
        available-put b uuid e (queue_of b uuid),
      );
      leased_agrees = (agrees e).leased_agrees;
      queued_at_agrees =
          (agrees e).queued_at_agrees
          ∙ oldest_split b uuid e
          ∙ sym (oldest_put b uuid e (queue_of b uuid));
      expiry_agrees = (agrees e).expiry_agrees;
    })

pub add_agent-IsSound :
    (a : Agent) (s : MemoryStore) → IsSound s.mailbox → IsSound (add_agent a s).mailbox
unfolding add_agent
add_agent-IsSound a s v = record {
  exact = same_queue-IsExact a.agent_uuid s.mailbox v.exact;
  linked = record { keyed = v.linked.keyed; recorded = v.linked.recorded };
}
