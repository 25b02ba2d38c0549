-- ===== src/Store/Queue/Purge.antt =====
-- The loop over the queues of `RevokeAgent` in internal/store/memory.go: the messages from or to an
-- agent go, with the queues that they leave empty, and the metrics are counted again.
use moltenhub.Base.{◌≡◌, refl, Bool, ◌||◌, none, List, [], ◌∷◌, arith, is_empty, if◌then◌else◌}
use moltenhub.Base.Text.{Text, text_eq}
use moltenhub.Base.Dict.{Dict, get, IsMap}
use moltenhub.Model.{Message}
use moltenhub.Store.State.{MemoryStore}
use moltenhub.Store.Metrics.{recompute_queue_metrics, compute_queue_metrics}
use moltenhub.Store.Invariant.Messages.{IsSound}

abbrev pub is_about : Text → Message → Bool
is_about uuid m = text_eq m.from_agent_uuid uuid || text_eq m.to_agent_uuid uuid

unfoldable pub purge_queue : Text → List Message → List Message
purge_queue uuid [] = []
purge_queue uuid (m ∷ queue) =
    let rest = purge_queue uuid queue in if is_about uuid m then rest else m ∷ rest

unfoldable purge_queues : Text → Dict (List Message) → Dict (List Message)
unfolding purge_queue
purge_queues uuid [] = []
purge_queues uuid ((k, queue) ∷ queues) =
    let rest = purge_queues uuid queues in
    let filtered = purge_queue uuid queue in
    if is_empty queue
    then (k, queue) ∷ rest
    else if is_empty filtered
    then rest
    else (k, filtered) ∷ rest

unfoldable pub purge_agent_queues : Text → MemoryStore → MemoryStore
unfolding purge_queues recompute_queue_metrics
purge_agent_queues uuid s = record s {
  mailbox = recompute_queue_metrics (record s.mailbox { queues = purge_queues uuid s.queues });
}

get-purge_queues :
    (uuid : Text) (queues : Dict (List Message)) (j : Text)
    → get queues j ≡ none
    → get (purge_queues uuid queues) j ≡ none
unfolding purge_queues get
get-purge_queues uuid [] j h = h
get-purge_queues uuid ((k, queue) ∷ queues) j h = ground (arith, get-purge_queues uuid queues j)

purge_queues-IsMap :
    (uuid : Text) (queues : Dict (List Message)) → IsMap queues → IsMap (purge_queues uuid queues)
unfolding purge_queues
purge_queues-IsMap uuid [] h = tt
purge_queues-IsMap uuid ((k, queue) ∷ queues) h =
    ground (arith, purge_queues-IsMap uuid queues, get-purge_queues uuid queues k)

pub purge_agent_queues-IsSound :
    (uuid : Text) (s : MemoryStore)
    → IsSound s.mailbox
    → IsSound (purge_agent_queues uuid s).mailbox
unfolding purge_agent_queues recompute_queue_metrics compute_queue_metrics
purge_agent_queues-IsSound uuid s v = record {
  exact = record {
    queues_map = purge_queues-IsMap uuid s.queues v.exact.queues_map;
    deliveries_map = v.exact.deliveries_map;
    exact = refl;
  };
  linked = record { keyed = v.linked.keyed; recorded = v.linked.recorded };
}
