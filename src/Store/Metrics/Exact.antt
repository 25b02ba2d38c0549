-- ===== src/Store/Metrics/Exact.antt =====
-- The metrics of a mailbox agree with a count from scratch, and what keeps that so.
use moltenhub.Base.{ℕ, ◌+◌, ◌≡◌, sym, ap, ◌∙◌, Option, none, List, length}
use moltenhub.Base.Dict.{Dict, IsMap}
use moltenhub.Base.Dict.Folds.{fold_values}
use moltenhub.Model.{Message, MessageDelivery, QueueMetrics}
use moltenhub.Model.Clock.{Time}
use moltenhub.Store.State.{Mailbox}
use moltenhub.Store.Metrics.{
  compute_queue_metrics, compute_oldest_queued_at, compute_oldest_lease_expiry_at,
}
use moltenhub.Store.Metrics.Sums.{
  earlier, queue_oldest, expiry, earlier-monoid, oldest_in_queues_lem, oldest_in_deliveries_lem,
  count_available_lem, length-fold,
}

-- The two maps are maps, and the metrics that are kept are those that a recount would give.
pub record IsExact (b : Mailbox) : Type 0 where
  pub queues_map : IsMap b.queues
  pub deliveries_map : IsMap b.message_deliveries
  pub exact : b.queue_metrics ≡ compute_queue_metrics b

abbrev pub available : Dict (List Message) → ℕ
available = fold_values (λ a b. a + b) 0 (λ queue. length queue)

abbrev pub oldest_queued : Dict (List Message) → Option Time
oldest_queued = fold_values earlier none queue_oldest

abbrev pub oldest_expiry : Dict MessageDelivery → Option Time
oldest_expiry = fold_values earlier none expiry

abbrev pub delivery_count : Dict MessageDelivery → ℕ
delivery_count = fold_values (λ a b. a + b) 0 (λ _. 1)

abbrev sums : Dict (List Message) → Dict MessageDelivery → QueueMetrics
sums queues ds = record {
  available_messages = available queues;
  leased_messages = delivery_count ds;
  oldest_queued_at = oldest_queued queues;
  oldest_lease_expiry_at = oldest_expiry ds;
}

earlier-none : (o : Option Time) → earlier none o ≡ o
earlier-none = earlier-monoid.unit_left

pub compute_queue_metrics-sums :
    (b : Mailbox) → compute_queue_metrics b ≡ sums b.queues b.message_deliveries
unfolding compute_queue_metrics
compute_queue_metrics-sums b = rw (
  count_available_lem b.queues,
  length-fold b.message_deliveries,
  oldest_in_queues_lem none b.queues,
  oldest_in_deliveries_lem none b.message_deliveries,
  earlier-none (oldest_queued b.queues),
  earlier-none (oldest_expiry b.message_deliveries),
)

pub compute_oldest_queued_at_sum :
    (b : Mailbox) → compute_oldest_queued_at b ≡ oldest_queued b.queues
unfolding compute_oldest_queued_at
compute_oldest_queued_at_sum b = oldest_in_queues_lem none b.queues ∙ earlier-none _

pub compute_oldest_lease_expiry_at_sum :
    (b : Mailbox) → compute_oldest_lease_expiry_at b ≡ oldest_expiry b.message_deliveries
unfolding compute_oldest_lease_expiry_at
compute_oldest_lease_expiry_at_sum b =
    oldest_in_deliveries_lem none b.message_deliveries ∙ earlier-none _

-- Field by field, in sums.
pub record Agrees (b : Mailbox) : Type 0 where
  pub available_agrees : b.queue_metrics.available_messages ≡ available b.queues
  pub leased_agrees : b.queue_metrics.leased_messages ≡ delivery_count b.message_deliveries
  pub queued_at_agrees : b.queue_metrics.oldest_queued_at ≡ oldest_queued b.queues
  pub expiry_agrees : b.queue_metrics.oldest_lease_expiry_at ≡ oldest_expiry b.message_deliveries

pub agrees : {b : Mailbox} → IsExact b → Agrees b
agrees {b} e = record {
  available_agrees = ap (λ (m : QueueMetrics). m.available_messages) all;
  leased_agrees = ap (λ (m : QueueMetrics). m.leased_messages) all;
  queued_at_agrees = ap (λ (m : QueueMetrics). m.oldest_queued_at) all;
  expiry_agrees = ap (λ (m : QueueMetrics). m.oldest_lease_expiry_at) all;
}
  where
    all : b.queue_metrics ≡ sums b.queues b.message_deliveries
    all = e.exact ∙ compute_queue_metrics-sums b

pub IsExact-of_Agrees :
    {b : Mailbox} → IsMap b.queues → IsMap b.message_deliveries → Agrees b → IsExact b
IsExact-of_Agrees {b} q d a = record {
  queues_map = q;
  deliveries_map = d;
  exact = fields ∙ sym (compute_queue_metrics-sums b);
}
  where
    fields : b.queue_metrics ≡ sums b.queues b.message_deliveries
    fields = λ i. record {
      available_messages = a.available_agrees i;
      leased_messages = a.leased_agrees i;
      oldest_queued_at = a.queued_at_agrees i;
      oldest_lease_expiry_at = a.expiry_agrees i;
    }
