-- ===== src/Store/Metrics.antt =====
-- The queue metrics of internal/store/memory.go: the counters that each operation keeps up to date,
-- and `computeQueueMetricsLocked`, which counts from scratch.
pub mod Sums
pub mod Exact
use moltenhub.Base.{
  ℕ, ◌+◌, ◌-◌, Bool, false, Option, none, some, List, [], ◌∷◌, length, ltb, ◌==◌, if◌then◌else◌,
}
use moltenhub.Base.Dict.{Dict}
use moltenhub.Model.{Message, MessageDelivery, QueueMetrics}
use moltenhub.Model.Clock.{Time}
use moltenhub.Store.State.{Mailbox}

-- if oldest == nil || t.Before(*oldest) { oldest = timePtr(t) }
abbrev pub older : Option Time → Time → Option Time
older none t = some t
older (some o) t = if ltb t o then some t else some o

oldest_in_queue : Option Time → List Message → Option Time
oldest_in_queue oldest [] = oldest
oldest_in_queue oldest (m ∷ queue) = oldest_in_queue (older oldest m.created_at) queue

pub oldest_in_queues : Option Time → Dict (List Message) → Option Time
unfolding oldest_in_queue
oldest_in_queues oldest [] = oldest
oldest_in_queues oldest ((k, queue) ∷ queues) =
    oldest_in_queues (oldest_in_queue oldest queue) queues

pub oldest_in_deliveries : Option Time → Dict MessageDelivery → Option Time
oldest_in_deliveries oldest [] = oldest
oldest_in_deliveries oldest ((k, d) ∷ ds) =
    oldest_in_deliveries (older oldest d.lease_expires_at) ds

pub count_available : Dict (List Message) → ℕ
count_available [] = 0
count_available ((k, queue) ∷ queues) = length queue + count_available queues

unfoldable pub compute_oldest_queued_at : Mailbox → Option Time
unfolding oldest_in_queues
compute_oldest_queued_at b = oldest_in_queues none b.queues

unfoldable pub compute_oldest_lease_expiry_at : Mailbox → Option Time
unfolding oldest_in_deliveries
compute_oldest_lease_expiry_at b = oldest_in_deliveries none b.message_deliveries

unfoldable pub compute_queue_metrics : Mailbox → QueueMetrics
unfolding oldest_in_queues oldest_in_deliveries count_available
compute_queue_metrics b = record {
  available_messages = count_available b.queues;
  leased_messages = length b.message_deliveries;
  oldest_queued_at = oldest_in_queues none b.queues;
  oldest_lease_expiry_at = oldest_in_deliveries none b.message_deliveries;
}

unfoldable pub recompute_queue_metrics : Mailbox → Mailbox
recompute_queue_metrics b = record b { queue_metrics = compute_queue_metrics b }

abbrev pub metric_time_equal : Option Time → Time → Bool
metric_time_equal none target = false
metric_time_equal (some t) target = t == target

unfoldable pub note_queued_message_added : Message → Mailbox → Mailbox
note_queued_message_added message b =
    let m = b.queue_metrics in
    record b {
      queue_metrics = record m {
        available_messages = m.available_messages + 1;
        oldest_queued_at = older m.oldest_queued_at message.created_at;
      };
    }

-- The counter is decremented only if it is positive, as `-` is.
unfoldable pub note_queued_message_removed : Message → Mailbox → Mailbox
note_queued_message_removed message b =
    let m = b.queue_metrics in
    record b {
      queue_metrics = record m {
        available_messages = m.available_messages - 1;
        oldest_queued_at =
            if metric_time_equal m.oldest_queued_at message.created_at
            then compute_oldest_queued_at b
            else m.oldest_queued_at;
      };
    }

unfoldable pub note_delivery_added : MessageDelivery → Mailbox → Mailbox
note_delivery_added delivery b =
    let m = b.queue_metrics in
    record b {
      queue_metrics = record m {
        leased_messages = m.leased_messages + 1;
        oldest_lease_expiry_at = older m.oldest_lease_expiry_at delivery.lease_expires_at;
      };
    }

unfoldable pub note_delivery_removed : MessageDelivery → Mailbox → Mailbox
note_delivery_removed delivery b =
    let m = b.queue_metrics in
    record b {
      queue_metrics = record m {
        leased_messages = m.leased_messages - 1;
        oldest_lease_expiry_at =
            if metric_time_equal m.oldest_lease_expiry_at delivery.lease_expires_at
            then compute_oldest_lease_expiry_at b
            else m.oldest_lease_expiry_at;
      };
    }
