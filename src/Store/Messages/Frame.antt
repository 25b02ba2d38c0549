-- ===== src/Store/Messages/Frame.antt =====
-- The audit trail and the counters leave the mailbox alone, and the records of messages do not
-- enter the metrics.
use moltenhub.Base.{◌≡◌, refl, inl, inr, Bool-cases, is_empty}
use moltenhub.Base.Text.{Text, trim_space}
use moltenhub.Base.Dict.{Dict}
use moltenhub.Model.{MessageRecord}
use moltenhub.Model.Value.{Metadata}
use moltenhub.Model.Clock.{Time}
use moltenhub.Store.State.{MemoryStore, Mailbox}
use moltenhub.Store.Metrics.{compute_queue_metrics}
use moltenhub.Store.Metrics.Exact.{IsExact}
use moltenhub.Store.Stats.{
  increment_queued, increment_dropped, increment_acked, increment_expired, increment_redelivered,
  increment_duplicate,
}
use moltenhub.Store.Audit.{append_audit}
use moltenhub.Store.Messages.{audit_message, set_record}

pub mailbox-append_audit :
    (org actor category action subject : Text) (details : Metadata) (now : Time) (s : MemoryStore)
    → (append_audit org actor category action subject details now s).mailbox ≡ s.mailbox
unfolding append_audit
mailbox-append_audit org actor category action subject details now s = refl

pub mailbox-audit_message :
    (org action id : Text) (details : Metadata) (now : Time) (s : MemoryStore)
    → (audit_message org action id details now s).mailbox ≡ s.mailbox
unfolding audit_message
mailbox-audit_message org action id details now s = elim (Bool-cases (is_empty (trim_space org))) [
  | inl blank ↦ rw (blank, audit_message)
  | inr named ↦ rw (named, audit_message, mailbox-append_audit)
]

module _ (org : Text) (now : Time) (s : MemoryStore) where
  pub mailbox-increment_acked : (increment_acked org now s).mailbox ≡ s.mailbox
  unfolding increment_acked
  mailbox-increment_acked = refl

  pub mailbox-increment_expired : (increment_expired org now s).mailbox ≡ s.mailbox
  unfolding increment_expired
  mailbox-increment_expired = refl

  pub mailbox-increment_redelivered : (increment_redelivered org now s).mailbox ≡ s.mailbox
  unfolding increment_redelivered
  mailbox-increment_redelivered = refl

  pub mailbox-increment_duplicate : (increment_duplicate org now s).mailbox ≡ s.mailbox
  unfolding increment_duplicate
  mailbox-increment_duplicate = refl

  pub mailbox-increment_queued : (increment_queued org now s).mailbox ≡ s.mailbox
  unfolding increment_queued
  mailbox-increment_queued = refl

  pub mailbox-increment_dropped : (increment_dropped org now s).mailbox ≡ s.mailbox
  unfolding increment_dropped
  mailbox-increment_dropped = refl

pub ruleset frame = (
  mailbox-append_audit, mailbox-audit_message, mailbox-increment_acked, mailbox-increment_expired,
  mailbox-increment_redelivered, mailbox-increment_duplicate, mailbox-increment_queued,
  mailbox-increment_dropped,
)

-- The metrics look at queues and deliveries alone.
pub records-IsExact :
    (b : Mailbox) (records : Dict MessageRecord) (keys : Dict Text)
    → IsExact b
    → IsExact (record b { message_records = records; message_by_client_msg = keys })
unfolding compute_queue_metrics
records-IsExact b records keys e = record {
  queues_map = e.queues_map;
  deliveries_map = e.deliveries_map;
  exact = e.exact;
}

pub set_record-IsExact :
    (id : Text) (r : MessageRecord) (b : Mailbox) → IsExact b → IsExact (set_record id r b)
unfolding compute_queue_metrics
set_record-IsExact id r b e = record {
  queues_map = e.queues_map;
  deliveries_map = e.deliveries_map;
  exact = e.exact;
}
