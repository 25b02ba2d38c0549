-- ===== src/Store/Stats.antt =====
-- The message counters of an organization, in total and by day, in internal/store/memory.go.
use moltenhub.Base.{ℕ, ◌+◌, []}
use moltenhub.Base.Text.{Text}
use moltenhub.Base.Dict.{put, get_or}
use moltenhub.Model.{OrgStats, OrgDailyStats}
use moltenhub.Model.Clock.{Time, format_date}
use moltenhub.Store.State.{MemoryStore, Ledger}

abbrev no_stats : Text → OrgStats
no_stats org_id = record {
  org_id = org_id;
  queued_messages = 0;
  dropped_messages = 0;
  acked_messages = 0;
  expired_messages = 0;
  redelivered_messages = 0;
  duplicate_messages = 0;
}

abbrev no_daily : OrgDailyStats
no_daily = record {
  date = [];
  queued_messages = 0;
  dropped_messages = 0;
  acked_messages = 0;
  expired_messages = 0;
  redelivered_messages = 0;
  duplicate_messages = 0;
}

-- The counters as a reader sees them; the source stores the zero row when it creates one, and
-- each caller then stores the row with its increment.
unfoldable pub ensure_org_stats : Ledger → Text → OrgStats
ensure_org_stats l org_id = get_or l.stats_by_org org_id (no_stats org_id)

abbrev pub daily_of : Ledger → Text → Text → OrgDailyStats
daily_of l org_id day = get_or (get_or l.stats_daily org_id []) day no_daily

unfoldable pub increment_daily : Text → Time → ℕ → ℕ → ℕ → ℕ → ℕ → ℕ → Ledger → Ledger
increment_daily org_id now queued dropped acked expired redelivered duplicate l =
    let day_key = format_date now in
    let per_org = get_or l.stats_daily org_id [] in
    let day = get_or per_org day_key no_daily in
    record l {
      stats_daily = put l.stats_daily org_id (
          put per_org day_key (record {
            date = day_key;
            queued_messages = day.queued_messages + queued;
            dropped_messages = day.dropped_messages + dropped;
            acked_messages = day.acked_messages + acked;
            expired_messages = day.expired_messages + expired;
            redelivered_messages = day.redelivered_messages + redelivered;
            duplicate_messages = day.duplicate_messages + duplicate;
          }));
    }

store_stats : OrgStats → Text → Ledger → Ledger
store_stats stats org_id l = record l { stats_by_org = put l.stats_by_org org_id stats }

unfoldable pub increment_queued : Text → Time → MemoryStore → MemoryStore
unfolding increment_daily store_stats ensure_org_stats
increment_queued org_id now s =
    let stats = ensure_org_stats s.ledger org_id in
    let stored =
      store_stats (record stats { queued_messages = stats.queued_messages + 1 }) org_id s.ledger in
    record s { ledger = increment_daily org_id now 1 0 0 0 0 0 stored }

unfoldable pub increment_dropped : Text → Time → MemoryStore → MemoryStore
unfolding increment_daily store_stats ensure_org_stats
increment_dropped org_id now s =
    let stats = ensure_org_stats s.ledger org_id in
    let stored =
      store_stats (record stats { dropped_messages = stats.dropped_messages + 1 }) org_id
        s.ledger in
    record s { ledger = increment_daily org_id now 0 1 0 0 0 0 stored }

unfoldable pub increment_acked : Text → Time → MemoryStore → MemoryStore
unfolding increment_daily store_stats ensure_org_stats
increment_acked org_id now s =
    let stats = ensure_org_stats s.ledger org_id in
    let stored =
      store_stats (record stats { acked_messages = stats.acked_messages + 1 }) org_id s.ledger in
    record s { ledger = increment_daily org_id now 0 0 1 0 0 0 stored }

unfoldable pub increment_expired : Text → Time → MemoryStore → MemoryStore
unfolding increment_daily store_stats ensure_org_stats
increment_expired org_id now s =
    let stats = ensure_org_stats s.ledger org_id in
    let stored =
      store_stats (record stats { expired_messages = stats.expired_messages + 1 }) org_id
        s.ledger in
    record s { ledger = increment_daily org_id now 0 0 0 1 0 0 stored }

unfoldable pub increment_redelivered : Text → Time → MemoryStore → MemoryStore
unfolding increment_daily store_stats ensure_org_stats
increment_redelivered org_id now s =
    let stats = ensure_org_stats s.ledger org_id in
    let stored =
      store_stats (record stats { redelivered_messages = stats.redelivered_messages + 1 }) org_id
        s.ledger in
    record s { ledger = increment_daily org_id now 0 0 0 0 1 0 stored }

unfoldable pub increment_duplicate : Text → Time → MemoryStore → MemoryStore
unfolding increment_daily store_stats ensure_org_stats
increment_duplicate org_id now s =
    let stats = ensure_org_stats s.ledger org_id in
    let stored =
      store_stats (record stats { duplicate_messages = stats.duplicate_messages + 1 }) org_id
        s.ledger in
    record s { ledger = increment_daily org_id now 0 0 0 0 0 1 stored }
