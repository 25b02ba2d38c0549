-- ===== src/Store/Agents/Activity.antt =====
-- `RecordAgentSystemActivity` of internal/store/memory.go: an entry that the hub itself writes in
-- the activity log of an agent.
use moltenhub.Base.{Option, none, some, [], ◌∷◌, ◌++◌, if◌then◌else◌, is_empty}
use moltenhub.Base.Text.{Text, text, trim_space}
use moltenhub.Base.Dict.{put}
use moltenhub.Model.{Agent}
use moltenhub.Model.Value.{Metadata, string, objects, value_at, list_rows}
use moltenhub.Model.Clock.{Time, format_rfc3339}
use moltenhub.Store.State.{MemoryStore, Outcome, ok, err, agent_not_found}
use moltenhub.Store.Activity.{
  string_value, normalize_activity_text, parse_activity_entry_object, parse_activity_entries,
  dedupe_and_trim_activity_entries, copy_metadata, max_agent_activity_entries,
}
use moltenhub.Store.Audit.{append_audit, system_activity_log}
use moltenhub.Store.Queue.{live_agent}

-- v := stringValue(m[k]); v != "" { m[k] = v }
trim_at : Text → Metadata → Metadata
trim_at k m = let v = string_value (value_at m k) in if is_empty v then m else put m k (string v)

system_entry : Metadata → Text → Time → Metadata
unfolding trim_at
system_entry parsed activity now =
    let known = put parsed (text "activity") (string activity) in
    let sourced = put known (text "source") (string (text "system")) in
    let dated = put sourced (text "at") (string (format_rfc3339 now)) in
    trim_at (text "subject_id")
      (trim_at (text "event_id") (trim_at (text "action") (trim_at (text "category") dated)))

unfoldable pub normalize_system_agent_activity_entry : Metadata → Time → Option Metadata
unfolding system_entry
normalize_system_agent_activity_entry entry now =
    if is_empty entry then none else elim (parse_activity_entry_object entry) [
      | none ↦ none
      | some parsed ↦
          let activity =
            normalize_activity_text (string_value (value_at parsed (text "activity"))) in
          if is_empty activity then none else some (system_entry parsed activity now)
    ]

-- The agent with the entry at the end of its log.
with_activity : Metadata → Agent → Agent
with_activity entry a =
    let existing =
      parse_activity_entries (value_at (copy_metadata a.metadata) system_activity_log) in
    let log =
      dedupe_and_trim_activity_entries (existing ++ entry ∷ []) max_agent_activity_entries in
    record a {
      metadata = put (copy_metadata a.metadata) system_activity_log (objects (list_rows log));
    }

store_activity : Metadata → Agent → Time → MemoryStore → MemoryStore
store_activity entry a now s =
    let stored = record s {
      directory = record s.directory { agents = put s.agents a.agent_uuid a };
    } in
    if is_empty (trim_space a.org_id)
    then stored
    else append_audit a.org_id [] (text "agent_activity") (text "record") a.agent_uuid
        ((text "agent_id", string a.agent_id)
          ∷ (text "activity", string (string_value (value_at entry (text "activity"))))
          ∷ (text "category", string (string_value (value_at entry (text "category"))))
          ∷ (text "action", string (string_value (value_at entry (text "action"))))
          ∷ [])
        now stored

unfoldable pub record_agent_system_activity : Text → Metadata → Time → MemoryStore → Outcome Agent
unfolding with_activity store_activity
record_agent_system_activity uuid entry now s = elim (live_agent s.agents (trim_space uuid)) [
  | none ↦ (err agent_not_found, s)
  | some a ↦ elim (normalize_system_agent_activity_entry entry now) [
    | none ↦ (ok a, s)
    | some normalized ↦
        let logged = with_activity normalized a in
        (ok logged, store_activity normalized logged now s)
  ]
]
