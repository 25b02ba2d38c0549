-- ===== src/Store/Humans/Presence.antt =====
-- The presence of humans and agents in internal/store/memory.go.
use moltenhub.Base.{Bool, not, ◌&&◌, Option, none, some, [], is_empty, if◌then◌else◌}
use moltenhub.Base.Text.{Text, text, text_eq, trim_space, to_lower}
use moltenhub.Base.Dict.{get, put, get_or}
use moltenhub.Model.{Human, Agent}
use moltenhub.Model.Value.{Metadata, string, boolean, value_at}
use moltenhub.Model.Clock.{Time, format_rfc3339}
use moltenhub.Store.State.{MemoryStore, Result, Outcome, ok, err, human_not_found, agent_not_found}
use moltenhub.Store.Activity.{copy_metadata, string_value}
use moltenhub.Store.Queue.{live_agent}

-- if v := value; v != "" { m[k] = v }
abbrev put_some : Metadata → Text → Text → Metadata
put_some m k v = if is_empty v then m else put m k (string v)

abbrev trimmed_at : Metadata → Text → Text
trimmed_at m k = trim_space (string_value (value_at m k))

put_ready : Metadata → Metadata
put_ready m = elim (value_at m (text "ready")) [
  | boolean b ↦ put m (text "ready") (boolean b)
  | _ ↦ m
]

unfoldable pub normalize_agent_presence : Metadata → Metadata
unfolding put_ready
normalize_agent_presence presence =
    let out = copy_metadata presence in
    let a = put_some out (text "status") (to_lower (trimmed_at out (text "status"))) in
    let b = put_some a (text "transport") (trimmed_at a (text "transport")) in
    let c = put_some b (text "session_key") (trimmed_at b (text "session_key")) in
    let d = put_some c (text "updated_at") (trimmed_at c (text "updated_at")) in
    if is_empty out then [] else put_ready d

unfoldable pub normalize_human_presence : Metadata → Metadata
normalize_human_presence = normalize_agent_presence

unfoldable dated : Metadata → Time → Metadata
dated m now = elim (get m (text "updated_at")) [
  | none ↦ put m (text "updated_at") (string (format_rfc3339 now))
  | some _ ↦ m
]

status_of : Metadata → Text
status_of m = to_lower (trimmed_at m (text "status"))

-- The status is another one than before, and not empty.
unfoldable changed_status : Metadata → Metadata → Bool
unfolding status_of
changed_status previous next =
    not (text_eq (status_of previous) (status_of next)) && not (is_empty (status_of next))

unfoldable pub set_human_presence : Text → Metadata → Time → MemoryStore → Outcome (Human × Bool)
unfolding dated changed_status
set_human_presence id presence now s = elim (get s.humans id) [
  | none ↦ (err human_not_found, s)
  | some human ↦
      let next = dated (normalize_human_presence presence) now in
      (
        ok (human, changed_status (copy_metadata (get_or s.human_presence id [])) next),
        record s { accounts = record s.accounts { human_presence = put s.human_presence id next } },
      )
]

-- The metadata, if it is there and has an entry.
unfoldable present : Option Metadata → Option Metadata
present none = none
present (some m) = if is_empty m then none else some (copy_metadata m)

unfoldable pub get_human_presence : Text → MemoryStore → Result (Option Metadata)
unfolding present
get_human_presence id s = elim (get s.humans id) [
  | none ↦ err human_not_found
  | some _ ↦ ok (present (get s.human_presence id))
]

unfoldable pub set_agent_presence : Text → Metadata → Time → MemoryStore → Outcome (Agent × Bool)
unfolding dated changed_status
set_agent_presence uuid presence now s = elim (live_agent s.agents uuid) [
  | none ↦ (err agent_not_found, s)
  | some agent ↦
      let next = dated (normalize_agent_presence presence) now in
      (
        ok (agent, changed_status (copy_metadata (get_or s.agent_presence uuid [])) next),
        record s {
          registry = record s.registry { agent_presence = put s.agent_presence uuid next };
        },
      )
]

unfoldable pub get_agent_presence : Text → MemoryStore → Result (Option Metadata)
unfolding present
get_agent_presence uuid s = elim (live_agent s.agents uuid) [
  | none ↦ err agent_not_found
  | some _ ↦ ok (present (get s.agent_presence uuid))
]
