-- ===== src/Store/Agents/Resolve.antt =====
-- The references to agents in internal/store/memory.go: what a caller names an agent by, its id,
-- its URI or its handle, and the look-ups by id.
pub mod Sound
use moltenhub.Base.{
  ◌≡◌, refl, sym, ap, subst, ◌∙◌, ◌⊎◌, inl, inr, Bool, true, false, not, ◌&&◌, ◌||◌, Option, none,
  some, List, [], ◌∷◌, ◌==◌, ℕ, arith, Bool-cases, Option-cases, if◌then◌else◌, is_empty,
}
use moltenhub.Base.Text.{Text, text_eq, contains_char}
use moltenhub.Base.Dict.{Dict, get, keys, select}
use moltenhub.Model.{Agent}
use moltenhub.Handles.{normalize_agent_ref}
use moltenhub.Store.State.{
  MemoryStore, Result, ok, err, err_not_ok, or_error, agent_not_found, agent_ambiguous,
}
use moltenhub.Store.Roles.{can_manage_agent}
use moltenhub.Store.Queue.{live_agent, is_revoked}
use moltenhub.Store.Trust.Request.{is_missing}

unfoldable pub get_agent_by_uuid : Text → MemoryStore → Result Agent
get_agent_by_uuid uuid s = or_error (live_agent s.agents uuid) agent_not_found

unfoldable pub get_agent_uri : Text → MemoryStore → Result Text
get_agent_uri uuid s = elim (get_agent_by_uuid uuid s) [ err e ↦ err e | ok a ↦ ok a.agent_id ]

-- The agents that the human may manage, in the order of the map; the source sorts them by age.
unfoldable pub list_human_agents : Text → MemoryStore → List Agent
list_human_agents human_id s =
    select (λ (a : Agent). can_manage_agent s.directory a human_id) s.agents

-- An agent that is not revoked and has the handle.
unfoldable pub has_handle : Text → Option Agent → Bool
has_handle ref none = false
has_handle ref (some a) = not (is_revoked a.status) && text_eq a.handle ref

-- The match after another agent, or `none` where there is one already.
unfoldable pub next_match : Text → Dict Agent → Text → Text → Option Text
next_match ref agents id match =
    if not (has_handle ref (get agents id))
    then some match
    else if is_empty match
    then some id
    else none

-- The loop over the agents, with the match so far, which is empty before there is one.
unfoldable pub match_handle : Text → Dict Agent → List Text → Text → Result Text
unfolding next_match
match_handle ref agents [] match = if is_empty match then err agent_not_found else ok match
match_handle ref agents (id ∷ ids) match = elim (next_match ref agents id match) [
  | none ↦ err agent_ambiguous
  | some m ↦ match_handle ref agents ids m
]

-- The agent that is found under the URI, if it is not revoked.
unfoldable pub match_uri : Text → MemoryStore → Option Text
match_uri ref s = elim (get s.agent_by_uri ref) [
  | none ↦ none
  | some id ↦ if is_missing (live_agent s.agents id) then none else some id
]

unfoldable pub resolve_agent_ref : Text → MemoryStore → Result Text
unfolding match_uri match_handle
resolve_agent_ref raw s =
    let ref = normalize_agent_ref raw in
    if is_empty ref
    then err agent_not_found
    else if not (is_missing (live_agent s.agents ref))
    then ok ref
    else elim (match_uri ref s) [
      | some id ↦ ok id
      | none ↦
          if contains_char b'/' ref
          then err agent_not_found
          else match_handle ref s.agents (keys s.agents) []
    ]

unfoldable pub resolve_agent_uuid : Text → MemoryStore → Result Text
resolve_agent_uuid = resolve_agent_ref
