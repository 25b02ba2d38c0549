-- ===== src/Store/Agents/Finalize.antt =====
-- `FinalizeAgentHandleSelf` of internal/store/memory.go: an agent that was bound without a final
-- handle takes one, once.
use moltenhub.Base.{Bool, true, not, Option, none, some, [], ◌∷◌, if◌then◌else◌}
use moltenhub.Base.Text.{Text, text, text_eq}
use moltenhub.Base.Dict.{get, put, remove}
use moltenhub.Model.{Agent}
use moltenhub.Model.Value.{string}
use moltenhub.Model.Clock.{Time}
use moltenhub.Store.State.{
  MemoryStore, Result, Outcome, ok, err, invalid_handle, human_not_found, agent_not_found,
  agent_exists, agent_handle_locked,
}
use moltenhub.Store.Audit.{append_audit}
use moltenhub.Store.Queue.{live_agent}
use moltenhub.Store.Humans.{is_valid_handle, is_available}
use moltenhub.Store.Invites.Transfer.{human_owned_agent_name_key, org_owned_agent_name_key}
use moltenhub.Store.Agents.{normalize_agent_name_key, agent_uri, index_name, unindex_name}

-- The handle of the owner, if there is one.
unfoldable pub human_handle : MemoryStore → Option Text → Result (Option Text)
human_handle s none = ok none
human_handle s (some owner) = elim (get s.humans owner) [
  | none ↦ err human_not_found
  | some human ↦ if is_valid_handle human.handle then ok (some human.handle) else err invalid_handle
]

-- Nobody else has the name.
unfoldable pub name_is_free : MemoryStore → Agent → Text → Bool
name_is_free s a handle = elim a.owner_human_id [
  | none ↦
      is_available s.org_owned_agent_name_idx (org_owned_agent_name_key a.org_id handle)
        a.agent_uuid
  | some owner ↦
      is_available s.human_owned_agent_name_idx (human_owned_agent_name_key a.org_id owner handle)
        a.agent_uuid
]

unfoldable pub rename_agent : Text → Text → Text → Agent → Time → MemoryStore → Outcome Agent
rename_agent uuid handle uri a now s =
    let named = record a { handle = handle; agent_id = uri; handle_finalized_at = some now } in
    let renamed = index_name named a.agent_uuid (unindex_name a s.registry) in
    (
      ok named,
      append_audit a.org_id [] (text "agent") (text "finalize_handle_self") uuid
          ((text "agent_id", string uri)
            ∷ (text "agent_uuid", string a.agent_uuid)
            ∷ (text "handle", string handle)
            ∷ [])
          now
          (record s {
            directory = record s.directory { agents = put s.agents a.agent_uuid named };
            registry = record renamed {
              agent_by_uri = put (remove s.agent_by_uri a.agent_id) uri a.agent_uuid;
            };
          }),
    )

-- The new name, if the checks pass.
unfoldable pub name_agent : Text → Text → Agent → Time → MemoryStore → Outcome Agent
unfolding human_handle name_is_free rename_agent
name_agent uuid handle a now s = elim (human_handle s a.owner_human_id) [
  | err e ↦ (err e, s)
  | ok owner ↦ elim (agent_uri s a.org_id owner handle true) [
    | err e ↦ (err e, s)
    | ok uri ↦
        if not (is_available s.agent_by_uri uri a.agent_uuid)
        then (err agent_exists, s)
        else if not (name_is_free s a handle)
        then (err agent_exists, s)
        else rename_agent uuid handle uri a now s
  ]
]

unfoldable pub finalize_agent_handle_self : Text → Text → Time → MemoryStore → Outcome Agent
unfolding name_agent
finalize_agent_handle_self uuid raw now s = elim (live_agent s.agents uuid) [
  | none ↦ (err agent_not_found, s)
  | some a ↦
      let handle = normalize_agent_name_key raw in
      if not (is_valid_handle handle) then (err invalid_handle, s) else elim a.handle_finalized_at [
        | some _ ↦ if text_eq a.handle handle then (ok a, s) else (err agent_handle_locked, s)
        | none ↦ name_agent uuid handle a now s
      ]
]
