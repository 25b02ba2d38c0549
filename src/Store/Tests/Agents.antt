-- ===== src/Store/Tests/Agents.antt =====
-- Tests of agents: their names, their tokens and the tokens that they are bound with.
use moltenhub.Base.{◌≡◌, ◌≢◌, refl, none, some, [], ◌∷◌, true, false}
use moltenhub.Base.Text.{Text, text, text_eq, contains_char}
use moltenhub.Base.Dict.{get, put}
use moltenhub.Model.{Agent, TrustEdge}
use moltenhub.Model.Value.{Metadata}
use moltenhub.Store.State.{MemoryStore, new_memory_store, ok, err, invalid_token, bind_used}
use moltenhub.Base.Text.{trim_space, trim_func, drop_while, is_space, to_lower, lower}
use moltenhub.Handles.{
  normalize, scan, is_alnum, is_sep, separator, trim_seps, clip, validate_handle,
  matches_handle_regex, is_handle_char, all_chars, is_blocked, split_alpha_num_tokens,
  compact_alpha_num, in_blocked_set, build_human_agent_uri, normalize_agent_ref,
}
use moltenhub.Store.Humans.{is_valid_handle}
use moltenhub.Store.Roles.{is_active}
use moltenhub.Store.Queue.{is_revoked, live_agent}
use moltenhub.Store.Agents.{
  register_agent, agent_uuid_for_token_hash, new_agent, add_agent, normalize_agent_name_key,
  new_agent_uri, owner_handle, agent_uri, free_uri, audit_registration, index_name,
  agent_creation_audit_details,
}
use moltenhub.Store.Agents.Binds.{create_bind_token, redeem_bind_token, find_bind, redeem}
use moltenhub.Store.Agents.Resolve.{
  resolve_agent_uuid, resolve_agent_ref, match_uri, match_handle, next_match, has_handle,
}
use moltenhub.Store.Agents.Resolve.Sound.{IsMeant, resolve_agent_uuid-IsMeant}
use moltenhub.Store.Agents.Retire.{rotate_agent_token, revoke_agent, touches}
use moltenhub.Store.Audit.Agents.{SameAgents-refl, agents-append_audit}
use moltenhub.Store.Agents.Names.History.{NameReach, NameStep, registers, agent_by_uri_unique}
use moltenhub.Store.Agents.Tokens.{rotate_agent_token-authenticates, revoke_agent-cut_off}
use moltenhub.Store.Agents.Once.History.{BindReach, BindStep, redeem_bind_token-once}
use moltenhub.Store.Tests.{ann, bob, with_agents}
use moltenhub.Store.Tests.Accounts.{with_human}

-- An agent, with a token.
abbrev with_token : MemoryStore
with_token = record with_agents {
  registry = record with_agents.registry { agent_token_idx = ([], text "a") ∷ [] };
}

rotate_agent_token-authenticates_example :
    (agent_uuid_for_token_hash
        (text "new")
        (rotate_agent_token (text "a") (text "h1") (text "new") 300 true with_token).1
      ≡ ok (text "a"))
    × (text_eq (text "new") [] ≡ false
        → agent_uuid_for_token_hash []
            (rotate_agent_token (text "a") (text "h1") (text "new") 300 true with_token).1
          ≡ err invalid_token)
unfolding rotate_agent_token get text_eq live_agent
rotate_agent_token-authenticates_example =
    rotate_agent_token-authenticates (text "a") (text "h1") (text "new") 300 true with_token
      (rotate_agent_token (text "a") (text "h1") (text "new") 300 true with_token).1 ann refl refl

abbrev with_revoked : MemoryStore
with_revoked = (revoke_agent (text "a") (text "h1") 300 true with_token).1

revoke_agent-cut_off_example :
    ((token : Text) → agent_uuid_for_token_hash token with_revoked ≢ ok (text "a"))
    × (live_agent with_revoked.agents (text "a") ≡ none)
    × ((edge_id : Text) (e : TrustEdge)
        → get with_revoked.agent_trusts edge_id ≡ some e
        → touches (text "a") e ≡ true
        → is_active e.state ≡ false)
unfolding revoke_agent get text_eq
revoke_agent-cut_off_example =
    revoke_agent-cut_off (text "a") (text "h1") 300 true with_token with_revoked ann refl refl refl

-- A human, and a token that the human made for an agent.
abbrev base : MemoryStore
base = with_human (text "ann") (text "taken")

abbrev with_bind : MemoryStore
with_bind =
    (create_bind_token [] (some (text "h1")) (text "h1") (text "b1") (text "#") 100 20 true base).1

bound : BindReach new_memory_store with_bind
unfolding get new_memory_store
bound =
    BindReach.next (BindReach.next BindReach.here (BindStep.elsewhere base refl refl))
      (BindStep.creates [] (some (text "h1")) (text "h1") (text "b1") (text "#") 100 20 true refl)

redeem_bind_token-once_example :
    redeem_bind_token
      (text "#")
      (text "other")
      (text "t2")
      40
      (some (text "x2"))
      none
      (redeem_bind_token (text "#") (text "ann") (text "t1") 30 (some (text "x1")) none with_bind).1
    ≡ (
      err bind_used,
      (redeem_bind_token
          (text "#")
          (text "ann")
          (text "t1")
          30
          (some (text "x1"))
          none
          with_bind).1,
    )
unfolding create_bind_token redeem_bind_token find_bind redeem new_agent_uri owner_handle agent_uri
    free_uri normalize_agent_name_key normalize scan separator is_alnum is_sep trim_seps clip
    trim_space trim_func drop_while is_space to_lower lower is_valid_handle validate_handle
    matches_handle_regex is_handle_char all_chars is_blocked split_alpha_num_tokens
    compact_alpha_num in_blocked_set get text_eq put new_memory_store
redeem_bind_token-once_example =
    redeem_bind_token-once (text "#") (text "ann") (text "t1") 30 (some (text "x1")) none
      (new_agent (text "x1") (build_human_agent_uri (text "ann") (text "ann")) (text "ann") none []
        (some (text "h1")) [] (text "t1") (text "h1") 30)
      bound refl BindReach.here (text "other") (text "t2") 40 (some (text "x2")) none

abbrev with_registered : MemoryStore
with_registered =
    (register_agent [] (text "ann") (some (text "h1")) (text "t1") (text "h1") 30 true
      (some (text "x1")) base).1

named : NameReach new_memory_store with_registered
unfolding new_memory_store
named =
    NameReach.next
      (NameReach.next NameReach.here (NameStep.elsewhere base (SameAgents-refl _) refl))
      (registers [] (text "ann") (some (text "h1")) (text "t1") (text "h1") 30 true
        (some (text "x1")))

abbrev registered : Agent
registered =
    new_agent (text "x1") (build_human_agent_uri (text "ann") (text "ann")) (text "ann") (some 30)
      [] (some (text "h1")) [] (text "t1") (text "h1") 30

-- Its registration is logged in its metadata.
logged :
    (m : Metadata) × (get with_registered.agents (text "x1")
      ≡ some (record registered { metadata = m }))
unfolding register_agent audit_registration add_agent index_name new_agent_uri owner_handle
    agent_uri free_uri normalize_agent_name_key normalize scan separator is_alnum is_sep trim_seps
    clip trim_space trim_func drop_while is_space to_lower lower is_valid_handle validate_handle
    matches_handle_regex is_handle_char all_chars is_blocked split_alpha_num_tokens
    compact_alpha_num in_blocked_set get text_eq put new_memory_store
logged =
    (agents-append_audit [] (text "h1") (text "agent") (text "create") (text "x1")
        (agent_creation_audit_details registered (text "register") []) 30
        (add_agent registered base)).stays
      (text "x1") registered refl

agent_by_uri_unique_example :
    (get with_registered.agent_by_uri (build_human_agent_uri (text "ann") (text "ann"))
      ≡ some (text "x1"))
    × ((j : Text) (b : Agent)
        → get with_registered.agents j ≡ some b
        → is_revoked b.status ≡ false
        → build_human_agent_uri (text "ann") (text "ann") ≡ b.agent_id
        → text "x1" ≡ j)
agent_by_uri_unique_example =
    agent_by_uri_unique named (text "x1") (record registered { metadata = logged.0 }) logged.1 refl

-- The second agent has a handle.
abbrev with_handle : MemoryStore
with_handle = record new_memory_store {
  directory = record new_memory_store.directory {
    agents = (text "a", ann) ∷ (text "b", record bob { handle = text "bob" }) ∷ [];
  };
}

resolve_agent_uuid-IsMeant_example :
    (a : Agent) × (live_agent with_handle.agents (text "b") ≡ some a)
    × IsMeant (normalize_agent_ref (text " Bob ")) with_handle (text "b") a
unfolding resolve_agent_uuid resolve_agent_ref match_uri match_handle next_match has_handle
    contains_char normalize_agent_ref normalize scan separator is_alnum is_sep trim_seps clip
    trim_space trim_func drop_while is_space to_lower lower get text_eq live_agent new_memory_store
resolve_agent_uuid-IsMeant_example =
    resolve_agent_uuid-IsMeant (text " Bob ") with_handle (text "b") refl
