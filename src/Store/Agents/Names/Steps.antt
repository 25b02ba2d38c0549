-- ===== src/Store/Agents/Names/Steps.antt =====
-- Every operation on agents keeps the index by URI.
use moltenhub.Base.{
  ◌≡◌, refl, inl, inr, Option, none, some, arith, Bool, false, not, Bool-cases, Option-cases,
}
use moltenhub.Base.Text.{Text}
use moltenhub.Base.Dict.{Dict, get}
use moltenhub.Model.{Agent}
use moltenhub.Model.Value.{Metadata}
use moltenhub.Model.Clock.{Time}
use moltenhub.Store.State.{Result-cases, MemoryStore, Registry, Result, ok, err, err_not_ok}
use moltenhub.Store.Audit.{append_audit}
use moltenhub.Store.Audit.Agents.{agents-append_audit}
use moltenhub.Store.Queue.{is_revoked, live_agent}
use moltenhub.Store.Humans.{is_valid_handle}
use moltenhub.Store.Agents.{
  owner_handle, agent_uri, free_uri, new_agent_uri, index_name, unindex_name, add_agent,
}
use moltenhub.Store.Agents.Names.{
  IsNamed, SameAgents-IsNamed, add-IsNamed, update-IsNamed, revoke-IsNamed, remove-IsNamed,
}
use moltenhub.Store.Agents.Retire.{replace_token, close_agent, archive_agent}

abbrev pub Named : MemoryStore → Type 0
Named s = IsNamed s.agents s.agent_by_uri

pub append_audit-Named :
    (side actor category action subject : Text) (details : Metadata) (now : Time) (s : MemoryStore)
    → Named s
    → Named (append_audit side actor category action subject details now s)
append_audit-Named side actor category action subject details now s n =
    SameAgents-IsNamed _ _ _ (agents-append_audit side actor category action subject details now s)
      (unfold append_audit in n)

free_uri_lem :
    (s : MemoryStore) (r : Result Text) (uri : Text)
    → free_uri s r ≡ ok uri
    → get s.agent_by_uri uri ≡ none
unfolding free_uri
free_uri_lem s (err e) uri h = absurd (err_not_ok h)
free_uri_lem s (ok u) uri h = elim (Option-cases (get s.agent_by_uri u)) [
  | inl missing ↦ ground arith
  | inr (other, taken) ↦ absurd (ground arith)
]

-- The URI of a new agent is one that the index does not have.
pub new_agent_uri_free :
    (s : MemoryStore) (org_id : Text) (owner : Option Text) (handle : Text) (p q : Bool)
    (uri : Text)
    → new_agent_uri s org_id owner handle p q ≡ ok uri
    → get s.agent_by_uri uri ≡ none
unfolding new_agent_uri
new_agent_uri_free s org_id owner handle p q uri h =
    elim (Bool-cases (not (is_valid_handle handle))) [
      | inl bad ↦ absurd (err_not_ok (rw (bad, new_agent_uri) at h))
      | inr good ↦ elim (Result-cases (owner_handle s org_id owner handle p)) [
        | inl (human, named) ↦
            free_uri_lem s (agent_uri s org_id human handle q) uri
              (rw (named, new_agent_uri) at (rw (good, new_agent_uri) at h))
        | inr (e, refused) ↦
            absurd (err_not_ok (rw (refused, new_agent_uri) at (rw (good, new_agent_uri) at h)))
      ]
    ]

index_name-by_uri :
    (a : Agent) (id : Text) (r : Registry) → (index_name a id r).agent_by_uri ≡ r.agent_by_uri
unfolding index_name
index_name-by_uri a id r = elim (Option-cases a.owner_human_id) [
  | inl none_owns ↦ rw (none_owns, index_name)
  | inr (owner, owned) ↦ rw (owned, index_name)
]

unindex_name-by_uri : (a : Agent) (r : Registry) → (unindex_name a r).agent_by_uri ≡ r.agent_by_uri
unfolding unindex_name
unindex_name-by_uri a r = elim (Option-cases a.owner_human_id) [
  | inl none_owns ↦ rw (none_owns, unindex_name)
  | inr (owner, owned) ↦ rw (owned, unindex_name)
]

pub add_agent-Named :
    (a : Agent) (s : MemoryStore)
    → get s.agent_by_uri a.agent_id ≡ none
    → Named s
    → Named (add_agent a s)
unfolding add_agent
add_agent-Named a s free n =
    rw (index_name-by_uri a a.agent_uuid _)
      (add-IsNamed s.agents s.agent_by_uri a.agent_uuid a n refl free)

pub replace_token-Named :
    (id token : Text) (a : Agent) (s : MemoryStore)
    → get s.agents id ≡ some a
    → Named s
    → Named (replace_token id token a s)
unfolding replace_token
replace_token-Named id token a s found n =
    update-IsNamed s.agents s.agent_by_uri id a _ n found refl refl (λ live. live)

pub close_agent-Named :
    (id : Text) (a : Agent) (now : Time) (s : MemoryStore)
    → get s.agents id ≡ some a
    → is_revoked a.status ≡ false
    → Named s
    → Named (close_agent id a now s)
unfolding close_agent
close_agent-Named id a now s found live n =
    revoke-IsNamed s.agents s.agent_by_uri id a _ n found live refl refl

pub archive_agent-Named :
    (id : Text) (a : Agent) (now : Time) (s : MemoryStore)
    → Named s
    → Named (archive_agent id a now s)
unfolding archive_agent
archive_agent-Named id a now s n = remove-IsNamed s.agents s.agent_by_uri id n

pub live_agent_lem :
    (agents : Dict Agent) (id : Text) (a : Agent)
    → live_agent agents id ≡ some a
    → (get agents id ≡ some a) × (is_revoked a.status ≡ false)
unfolding live_agent
live_agent_lem agents id a h = elim (Option-cases (get agents id)) [
  | inl missing ↦ absurd (ground arith)
  | inr (b, found) ↦ ground arith
]
