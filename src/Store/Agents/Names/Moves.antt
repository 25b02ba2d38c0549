-- ===== src/Store/Agents/Names/Moves.antt =====
-- Agents that change their URI, by a final handle or by moving to an organization, keep the index.
use moltenhub.Base.{
  ◌≡◌, refl, sym, ap, subst, ◌∙◌, inl, inr, some, List, [], ◌∷◌, arith, true, false, ◌||◌,
  Bool-cases, Option-cases, is_empty, All,
}
use moltenhub.Base.Text.{Text, text_eq, text_le, trim_space}
use moltenhub.Base.Dict.{Dict, get, put, get-put, keys}
use moltenhub.Model.{Agent, Organization}
use moltenhub.Model.Clock.{Time}
use moltenhub.Handles.{build_agent_uri}
use moltenhub.Store.State.{MemoryStore, Result-cases}
use moltenhub.Store.Audit.Agents.{SameAgents, agents-append_audit}
use moltenhub.Store.Leases.{sort_strings, insert_key}
use moltenhub.Store.Queue.{is_revoked, live_agent}
use moltenhub.Store.Humans.{is_valid_handle, is_available}
use moltenhub.Store.Invites.Transfer.{
  human_owned_agent_name_key, move_agent, relocate, move_agents, movable, is_movable, transfer_to,
  transfer_human_owned_agents_to_org,
}
use moltenhub.Store.Agents.{agent_uri, normalize_agent_name_key}
use moltenhub.Store.Agents.Finalize.{
  human_handle, name_is_free, rename_agent, name_agent, finalize_agent_handle_self,
}
use moltenhub.Store.Agents.Names.{rename-IsNamed}
use moltenhub.Store.Agents.Names.Steps.{Named, append_audit-Named, live_agent_lem}

rename_agent-Named :
    (id handle uri : Text) (a : Agent) (now : Time) (s : MemoryStore)
    → get s.agents id ≡ some a
    → is_revoked a.status ≡ false
    → is_available s.agent_by_uri uri a.agent_uuid ≡ true
    → Named s
    → Named (rename_agent id handle uri a now s).1
unfolding rename_agent
rename_agent-Named id handle uri a now s found live free n =
    let own : a.agent_uuid ≡ id = n.keyed id a found in
    append_audit-Named _ _ _ _ _ _ _ _ (
      rename-IsNamed s.agents s.agent_by_uri a.agent_uuid a _ n (ap (get s.agents) own ∙ found) live
        refl free)

name_agent-Named :
    (id handle : Text) (a : Agent) (now : Time) (s : MemoryStore)
    → get s.agents id ≡ some a
    → is_revoked a.status ≡ false
    → Named s
    → Named (name_agent id handle a now s).1
unfolding name_agent
name_agent-Named id handle a now s found live n =
    elim (Result-cases (human_handle s a.owner_human_id)) [
      | inr (e, refused) ↦ rw (refused, name_agent) n
      | inl (owner, owned) ↦ elim (Result-cases (agent_uri s a.org_id owner handle true)) [
        | inr (e, refused) ↦ rw (owned, name_agent) (rw (refused, name_agent) n)
        | inl (uri, built) ↦ elim (Bool-cases (is_available s.agent_by_uri uri a.agent_uuid)) [
          | inr taken ↦ rw (owned, name_agent) (rw (built, name_agent) (rw (taken, name_agent) n))
          | inl free ↦ elim (Bool-cases (name_is_free s a handle)) [
            | inr used ↦
                rw (owned, name_agent)
                  (rw (built, name_agent) (rw (free, name_agent) (rw (used, name_agent) n)))
            | inl new ↦
                rw (owned, name_agent)
                  (rw (built, name_agent)
                    (rw (free, name_agent)
                      (rw (new, name_agent)
                        (rename_agent-Named id handle uri a now s found live free n))))
          ]
        ]
      ]
    ]

pub finalize_agent_handle_self-Named :
    (id raw : Text) (now : Time) (s : MemoryStore)
    → Named s
    → Named (finalize_agent_handle_self id raw now s).1
unfolding finalize_agent_handle_self
finalize_agent_handle_self-Named id raw now s n = elim (Option-cases (live_agent s.agents id)) [
  | inl missing ↦ rw (missing, finalize_agent_handle_self) n
  | inr (a, found) ↦
      let handle = normalize_agent_name_key raw in
      let (at, live) = live_agent_lem s.agents id a found in
      elim (Bool-cases (is_valid_handle handle)) [
        | inr bad ↦ rw (found, finalize_agent_handle_self) (rw (bad, finalize_agent_handle_self) n)
        | inl good ↦ elim (Option-cases a.handle_finalized_at) [
          | inl open_handle ↦
              rw (found, finalize_agent_handle_self)
                (rw (good, finalize_agent_handle_self)
                  (rw (open_handle, finalize_agent_handle_self)
                    (name_agent-Named id handle a now s at live n)))
          | inr (t, fixed) ↦ elim (Bool-cases (text_eq a.handle handle)) [
            | inl same ↦
                rw (found, finalize_agent_handle_self)
                  (rw (good, finalize_agent_handle_self)
                    (rw (fixed, finalize_agent_handle_self)
                      (rw (same, finalize_agent_handle_self) n)))
            | inr differ ↦
                rw (found, finalize_agent_handle_self)
                  (rw (good, finalize_agent_handle_self)
                    (rw (fixed, finalize_agent_handle_self)
                      (rw (differ, finalize_agent_handle_self) n)))
          ]
        ]
      ]
]

move_agent-Named :
    (org_id : Text) (org : Organization) (human_id owner : Text) (now : Time) (id : Text)
    (a : Agent) (s : MemoryStore)
    → get s.agents id ≡ some a
    → is_revoked a.status ≡ false
    → Named s
    → Named (move_agent org_id org human_id owner now id a s)
unfolding move_agent relocate
move_agent-Named org_id org human_id owner now id a s found live n =
    let next_id = build_agent_uri org.handle (some owner) a.handle in
    let next_key = human_owned_agent_name_key org_id human_id a.handle in
    elim (Bool-cases (is_available s.human_owned_agent_name_idx next_key id)) [
      | inr used ↦ rw (used, move_agent) n
      | inl new ↦ elim (Bool-cases (is_available s.agent_by_uri next_id id)) [
        | inr taken ↦ rw (new, move_agent) (rw (taken, move_agent) n)
        | inl free ↦
            rw (new, move_agent)
              (rw (free, move_agent)
                (append_audit-Named _ _ _ _ _ _ _ _
                  (rename-IsNamed s.agents s.agent_by_uri id a _ n found live refl free)))
      ]
    ]

-- An agent that is there under an id is not revoked.
abbrev LiveAt : Dict Agent → Text → Type 0
LiveAt agents id = (a : Agent) → get agents id ≡ some a → is_revoked a.status ≡ false

SameAgents-LiveAt :
    (old new : Dict Agent) (id : Text) → SameAgents old new → LiveAt old id → LiveAt new id
SameAgents-LiveAt old new id same live a h = elim (Option-cases (get old id)) [
  | inl missing ↦ let gone = same.absent id missing in absurd cc
  | inr (b, found) ↦
      let (m, e) = same.stays id b found in
      let same_agent : record b { metadata = m } ≡ a = cc in
      ap (λ (x : Agent). is_revoked x.status) (sym same_agent) ∙ live b found
]

put-LiveAt :
    (agents : Dict Agent) (id j : Text) (a : Agent)
    → is_revoked a.status ≡ false
    → LiveAt agents j
    → LiveAt (put agents id a) j
put-LiveAt agents id j a here live b h = elim (Bool-cases (text_eq id j)) [
  | inl same ↦
      let e : a ≡ b = ground (arith, get-put agents id j a) in
      subst (λ (x : Agent). is_revoked x.status ≡ false) e here
  | inr other ↦ live b (ground (arith, get-put agents id j a))
]

move_agent-LiveAt :
    (org_id : Text) (org : Organization) (human_id owner : Text) (now : Time) (id : Text)
    (a : Agent) (s : MemoryStore) (j : Text)
    → is_revoked a.status ≡ false
    → LiveAt s.agents j
    → LiveAt (move_agent org_id org human_id owner now id a s).agents j
unfolding move_agent relocate
move_agent-LiveAt org_id org human_id owner now id a s j live h =
    let next_id = build_agent_uri org.handle (some owner) a.handle in
    let next_key = human_owned_agent_name_key org_id human_id a.handle in
    let relocated : MemoryStore = relocate org_id human_id next_id id a s in
    elim (Bool-cases (is_available s.human_owned_agent_name_idx next_key id)) [
      | inr used ↦ rw (used, move_agent) h
      | inl new ↦ elim (Bool-cases (is_available s.agent_by_uri next_id id)) [
        | inr taken ↦ rw (new, move_agent) (rw (taken, move_agent) h)
        | inl free ↦
            rw (new, move_agent)
              (rw (free, move_agent)
                (SameAgents-LiveAt relocated.agents _ j
                  (agents-append_audit _ _ _ _ _ _ _ relocated)
                  (put-LiveAt s.agents id j (record a { org_id = org_id; agent_id = next_id }) live
                    h)))
      ]
    ]

move_agents-Named :
    (org_id : Text) (org : Organization) (human_id owner : Text) (now : Time) (ids : List Text)
    (s : MemoryStore)
    → All (LiveAt s.agents) ids
    → Named s
    → Named (move_agents org_id org human_id owner now ids s)
unfolding move_agents
move_agents-Named org_id org human_id owner now [] s live n = n
move_agents-Named org_id org human_id owner now (id ∷ ids) s live n =
    elim (Option-cases (get s.agents id)) [
      | inl missing ↦
          rw (missing, move_agents) (move_agents-Named org_id org human_id owner now ids s live.1 n)
      | inr (a, found) ↦
          let here = live.0 a found in
          rw (found, move_agents)
            (move_agents-Named org_id org human_id owner now ids
              (move_agent org_id org human_id owner now id a s) (later a here ids live.1)
              (move_agent-Named org_id org human_id owner now id a s found here n))
    ]
  where
    later :
        (a : Agent)
        → is_revoked a.status ≡ false
        → (js : List Text) → All (LiveAt s.agents) js
        → All (LiveAt (move_agent org_id org human_id owner now id a s).agents) js
    later a here [] h = tt
    later a here (j ∷ js) h =
        (move_agent-LiveAt org_id org human_id owner now id a s j here h.0, later a here js h.1)

movable-LiveAt :
    (human_id : Text) (agents : Dict Agent) (ids : List Text)
    → All (LiveAt agents) (movable human_id agents ids)
unfolding movable is_movable
movable-LiveAt human_id agents [] = tt
movable-LiveAt human_id agents (id ∷ ids) =
    elim (Bool-cases (is_movable human_id (get agents id))) [
      | inl moves ↦ rw (moves, movable) (here moves, movable-LiveAt human_id agents ids)
      | inr stays ↦ rw (stays, movable) (movable-LiveAt human_id agents ids)
    ]
  where
    here : is_movable human_id (get agents id) ≡ true → LiveAt agents id
    here moves a found = ground arith

insert_key-All :
    (P : Text → Type 0) (k : Text) (ks : List Text) → P k → All P ks → All P (insert_key k ks)
unfolding insert_key
insert_key-All P k [] p h = (p, tt)
insert_key-All P k (j ∷ js) p h = elim (Bool-cases (text_le k j)) [
  | inl before ↦ rw (before, insert_key) (p, h)
  | inr after ↦ rw (after, insert_key) (h.0, insert_key-All P k js p h.1)
]

sort_strings-All : (P : Text → Type 0) (ids : List Text) → All P ids → All P (sort_strings ids)
unfolding sort_strings
sort_strings-All P [] h = tt
sort_strings-All P (id ∷ ids) h =
    insert_key-All P id (sort_strings ids) h.0 (sort_strings-All P ids h.1)

transfer_to-Named :
    (org_id human_id : Text) (now : Time) (s : MemoryStore)
    → Named s
    → Named (transfer_to org_id human_id now s)
unfolding transfer_to
transfer_to-Named org_id human_id now s n = elim (Option-cases (get s.orgs org_id)) [
  | inl nowhere ↦ rw (nowhere, transfer_to) n
  | inr (org, there) ↦ elim (Option-cases (get s.humans human_id)) [
    | inl nobody ↦ rw (there, transfer_to) (rw (nobody, transfer_to) n)
    | inr (human, known) ↦ elim (Bool-cases (is_valid_handle human.handle)) [
      | inr bad ↦ rw (there, transfer_to) (rw (known, transfer_to) (rw (bad, transfer_to) n))
      | inl good ↦
          let ids = movable human_id s.agents (keys s.agents) in
          rw (there, transfer_to)
            (rw (known, transfer_to)
              (rw (good, transfer_to)
                (move_agents-Named org_id org human_id human.handle now (sort_strings ids) s
                  (sort_strings-All (LiveAt s.agents) ids
                    (movable-LiveAt human_id s.agents (keys s.agents)))
                  n)))
    ]
  ]
]

pub transfer_human_owned_agents_to_org-Named :
    (org_id human_id : Text) (now : Time) (s : MemoryStore)
    → Named s
    → Named (transfer_human_owned_agents_to_org org_id human_id now s)
unfolding transfer_human_owned_agents_to_org
transfer_human_owned_agents_to_org-Named org_id human_id now s n =
    elim (Bool-cases (is_empty (trim_space org_id) || is_empty (trim_space human_id))) [
      | inl unnamed ↦ rw (unnamed, transfer_human_owned_agents_to_org) n
      | inr named ↦
          rw (named, transfer_human_owned_agents_to_org)
            (transfer_to-Named (trim_space org_id) (trim_space human_id) now s n)
    ]
