-- ===== src/Store/Invites/Transfer/Frame.antt =====
-- What the transfer of agents leaves alone: whatever neither an audit entry nor the relocation of
-- one agent changes.
use moltenhub.Base.{
  ◌≡◌, refl, ◌∙◌, inl, inr, ◌||◌, List, [], ◌∷◌, some, Bool-cases, Option-cases, is_empty,
}
use moltenhub.Base.Text.{Text, trim_space}
use moltenhub.Base.Dict.{get}
use moltenhub.Model.{Organization, Agent}
use moltenhub.Model.Value.{Metadata}
use moltenhub.Model.Clock.{Time}
use moltenhub.Handles.{build_agent_uri}
use moltenhub.Store.State.{MemoryStore}
use moltenhub.Store.Audit.{append_audit}
use moltenhub.Store.Humans.{is_valid_handle, is_available}
use moltenhub.Store.Invites.Transfer.{
  human_owned_agent_name_key, relocate, move_agent, move_agents, transfer_to,
  transfer_human_owned_agents_to_org,
}

module _ {X : Type 0} (part : MemoryStore → X)
    (audit : (side actor category action subject : Text) (details : Metadata) (now : Time)
        (s : MemoryStore)
      → part (append_audit side actor category action subject details now s) ≡ part s)
    (moved : (org_id human_id uri id : Text) (a : Agent) (s : MemoryStore)
      → part (relocate org_id human_id uri id a s) ≡ part s) where
  move_agent-keeps :
      (org_id : Text) (org : Organization) (human_id handle : Text) (now : Time) (id : Text)
      (a : Agent) (s : MemoryStore)
      → part (move_agent org_id org human_id handle now id a s) ≡ part s
  unfolding move_agent
  move_agent-keeps org_id org human_id handle now id a s =
      let next_id = build_agent_uri org.handle (some handle) a.handle in
      let next_key = human_owned_agent_name_key org_id human_id a.handle in
      elim (Bool-cases (is_available s.human_owned_agent_name_idx next_key id)) [
        | inr used ↦ rw (used, move_agent) refl
        | inl new ↦ elim (Bool-cases (is_available s.agent_by_uri next_id id)) [
          | inr taken ↦ rw (new, move_agent) (rw (taken, move_agent) refl)
          | inl free ↦
              rw (new, move_agent)
                (rw (free, move_agent)
                  (audit _ _ _ _ _ _ _ _ ∙ moved org_id human_id next_id id a s))
        ]
      ]

  move_agents-keeps :
      (org_id : Text) (org : Organization) (human_id handle : Text) (now : Time) (ids : List Text)
      (s : MemoryStore)
      → part (move_agents org_id org human_id handle now ids s) ≡ part s
  unfolding move_agents
  move_agents-keeps org_id org human_id handle now [] s = refl
  move_agents-keeps org_id org human_id handle now (id ∷ ids) s =
      elim (Option-cases (get s.agents id)) [
        | inl missing ↦
            rw (missing, move_agents) (move_agents-keeps org_id org human_id handle now ids s)
        | inr (a, found) ↦
            rw (found, move_agents)
              (move_agents-keeps org_id org human_id handle now ids _
                ∙ move_agent-keeps org_id org human_id handle now id a s)
      ]

  pub transfer-keeps :
      (org_id human_id : Text) (now : Time) (s : MemoryStore)
      → part (transfer_human_owned_agents_to_org org_id human_id now s) ≡ part s
  unfolding transfer_human_owned_agents_to_org transfer_to
  transfer-keeps raw_org raw_human now s =
      let org_id = trim_space raw_org in
      let human_id = trim_space raw_human in
      elim (Bool-cases (is_empty org_id || is_empty human_id)) [
        | inl unnamed ↦ rw (unnamed, transfer_human_owned_agents_to_org) refl
        | inr named ↦ elim (Option-cases (get s.orgs org_id)) [
          | inl nowhere ↦
              rw (named, transfer_human_owned_agents_to_org) (rw (nowhere, transfer_to) refl)
          | inr (org, there) ↦ elim (Option-cases (get s.humans human_id)) [
            | inl nobody ↦
                rw (named, transfer_human_owned_agents_to_org)
                  (rw (there, transfer_to) (rw (nobody, transfer_to) refl))
            | inr (human, known) ↦ elim (Bool-cases (is_valid_handle human.handle)) [
              | inr bad ↦
                  rw (named, transfer_human_owned_agents_to_org)
                    (rw (there, transfer_to) (rw (known, transfer_to) (rw (bad, transfer_to) refl)))
              | inl good ↦
                  rw (named, transfer_human_owned_agents_to_org)
                    (rw (there, transfer_to)
                      (rw (known, transfer_to)
                        (rw (good, transfer_to)
                          (move_agents-keeps org_id org human_id human.handle now _ s))))
            ]
          ]
        ]
      ]

pub transfer-grants :
    (org_id human_id : Text) (now : Time) (s : MemoryStore)
    → (transfer_human_owned_agents_to_org org_id human_id now s).grants ≡ s.grants
unfolding append_audit relocate
transfer-grants org_id human_id now s =
    transfer-keeps (λ (u : MemoryStore). u.grants) (λ _ _ _ _ _ _ _ _. refl) (λ _ _ _ _ _ _. refl)
      org_id human_id now s

pub transfer-orgs :
    (org_id human_id : Text) (now : Time) (s : MemoryStore)
    → (transfer_human_owned_agents_to_org org_id human_id now s).orgs ≡ s.orgs
unfolding append_audit relocate
transfer-orgs org_id human_id now s =
    transfer-keeps (λ (u : MemoryStore). u.orgs) (λ _ _ _ _ _ _ _ _. refl) (λ _ _ _ _ _ _. refl)
      org_id human_id now s

pub transfer-memberships :
    (org_id human_id : Text) (now : Time) (s : MemoryStore)
    → (transfer_human_owned_agents_to_org org_id human_id now s).memberships ≡ s.memberships
unfolding append_audit relocate
transfer-memberships org_id human_id now s =
    transfer-keeps (λ (u : MemoryStore). u.memberships) (λ _ _ _ _ _ _ _ _. refl)
      (λ _ _ _ _ _ _. refl) org_id human_id now s

pub transfer-membership_by_org_user :
    (org_id human_id : Text) (now : Time) (s : MemoryStore)
    → (transfer_human_owned_agents_to_org org_id human_id now s).membership_by_org_user
      ≡ s.membership_by_org_user
unfolding append_audit relocate
transfer-membership_by_org_user org_id human_id now s =
    transfer-keeps (λ (u : MemoryStore). u.membership_by_org_user) (λ _ _ _ _ _ _ _ _. refl)
      (λ _ _ _ _ _ _. refl) org_id human_id now s
