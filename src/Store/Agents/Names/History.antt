-- ===== src/Store/Agents/Names/History.antt =====
-- The names of agents over any history of the store.
use moltenhub.Base.{
  ◌≡◌, inl, inr, Option, some, Bool, true, false, not, ◌&&◌, Option-cases, is_empty, if◌then◌else◌,
}
use moltenhub.Base.Text.{Text, equal_fold}
use moltenhub.Base.Dict.{get}
use moltenhub.Model.{Agent, Invite, Membership}
use moltenhub.Model.Clock.{Time}
use moltenhub.Store.State.{MemoryStore, new_memory_store, Outcome}
use moltenhub.Store.Queue.{is_revoked}
use moltenhub.Store.Trust.Request.{is_missing}
use moltenhub.Store.Audit.Agents.{SameAgents}
use moltenhub.Store.Invites.{
  accept_invite_locked, join_organization, close_invite, active_membership, is_pending, is_after,
  accepted,
}
use moltenhub.Store.Orgs.{store_membership}
use moltenhub.Store.Agents.{register_agent}
use moltenhub.Store.Agents.Binds.{redeem_bind_token}
use moltenhub.Store.Agents.Retire.{rotate_agent_token, revoke_agent, delete_agent}
use moltenhub.Store.Agents.Finalize.{finalize_agent_handle_self}
use moltenhub.Store.Agents.Names.{SameAgents-IsNamed, IsNamed-unique}
use moltenhub.Store.Agents.Names.Steps.{Named, append_audit-Named}
use moltenhub.Store.Agents.Names.Ops.{
  register_agent-Named, redeem_bind_token-Named, rotate_agent_token-Named, revoke_agent-Named,
  delete_agent-Named,
}
use moltenhub.Store.Agents.Names.Moves.{
  finalize_agent_handle_self-Named, transfer_human_owned_agents_to_org-Named,
}

join_organization-Named :
    (id : Text) (invite : Invite) (human_id : Text) (now : Time) (drawn : Option Text)
    (s : MemoryStore)
    → Named s
    → Named (join_organization id invite human_id now drawn s).1
unfolding join_organization close_invite store_membership
join_organization-Named id invite human_id now drawn s n =
    elim (Option-cases (active_membership s invite.org_id human_id)) [
      | inr (m, member) ↦
          rw (member, join_organization)
            (transfer_human_owned_agents_to_org-Named invite.org_id human_id now
              (close_invite id (accepted now invite) s) n)
      | inl none_yet ↦ elim (Option-cases drawn) [
        | inl failed ↦ rw (none_yet, join_organization) (rw (failed, join_organization) n)
        | inr (member_id, drew) ↦
            rw (none_yet, join_organization)
              (rw (drew, join_organization)
                (append_audit-Named _ _ _ _ _ _ _ _
                  (transfer_human_owned_agents_to_org-Named invite.org_id human_id now _ n)))
      ]
    ]

accept_invite_locked-Named :
    (id human_id email : Text) (now : Time) (drawn : Option Text) (s : MemoryStore)
    → Named s
    → Named (accept_invite_locked id human_id email now drawn s).1
unfolding accept_invite_locked close_invite
accept_invite_locked-Named id human_id email now drawn s n =
    elim (Option-cases (get s.invites id)) [
      | inl missing ↦ rw (missing, accept_invite_locked) n
      | inr (invite, found) ↦
          rw (found, accept_invite_locked)
            (if-Named (is_pending invite.status && is_after now invite.expires_at) _ _ n (
              if-Named (not (is_pending invite.status)) _ _ n (
                if-Named (not (is_empty invite.email) && not (equal_fold invite.email email)) _ _ n
                  (if-Named (is_missing (get s.humans human_id)) _ _ n
                    (join_organization-Named id invite human_id now drawn s n)))))
    ]
  where
    if-Named :
        (b : Bool) (o p : Outcome Membership) → Named o.1 → Named p.1 → Named (if b then o else p).1
    if-Named true o p h k = h
    if-Named false o p h k = k

-- One operation on the store. The steps `elsewhere` are those that leave the index by URI and the
-- agents, but for their metadata.
pub data NameStep (s : MemoryStore) : MemoryStore → Type 0 where
  registers :
      (org_id agent_id : Text) (owner : Option Text) (token actor : Text) (now : Time)
      (super : Bool) (drawn : Option Text)
      → NameStep s (register_agent org_id agent_id owner token actor now super drawn s).1
  redeems :
      (hash agent_id token : Text) (now : Time) (drawn edge : Option Text)
      → NameStep s (redeem_bind_token hash agent_id token now drawn edge s).1
  rotates :
      (id actor token : Text) (now : Time) (super : Bool)
      → NameStep s (rotate_agent_token id actor token now super s).1
  revokes :
      (id actor : Text) (now : Time) (super : Bool)
      → NameStep s (revoke_agent id actor now super s).1
  deletes :
      (id actor : Text) (now : Time) (super : Bool)
      → NameStep s (delete_agent id actor now super s).1
  finalizes : (id raw : Text) (now : Time) → NameStep s (finalize_agent_handle_self id raw now s).1
  accepts :
      (id human_id email : Text) (now : Time) (drawn : Option Text)
      → NameStep s (accept_invite_locked id human_id email now drawn s).1
  elsewhere :
      (t : MemoryStore)
      → SameAgents s.agents t.agents
      → t.agent_by_uri ≡ s.agent_by_uri
      → NameStep s t

pub data NameReach (s : MemoryStore) : MemoryStore → Type 0 where
  here : NameReach s s
  next : {t u : MemoryStore} → NameReach s t → NameStep t u → NameReach s u

pub NameStep-Named : {s t : MemoryStore} → NameStep s t → Named s → Named t
NameStep-Named {s} (registers org_id agent_id owner token actor now super drawn) n =
    register_agent-Named org_id agent_id owner token actor now super drawn s n
NameStep-Named {s} (redeems hash agent_id token now drawn edge) n =
    redeem_bind_token-Named hash agent_id token now drawn edge s n
NameStep-Named {s} (rotates id actor token now super) n =
    rotate_agent_token-Named id actor token now super s n
NameStep-Named {s} (revokes id actor now super) n = revoke_agent-Named id actor now super s n
NameStep-Named {s} (deletes id actor now super) n = delete_agent-Named id actor now super s n
NameStep-Named {s} (finalizes id raw now) n = finalize_agent_handle_self-Named id raw now s n
NameStep-Named {s} (accepts id human_id email now drawn) n =
    accept_invite_locked-Named id human_id email now drawn s n
NameStep-Named {s} (elsewhere t same index) n = rw index (SameAgents-IsNamed _ _ _ same n)

NameReach-Named : {s : MemoryStore} → NameReach new_memory_store s → Named s
unfolding new_memory_store get
NameReach-Named here = record { keyed = λ id a h. cc; named = λ id a h live. cc }
NameReach-Named (next r st) = NameStep-Named st (NameReach-Named r)

-- After any history of registrations, redeemed bind tokens, rotated tokens, revocations,
-- deletions, final handles and accepted invitations, every agent that is not revoked is found
-- under its URI, and no two of them share one.
pub agent_by_uri_unique :
    {s : MemoryStore}
    → NameReach new_memory_store s
    → (i : Text) (a : Agent) → get s.agents i ≡ some a
    → is_revoked a.status ≡ false
    → (get s.agent_by_uri a.agent_id ≡ some i)
      × ((j : Text) (b : Agent)
          → get s.agents j ≡ some b
          → is_revoked b.status ≡ false
          → a.agent_id ≡ b.agent_id
          → i ≡ j)
agent_by_uri_unique {s} r i a fa la =
    let n = NameReach-Named r in
    (
      n.named i a fa la,
      λ j b fb lb e. IsNamed-unique s.agents s.agent_by_uri i j a b n fa fb la lb e,
    )
