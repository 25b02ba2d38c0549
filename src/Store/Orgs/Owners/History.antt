-- ===== src/Store/Orgs/Owners/History.antt =====
-- The owners of organizations over any history of the store.
use moltenhub.Base.{
  ℕ, ◌≡◌, inl, inr, Bool, true, false, not, ◌&&◌, Option, none, some, Bool-cases, Option-cases,
  if◌then◌else◌, is_empty,
}
use moltenhub.Base.Text.{Text, equal_fold}
use moltenhub.Base.Dict.{get}
use moltenhub.Model.{Organization, Membership, Invite, admin}
use moltenhub.Model.Clock.{Time}
use moltenhub.Store.State.{MemoryStore, Outcome, new_memory_store}
use moltenhub.Store.Roles.{is_owner, is_active, has_role_at_least, membership_role, org_human_key}
use moltenhub.Store.Trust.Request.{is_missing}
use moltenhub.Store.Invites.{
  accept_invite_locked, join_organization, close_invite, active_membership, is_pending, is_after,
  accepted, new_membership,
}
use moltenhub.Store.Members.{
  revoke_membership, revoke_found, revoke_target, store_revoked, is_admin,
}
use moltenhub.Store.Orgs.{create_org, ensure_personal_org, store_membership, owner_membership_id}
use moltenhub.Store.Orgs.Owners.{
  IsOwned, SameMembers, SameMembers-IsOwned, store_membership-keeps, update-IsOwned, IsOwner-role,
}
use moltenhub.Store.Orgs.Owners.Steps.{
  append_audit-IsOwned, create_org-IsOwned, ensure_personal_org-IsOwned, transfer-SameMembers,
  store_after,
}

join_organization-IsOwned :
    (id : Text) (invite : Invite) (human_id : Text) (now : Time) (drawn : Option Text)
    (s : MemoryStore)
    → ((member_id : Text) → drawn ≡ some member_id → get s.memberships member_id ≡ none)
    → IsOwned s.directory
    → IsOwned (join_organization id invite human_id now drawn s).1.directory
unfolding join_organization close_invite new_membership
join_organization-IsOwned id invite human_id now drawn s fresh o =
    elim (Option-cases (active_membership s invite.org_id human_id)) [
      | inr (m, member) ↦
          let closed = close_invite id (accepted now invite) s in
          rw (member, join_organization)
            (SameMembers-IsOwned _ _ (transfer-SameMembers invite.org_id human_id now closed) o)
      | inl nobody ↦ elim (Option-cases drawn) [
        | inl failed ↦ rw (nobody, join_organization) (rw (failed, join_organization) o)
        | inr (member_id, drew) ↦
            let m = new_membership member_id invite human_id now in
            let joined = store_membership m s in
            let closed = close_invite id (accepted now invite) joined in
            let kept : IsOwned joined.directory = joins m (fresh member_id drew) nobody in
            rw (nobody, join_organization)
              (rw (drew, join_organization)
                (append_audit-IsOwned _ _ _ _ _ _ _ _ (
                  SameMembers-IsOwned _ _ (transfer-SameMembers invite.org_id human_id now closed)
                    kept)))
      ]
    ]
  where
    joins :
        (m : Membership)
        → get s.memberships m.membership_id ≡ none
        → active_membership s m.org_id m.human_id ≡ none
        → IsOwned (store_membership m s).directory
    joins m new nobody =
        unfold store_membership in
        record {
          owned = λ org_id org h.
              store_membership-keeps m s org_id new (inl nobody) (o.owned org_id org h);
        }

accept_invite_locked-IsOwned :
    (id human_id email : Text) (now : Time) (drawn : Option Text) (s : MemoryStore)
    → ((member_id : Text) → drawn ≡ some member_id → get s.memberships member_id ≡ none)
    → IsOwned s.directory
    → IsOwned (accept_invite_locked id human_id email now drawn s).1.directory
unfolding accept_invite_locked close_invite
accept_invite_locked-IsOwned id human_id email now drawn s fresh o =
    elim (Option-cases (get s.invites id)) [
      | inl missing ↦ rw (missing, accept_invite_locked) o
      | inr (invite, found) ↦
          rw (found, accept_invite_locked)
            (either (is_pending invite.status && is_after now invite.expires_at) _ _ o (
              either (not (is_pending invite.status)) _ _ o (
                either (not (is_empty invite.email) && not (equal_fold invite.email email)) _ _ o (
                  either (is_missing (get s.humans human_id)) _ _ o
                    (join_organization-IsOwned id invite human_id now drawn s fresh o)))))
    ]
  where
    either :
        (b : Bool) (x y : Outcome Membership)
        → IsOwned x.1.directory
        → IsOwned y.1.directory
        → IsOwned (if b then x else y).1.directory
    either true x y h k = h
    either false x y h k = k

revoke_target-IsOwned :
    (org_id id : Text) (m : Membership) (human_id actor : Text) (super : Bool) (now : Time)
    (s : MemoryStore)
    → get s.memberships id ≡ some m
    → IsOwned s.directory
    → IsOwned (revoke_target org_id id m human_id actor super now s).1.directory
unfolding revoke_target store_revoked
revoke_target-IsOwned org_id id m human_id actor super now s found o =
    let role = membership_role s.directory org_id actor in
    elim (Bool-cases (not super && not (has_role_at_least role admin))) [
      | inl denied ↦ rw (denied, revoke_target) o
      | inr granted ↦ elim (Bool-cases (is_owner m.role)) [
        | inl owning ↦ rw (granted, revoke_target) (rw (owning, revoke_target) o)
        | inr other ↦ elim (Bool-cases (not super && is_admin role && is_admin m.role)) [
          | inl peer ↦
              rw (granted, revoke_target) (rw (other, revoke_target) (rw (peer, revoke_target) o))
          | inr below ↦
              rw (granted, revoke_target)
                (rw (other, revoke_target)
                  (rw (below, revoke_target)
                    (append_audit-IsOwned _ _ _ _ _ _ _ _
                      (update-IsOwned s.directory id m _ found other o))))
        ]
      ]
    ]

revoke_membership-IsOwned :
    (org_id human_id actor : Text) (super : Bool) (now : Time) (s : MemoryStore)
    → IsOwned s.directory
    → IsOwned (revoke_membership org_id human_id actor super now s).1.directory
unfolding revoke_membership revoke_found
revoke_membership-IsOwned org_id human_id actor super now s o =
    elim (Option-cases (get s.orgs org_id)) [
      | inl nowhere ↦ rw (nowhere, revoke_membership) o
      | inr (org, there) ↦
          elim (Option-cases (get s.membership_by_org_user (org_human_key org_id human_id))) [
            | inl missing ↦ rw (there, revoke_membership) (rw (missing, revoke_membership) o)
            | inr (id, at) ↦ elim (Option-cases (get s.memberships id)) [
              | inl lost ↦
                  rw (there, revoke_membership)
                    (rw (at, revoke_membership) (rw (lost, revoke_found) o))
              | inr (m, found) ↦ elim (Bool-cases (is_active m.status)) [
                | inr over ↦
                    rw (there, revoke_membership)
                      (rw (at, revoke_membership)
                        (rw (found, revoke_found) (rw (over, revoke_found) o)))
                | inl live ↦
                    rw (there, revoke_membership)
                      (rw (at, revoke_membership)
                        (rw (found, revoke_found)
                          (rw (live, revoke_found)
                            (revoke_target-IsOwned org_id id m human_id actor super now s found
                              o))))
              ]
            ]
          ]
    ]

-- The ids of new memberships are fresh, as the handlers draw them. Other operations may change the
-- rest of the store, agents included.
pub data OwnerStep (s : MemoryStore) : MemoryStore → Type 0 where
  creates :
      (handle name creator org_id : Text) (now : Time)
      → get s.memberships (owner_membership_id org_id) ≡ none
      → OwnerStep s (create_org handle name creator org_id now s).1
  ensures :
      (fuel : ℕ) (human_id : Text) (now : Time) (drawn : Option Text)
      → ((id : Text) → drawn ≡ some id → get s.memberships (owner_membership_id id) ≡ none)
      → OwnerStep s (store_after (ensure_personal_org fuel human_id now drawn s) s)
  accepts :
      (id human_id email : Text) (now : Time) (drawn : Option Text)
      → ((member_id : Text) → drawn ≡ some member_id → get s.memberships member_id ≡ none)
      → OwnerStep s (accept_invite_locked id human_id email now drawn s).1
  revokes :
      (org_id human_id actor : Text) (super : Bool) (now : Time)
      → OwnerStep s (revoke_membership org_id human_id actor super now s).1
  elsewhere : (t : MemoryStore) → SameMembers s.directory t.directory → OwnerStep s t

pub data OwnerReach (s : MemoryStore) : MemoryStore → Type 0 where
  here : OwnerReach s s
  next : {t u : MemoryStore} → OwnerReach s t → OwnerStep t u → OwnerReach s u

OwnerStep-IsOwned : {s t : MemoryStore} → OwnerStep s t → IsOwned s.directory → IsOwned t.directory
OwnerStep-IsOwned {s} (creates handle name creator org_id now fresh) o =
    create_org-IsOwned handle name creator org_id now s fresh o
OwnerStep-IsOwned {s} (ensures fuel human_id now drawn fresh) o =
    ensure_personal_org-IsOwned fuel human_id now drawn s fresh o
OwnerStep-IsOwned {s} (accepts id human_id email now drawn fresh) o =
    accept_invite_locked-IsOwned id human_id email now drawn s fresh o
OwnerStep-IsOwned {s} (revokes org_id human_id actor super now) o =
    revoke_membership-IsOwned org_id human_id actor super now s o
OwnerStep-IsOwned {s} (elsewhere t same) o = SameMembers-IsOwned s.directory t.directory same o

OwnerReach-IsOwned : {s : MemoryStore} → OwnerReach new_memory_store s → IsOwned s.directory
unfolding new_memory_store get
OwnerReach-IsOwned here = record { owned = λ org_id org h. cc }
OwnerReach-IsOwned (next r st) = OwnerStep-IsOwned st (OwnerReach-IsOwned r)

-- After any history of organizations founded, personal organizations ensured, invitations accepted
-- and memberships revoked, every organization has a human whose role there is that of the owner.
pub orgs_have_owners :
    {s : MemoryStore} (org_id : Text) (org : Organization)
    → OwnerReach new_memory_store s
    → get s.orgs org_id ≡ some org
    → (human_id : Text) × (is_owner (membership_role s.directory org_id human_id) ≡ true)
orgs_have_owners {s} org_id org r h =
    let (human_id, id, m, w) = (OwnerReach-IsOwned r).owned org_id org h in
    (human_id, IsOwner-role s.directory org_id human_id id m w)
