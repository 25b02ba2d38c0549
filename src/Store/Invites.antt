-- ===== src/Store/Invites.antt =====
-- Invitations to organizations in internal/store/memory.go: `CreateInvite`, `AcceptInvite`,
-- `AcceptInviteBySecretHash` and `RevokeInvite`. The id of a new membership is an argument; `none`
-- is the error of drawing it.
pub mod Transfer
pub mod Once
use moltenhub.Base.{
  Bool, true, false, not, ◌&&◌, ◌||◌, Option, none, some, List, ◌==◌, [], ◌∷◌, ltb, if◌then◌else◌,
  is_empty,
}
use moltenhub.Base.Text.{Text, text, text_eq, trim_space, to_lower, equal_fold}
use moltenhub.Base.Dict.{Dict, get, put, remove, get_or}
use moltenhub.Model.{
  Human, Membership, Invite, Role, owner, admin, member, viewer, other, Status, pending, active,
  revoked, expired,
}
use moltenhub.Model.Value.{string, time}
use moltenhub.Model.Clock.{Time}
use moltenhub.Store.State.{
  MemoryStore, Grants, Outcome, ok, err, id_failed, human_not_found, org_not_found,
  unauthorized_role, invalid_role, invite_not_found, invite_invalid, invite_exists,
}
use moltenhub.Store.Roles.{
  has_role_at_least, is_valid_role, is_owner, is_active, membership_role, org_human_key, role_text,
}
use moltenhub.Store.Audit.{append_audit}
use moltenhub.Store.Humans.{with_accounts}
use moltenhub.Store.Orgs.{store_membership}
use moltenhub.Store.Queue.{is_revoked}
use moltenhub.Store.Trust.Request.{is_missing}
use Transfer.{transfer_human_owned_agents_to_org}

abbrev pub is_pending : Status → Bool
is_pending pending = true
is_pending _ = false

-- t.After(u)
abbrev pub is_after : Time → Time → Bool
is_after t u = ltb u t

abbrev first_time : Option Time → Time → Option Time
first_time none t = some t
first_time (some u) t = some u

unfoldable pub derive_invite_status : Invite → Time → Invite
derive_invite_status invite now =
    if is_pending invite.status && not (invite.expires_at == 0) && is_after now invite.expires_at
    then record invite {
      status = expired;
      revoked_at = first_time invite.revoked_at invite.expires_at;
    }
    else invite

-- A pending invitation of the organization for the address.
has_pending : Text → Text → Time → Dict Invite → Bool
has_pending org_id email now [] = false
has_pending org_id email now ((_, invite) ∷ invites) =
    (text_eq invite.org_id org_id
      && equal_fold invite.email email
      && is_pending (derive_invite_status invite now).status)
    || has_pending org_id email now invites

has_email : Option Human → Text → Bool
has_email none email = false
has_email (some human) email = equal_fold (trim_space human.email) email

-- An active member of the organization who has the address.
has_member : Text → Text → Dict Human → Dict Membership → Bool
unfolding has_email
has_member org_id email humans [] = false
has_member org_id email humans ((_, m) ∷ memberships) =
    (text_eq m.org_id org_id && is_active m.status && has_email (get humans m.human_id) email)
    || has_member org_id email humans memberships

abbrev pub with_grants : MemoryStore → Grants → MemoryStore
with_grants s g = record s { grants = g }

add_invite : Invite → MemoryStore → MemoryStore
add_invite invite s =
    append_audit invite.org_id invite.created_by (text "invite") (text "create") invite.invite_id
      ((text "email", string invite.email)
        ∷ (text "role", string (role_text invite.role))
        ∷ (text "expires_at", time invite.expires_at)
        ∷ [])
      invite.created_at
      (with_grants s (record s.grants {
        invites = put s.invites invite.invite_id invite;
        invite_by_secret_hash = put s.invite_by_secret_hash invite.invite_secret invite.invite_id;
      }))

new_invite : Text → Text → Text → Role → Text → Text → Time → Time → Invite
new_invite id org_id email role actor secret expires_at now = record {
  invite_id = id;
  org_id = org_id;
  email = email;
  role = role;
  status = pending;
  created_by = actor;
  created_at = now;
  expires_at = expires_at;
  accepted_at = none;
  revoked_at = none;
  invite_secret = secret;
}

unfoldable pub create_invite :
    Text → Text → Role → Text → Text → Text → Time → Time → Bool → MemoryStore → Outcome Invite
unfolding has_pending has_member add_invite new_invite
create_invite org_id email role actor id secret expires_at now super s = elim (get s.orgs org_id) [
  | none ↦ (err org_not_found, s)
  | some _ ↦
      let normalized = to_lower (trim_space email) in
      let invite = new_invite id org_id normalized role actor secret expires_at now in
      if not super && not (has_role_at_least (membership_role s.directory org_id actor) admin)
      then (err unauthorized_role, s)
      else if not (is_valid_role role) || is_owner role
      then (err invalid_role, s)
      else if is_empty secret
      then (err invite_invalid, s)
      else if not (is_missing (get s.invite_by_secret_hash secret))
      then (err invite_invalid, s)
      else if not (is_after expires_at now)
      then (err invite_invalid, s)
      else if has_pending org_id normalized now s.invites
      then (err invite_exists, s)
      else if has_member org_id normalized s.humans s.memberships
      then (err invite_exists, s)
      else (ok invite, add_invite invite s)
]

-- s.invites[id] = invite, and its secret is forgotten.
unfoldable pub close_invite : Text → Invite → MemoryStore → MemoryStore
close_invite id invite s = with_grants s (record s.grants {
  invites = put s.invites id invite;
  invite_by_secret_hash = remove s.invite_by_secret_hash invite.invite_secret;
})

abbrev pub accepted : Time → Invite → Invite
accepted now invite = record invite { status = active; accepted_at = some now }

-- The active membership that the human has already.
unfoldable pub active_membership : MemoryStore → Text → Text → Option Membership
active_membership s org_id human_id =
    elim (get s.membership_by_org_user (org_human_key org_id human_id)) [
      | none ↦ none
      | some id ↦ elim (get s.memberships id) [
        | none ↦ none
        | some m ↦ if is_active m.status then some m else none
      ]
    ]

unfoldable pub new_membership : Text → Invite → Text → Time → Membership
new_membership id invite human_id now = record {
  membership_id = id;
  org_id = invite.org_id;
  human_id = human_id;
  role = invite.role;
  status = active;
  created_at = now;
}

unfoldable pub join_organization :
    Text → Invite → Text → Time → Option Text → MemoryStore → Outcome Membership
unfolding close_invite new_membership
join_organization id invite human_id now drawn s =
    elim (active_membership s invite.org_id human_id) [
      | some m ↦ (
        ok m,
        transfer_human_owned_agents_to_org invite.org_id human_id now
            (close_invite id (accepted now invite) s),
      )
      | none ↦ elim drawn [
        | none ↦ (err id_failed, s)
        | some member_id ↦
            let m = new_membership member_id invite human_id now in
            (
              ok m,
              append_audit invite.org_id human_id (text "invite") (text "accept") id [] now (
                  transfer_human_owned_agents_to_org invite.org_id human_id now
                    (close_invite id (accepted now invite) (store_membership m s))),
            )
      ]
    ]

unfoldable pub accept_invite_locked :
    Text → Text → Text → Time → Option Text → MemoryStore → Outcome Membership
unfolding close_invite
accept_invite_locked id human_id human_email now drawn s = elim (get s.invites id) [
  | none ↦ (err invite_not_found, s)
  | some invite ↦
      if is_pending invite.status && is_after now invite.expires_at
      then (
        err invite_invalid,
        close_invite id (record invite { status = expired; revoked_at = some now }) s,
      )
      else if not (is_pending invite.status)
      then (err invite_invalid, s)
      else if not (is_empty invite.email) && not (equal_fold invite.email human_email)
      then (err invite_invalid, s)
      else if is_missing (get s.humans human_id)
      then (err human_not_found, s)
      else join_organization id invite human_id now drawn s
]

unfoldable pub accept_invite :
    Text → Text → Text → Time → Option Text → MemoryStore → Outcome Membership
accept_invite = accept_invite_locked

unfoldable pub accept_invite_by_secret_hash :
    Text → Text → Text → Time → Option Text → MemoryStore → Outcome Membership
accept_invite_by_secret_hash secret human_id human_email now drawn s =
    elim (get s.invite_by_secret_hash secret) [
      | none ↦ (err invite_not_found, s)
      | some id ↦
          if is_empty id
          then (err invite_not_found, s)
          else accept_invite_locked id human_id human_email now drawn s
    ]

unfoldable pub revoke_invite : Text → Text → Text → Bool → Time → MemoryStore → Outcome Invite
unfolding close_invite
revoke_invite id actor actor_email super now s = elim (get s.invites id) [
  | none ↦ (err invite_not_found, s)
  | some invite ↦
      let closed = record invite { status = revoked; revoked_at = some now } in
      if not super
        && not (equal_fold invite.email (trim_space actor_email))
        && not (has_role_at_least (membership_role s.directory invite.org_id actor) admin)
      then (err unauthorized_role, s)
      else if is_revoked invite.status
      then (ok invite, s)
      else (
        ok closed,
        append_audit invite.org_id actor (text "invite") (text "revoke") id [] now
            (close_invite id closed s),
      )
]
