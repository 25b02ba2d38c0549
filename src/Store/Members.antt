-- ===== src/Store/Members.antt =====
-- Memberships of organizations in internal/store/memory.go: `RevokeMembership` and the lists of
-- members and memberships. The order of a list is the unspecified order of the map.
use moltenhub.Base.{
  Bool, true, false, not, ◌&&◌, ◌||◌, Option, none, some, List, [], ◌∷◌, if◌then◌else◌, is_empty,
}
use moltenhub.Base.Text.{Text, text, text_eq, trim_space}
use moltenhub.Base.Dict.{Dict, get, put, select}
use moltenhub.Model.{
  Organization, Membership, MembershipWithOrg, OrgHumanView, Human, Agent, Role, admin, revoked,
}
use moltenhub.Model.Value.{string}
use moltenhub.Model.Clock.{Time}
use moltenhub.Store.State.{
  MemoryStore, Result, Outcome, ok, err, org_not_found, membership_not_found, unauthorized_role,
  cannot_revoke_owner,
}
use moltenhub.Store.Roles.{
  has_role_at_least, is_owner, is_active, is_some_role, membership_role, org_human_key, role_text,
}
use moltenhub.Store.Activity.{copy_metadata}
use moltenhub.Store.Audit.{append_audit}
use moltenhub.Store.Trust.Request.{is_missing}

unfoldable pub is_admin : Role → Bool
is_admin admin = true
is_admin _ = false

unfoldable pub store_revoked :
    Text → Text → Membership → Text → Text → Time → MemoryStore → MemoryStore
store_revoked org_id id m human_id actor now s =
    append_audit org_id actor (text "membership") (text "revoke") human_id
      ((text "role", string (role_text m.role)) ∷ []) now
      (record s {
        directory = record s.directory {
          memberships = put s.memberships id (record m { status = revoked });
        };
      })

-- The checks on the rights of the actor, and the revocation.
unfoldable pub revoke_target :
    Text → Text → Membership → Text → Text → Bool → Time → MemoryStore → Outcome Membership
unfolding is_admin store_revoked
revoke_target org_id id m human_id actor super now s =
    let actor_role = membership_role s.directory org_id actor in
    if not super && not (has_role_at_least actor_role admin)
    then (err unauthorized_role, s)
    else if is_owner m.role
    then (err cannot_revoke_owner, s)
    else if not super && is_admin actor_role && is_admin m.role
    then (err unauthorized_role, s)
    else (ok (record m { status = revoked }), store_revoked org_id id m human_id actor now s)

-- The active membership under an id, which the index gave.
unfoldable pub revoke_found :
    Text → Text → Option Membership → Text → Text → Bool → Time → MemoryStore → Outcome Membership
unfolding revoke_target
revoke_found org_id id none human_id actor super now s = (err membership_not_found, s)
revoke_found org_id id (some m) human_id actor super now s =
    if not (is_active m.status)
    then (err membership_not_found, s)
    else revoke_target org_id id m human_id actor super now s

unfoldable pub revoke_membership :
    Text → Text → Text → Bool → Time → MemoryStore → Outcome Membership
unfolding revoke_found
revoke_membership org_id human_id actor super now s = elim (get s.orgs org_id) [
  | none ↦ (err org_not_found, s)
  | some _ ↦ elim (get s.membership_by_org_user (org_human_key org_id human_id)) [
    | none ↦ (err membership_not_found, s)
    | some id ↦ revoke_found org_id id (get s.memberships id) human_id actor super now s
  ]
]

with_orgs : Text → Dict Organization → Dict Membership → List MembershipWithOrg
with_orgs human_id orgs [] = []
with_orgs human_id orgs ((_, m) ∷ memberships) =
    let rest = with_orgs human_id orgs memberships in
    if not (text_eq m.human_id human_id) || not (is_active m.status)
    then rest
    else elim (get orgs m.org_id) [
      | none ↦ rest
      | some org ↦ record { membership = m; org = org } ∷ rest
    ]

unfoldable pub list_my_memberships : Text → MemoryStore → List MembershipWithOrg
unfolding with_orgs
list_my_memberships human_id s = with_orgs human_id s.orgs s.memberships

-- hasRole(org, human): an active membership, `membershipRoleLocked(...) != ""`.
abbrev pub has_role : MemoryStore → Text → Text → Bool
has_role s org_id human_id = is_some_role (membership_role s.directory org_id human_id)

human_view : Human → Membership → OrgHumanView
human_view h m = record {
  human_id = h.human_id;
  handle = h.handle;
  email = h.email;
  role = m.role;
  status = m.status;
  auth_provider = h.auth_provider;
  metadata = copy_metadata h.metadata;
}

human_views : Text → Dict Human → Dict Membership → List OrgHumanView
unfolding human_view
human_views org_id humans [] = []
human_views org_id humans ((_, m) ∷ memberships) =
    let rest = human_views org_id humans memberships in
    if not (text_eq m.org_id org_id) || not (is_active m.status)
    then rest
    else elim (get humans m.human_id) [ none ↦ rest | some h ↦ human_view h m ∷ rest ]

unfoldable pub list_org_humans : Text → Text → Bool → MemoryStore → Result (List OrgHumanView)
unfolding human_views
list_org_humans org_id requester super s =
    if is_missing (get s.orgs org_id)
    then err org_not_found
    else if not super && not (has_role s org_id requester)
    then err unauthorized_role
    else ok (human_views org_id s.humans s.memberships)

-- Owned by the human, and of the organization or of none.
in_reach : Text → Text → Agent → Bool
in_reach org_id human_id agent = elim agent.owner_human_id [
  | none ↦ false
  | some owner ↦
      text_eq (trim_space owner) human_id && (is_empty agent.org_id || text_eq agent.org_id org_id)
]

unfoldable pub list_org_human_agents : Text → Text → Text → Bool → MemoryStore → Result (List Agent)
unfolding in_reach
list_org_human_agents raw_org_id raw_human_id raw_requester super s =
    let org_id = trim_space raw_org_id in
    let human_id = trim_space raw_human_id in
    if is_missing (get s.orgs org_id)
    then err org_not_found
    else if not (has_role s org_id human_id)
    then err membership_not_found
    else if not super
        && not (is_owner (membership_role s.directory org_id (trim_space raw_requester)))
    then err unauthorized_role
    else ok (select (in_reach org_id human_id) s.agents)

unfoldable pub list_org_agents : Text → Text → Bool → MemoryStore → Result (List Agent)
list_org_agents org_id requester super s =
    if is_missing (get s.orgs org_id)
    then err org_not_found
    else if not super && not (has_role s org_id requester)
    then err unauthorized_role
    else ok (select (λ (a : Agent). text_eq a.org_id org_id) s.agents)
