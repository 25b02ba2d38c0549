-- ===== src/Store/Roles.antt =====
-- Who may do what: roles, memberships and the rights over an agent, in internal/store/memory.go.
use moltenhub.Base.{
  ℕ, Bool, true, false, ◌||◌, Option, none, some, [], ◌∷◌, ◌++◌, leb, if◌then◌else◌, is_empty,
}
use moltenhub.Base.Text.{Text, text, text_eq}
use moltenhub.Base.Dict.{get}
use moltenhub.Model.{Role, owner, admin, member, viewer, other, Status, active, Agent, Membership}
use moltenhub.Store.State.{Directory}

-- The role of somebody who has none: the empty string.
abbrev pub no_role : Role
no_role = other []

unfoldable pub role_rank : Role → ℕ
role_rank owner = 4
role_rank admin = 3
role_rank member = 2
role_rank viewer = 1
role_rank (other _) = 0

unfoldable pub has_role_at_least : Role → Role → Bool
unfolding role_rank
has_role_at_least actual minimum = leb (role_rank minimum) (role_rank actual)

unfoldable pub is_valid_role : Role → Bool
is_valid_role (other _) = false
is_valid_role owner = true
is_valid_role admin = true
is_valid_role member = true
is_valid_role viewer = true

-- orgHumanKey: the two ids joined by a NUL byte.
unfoldable pub org_human_key : Text → Text → Text
org_human_key org_id human_id = org_id ++ 0 ∷ human_id

abbrev pub is_active : Status → Bool
is_active active = true
is_active _ = false

unfoldable pub active_role : Option Membership → Role
active_role none = no_role
active_role (some m) = if is_active m.status then m.role else no_role

unfoldable pub membership_role : Directory → Text → Text → Role
unfolding active_role
membership_role d org_id human_id =
    elim (get d.membership_by_org_user (org_human_key org_id human_id)) [
      | none ↦ no_role
      | some id ↦ active_role (get d.memberships id)
    ]

unfoldable pub owns : Option Text → Text → Bool
owns none human_id = false
owns (some o) human_id = text_eq o human_id

unfoldable pub can_manage_agent : Directory → Agent → Text → Bool
unfolding owns
can_manage_agent d agent human_id =
    has_role_at_least (membership_role d agent.org_id human_id) admin
    || owns agent.owner_human_id human_id

unfoldable pub is_some_role : Role → Bool
is_some_role (other []) = false
is_some_role (other (c ∷ r)) = true
is_some_role owner = true
is_some_role admin = true
is_some_role member = true
is_some_role viewer = true

unfoldable pub can_request_agent_trust : Directory → Agent → Text → Bool
unfolding is_some_role
can_request_agent_trust d agent human_id =
    if can_manage_agent d agent human_id
    then true
    else if is_empty agent.org_id
    then false
    else is_some_role (membership_role d agent.org_id human_id)

unfoldable pub is_owner : Role → Bool
is_owner owner = true
is_owner _ = false

unfoldable pub can_delete_agent : Directory → Agent → Text → Bool
unfolding owns is_owner
can_delete_agent d agent human_id =
    if is_empty agent.org_id
    then owns agent.owner_human_id human_id
    else is_owner (membership_role d agent.org_id human_id)

unfoldable pub can_manage_agent_by_id : Directory → Text → Text → Bool
can_manage_agent_by_id d agent_id human_id = elim (get d.agents agent_id) [
  | none ↦ false
  | some agent ↦ can_manage_agent d agent human_id
]

-- A role as the source spells it.
unfoldable pub role_text : Role → Text
role_text owner = text "owner"
role_text admin = text "admin"
role_text member = text "member"
role_text viewer = text "viewer"
role_text (other t) = t
