-- ===== src/Store/AccessKeys.antt =====
-- The access keys of organizations in internal/store/memory.go. A key lets a caller who has no
-- membership read the lists that its scopes name.
pub mod Laws
pub mod Scopes
pub mod Issue
use moltenhub.Base.{
  Bool, true, false, not, ◌&&◌, ◌||◌, Option, none, some, List, [], ◌∷◌, if◌then◌else◌, is_empty,
}
use moltenhub.Base.Text.{Text, text, text_eq, trim_space, to_lower}
use moltenhub.Base.Dict.{get, put, remove, select}
use moltenhub.Model.{Organization, OrgAccessKey, admin, active, revoked}
use moltenhub.Model.Value.{string, strings, time_pointer}
use moltenhub.Model.Clock.{Time}
use moltenhub.Store.State.{
  MemoryStore, Result, Outcome, ok, err, org_not_found, unauthorized_role, org_access_key_not_found,
  org_access_key_invalid, org_access_scope_denied,
}
use moltenhub.Store.Roles.{has_role_at_least, membership_role, is_active}
use moltenhub.Store.Audit.{append_audit}
use moltenhub.Store.Queue.{is_revoked}
use moltenhub.Store.Leases.{sort_strings}
use moltenhub.Store.Orgs.{normalize_org_handle_key}
use moltenhub.Store.Invites.{is_after, with_grants}
use moltenhub.Store.Trust.Request.{is_missing}

abbrev pub list_humans : Text
list_humans = text "list_humans"

abbrev pub list_agents : Text
list_agents = text "list_agents"

unfoldable pub org_access_scope_allowed : List Text → Text → Bool
org_access_scope_allowed [] required = false
org_access_scope_allowed (scope ∷ scopes) required =
    text_eq scope required || org_access_scope_allowed scopes required

-- The scopes that a key may have.
unfoldable pub is_known_scope : Text → Bool
is_known_scope scope = text_eq scope list_humans || text_eq scope list_agents

-- set[scope] = struct{}{}, for a known scope. The set is a list in which no scope stands twice.
unfoldable pub add_scope : Text → List Text → List Text
unfolding is_known_scope
add_scope scope set =
    if not (is_known_scope scope)
    then set
    else if org_access_scope_allowed set scope
    then set
    else scope ∷ set

-- The loop over the list, with the set so far.
unfoldable pub collect_scopes : List Text → List Text → List Text
unfolding add_scope
collect_scopes [] set = set
collect_scopes (raw ∷ raws) set = collect_scopes raws (add_scope (to_lower (trim_space raw)) set)

-- normalizeOrgAccessScopes
unfoldable pub normalize_org_access_scopes : List Text → List Text
unfolding collect_scopes
normalize_org_access_scopes scopes = sort_strings (collect_scopes scopes [])

unfoldable pub new_key :
    Text → Text → Text → List Text → Text → Time → Option Time → Text → OrgAccessKey
new_key id org_id label scopes actor now expires_at token_hash = record {
  key_id = id;
  org_id = org_id;
  label = label;
  scopes = scopes;
  status = active;
  created_by = actor;
  created_at = now;
  expires_at = expires_at;
  last_used_at = none;
  revoked_at = none;
  token_hash = token_hash;
}

unfoldable pub add_key : OrgAccessKey → Time → MemoryStore → MemoryStore
add_key key now s =
    append_audit key.org_id key.created_by (text "org_access_key") (text "create") key.key_id
      ((text "label", string key.label)
        ∷ (text "scopes", strings key.scopes)
        ∷ (text "expires_at", time_pointer key.expires_at)
        ∷ [])
      now
      (with_grants s (record s.grants {
        org_access_keys = put s.org_access_keys key.key_id key;
        org_access_key_by_hash = put s.org_access_key_by_hash key.token_hash key.key_id;
      }))

unfoldable pub create_org_access_key :
    Text
    → Text
    → List Text
    → Option Time
    → Text
    → Text
    → Text
    → Time
    → Bool
    → MemoryStore
    → Outcome OrgAccessKey
unfolding new_key add_key
create_org_access_key org_id label scopes expires_at actor key_id token_hash now super s =
    let normalized = normalize_org_access_scopes scopes in
    let named = if is_empty (trim_space label) then text "Organization Access Key" else label in
    let key = new_key key_id org_id (trim_space named) normalized actor now expires_at token_hash in
    if is_missing (get s.orgs org_id)
    then (err org_not_found, s)
    else if not super && not (has_role_at_least (membership_role s.directory org_id actor) admin)
    then (err unauthorized_role, s)
    else if not (is_missing (get s.org_access_key_by_hash token_hash))
    then (err org_access_key_invalid, s)
    else if is_empty normalized
    then (err org_access_scope_denied, s)
    else (ok key, add_key key now s)

-- The key under an id, if it is one of the organization.
unfoldable pub key_of : MemoryStore → Text → Text → Option OrgAccessKey
key_of s org_id key_id = elim (get s.org_access_keys key_id) [
  | none ↦ none
  | some key ↦ if text_eq key.org_id org_id then some key else none
]

unfoldable pub close_key : Text → Text → OrgAccessKey → Text → Time → MemoryStore → MemoryStore
close_key org_id key_id key actor now s =
    append_audit org_id actor (text "org_access_key") (text "revoke") key_id [] now (
      with_grants s (record s.grants {
        org_access_key_by_hash = remove s.org_access_key_by_hash key.token_hash;
        org_access_keys =
            put s.org_access_keys key_id (record key { status = revoked; revoked_at = some now });
      }))

unfoldable pub revoke_org_access_key :
    Text → Text → Text → Bool → Time → MemoryStore → Outcome OrgAccessKey
unfolding key_of close_key
revoke_org_access_key org_id key_id actor super now s =
    if is_missing (get s.orgs org_id)
    then (err org_not_found, s)
    else elim (key_of s org_id key_id) [
      | none ↦ (err org_access_key_not_found, s)
      | some key ↦
          if not super && not (has_role_at_least (membership_role s.directory org_id actor) admin)
          then (err unauthorized_role, s)
          else if is_revoked key.status
          then (ok key, s)
          else (
            ok (record key { status = revoked; revoked_at = some now }),
            close_key org_id key_id key actor now s,
          )
    ]

-- The organization that a name stands for, with its id.
unfoldable pub org_named : MemoryStore → Text → Option (Text × Organization)
org_named s name = elim (get s.org_by_handle (normalize_org_handle_key name)) [
  | none ↦ none
  | some id ↦ elim (get s.orgs id) [
    | none ↦ none
    | some org ↦ if is_empty id then none else some (id, org)
  ]
]

-- The key that a hash stands for, with its id, if it is one of the organization.
unfoldable pub key_hashed : MemoryStore → Text → Text → Option (Text × OrgAccessKey)
unfolding key_of
key_hashed s org_id key_hash = elim (get s.org_access_key_by_hash key_hash) [
  | none ↦ none
  | some key_id ↦ elim (key_of s org_id key_id) [
    | none ↦ none
    | some key ↦ if is_empty key_id then none else some (key_id, key)
  ]
]

unfoldable pub is_past : Option Time → Time → Bool
is_past none now = false
is_past (some t) now = is_after now t

unfoldable pub use_key :
    Organization
    → Text
    → OrgAccessKey
    → Text
    → Time
    → MemoryStore
    → Outcome (Organization × OrgAccessKey)
use_key org key_id key required now s =
    let used = record key { last_used_at = some now } in
    if not (is_active key.status) || not (is_missing key.revoked_at)
    then (err org_access_key_invalid, s)
    else if is_past key.expires_at now
    then (err org_access_key_invalid, s)
    else if not (org_access_scope_allowed key.scopes required)
    then (err org_access_scope_denied, s)
    else (
      ok (org, used),
      with_grants s (record s.grants { org_access_keys = put s.org_access_keys key_id used }),
    )

unfoldable pub authorize_org_access_by_name :
    Text → Text → Text → Time → MemoryStore → Outcome (Organization × OrgAccessKey)
unfolding use_key
authorize_org_access_by_name name key_hash required now s = elim (org_named s name) [
  | none ↦ (err org_not_found, s)
  | some (org_id, org) ↦ elim (key_hashed s org_id key_hash) [
    | none ↦ (err org_access_key_not_found, s)
    | some (key_id, key) ↦ use_key org key_id key required now s
  ]
]

-- The keys of an organization, in the unspecified order of the map; the source sorts them by age.
unfoldable pub list_org_access_keys : Text → Text → Bool → MemoryStore → Result (List OrgAccessKey)
list_org_access_keys org_id actor super s =
    if is_missing (get s.orgs org_id)
    then err org_not_found
    else if not super && not (has_role_at_least (membership_role s.directory org_id actor) admin)
    then err unauthorized_role
    else ok (select (λ (key : OrgAccessKey). text_eq key.org_id org_id) s.org_access_keys)
