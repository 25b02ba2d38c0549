-- ===== src/Store/Tests/Accounts.antt =====
-- Tests of humans, organizations, invitations and access keys.
use moltenhub.Base.{◌≡◌, refl, ◌↔◌, ◌⊎◌, List, none, some, [], ◌∷◌, ◌++◌, arith, true}
use moltenhub.Base.Text.{
  Text, text, text_eq, trim_space, trim_func, drop_while, is_space, to_lower, lower, equal_fold,
}
use moltenhub.Base.Dict.{get, put}
use moltenhub.Model.{Human, Organization, Invite, OrgAccessKey, member, pending, revoked}
use moltenhub.Handles.{
  normalize, scan, is_alnum, is_sep, separator, trim_seps, clip, validate_handle,
  matches_handle_regex, is_handle_char, all_chars, is_blocked, split_alpha_num_tokens,
  compact_alpha_num, in_blocked_set,
}
use moltenhub.Store.State.{MemoryStore, Error, new_memory_store, Outcome, ok, err, invite_invalid}
use moltenhub.Store.Humans.{is_valid_handle}
use moltenhub.Store.Orgs.{
  personal_base_handle, normalize_org_handle_key, ensure_personal_org, personal_org, is_taken,
}
use moltenhub.Store.Orgs.{create_org, new_org, store_org, store_membership, init_org_stats}
use moltenhub.Store.Orgs.Owners.{SameMembers-refl}
use moltenhub.Store.Orgs.Owners.History.{
  OwnerReach, here, next, elsewhere, creates, orgs_have_owners,
}
use moltenhub.Store.Roles.{is_owner, membership_role}
use moltenhub.Store.Audit.{append_audit}
use moltenhub.Store.Invites.{
  accept_invite_locked, join_organization, active_membership, new_membership,
}
use moltenhub.Store.Invites.Once.{accept_invite-once}
use moltenhub.Store.AccessKeys.{
  list_humans, list_agents, is_known_scope, add_scope, collect_scopes, normalize_org_access_scopes,
  org_access_scope_allowed, new_key, create_org_access_key, key_of, key_hashed, org_named, is_past,
  use_key, revoke_org_access_key, authorize_org_access_by_name,
}
use moltenhub.Store.AccessKeys.Laws.{
  IsUsable, authorize_org_access_by_name-IsUsable, revoke_org_access_key-authorize,
}
use moltenhub.Store.Leases.{sort_strings, insert_key}
use moltenhub.Store.AccessKeys.Scopes.{Names, normalize_org_access_scopes-allowed}
use moltenhub.Store.AccessKeys.Issue.{create_org_access_key-authorize}
use moltenhub.Store.Orgs.Personal.{IsEnsured, ensure_personal_org-ends, ensure_personal_org-endless}

abbrev human : Text → Text → Human
human id handle = record {
  human_id = id;
  handle = handle;
  handle_confirmed_at = none;
  auth_provider = text "p";
  auth_subject = id;
  email = text "ann@example.org";
  email_verified = true;
  metadata = [];
  created_at = 10;
}

-- A human, and the handles of organizations that are taken.
abbrev pub with_human : Text → Text → MemoryStore
with_human handle taken = record new_memory_store {
  accounts = record {
    org_by_handle = (taken, text "o9") ∷ [];
    personal_org_by_human = [];
    archived_orgs = [];
    humans = (text "h1", human (text "h1") handle) ∷ [];
    human_by_auth_key = [];
    human_by_handle = [];
    human_presence = [];
  };
}

ann_base : personal_base_handle (text "ann") (text "h1") ≡ text "personal-ann"
unfolding personal_base_handle normalize_org_handle_key normalize scan separator is_alnum is_sep
    trim_seps clip trim_space trim_func drop_while is_space to_lower lower is_valid_handle
    validate_handle matches_handle_regex is_handle_char all_chars is_blocked split_alpha_num_tokens
    compact_alpha_num in_blocked_set text_eq
ann_base = refl

ensure_personal_org-ends_example :
    (o : Outcome Organization) × (ensure_personal_org 3
        (text "h1")
        20
        (some (text "o1"))
        (with_human (text "ann") (text "personal-ann"))
      ≡ some o)
    × IsEnsured (text "h1") (some (text "o1")) (with_human (text "ann") (text "personal-ann")) o
unfolding get text_eq
ensure_personal_org-ends_example =
    ensure_personal_org-ends (with_human (text "ann") (text "personal-ann")) (text "h1")
      (human (text "h1") (text "ann")) 20 (some (text "o1")) 0 refl (rw ann_base (omega arith))
      (omega arith)

-- A handle of 55 characters.
abbrev long_handle : Text
long_handle = text "a123456789b123456789c123456789d123456789e123456789f1234"

long_base : personal_base_handle long_handle (text "h1") ≡ text "personal-" ++ long_handle
unfolding personal_base_handle normalize_org_handle_key normalize scan separator is_alnum is_sep
    trim_seps clip trim_space trim_func drop_while is_space to_lower lower is_valid_handle
    validate_handle matches_handle_regex is_handle_char all_chars is_blocked split_alpha_num_tokens
    compact_alpha_num in_blocked_set text_eq
long_base = refl

ensure_personal_org-endless_example :
    ensure_personal_org 1000
      (text "h1")
      20
      (some (text "o1"))
      (with_human long_handle (text "personal-" ++ long_handle))
    ≡ none
unfolding get text_eq personal_org is_taken
ensure_personal_org-endless_example =
    ensure_personal_org-endless (with_human long_handle (text "personal-" ++ long_handle))
      (text "h1") (human (text "h1") long_handle) 20 (some (text "o1")) 1000 refl refl
      (rw long_base refl) (rw long_base refl)

abbrev acme : Organization
acme = record {
  org_id = text "o9";
  handle = text "acme";
  display_name = text "Acme";
  metadata = [];
  created_at = 5;
  created_by = text "h9";
}

abbrev ann_invite : Invite
ann_invite = record {
  invite_id = text "i1";
  org_id = text "o9";
  email = text "Ann@example.org";
  role = member;
  status = pending;
  created_by = text "h9";
  created_at = 6;
  expires_at = 300;
  accepted_at = none;
  revoked_at = none;
  invite_secret = [];
}

abbrev acme_key : OrgAccessKey
acme_key =
    new_key (text "k1") (text "o9") (text "Organization Access Key") (list_agents ∷ []) (text "h9")
      100 (some 400) (text "#")

-- The human, an organization, an invitation into it, and its access keys.
abbrev with_org : List (Text × OrgAccessKey) → List (Text × Text) → MemoryStore
with_org keys by_hash = record (with_human (text "ann") (text "acme")) {
  directory = record new_memory_store.directory { orgs = (text "o9", acme) ∷ [] };
  grants = record {
    invites = (text "i1", ann_invite) ∷ [];
    invite_by_secret_hash = [];
    org_access_keys = keys;
    org_access_key_by_hash = by_hash;
  };
}

normalize_org_access_scopes-allowed_example :
    (org_access_scope_allowed
        (normalize_org_access_scopes (text " List_Agents " ∷ text "x" ∷ []))
        list_agents
      ≡ true)
    ↔ (((list_agents ≡ list_humans) ⊎ (list_agents ≡ list_agents))
        × Names (text " List_Agents " ∷ text "x" ∷ []) list_agents)
normalize_org_access_scopes-allowed_example =
    normalize_org_access_scopes-allowed (text " List_Agents " ∷ text "x" ∷ []) list_agents

abbrev with_key : MemoryStore
with_key = with_org ((text "k1", acme_key) ∷ []) ((text "#", text "k1") ∷ [])

authorize_org_access_by_name-IsUsable_example :
    (org_id : Text) × (org : Organization) × (key_id : Text) × (key : OrgAccessKey) × (org_named
        with_key
        (text "acme")
      ≡ some (org_id, org))
    × (get with_key.org_access_key_by_hash (text "#") ≡ some key_id)
    × (get with_key.org_access_keys key_id ≡ some key)
    × (key.org_id ≡ org_id)
    × IsUsable key list_agents 200
    × (◌≡◌ {A = Organization × OrgAccessKey}
        (acme, record acme_key { last_used_at = some 200 })
        (org, record key { last_used_at = some 200 }))
unfolding authorize_org_access_by_name org_named key_hashed key_of use_key is_past
    org_access_scope_allowed new_key get text_eq normalize_org_handle_key normalize scan separator
    is_alnum is_sep trim_seps clip trim_space trim_func drop_while is_space to_lower lower
authorize_org_access_by_name-IsUsable_example =
    authorize_org_access_by_name-IsUsable (text "acme") (text "#") list_agents 200 with_key
      (acme, record acme_key { last_used_at = some 200 }) refl

revoke_org_access_key-authorize_example :
    (e : Error) × (authorize_org_access_by_name
        (text "acme")
        (text "#")
        list_agents
        300
        (revoke_org_access_key (text "o9") (text "k1") (text "h9") true 250 with_key).1
      ≡ (err e, (revoke_org_access_key (text "o9") (text "k1") (text "h9") true 250 with_key).1))
unfolding revoke_org_access_key key_of new_key get text_eq
revoke_org_access_key-authorize_example =
    revoke_org_access_key-authorize (text "o9") (text "k1") (text "h9") true 250 with_key
      (revoke_org_access_key (text "o9") (text "k1") (text "h9") true 250 with_key).1 acme_key
      (record acme_key { status = revoked; revoked_at = some 250 }) refl refl refl (text "acme")
      list_agents 300

abbrev with_new_key : MemoryStore
with_new_key =
    (create_org_access_key (text "o9") [] (text "list_agents" ∷ []) (some 400) (text "h9")
      (text "k1") (text "#") 100 true (with_org [] [])).1

create_org_access_key-authorize_example :
    (authorize_org_access_by_name (text "acme") (text "#") list_agents 200 with_new_key).0
    ≡ ok (acme, record acme_key { last_used_at = some 200 })
unfolding create_org_access_key normalize_org_access_scopes collect_scopes add_scope is_known_scope
    sort_strings insert_key org_named is_past org_access_scope_allowed new_key get text_eq
    normalize_org_handle_key normalize scan separator is_alnum is_sep trim_seps clip trim_space
    trim_func drop_while is_space to_lower lower
create_org_access_key-authorize_example =
    create_org_access_key-authorize (text "o9") [] (text "list_agents" ∷ []) (some 400) (text "h9")
      (text "k1") (text "#") 100 true (with_org [] []) with_new_key acme_key (text "acme")
      list_agents 200 acme refl refl refl refl refl

abbrev with_member : MemoryStore
with_member =
    (accept_invite_locked (text "i1") (text "h1") (text "ann@example.org") 200 (some (text "m2"))
      (with_org [] [])).1

accept_invite-once_example :
    accept_invite_locked (text "i1") (text "h2") (text "bob@example.org") 210 none with_member
    ≡ (err invite_invalid, with_member)
unfolding accept_invite_locked join_organization active_membership equal_fold get text_eq lower
    new_memory_store
accept_invite-once_example =
    accept_invite-once (text "i1") (text "h1") (text "ann@example.org") 200 (some (text "m2"))
      (with_org [] []) with_member (new_membership (text "m2") ann_invite (text "h1") 200) refl
      (text "h2") (text "bob@example.org") 210 none

-- The human founds an organization.
abbrev with_founded : MemoryStore
with_founded =
    (create_org (text "Molten") [] (text "h1") (text "o1") 30
      (with_human (text "ann") (text "taken"))).1

founded : OwnerReach new_memory_store with_founded
unfolding get new_memory_store
founded =
    next
      (next here (
        elsewhere (with_human (text "ann") (text "taken"))
          (SameMembers-refl new_memory_store.directory)))
      (creates (text "Molten") [] (text "h1") (text "o1") 30 refl)

orgs_have_owners_example :
    (human_id : Text) × (is_owner (membership_role with_founded.directory (text "o1") human_id)
      ≡ true)
unfolding create_org new_org store_org store_membership init_org_stats append_audit get put text_eq
    is_taken is_valid_handle normalize_org_handle_key normalize scan separator is_alnum is_sep
    trim_seps clip trim_space trim_func drop_while is_space to_lower lower validate_handle
    matches_handle_regex is_handle_char all_chars is_blocked split_alpha_num_tokens
    compact_alpha_num in_blocked_set new_memory_store
orgs_have_owners_example =
    orgs_have_owners (text "o1")
      (new_org (text "o1") (text "molten") (text "molten") (text "h1") 30) founded refl
