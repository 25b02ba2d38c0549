-- ===== src/Store/Orgs.antt =====
-- Organizations in internal/store/memory.go: `CreateOrg`, the personal organization of a human, and
-- the search for its handle.
pub mod Search
pub mod Personal
pub mod Owners
use moltenhub.Base.{
  ℕ, zero, suc, ◌+◌, Bool, false, not, ◌||◌, Option, none, some, [], ◌∷◌, ◌++◌, if◌then◌else◌,
  is_empty,
}
use moltenhub.Base.Text.{Text, text, text_eq, trim_space}
use moltenhub.Base.Dict.{Dict, get, put}
use moltenhub.Model.{Organization, Membership, Human, owner, active}
use moltenhub.Model.Value.{Metadata, string}
use moltenhub.Model.Clock.{Time, decimal}
use moltenhub.Handles.{normalize}
use moltenhub.Store.State.{
  MemoryStore, Result, Outcome, ok, err, or_error, id_failed, human_not_found, invalid_handle,
  org_handle_taken, org_not_found,
}
use moltenhub.Store.Roles.{org_human_key}
use moltenhub.Store.Stats.{ensure_org_stats}
use moltenhub.Store.Audit.{append_audit}
use moltenhub.Store.Humans.{is_valid_handle}

-- normalizeOrgHandleKey
unfoldable pub normalize_org_handle_key : Text → Text
normalize_org_handle_key = normalize

-- existingOrgID, ok := m[key]; ok && existingOrgID != ""
unfoldable pub is_taken : Dict Text → Text → Bool
is_taken m key = elim (get m key) [ none ↦ false | some id ↦ not (is_empty id) ]

unfoldable pub new_org : Text → Text → Text → Text → Time → Organization
new_org id handle display_name creator now = record {
  org_id = id;
  handle = handle;
  display_name = display_name;
  metadata = [];
  created_at = now;
  created_by = creator;
}

unfoldable pub owner_membership : Text → Text → Text → Time → Membership
owner_membership id org_id human_id now = record {
  membership_id = id;
  org_id = org_id;
  human_id = human_id;
  role = owner;
  status = active;
  created_at = now;
}

-- fmt.Sprintf("m-%s", orgID)
unfoldable pub owner_membership_id : Text → Text
owner_membership_id org_id = text "m-" ++ org_id

unfoldable pub store_org : Organization → Text → MemoryStore → MemoryStore
store_org org key s = record s {
  directory = record s.directory { orgs = put s.orgs org.org_id org };
  accounts = record s.accounts { org_by_handle = put s.org_by_handle key org.org_id };
}

unfoldable pub store_membership : Membership → MemoryStore → MemoryStore
store_membership m s = record s {
  directory = record s.directory {
    memberships = put s.memberships m.membership_id m;
    membership_by_org_user =
        put s.membership_by_org_user (org_human_key m.org_id m.human_id) m.membership_id;
  };
}

-- ensureOrgStatsLocked, where only its effect matters: a missing row becomes the zero row.
unfoldable pub init_org_stats : Text → MemoryStore → MemoryStore
unfolding ensure_org_stats
init_org_stats org_id s = record s {
  ledger = record s.ledger {
    stats_by_org = put s.stats_by_org org_id (ensure_org_stats s.ledger org_id);
  };
}

-- What both ways to create an organization do once they have it.
unfoldable found_org :
    Organization → Text → Text → Metadata → Time → MemoryStore → Membership × MemoryStore
unfolding owner_membership store_org init_org_stats
found_org org key human_id details now s =
    let m = owner_membership (owner_membership_id org.org_id) org.org_id human_id now in
    (
      m,
      append_audit org.org_id human_id (text "org") (text "create") org.org_id details now
          (init_org_stats org.org_id (store_membership m (store_org org key s))),
    )

unfoldable pub create_org :
    Text → Text → Text → Text → Time → MemoryStore → Outcome (Organization × Membership)
unfolding new_org found_org
create_org handle display_name creator org_id now s = elim (get s.humans creator) [
  | none ↦ (err human_not_found, s)
  | some _ ↦
      let key = normalize_org_handle_key handle in
      let name = if is_empty (trim_space display_name) then key else display_name in
      let org = new_org org_id key (trim_space name) creator now in
      let (m, t) = found_org org key creator [] now s in
      if not (is_valid_handle key)
      then (err invalid_handle, s)
      else if is_taken s.org_by_handle key
      then (err org_handle_taken, s)
      else (ok (org, m), t)
]

-- The base of the handle, from the human's handle or, failing that, the human's id.
unfoldable pub personal_base_handle : Text → Text → Text
unfolding normalize_org_handle_key
personal_base_handle human_handle human_id =
    let by_id = normalize_org_handle_key (text "personal-" ++ human_id) in
    let by_handle = normalize_org_handle_key (text "personal-" ++ human_handle) in
    let base =
      if is_empty (trim_space by_handle) || text_eq by_handle (text "personal-")
      then by_id
      else by_handle in
    if is_valid_handle base then base else by_id

-- The loop that looks for a handle nobody has: `handle` is the candidate, `i` the next number.
unfoldable pub free_handle : ℕ → Dict Text → Text → Text → ℕ → Option Text
unfolding normalize_org_handle_key
free_handle zero taken base handle i = none
free_handle (suc fuel) taken base handle i =
    let next = free_handle fuel taken base (base ++ b'-' ∷ decimal i) (i + 1) in
    if is_taken taken (normalize_org_handle_key handle) then next else some handle

unfoldable pub create_personal_org :
    Text → Human → Text → Time → Option Text → MemoryStore → Outcome Organization
unfolding new_org found_org
create_personal_org human_id human handle now drawn s = elim drawn [
  | none ↦ (err id_failed, s)
  | some org_id ↦
      let org = new_org org_id handle (text "Personal " ++ human.handle) human_id now in
      let owned = record s {
        accounts = record s.accounts {
          personal_org_by_human = put s.personal_org_by_human human_id org_id;
        };
      } in
      let (m, t) =
        found_org org (normalize_org_handle_key handle) human_id
          ((text "mode", string (text "auto_personal")) ∷ []) now owned in
      (ok org, t)
]

-- The personal organization that the human has already.
unfoldable pub personal_org : MemoryStore → Text → Option Organization
personal_org s human_id = elim (get s.personal_org_by_human human_id) [
  | none ↦ none
  | some org_id ↦ get s.orgs org_id
]

-- `none` means that the fuel of the search for a handle ran out.
unfoldable pub ensure_personal_org :
    ℕ → Text → Time → Option Text → MemoryStore → Option (Outcome Organization)
unfolding create_personal_org
ensure_personal_org fuel human_id now drawn s = elim (get s.humans human_id) [
  | none ↦ some (err human_not_found, s)
  | some human ↦ elim (personal_org s human_id) [
    | some org ↦ some (ok org, s)
    | none ↦
        let base = personal_base_handle human.handle human_id in
        elim (free_handle fuel s.org_by_handle base base 2) [
          | none ↦ none
          | some handle ↦ some (create_personal_org human_id human handle now drawn s)
        ]
  ]
]

unfoldable pub get_organization : Text → MemoryStore → Result Organization
get_organization id s = or_error (get s.orgs id) org_not_found
