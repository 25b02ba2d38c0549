-- ===== src/Store/AccessKeys/Issue.antt =====
-- The first use of a new access key.
use moltenhub.Base.{
  ◌≡◌, refl, subst, ◌∙◌, Bool, true, false, not, ◌&&◌, Option, some, List, if◌then◌else◌, is_empty,
}
use moltenhub.Base.Text.{Text, text, text_eq, text_eq_refl, trim_space}
use moltenhub.Base.Dict.{get, get-put_self}
use moltenhub.Model.{Organization, OrgAccessKey, admin}
use moltenhub.Model.Clock.{Time}
use moltenhub.Store.State.{MemoryStore, ok, passed, settled}
use moltenhub.Store.Roles.{is_active, has_role_at_least, membership_role}
use moltenhub.Store.Audit.{append_audit}
use moltenhub.Store.Trust.Request.{is_missing}
use moltenhub.Store.AccessKeys.{
  normalize_org_access_scopes, org_access_scope_allowed, create_org_access_key, new_key, add_key,
  key_of, key_hashed, org_named, is_past, use_key, authorize_org_access_by_name,
}

add_key-named :
    (key : OrgAccessKey) (now : Time) (s : MemoryStore) (name : Text)
    → org_named (add_key key now s) name ≡ org_named s name
unfolding add_key org_named append_audit
add_key-named key now s name = refl

key_hashed_found :
    (s : MemoryStore) (org_id hash id : Text) (key : OrgAccessKey)
    → get s.org_access_key_by_hash hash ≡ some id
    → get s.org_access_keys id ≡ some key
    → text_eq key.org_id org_id ≡ true
    → is_empty id ≡ false
    → key_hashed s org_id hash ≡ some (id, key)
unfolding key_hashed key_of
key_hashed_found s org_id hash id key at held own named =
    rw (at, key_hashed) (rw (held, key_of) (rw own (rw named refl)))

add_key-hashed :
    (key : OrgAccessKey) (now : Time) (s : MemoryStore)
    → is_empty key.key_id ≡ false
    → key_hashed (add_key key now s) key.org_id key.token_hash ≡ some (key.key_id, key)
unfolding add_key append_audit
add_key-hashed key now s named =
    key_hashed_found _ key.org_id key.token_hash key.key_id key
      (get-put_self s.org_access_key_by_hash key.token_hash key.key_id)
      (get-put_self s.org_access_keys key.key_id key) (text_eq_refl key.org_id) named

-- The key that `CreateOrgAccessKey` makes of its arguments.
abbrev created : Text → Text → List Text → Option Time → Text → Text → Text → Time → OrgAccessKey
created org_id label scopes expires_at actor key_id hash now =
    new_key key_id org_id
      (trim_space (if is_empty (trim_space label) then text "Organization Access Key" else label))
      (normalize_org_access_scopes scopes) actor now expires_at hash

issued :
    (org_id label : Text) (scopes : List Text) (expires_at : Option Time) (actor key_id hash : Text)
    (now : Time) (super : Bool) (s t : MemoryStore) (key : OrgAccessKey)
    → create_org_access_key org_id label scopes expires_at actor key_id hash now super s
      ≡ (ok key, t)
    → (created org_id label scopes expires_at actor key_id hash now ≡ key)
      × (add_key (created org_id label scopes expires_at actor key_id hash now) now s ≡ t)
unfolding create_org_access_key
issued org_id label scopes expires_at actor key_id hash now super s t key h =
    let role = membership_role s.directory org_id actor in
    let (_, a) = passed (is_missing (get s.orgs org_id)) _ _ _ h in
    let (_, b) = passed (not super && not (has_role_at_least role admin)) _ _ _ a in
    let (_, c) = passed (not (is_missing (get s.org_access_key_by_hash hash))) _ _ _ b in
    settled (passed (is_empty (normalize_org_access_scopes scopes)) _ _ _ c).1

use_key_usable :
    (org : Organization) (id : Text) (key : OrgAccessKey) (required : Text) (now : Time)
    (s : MemoryStore)
    → is_active key.status ≡ true
    → is_missing key.revoked_at ≡ true
    → is_past key.expires_at now ≡ false
    → org_access_scope_allowed key.scopes required ≡ true
    → (use_key org id key required now s).0 ≡ ok (org, record key { last_used_at = some now })
unfolding use_key
use_key_usable org id key required now s live unrevoked current allowed =
    rw (live, unrevoked, current, allowed, use_key) refl

-- A created key works at once: for the organization's name, under the hash it was created with,
-- for each of its scopes, as long as it has not expired, it authorizes its holder. Its id is not
-- empty.
pub create_org_access_key-authorize :
    (org_id label : Text) (scopes : List Text) (expires_at : Option Time) (actor key_id hash : Text)
    (now : Time) (super : Bool) (s t : MemoryStore) (key : OrgAccessKey) (name required : Text)
    (later : Time) (org : Organization)
    → create_org_access_key org_id label scopes expires_at actor key_id hash now super s
      ≡ (ok key, t)
    → is_empty key_id ≡ false
    → org_named s name ≡ some (org_id, org)
    → org_access_scope_allowed (normalize_org_access_scopes scopes) required ≡ true
    → is_past expires_at later ≡ false
    → (authorize_org_access_by_name name hash required later t).0
      ≡ ok (org, record key { last_used_at = some later })
unfolding authorize_org_access_by_name new_key
create_org_access_key-authorize org_id label scopes expires_at actor key_id hash now super s t key
      name required later org h nonempty named allowed current =
    let fresh = created org_id label scopes expires_at actor key_id hash now in
    let (same, left) =
      issued org_id label scopes expires_at actor key_id hash now super s t key h in
    subst
      (λ (u : MemoryStore).
        (authorize_org_access_by_name name hash required later u).0
        ≡ ok (org, record key { last_used_at = some later }))
      left
      (subst
        (λ (k : OrgAccessKey).
          (authorize_org_access_by_name name hash required later (add_key fresh now s)).0
          ≡ ok (org, record k { last_used_at = some later }))
        same
        (rw (add_key-named fresh now s name ∙ named, authorize_org_access_by_name)
          (rw (add_key-hashed fresh now s nonempty) (
            use_key_usable org key_id fresh required later (add_key fresh now s) refl refl current
              allowed))))
