-- ===== src/Store/AccessKeys/Laws.antt =====
-- The scopes, the use and the revocation of access keys.
use moltenhub.Base.{
  ◌≡◌, refl, ap, subst, inl, inr, Bool, true, false, not, ◌&&◌, ◌||◌, Option, none, some, arith,
  Bool-cases, Option-cases,
}
use moltenhub.Base.Text.{Text, text_eq, text_eq_iff}
use moltenhub.Base.Dict.{get, get-remove_self}
use moltenhub.Model.{Organization, OrgAccessKey, admin}
use moltenhub.Model.Clock.{Time}
use moltenhub.Store.State.{
  MemoryStore, Error, Result, ok, err, err_not_ok, org_not_found, org_access_key_not_found,
}
use moltenhub.Store.Roles.{is_active, has_role_at_least, membership_role}
use moltenhub.Store.Audit.{append_audit}
use moltenhub.Store.Queue.{is_revoked}
use moltenhub.Store.Trust.Request.{is_missing}
use moltenhub.Store.AccessKeys.{
  close_key, org_access_scope_allowed, revoke_org_access_key, key_of, key_hashed, org_named,
  is_past, use_key, authorize_org_access_by_name,
}

-- A key may be used for a scope at a time.
abbrev pub IsUsable : OrgAccessKey → Text → Time → Type 0
IsUsable key required now =
    (is_active key.status ≡ true)
    × (key.revoked_at ≡ none)
    × (is_past key.expires_at now ≡ false)
    × (org_access_scope_allowed key.scopes required ≡ true)

use_key-IsUsable :
    (org : Organization) (id : Text) (key : OrgAccessKey) (required : Text) (now : Time)
    (s : MemoryStore) (x : Organization × OrgAccessKey)
    → (use_key org id key required now s).0 ≡ ok x
    → IsUsable key required now × (x ≡ (org, record key { last_used_at = some now }))
unfolding use_key
use_key-IsUsable org id key required now s x h =
    elim (Bool-cases (not (is_active key.status) || not (is_missing key.revoked_at))) [
      | inl dead ↦ ground arith
      | inr live ↦ elim (Bool-cases (is_past key.expires_at now)) [
        | inl past ↦ ground arith
        | inr current ↦ elim (Bool-cases (not (org_access_scope_allowed key.scopes required))) [
          | inl denied ↦ ground arith
          | inr allowed ↦ (
            (ground arith, unrevoked key.revoked_at (ground arith), current, ground arith),
            ground arith,
          )
        ]
      ]
    ]
  where
    unrevoked : (o : Option Time) → is_missing o ≡ true → o ≡ none
    unrevoked none e = refl
    unrevoked (some _) e = absurd cc

key_hashed_lem :
    (s : MemoryStore) (org_id hash key_id : Text) (key : OrgAccessKey)
    → key_hashed s org_id hash ≡ some (key_id, key)
    → (get s.org_access_key_by_hash hash ≡ some key_id)
      × (get s.org_access_keys key_id ≡ some key)
      × (key.org_id ≡ org_id)
unfolding key_hashed key_of
key_hashed_lem s org_id hash key_id key h =
    elim (Option-cases (get s.org_access_key_by_hash hash)) [
      | inl no_hash ↦ absurd (ground arith)
      | inr (id, at) ↦ elim (Option-cases (get s.org_access_keys id)) [
        | inl no_key ↦ absurd (ground arith)
        | inr (k, found) ↦ ground (arith, text_eq_iff k.org_id org_id)
      ]
    ]

-- Whoever is authorized by the name of an organization holds a key of that organization, under
-- its hash, that is active, not revoked, not expired, and has the scope asked for; what is
-- returned is that organization and the key with the time of its use.
pub authorize_org_access_by_name-IsUsable :
    (name hash required : Text) (now : Time) (s : MemoryStore) (x : Organization × OrgAccessKey)
    → (authorize_org_access_by_name name hash required now s).0 ≡ ok x
    → (org_id : Text) × (org : Organization) × (key_id : Text) × (key : OrgAccessKey) × (org_named s
          name
        ≡ some (org_id, org))
      × (get s.org_access_key_by_hash hash ≡ some key_id)
      × (get s.org_access_keys key_id ≡ some key)
      × (key.org_id ≡ org_id)
      × IsUsable key required now
      × (x ≡ (org, record key { last_used_at = some now }))
unfolding authorize_org_access_by_name
authorize_org_access_by_name-IsUsable name hash required now s x h =
    elim (Option-cases (org_named s name)) [
      | inl nobody ↦ absurd (err_not_ok (rw (nobody, authorize_org_access_by_name) at h))
      | inr ((org_id, org), named) ↦ elim (Option-cases (key_hashed s org_id hash)) [
        | inl no_key ↦ absurd (err_not_ok (rw (named, no_key, authorize_org_access_by_name) at h))
        | inr ((key_id, key), found) ↦
            let (at, held, own) = key_hashed_lem s org_id hash key_id key found in
            let (usable, result) =
              use_key-IsUsable org key_id key required now s x
                (rw (named, found, authorize_org_access_by_name) at h) in
            (org_id, org, key_id, key, named, at, held, own, usable, result)
      ]
    ]

-- A hash that is not indexed authorizes nothing.
not_indexed :
    (name hash required : Text) (now : Time) (s : MemoryStore)
    → get s.org_access_key_by_hash hash ≡ none
    → (e : Error) × (authorize_org_access_by_name name hash required now s ≡ (err e, s))
unfolding authorize_org_access_by_name key_hashed
not_indexed name hash required now s missing = elim (Option-cases (org_named s name)) [
  | inl nobody ↦ (org_not_found, rw (nobody, authorize_org_access_by_name) refl)
  | inr ((org_id, org), named) ↦ (
    org_access_key_not_found,
    rw (named, authorize_org_access_by_name) (rw (missing, key_hashed) refl),
  )
]

revoke-unindexes :
    (org_id key_id actor : Text) (super : Bool) (now : Time) (s t : MemoryStore)
    (key closed : OrgAccessKey)
    → get s.org_access_keys key_id ≡ some key
    → is_revoked key.status ≡ false
    → revoke_org_access_key org_id key_id actor super now s ≡ (ok closed, t)
    → get t.org_access_key_by_hash key.token_hash ≡ none
unfolding revoke_org_access_key key_of close_key
revoke-unindexes org_id key_id actor super now s t key closed found live h =
    elim (Bool-cases (is_missing (get s.orgs org_id))) [
      | inl nowhere ↦ absurd (refused (rw (nowhere, revoke_org_access_key) at h))
      | inr there ↦ elim (Bool-cases (text_eq key.org_id org_id)) [
        | inl own ↦
            elim (Bool-cases (
              not super
              && not (has_role_at_least (membership_role s.directory org_id actor) admin))) [
                | inl denied ↦
                    absurd
                      (refused (rw (there, found, own, denied, revoke_org_access_key, key_of) at h))
                | inr granted ↦
                    let done =
                      rw (there, found, own, granted, live, revoke_org_access_key, key_of) at h in
                    subst (λ (u : MemoryStore). get u.org_access_key_by_hash key.token_hash ≡ none)
                      (ap (λ p. p.1) done)
                      (unfold append_audit in
                        get-remove_self s.org_access_key_by_hash key.token_hash)
              ]
        | inr foreign ↦
            absurd (refused (rw (there, found, foreign, revoke_org_access_key, key_of) at h))
      ]
    ]
  where
    refused :
        {x : Error} {u : MemoryStore}
        → ◌≡◌ {A = Result OrgAccessKey × MemoryStore} (err x, u) (ok closed, t)
        → ⊥
    refused e = err_not_ok (ap (λ p. p.0) e)

-- A revoked key stops working: once a key that was not revoked yet has been revoked, its hash
-- authorizes nothing, whatever the name, the scope and the time.
pub revoke_org_access_key-authorize :
    (org_id key_id actor : Text) (super : Bool) (now : Time) (s t : MemoryStore)
    (key closed : OrgAccessKey)
    → get s.org_access_keys key_id ≡ some key
    → is_revoked key.status ≡ false
    → revoke_org_access_key org_id key_id actor super now s ≡ (ok closed, t)
    → (name required : Text) (later : Time)
    → (e : Error) × (authorize_org_access_by_name name key.token_hash required later t ≡ (err e, t))
revoke_org_access_key-authorize org_id key_id actor super now s t key closed found live h name
      required later =
    not_indexed name key.token_hash required later t
      (revoke-unindexes org_id key_id actor super now s t key closed found live h)
