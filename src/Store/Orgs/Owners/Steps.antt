-- ===== src/Store/Orgs/Owners/Steps.antt =====
-- Operations that leave every organization an active owner.
use moltenhub.Base.{
  ℕ, ◌≡◌, refl, subst, inl, inr, Option, none, some, [], arith, Bool-cases, Option-cases,
}
use moltenhub.Base.Text.{Text, text_eq, text_eq_iff}
use moltenhub.Base.Dict.{get, put, get-put}
use moltenhub.Model.{Organization, Membership, Human}
use moltenhub.Model.Value.{Metadata}
use moltenhub.Model.Clock.{Time}
use moltenhub.Store.State.{MemoryStore, Outcome}
use moltenhub.Store.Roles.{is_owner}
use moltenhub.Store.Audit.{append_audit}
use moltenhub.Store.Humans.{is_valid_handle}
use moltenhub.Store.Invites.Transfer.{transfer_human_owned_agents_to_org}
use moltenhub.Store.Invites.Transfer.Frame.{
  transfer-orgs, transfer-memberships, transfer-membership_by_org_user,
}
use moltenhub.Store.Orgs.{
  create_org, ensure_personal_org, create_personal_org, found_org, store_org, store_membership,
  init_org_stats, owner_membership, owner_membership_id, new_org, normalize_org_handle_key,
  is_taken, personal_org, personal_base_handle, free_handle,
}
use moltenhub.Store.Orgs.Owners.{
  IsOwned, HasOwner, SameMembers, SameMembers-IsOwned, store_membership-keeps,
  store_membership-IsOwner,
}

append_audit-SameMembers :
    (side actor category action subject : Text) (details : Metadata) (now : Time) (s : MemoryStore)
    → SameMembers s.directory
        (append_audit side actor category action subject details now s).directory
unfolding append_audit
append_audit-SameMembers side actor category action subject details now s = record {
  same_orgs = refl;
  same_memberships = refl;
  same_index = refl;
}

pub append_audit-IsOwned :
    (side actor category action subject : Text) (details : Metadata) (now : Time) (s : MemoryStore)
    → IsOwned s.directory
    → IsOwned (append_audit side actor category action subject details now s).directory
append_audit-IsOwned side actor category action subject details now s o =
    SameMembers-IsOwned _ _
      (append_audit-SameMembers side actor category action subject details now s) o

-- A founded organization joins the owned ones.
found_org-IsOwned :
    (org : Organization) (key human_id : Text) (details : Metadata) (now : Time) (s : MemoryStore)
    → get s.memberships (owner_membership_id org.org_id) ≡ none
    → IsOwned s.directory
    → IsOwned (found_org org key human_id details now s).1.directory
unfolding found_org store_org init_org_stats owner_membership is_owner store_membership
found_org-IsOwned org key human_id details now s fresh o =
    append_audit-IsOwned _ _ _ _ _ _ _ _ (record { owned = λ id q h. owner_of id q h })
  where
    m : Membership
    m = owner_membership (owner_membership_id org.org_id) org.org_id human_id now

    owner_of :
        (id : Text) (q : Organization)
        → get (put s.orgs org.org_id org) id ≡ some q
        → HasOwner (store_membership m (store_org org key s)).directory id
    owner_of id q h = elim (Bool-cases (text_eq org.org_id id)) [
      | inl same ↦
          subst (λ k. HasOwner (store_membership m (store_org org key s)).directory k)
            ((text_eq_iff org.org_id id).0 same)
            (
              human_id,
              m.membership_id,
              m,
              store_membership-IsOwner m (store_org org key s) refl refl,
            )
      | inr other ↦
          store_membership-keeps m (store_org org key s) id fresh (inr (refl, refl))
            (ahead (o.owned id q (ground (arith, get-put s.orgs org.org_id id org))))
    ]
      where
        ahead : HasOwner s.directory id → HasOwner (store_org org key s).directory id
        ahead (h, j, w, owns) = (
          h,
          j,
          w,
          record {
            indexed = owns.indexed;
            held = owns.held;
            owning = owns.owning;
            active_now = owns.active_now;
          },
        )

pub create_org-IsOwned :
    (handle name creator org_id : Text) (now : Time) (s : MemoryStore)
    → get s.memberships (owner_membership_id org_id) ≡ none
    → IsOwned s.directory
    → IsOwned (create_org handle name creator org_id now s).1.directory
unfolding create_org new_org
create_org-IsOwned handle name creator org_id now s fresh o =
    elim (Option-cases (get s.humans creator)) [
      | inl nobody ↦ rw (nobody, create_org) o
      | inr (human, known) ↦
          let key = normalize_org_handle_key handle in
          elim (Bool-cases (is_valid_handle key)) [
            | inr bad ↦ rw (known, create_org) (rw (bad, create_org) o)
            | inl good ↦ elim (Bool-cases (is_taken s.org_by_handle key)) [
              | inl taken ↦
                  rw (known, create_org) (rw (good, create_org) (rw (taken, create_org) o))
              | inr free ↦
                  rw (known, create_org)
                    (rw (good, create_org)
                      (rw (free, create_org) (found_org-IsOwned _ key creator [] now s fresh o)))
            ]
          ]
    ]

-- The outcome of an operation whose fuel may run out; without one the store stays.
abbrev pub store_after : {A : Type 0} → Option (Outcome A) → MemoryStore → MemoryStore
store_after none s = s
store_after (some o) s = o.1

create_personal_org-IsOwned :
    (human_id : Text) (human : Human) (handle : Text) (now : Time) (drawn : Option Text)
    (s : MemoryStore)
    → ((id : Text) → drawn ≡ some id → get s.memberships (owner_membership_id id) ≡ none)
    → IsOwned s.directory
    → IsOwned (create_personal_org human_id human handle now drawn s).1.directory
unfolding create_personal_org new_org
create_personal_org-IsOwned human_id human handle now none s fresh o = o
create_personal_org-IsOwned human_id human handle now (some id) s fresh o =
    found_org-IsOwned _ (normalize_org_handle_key handle) human_id _ now _ (fresh id refl) o

pub ensure_personal_org-IsOwned :
    (fuel : ℕ) (human_id : Text) (now : Time) (drawn : Option Text) (s : MemoryStore)
    → ((id : Text) → drawn ≡ some id → get s.memberships (owner_membership_id id) ≡ none)
    → IsOwned s.directory
    → IsOwned (store_after (ensure_personal_org fuel human_id now drawn s) s).directory
unfolding ensure_personal_org
ensure_personal_org-IsOwned fuel human_id now drawn s fresh o =
    elim (Option-cases (get s.humans human_id)) [
      | inl nobody ↦ rw (nobody, ensure_personal_org) o
      | inr (human, known) ↦ elim (Option-cases (personal_org s human_id)) [
        | inr (org, there) ↦ rw (known, ensure_personal_org) (rw (there, ensure_personal_org) o)
        | inl missing ↦
            let base = personal_base_handle human.handle human_id in
            elim (Option-cases (free_handle fuel s.org_by_handle base base 2)) [
              | inl out ↦
                  rw (known, ensure_personal_org)
                    (rw (missing, ensure_personal_org) (rw (out, ensure_personal_org) o))
              | inr (handle, free) ↦
                  rw (known, ensure_personal_org)
                    (rw (missing, ensure_personal_org)
                      (rw (free, ensure_personal_org)
                        (create_personal_org-IsOwned human_id human handle now drawn s fresh o)))
            ]
      ]
    ]

pub transfer-SameMembers :
    (org_id human_id : Text) (now : Time) (s : MemoryStore)
    → SameMembers s.directory (transfer_human_owned_agents_to_org org_id human_id now s).directory
transfer-SameMembers org_id human_id now s = record {
  same_orgs = transfer-orgs org_id human_id now s;
  same_memberships = transfer-memberships org_id human_id now s;
  same_index = transfer-membership_by_org_user org_id human_id now s;
}
