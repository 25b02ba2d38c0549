-- ===== src/Store/Orgs/Owners.antt =====
-- The owners of organizations, and what the steps of the operations do to them.
pub mod Steps
pub mod History
use moltenhub.Base.{
  ◌≡◌, refl, sym, ap, subst, ◌∙◌, inl, inr, ◌⊎◌, Bool, true, false, not, Option, none, some, arith,
  Bool-cases, Option-cases, if◌then◌else◌,
}
use moltenhub.Base.Text.{Text, text_eq, text_eq_iff}
use moltenhub.Base.Dict.{Dict, get, put, get-put, get-put_self}
use moltenhub.Model.{Organization, Membership, revoked}
use moltenhub.Store.State.{MemoryStore, Directory}
use moltenhub.Store.Roles.{is_owner, is_active, org_human_key, membership_role, active_role}
use moltenhub.Store.Orgs.{store_membership}
use moltenhub.Store.Invites.{active_membership}

-- An active membership of an owner, found by the organization and the human.
pub record IsOwner (d : Directory) (org_id human_id id : Text) (m : Membership) : Type 0 where
  pub indexed : get d.membership_by_org_user (org_human_key org_id human_id) ≡ some id
  pub held : get d.memberships id ≡ some m
  pub owning : is_owner m.role ≡ true
  pub active_now : is_active m.status ≡ true

abbrev pub HasOwner : Directory → Text → Type 0
HasOwner d org_id =
    (human_id : Text) × (id : Text) × (m : Membership) × IsOwner d org_id human_id id m

pub record IsOwned (d : Directory) : Type 0 where
  pub owned :
      (org_id : Text) (org : Organization) → get d.orgs org_id ≡ some org → HasOwner d org_id

-- The parts of the directory that say who owns what.
pub record SameMembers (d e : Directory) : Type 0 where
  pub same_orgs : e.orgs ≡ d.orgs
  pub same_memberships : e.memberships ≡ d.memberships
  pub same_index : e.membership_by_org_user ≡ d.membership_by_org_user

pub SameMembers-refl : (d : Directory) → SameMembers d d
SameMembers-refl d = record { same_orgs = refl; same_memberships = refl; same_index = refl }

pub SameMembers-trans : (c d e : Directory) → SameMembers c d → SameMembers d e → SameMembers c e
SameMembers-trans c d e a b = record {
  same_orgs = b.same_orgs ∙ a.same_orgs;
  same_memberships = b.same_memberships ∙ a.same_memberships;
  same_index = b.same_index ∙ a.same_index;
}

pub SameMembers-IsOwned : (d e : Directory) → SameMembers d e → IsOwned d → IsOwned e
SameMembers-IsOwned d e same o = record {
  owned = λ org_id org h.
      let (human_id, id, m, w) =
        o.owned org_id org (ap (λ x. get x org_id) (sym same.same_orgs) ∙ h) in
      (
        human_id,
        id,
        m,
        record {
          indexed = ap (λ x. get x (org_human_key org_id human_id)) same.same_index ∙ w.indexed;
          held = ap (λ x. get x id) same.same_memberships ∙ w.held;
          owning = w.owning;
          active_now = w.active_now;
        },
      );
}

-- Whoever has the role of an owner.
pub IsOwner-role :
    (d : Directory) (org_id human_id id : Text) (m : Membership)
    → IsOwner d org_id human_id id m
    → is_owner (membership_role d org_id human_id) ≡ true
unfolding membership_role active_role
IsOwner-role d org_id human_id id m w =
    rw (w.indexed, membership_role) (rw (w.held, active_role) (rw w.active_now w.owning))

active_found :
    (s : MemoryStore) (org_id human_id id : Text) (m : Membership)
    → get s.membership_by_org_user (org_human_key org_id human_id) ≡ some id
    → get s.memberships id ≡ some m
    → is_active m.status ≡ true
    → active_membership s org_id human_id ≡ some m
unfolding active_membership
active_found s org_id human_id id m at held live =
    rw (at, active_membership) (rw (held, active_membership) (rw live refl))

-- A new membership under a new id keeps the owners, if it takes the place of no active one or makes
-- an owner itself.
pub store_membership-keeps :
    (m : Membership) (s : MemoryStore) (org_id : Text)
    → get s.memberships m.membership_id ≡ none
    → ((active_membership s m.org_id m.human_id ≡ none)
        ⊎ ((is_owner m.role ≡ true) × (is_active m.status ≡ true)))
    → HasOwner s.directory org_id
    → HasOwner (store_membership m s).directory org_id
unfolding store_membership
store_membership-keeps m s org_id fresh free (human_id, id, w, owns) =
    let key = org_human_key m.org_id m.human_id in
    let own_key = org_human_key org_id human_id in
    elim (Bool-cases (text_eq key own_key)) [
      | inl same ↦
          let e : key ≡ own_key = (text_eq_iff key own_key).0 same in
          elim free [
            | inl nobody ↦ absurd (
                clash w nobody (
                  active_found s m.org_id m.human_id id w
                    (ap (get s.membership_by_org_user) e ∙ owns.indexed) owns.held owns.active_now))
            | inr (owning, active_now) ↦ (
              human_id,
              m.membership_id,
              m,
              record {
                indexed =
                    ap (get (put s.membership_by_org_user key m.membership_id)) (sym e)
                    ∙ get-put_self s.membership_by_org_user key m.membership_id;
                held = get-put_self s.memberships m.membership_id m;
                owning = owning;
                active_now = active_now;
              },
            )
          ]
      | inr other ↦
          let at = owns.indexed in
          let found = owns.held in
          (
            human_id,
            id,
            w,
            record {
              indexed =
                  ground (arith, get-put s.membership_by_org_user key own_key m.membership_id);
              held = ground (
                arith,
                get-put s.memberships m.membership_id id m,
                text_eq_iff m.membership_id id,
              );
              owning = owns.owning;
              active_now = owns.active_now;
            },
          )
    ]
  where
    clash : {o : Option Membership} (x : Membership) → o ≡ none → o ≡ some x → ⊥
    clash x a b = cc

-- A founded organization has its founder as an owner.
pub store_membership-IsOwner :
    (m : Membership) (s : MemoryStore)
    → is_owner m.role ≡ true
    → is_active m.status ≡ true
    → IsOwner (store_membership m s).directory m.org_id m.human_id m.membership_id m
unfolding store_membership
store_membership-IsOwner m s owning active_now = record {
  indexed =
      get-put_self s.membership_by_org_user (org_human_key m.org_id m.human_id) m.membership_id;
  held = get-put_self s.memberships m.membership_id m;
  owning = owning;
  active_now = active_now;
}

-- A membership of another role changes.
pub update-IsOwned :
    (d : Directory) (id : Text) (m n : Membership)
    → get d.memberships id ≡ some m
    → is_owner m.role ≡ false
    → IsOwned d
    → IsOwned (record d { memberships = put d.memberships id n })
update-IsOwned d id m n found other o = record {
  owned = λ org_id org h.
      let (human_id, j, w, owns) = o.owned org_id org h in
      (
        human_id,
        j,
        w,
        record {
          indexed = owns.indexed;
          held = elim (Bool-cases (text_eq id j)) [
            | inl same ↦
                let e : id ≡ j = (text_eq_iff id j).0 same in
                absurd (clash (sym found ∙ ap (get d.memberships) e ∙ owns.held) owns.owning)
            | inr differ ↦ ground (arith, get-put d.memberships id j n, owns.held)
          ];
          owning = owns.owning;
          active_now = owns.active_now;
        },
      );
}
  where
    clash :
        {w : Membership}
        → ◌≡◌ {A = Option Membership} (some m) (some w)
        → is_owner w.role ≡ true
        → ⊥
    clash {w} e t = let k : m ≡ w = cc in ground arith
