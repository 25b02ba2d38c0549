-- ===== src/Store/Audit/Frame.antt =====
-- What an entry of the audit trail leaves as it is: everything but the ledger and the agents.
use moltenhub.Base.{◌≡◌, refl}
use moltenhub.Base.Text.{Text}
use moltenhub.Model.Value.{Metadata}
use moltenhub.Model.Clock.{Time}
use moltenhub.Store.State.{MemoryStore}
use moltenhub.Store.Audit.{append_audit}

module _ (side actor category action subject : Text) (details : Metadata) (now : Time)
    (s : MemoryStore) where
  abbrev after : MemoryStore
  after = append_audit side actor category action subject details now s

  pub grants-append_audit : after.grants ≡ s.grants
  unfolding append_audit
  grants-append_audit = refl

  pub accounts-append_audit : after.accounts ≡ s.accounts
  unfolding append_audit
  accounts-append_audit = refl

  pub registry-append_audit : after.registry ≡ s.registry
  unfolding append_audit
  registry-append_audit = refl

  pub orgs-append_audit : after.directory.orgs ≡ s.directory.orgs
  unfolding append_audit
  orgs-append_audit = refl

  pub memberships-append_audit : after.directory.memberships ≡ s.directory.memberships
  unfolding append_audit
  memberships-append_audit = refl

  pub membership_by_org_user-append_audit :
      after.directory.membership_by_org_user ≡ s.directory.membership_by_org_user
  unfolding append_audit
  membership_by_org_user-append_audit = refl

pub ruleset audit_frame = (
  grants-append_audit, accounts-append_audit, registry-append_audit, orgs-append_audit,
  memberships-append_audit, membership_by_org_user-append_audit,
)
