-- ===== src/Store/Invites/Once.antt =====
-- Invitations after their acceptance.
use moltenhub.Base.{
  ◌≡◌, refl, sym, ap, ◌∙◌, inl, inr, not, ◌&&◌, Option, some, Option-cases, is_empty,
}
use moltenhub.Base.Text.{Text, equal_fold}
use moltenhub.Base.Dict.{Dict, get, put, get-put_self}
use moltenhub.Model.{Membership, Invite}
use moltenhub.Model.Clock.{Time}
use moltenhub.Store.State.{
  MemoryStore, Grants, Outcome, ok, err, err_not_ok, invite_invalid, passed,
}
use moltenhub.Store.Trust.Request.{is_missing}
use moltenhub.Store.Audit.Frame.{grants-append_audit}
use moltenhub.Store.Orgs.{store_membership}
use moltenhub.Store.Invites.{
  accept_invite_locked, join_organization, close_invite, active_membership, is_pending, is_after,
  accepted,
}
use moltenhub.Store.Invites.Transfer.Frame.{transfer-grants}

-- Joining leaves the invitation accepted.
join_organization-accepted :
    (id : Text) (invite : Invite) (human_id : Text) (now : Time) (drawn : Option Text)
    (s t : MemoryStore) (m : Membership)
    → join_organization id invite human_id now drawn s ≡ (ok m, t)
    → get t.invites id ≡ some (accepted now invite)
unfolding join_organization close_invite store_membership
join_organization-accepted id invite human_id now drawn s t m h =
    elim (Option-cases (active_membership s invite.org_id human_id)) [
      | inr (old, member) ↦
          let left =
            ap (λ (o : Outcome Membership). o.1.grants) (rw (member, join_organization) at h) in
          here (sym left ∙ transfer-grants _ _ _ _)
      | inl nobody ↦ elim (Option-cases drawn) [
        | inl failed ↦ absurd (
            err_not_ok (
              ap (λ (o : Outcome Membership). o.0)
                (rw (failed, join_organization) at (rw (nobody, join_organization) at h))))
        | inr (member_id, drew) ↦
            let left =
              ap (λ (o : Outcome Membership). o.1.grants)
                (rw (drew, join_organization) at (rw (nobody, join_organization) at h)) in
            here (sym left ∙ grants-append_audit _ _ _ _ _ _ _ _ ∙ transfer-grants _ _ _ _)
      ]
    ]
  where
    here :
        {r : Dict Text}
        → t.grants ≡ record s.grants {
          invites = put s.invites id (accepted now invite);
          invite_by_secret_hash = r;
        }
        → get t.invites id ≡ some (accepted now invite)
    here e =
        ap (λ (g : Grants). get g.invites id) e ∙ get-put_self s.invites id (accepted now invite)

-- An invitation that has been accepted cannot be accepted again, by anybody, with any address, at
-- any time: the attempt is refused as invalid and leaves the store as it is.
pub accept_invite-once :
    (id human_id email : Text) (now : Time) (drawn : Option Text) (s t : MemoryStore)
    (m : Membership)
    → accept_invite_locked id human_id email now drawn s ≡ (ok m, t)
    → (other other_email : Text) (later : Time) (other_drawn : Option Text)
    → accept_invite_locked id other other_email later other_drawn t ≡ (err invite_invalid, t)
unfolding accept_invite_locked
accept_invite-once id human_id email now drawn s t m h other other_email later other_drawn =
    elim (Option-cases (get s.invites id)) [
      | inl missing ↦ absurd (
          err_not_ok
            (ap (λ (o : Outcome Membership). o.0) (rw (missing, accept_invite_locked) at h)))
      | inr (invite, found) ↦
          let a = rw (found, accept_invite_locked) at h in
          let (_, b) =
            passed (is_pending invite.status && is_after now invite.expires_at) _ _ _ a in
          let (_, c) = passed (not (is_pending invite.status)) _ _ _ b in
          let (_, d) =
            passed (not (is_empty invite.email) && not (equal_fold invite.email email)) _ _ _ c in
          let (_, e) = passed (is_missing (get s.humans human_id)) _ _ _ d in
          let closed = join_organization-accepted id invite human_id now drawn s t m e in
          rw (closed, accept_invite_locked) refl
    ]
