-- ===== src/Store/Peers/Grants.antt =====
-- The creation and the deletion of trust in a remote organization.
use moltenhub.Base.{◌≡◌, refl, inl, inr, true, false, none, some, Bool-cases, Option}
use moltenhub.Base.Text.{Text, trim_space}
use moltenhub.Base.Dict.{get-put_self, get, get-remove_self}
use moltenhub.Handles.Shape.{normalize_idem}
use moltenhub.Model.{RemoteOrgTrust}
use moltenhub.Model.Clock.{Time}
use moltenhub.Store.State.{err_not_ok, MemoryStore, ok}
use moltenhub.Store.Trust.Request.{is_missing}
use moltenhub.Store.Peers.{remote_org_trust_key}
use moltenhub.Store.Peers.Remote.{
  create_remote_org_trust, join_remote_org, delete_remote_org_trust, has_active_remote_org_trust,
  new_org_trust,
}

join_remote_org-active :
    (o : Option Text) (org peer handle actor id : Text) (now : Time) (s : MemoryStore)
    → get s.remote_org_trust_by_key (remote_org_trust_key org peer handle) ≡ o
    → has_active_remote_org_trust
        (join_remote_org o
          (remote_org_trust_key org peer handle)
          (new_org_trust org peer handle actor id now)
          now
          s).1.peers
        org
        peer
        handle
      ≡ true
unfolding join_remote_org has_active_remote_org_trust new_org_trust
join_remote_org-active none org peer handle actor id now s e =
    rw
      (
        get-put_self s.remote_org_trust_by_key (remote_org_trust_key org peer handle) id,
        has_active_remote_org_trust,
      )
      (rw (get-put_self s.remote_org_trusts id _, has_active_remote_org_trust))
join_remote_org-active (some old) org peer handle actor id now s e =
    rw (e, has_active_remote_org_trust)
      (rw (get-put_self s.remote_org_trusts old _, has_active_remote_org_trust))

-- An accepted creation of trust in a remote organization, new or renewed, takes effect at once.
pub create_remote_org_trust-active :
    (org peer handle actor id : Text) (now : Time) (s : MemoryStore) (t : RemoteOrgTrust)
    → (create_remote_org_trust org peer handle actor id now s).0 ≡ ok t
    → has_active_remote_org_trust
        (create_remote_org_trust org peer handle actor id now s).1.peers
        org
        peer
        handle
      ≡ true
unfolding create_remote_org_trust
create_remote_org_trust-active org peer handle actor id now s t h =
    elim (Bool-cases (is_missing (get s.orgs org))) [
      | inl no_org ↦ absurd (err_not_ok (rw (no_org, create_remote_org_trust) at h))
      | inr org_known ↦ elim (Bool-cases (is_missing (get s.peer_instances peer))) [
        | inl no_peer ↦ absurd (
            err_not_ok (
              rw (no_peer, create_remote_org_trust) at
                (rw (org_known, create_remote_org_trust) at h)))
        | inr peer_known ↦
            rw (org_known, create_remote_org_trust)
              (rw (peer_known, create_remote_org_trust)
                (join_remote_org-active _ org peer handle actor id now s refl))
      ]
    ]

-- The key of the stored trust is the key that it was asked under: normalizing twice is harmless.
key-new_org_trust :
    (org peer handle actor id : Text) (now : Time)
    → (let t = new_org_trust org peer handle actor id now in
        remote_org_trust_key t.local_org_id t.peer_id t.remote_org_handle)
      ≡ remote_org_trust_key org peer handle
unfolding new_org_trust remote_org_trust_key
key-new_org_trust org peer handle actor id now = rw (normalize_idem handle)

delete_remote_org_trust-inactive :
    (org peer handle id : Text) (later : Time) (s : MemoryStore) (t : RemoteOrgTrust)
    → get s.remote_org_trusts (trim_space id) ≡ some t
    → remote_org_trust_key t.local_org_id t.peer_id t.remote_org_handle
      ≡ remote_org_trust_key org peer handle
    → has_active_remote_org_trust (delete_remote_org_trust id later s).1.peers org peer handle
      ≡ false
unfolding delete_remote_org_trust has_active_remote_org_trust
delete_remote_org_trust-inactive org peer handle id later s t found same =
    rw (found, delete_remote_org_trust)
      (rw (
        same,
        get-remove_self s.remote_org_trust_by_key (remote_org_trust_key org peer handle),
        has_active_remote_org_trust,
      ))

module _ (org peer handle actor id : Text) (now later : Time) (s : MemoryStore)
    (known_org : is_missing (get s.orgs org) ≡ false)
    (known_peer : is_missing (get s.peer_instances peer) ≡ false)
    (new : get s.remote_org_trust_by_key (remote_org_trust_key org peer handle) ≡ none)
    (trimmed : trim_space id ≡ id) where
  -- A new trust in a remote organization, asked for under a known organization and a known peer and
  -- an id without spaces around it, ends with the deletion of that id.
  pub delete_remote_org_trust-create :
      let t = (create_remote_org_trust org peer handle actor id now s).1 in
      has_active_remote_org_trust (delete_remote_org_trust id later t).1.peers org peer handle
      ≡ false
  unfolding create_remote_org_trust join_remote_org new_org_trust
  delete_remote_org_trust-create =
      rw (known_org, create_remote_org_trust)
        (rw (known_peer, create_remote_org_trust)
          (rw (new, create_remote_org_trust)
            (delete_remote_org_trust-inactive org peer handle id later _
              (new_org_trust org peer handle actor id now)
              (rw trimmed (get-put_self s.remote_org_trusts id _))
              (key-new_org_trust org peer handle actor id now))))
