-- ===== src/Store/Peers/Orphans.antt =====
-- What is left of a peer after its deletion.
use moltenhub.Base.{
  ◌≡◌, ap, ◌≢◌, inl, inr, Bool, true, not, Option, none, some, [], ◌∷◌, Option-cases, arith,
}
use moltenhub.Base.Text.{Text, text_eq, text_eq_iff, trim_space}
use moltenhub.Base.Dict.{Dict, get}
use moltenhub.Model.{PeerInstance, PeerOutboundMessage, RemoteOrgTrust, RemoteAgentTrust}
use moltenhub.Model.Clock.{Time}
use moltenhub.Store.State.{err_not_ok, MemoryStore, Peers, Result, ok, err}
use moltenhub.Store.Peers.{delete_peer_instance, drop_peer, keep_values}

get-keep_values :
    {V : Type 0} (p : V → Bool) (m : Dict V) (k : Text) (v : V)
    → get (keep_values p m) k ≡ some v
    → p v ≡ true
unfolding keep_values get
get-keep_values p [] k v h = absurd (nothing h)
  where
    nothing : ◌≡◌ {A = Option _} none (some v) → ⊥
    nothing e = cc
get-keep_values p ((j, w) ∷ m) k v h = ground (arith, get-keep_values p m k v)

-- No outbound message and no trust of these peers is with the peer.
pub record IsWithout (p : Peers) (peer_id : Text) : Type 0 where
  pub outbounds :
      (id : Text) (o : PeerOutboundMessage) → get p.peer_outbounds id ≡ some o → o.peer_id ≢ peer_id
  pub orgs :
      (id : Text) (t : RemoteOrgTrust) → get p.remote_org_trusts id ≡ some t → t.peer_id ≢ peer_id
  pub agents :
      (id : Text) (t : RemoteAgentTrust)
      → get p.remote_agent_trusts id ≡ some t
      → t.peer_id ≢ peer_id

other_peer : (a b : Text) → not (text_eq a b) ≡ true → a ≢ b
other_peer a b h e = ground (arith, text_eq_iff a b)

drop_peer-IsWithout : (peer : PeerInstance) (p : Peers) → IsWithout (drop_peer peer p) peer.peer_id
unfolding drop_peer
drop_peer-IsWithout peer p = record {
  outbounds = λ id o h. other_peer _ _ (get-keep_values _ p.peer_outbounds id o h);
  orgs = λ id t h. other_peer _ _ (get-keep_values _ p.remote_org_trusts id t h);
  agents = λ id t h. other_peer _ _ (get-keep_values _ p.remote_agent_trusts id t h);
}

-- After an accepted deletion of a peer no outbound message waits for it, and no trust in a remote
-- organization or agent rests on it.
pub delete_peer_instance-IsWithout :
    (peer_id : Text) (now : Time) (s : MemoryStore) (peer : PeerInstance)
    → (delete_peer_instance peer_id now s).0 ≡ ok peer
    → IsWithout (delete_peer_instance peer_id now s).1.peers peer.peer_id
unfolding delete_peer_instance
delete_peer_instance-IsWithout peer_id now s peer h =
    elim (Option-cases (get s.peer_instances (trim_space peer_id))) [
      | inl missing ↦ absurd (err_not_ok (rw (missing, delete_peer_instance) at h))
      | inr (q, found) ↦
          let own : q.peer_id ≡ peer.peer_id =
            ap (λ (x : Result PeerInstance). id_of x) (rw (found, delete_peer_instance) at h) in
          rw (found, delete_peer_instance, ← own) (drop_peer-IsWithout q s.peers)
    ]
  where
    id_of : Result PeerInstance → Text
    id_of (ok p) = p.peer_id
    id_of (err x) = []
