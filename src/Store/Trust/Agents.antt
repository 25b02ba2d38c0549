-- ===== src/Store/Trust/Agents.antt =====
-- The operations on agents that write trust edges keep the trusts well formed: a redeemed
-- invitation joins the new agent to its host, a revoked agent loses its edges' approvals and a
-- deleted agent its edges.
use moltenhub.Base.{
  ◌≡◌, refl, sym, ap, ◌∙◌, inl, inr, Bool, true, false, not, ◌&&◌, Option, none, some, [], ◌∷◌,
  arith, Bool-cases, Option-cases, is_empty,
}
use moltenhub.Base.Text.{Text, text_eq}
use moltenhub.Base.Dict.{Dict, get, delete_where, get-delete_where, get-remove, get-remove_self}
use moltenhub.Model.{TrustEdge, Agent, BindToken}
use moltenhub.Model.Clock.{Time}
use moltenhub.Store.State.{MemoryStore, Result-cases}
use moltenhub.Store.Roles.{can_manage_agent, can_delete_agent}
use moltenhub.Store.Queue.{is_revoked}
use moltenhub.Store.Queue.Purge.{purge_agent_queues}
use moltenhub.Store.Invites.{is_after}
use moltenhub.Store.Agents.{new_agent_uri, add_agent, normalize_agent_name_key}
use moltenhub.Store.Agents.Binds.{
  redeem_bind_token, redeem, bind_agent, trust_host, host_edge, use_bind, find_bind, edge_id_for,
}
use moltenhub.Store.Agents.Retire.{
  revoke_agent, close_agent, delete_agent, delete_agent_trusts, delete_agent_queues, archive_agent,
  drop_pairs, touches,
}
use moltenhub.Store.Trust.Edge.{pair_key}
use moltenhub.Store.Trust.Request.{is_missing}
use moltenhub.Store.Trust.RevokeAgent.{revoke_agent_trusts-IsTrusted}
use moltenhub.Store.Trust.Consent.{IsConsistent}
use moltenhub.Store.Trust.Graph.{IsGraph, insert-IsGraph}
use moltenhub.Store.Trust.Safety.{IsTrusted, IsFresh, trusts-append_audit}

-- What the loop over the removed edges leaves in the index was there.
drop_pairs-le :
    (uuid : Text) (edges : Dict TrustEdge) (by_pair : Dict Text) (key id : Text)
    → get (drop_pairs uuid edges by_pair) key ≡ some id
    → get by_pair key ≡ some id
unfolding drop_pairs
drop_pairs-le uuid [] by_pair key id h = h
drop_pairs-le uuid ((k, e) ∷ edges) by_pair key id h = ground (
  arith,
  drop_pairs-le uuid edges by_pair key id,
  get-remove (drop_pairs uuid edges by_pair) (pair_key e.left_id e.right_id) key,
)

-- It forgets the pair of every edge of the agent.
drop_pairs-touches :
    (uuid : Text) (edges : Dict TrustEdge) (by_pair : Dict Text) (id : Text) (e : TrustEdge)
    → get edges id ≡ some e
    → touches uuid e ≡ true
    → get (drop_pairs uuid edges by_pair) (pair_key e.left_id e.right_id) ≡ none
unfolding drop_pairs get
drop_pairs-touches uuid [] by_pair id e h t = absurd cc
drop_pairs-touches uuid ((k, f) ∷ edges) by_pair id e h t = elim (Bool-cases (text_eq k id)) [
  | inl same ↦
      let it : f ≡ e = ground arith in
      let key = pair_key e.left_id e.right_id in
      rw (it, t) (get-remove_self (drop_pairs uuid edges by_pair) key)
  | inr other ↦
      let gone = drop_pairs-touches uuid edges by_pair id e (ground arith) t in
      let key = pair_key e.left_id e.right_id in
      ground (arith, get-remove (drop_pairs uuid edges by_pair) (pair_key f.left_id f.right_id) key)
]

delete-IsGraph :
    (uuid : Text) (edges : Dict TrustEdge) (by_pair : Dict Text)
    → IsGraph edges by_pair
    → IsGraph (delete_where (touches uuid) edges) (drop_pairs uuid edges by_pair)
delete-IsGraph uuid edges by_pair g = record {
  keyed = λ id e h. g.keyed id e (kept id e h);
  consistent = λ id e h. g.consistent id e (kept id e h);
  indexed = λ key id h.
      let (e, found, joins) = g.indexed key id (drop_pairs-le uuid edges by_pair key id h) in
      elim (Bool-cases (touches uuid e)) [
        | inl gone ↦
            let out = drop_pairs-touches uuid edges by_pair id e found gone in
            absurd (clash (sym (ap (get (drop_pairs uuid edges by_pair)) joins) ∙ out) h)
        | inr stays ↦ (e, ground (arith, get-delete_where (touches uuid) edges id), joins)
      ];
}
  where
    kept :
        (id : Text) (e : TrustEdge)
        → get (delete_where (touches uuid) edges) id ≡ some e
        → get edges id ≡ some e
    kept id e h = elim (Option-cases (get edges id)) [
      | inl missing ↦ absurd (ground (arith, get-delete_where (touches uuid) edges id))
      | inr (f, found) ↦ ground (arith, get-delete_where (touches uuid) edges id)
    ]

    clash : {o : Option Text} {id : Text} → o ≡ none → o ≡ some id → ⊥
    clash a b = cc

pub delete_agent-IsTrusted :
    (uuid actor : Text) (now : Time) (super : Bool) (s : MemoryStore)
    → IsTrusted s.trusts
    → IsTrusted (delete_agent uuid actor now super s).1.trusts
unfolding delete_agent delete_agent_trusts delete_agent_queues archive_agent
delete_agent-IsTrusted uuid actor now super s t = elim (Option-cases (get s.agents uuid)) [
  | inl missing ↦ rw (missing, delete_agent) t
  | inr (a, found) ↦ elim (Bool-cases (not super && not (can_delete_agent s.directory a actor))) [
    | inl denied ↦ rw (found, delete_agent) (rw (denied, delete_agent) t)
    | inr granted ↦
        rw (found, delete_agent)
          (rw (granted, delete_agent)
            (simp trusts-append_audit (record {
              org_graph = t.org_graph;
              agent_graph = delete-IsGraph uuid s.agent_trusts s.agent_trust_by_pair t.agent_graph;
            })))
  ]
]

pub revoke_agent-IsTrusted :
    (uuid actor : Text) (now : Time) (super : Bool) (s : MemoryStore)
    → IsTrusted s.trusts
    → IsTrusted (revoke_agent uuid actor now super s).1.trusts
unfolding revoke_agent purge_agent_queues close_agent
revoke_agent-IsTrusted uuid actor now super s t = elim (Option-cases (get s.agents uuid)) [
  | inl missing ↦ rw (missing, revoke_agent) t
  | inr (a, found) ↦ elim (Bool-cases (not super && not (can_manage_agent s.directory a actor))) [
    | inl denied ↦ rw (found, revoke_agent) (rw (denied, revoke_agent) t)
    | inr granted ↦ elim (Bool-cases (is_revoked a.status)) [
      | inl already ↦
          rw (found, revoke_agent) (rw (granted, revoke_agent) (rw (already, revoke_agent) t))
      | inr live ↦
          rw (found, revoke_agent)
            (rw (granted, revoke_agent)
              (rw (live, revoke_agent)
                (simp trusts-append_audit
                  (revoke_agent_trusts-IsTrusted uuid now (close_agent uuid a now s) t))))
    ]
  ]
]

host_edge-IsConsistent :
    (id host uuid : Text) (now : Time) → IsConsistent (host_edge id host uuid now)
unfolding host_edge
host_edge-IsConsistent id host uuid now = record { consent = refl }

trust_host-IsTrusted :
    (id : Text) (b : BindToken) (a : Agent) (now : Time) (s : MemoryStore)
    → IsFresh s.trusts id
    → IsTrusted s.trusts
    → IsTrusted (trust_host id b a now s).trusts
unfolding trust_host
trust_host-IsTrusted id b a now s fresh t =
    let e = host_edge id b.host_agent_uuid a.agent_uuid now in
    simp trusts-append_audit (record {
      org_graph = t.org_graph;
      agent_graph =
          insert-IsGraph _ _ t.agent_graph id (pair_key e.left_id e.right_id) e fresh.fresh_agent
            (unfold host_edge in refl) refl
            (host_edge-IsConsistent id b.host_agent_uuid a.agent_uuid now);
    })

bind_agent-IsTrusted :
    (b : BindToken) (a : Agent) (id : Text) (now : Time) (s : MemoryStore)
    → (is_empty b.host_agent_uuid ≡ false → IsFresh s.trusts id)
    → IsTrusted s.trusts
    → IsTrusted (bind_agent b a id now s).trusts
unfolding bind_agent use_bind add_agent
bind_agent-IsTrusted b a id now s fresh t = elim (Bool-cases (is_empty b.host_agent_uuid)) [
  | inl alone ↦ elim (Bool-cases (is_empty b.org_id)) [
    | inl outside ↦ rw (alone, outside, bind_agent) (simp trusts-append_audit t)
    | inr inside ↦ rw (alone, inside, bind_agent) (simp trusts-append_audit t)
  ]
  | inr hosted ↦
      let joined = λ (u : MemoryStore) (same : u.trusts ≡ s.trusts).
        trust_host-IsTrusted id b a now u (rw same (fresh hosted)) (rw same t) in
      elim (Bool-cases (is_empty b.org_id)) [
        | inl outside ↦
            rw (hosted, outside, bind_agent) (joined _ (trusts-append_audit _ _ _ _ _ _ _ _))
        | inr inside ↦
            rw (hosted, inside, bind_agent)
              (simp trusts-append_audit (joined _ (trusts-append_audit _ _ _ _ _ _ _ _)))
      ]
]

redeem-IsTrusted :
    (b : BindToken) (agent_id token : Text) (now : Time) (drawn edge : Option Text)
    (s : MemoryStore)
    → ((id : Text) → edge ≡ some id → IsFresh s.trusts id)
    → IsTrusted s.trusts
    → IsTrusted (redeem b agent_id token now drawn edge s).1.trusts
unfolding redeem
redeem-IsTrusted b agent_id token now drawn edge s fresh t =
    elim (Result-cases
      (new_agent_uri s b.org_id b.owner_human_id (normalize_agent_name_key agent_id) true true)) [
        | inr (e, refused) ↦ rw (refused, redeem) t
        | inl (uri, free) ↦ elim (Option-cases drawn) [
          | inl failed ↦ rw (free, redeem) (rw (failed, redeem) t)
          | inr (uuid, drew) ↦ elim (Option-cases (edge_id_for b.host_agent_uuid edge)) [
            | inl failed ↦ rw (free, redeem) (rw (drew, redeem) (rw (failed, redeem) t))
            | inr (id, drew_edge) ↦
                rw (free, redeem)
                  (rw (drew, redeem)
                    (rw (drew_edge, redeem)
                      (bind_agent-IsTrusted b _ id now s (hosted id drew_edge) t)))
          ]
        ]
      ]
  where
    hosted :
        (id : Text)
        → edge_id_for b.host_agent_uuid edge ≡ some id
        → is_empty b.host_agent_uuid ≡ false
        → IsFresh s.trusts id
    hosted id drew h = fresh id (unfold edge_id_for in ground arith)

pub redeem_bind_token-IsTrusted :
    (hash agent_id token : Text) (now : Time) (drawn edge : Option Text) (s : MemoryStore)
    → ((id : Text) → edge ≡ some id → IsFresh s.trusts id)
    → IsTrusted s.trusts
    → IsTrusted (redeem_bind_token hash agent_id token now drawn edge s).1.trusts
unfolding redeem_bind_token
redeem_bind_token-IsTrusted hash agent_id token now drawn edge s fresh t =
    elim (Option-cases (find_bind s hash)) [
      | inl missing ↦ rw (missing, redeem_bind_token) t
      | inr (b, found) ↦ elim (Bool-cases (not (is_missing b.used_at))) [
        | inl used ↦ rw (found, redeem_bind_token) (rw (used, redeem_bind_token) t)
        | inr unused ↦ elim (Bool-cases (is_after now b.expires_at)) [
          | inl late ↦
              rw (found, redeem_bind_token)
                (rw (unused, redeem_bind_token) (rw (late, redeem_bind_token) t))
          | inr timely ↦
              rw (found, redeem_bind_token)
                (rw (unused, redeem_bind_token)
                  (rw (timely, redeem_bind_token)
                    (redeem-IsTrusted b agent_id token now drawn edge s fresh t)))
        ]
      ]
    ]
