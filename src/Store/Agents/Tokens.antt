-- ===== src/Store/Agents/Tokens.antt =====
-- Which agent a token stands for, after a token is rotated and after an agent is revoked or added.
use moltenhub.Base.{
  ◌≡◌, refl, sym, ap, subst, ◌∙◌, ◌≢◌, inl, inr, Bool, true, false, not, ◌&&◌, none, some, [], ◌∷◌,
  arith, Option-cases,
}
use moltenhub.Base.Text.{Text, text, text_eq}
use moltenhub.Base.Dict.{Dict, get, put, remove, get-put, get-put_self, get-remove_self}
use moltenhub.Model.{Agent, TrustEdge, revoked}
use moltenhub.Model.Value.{Metadata, string}
use moltenhub.Model.Clock.{Time}
use moltenhub.Store.State.{
  MemoryStore, Trusts, Result, ok, err, err_not_ok, invalid_token, passed, settled,
}
use moltenhub.Store.Roles.{can_manage_agent, is_active}
use moltenhub.Store.Audit.{append_audit}
use moltenhub.Store.Audit.Agents.{SameAgents, agents-append_audit}
use moltenhub.Store.Queue.{live_agent, is_revoked}
use moltenhub.Store.Queue.Purge.{purge_agent_queues}
use moltenhub.Store.Trust.Safety.{trusts-append_audit}
use moltenhub.Store.Trust.Decide.{close_edge}
use moltenhub.Store.Trust.RevokeAgent.{
  revoke_agent_trusts, revoke_agent_edges, revoke_agent_edge, get-revoke_agent_edges,
}
use moltenhub.Store.Agents.{agent_uuid_for_token_hash}
use moltenhub.Store.Agents.Retire.{
  rotate_agent_token, replace_token, revoke_agent, close_agent, touches,
}
use moltenhub.Store.Agents.Names.Steps.{live_agent_lem}

SameAgents-live :
    (old new : Dict Agent) (id : Text) (a : Agent)
    → SameAgents old new
    → get old id ≡ some a
    → is_revoked a.status ≡ false
    → (b : Agent) × (live_agent new id ≡ some b)
unfolding live_agent
SameAgents-live old new id a same found live =
    let (m, e) = same.stays id a found in
    (record a { metadata = m }, rw (e, live_agent) (rw live refl))

SameAgents-revoked :
    (old new : Dict Agent) (id : Text) (a : Agent)
    → SameAgents old new
    → get old id ≡ some a
    → is_revoked a.status ≡ true
    → live_agent new id ≡ none
unfolding live_agent
SameAgents-revoked old new id a same found dead =
    let (m, e) = same.stays id a found in rw (e, live_agent) (rw dead refl)

authenticated :
    (token id : Text) (a : Agent) (s : MemoryStore)
    → get s.agent_token_idx token ≡ some id
    → live_agent s.agents id ≡ some a
    → agent_uuid_for_token_hash token s ≡ ok id
unfolding agent_uuid_for_token_hash
authenticated token id a s at live =
    rw (at, agent_uuid_for_token_hash) (rw (live, agent_uuid_for_token_hash) refl)

not_indexed :
    (token : Text) (s : MemoryStore)
    → get s.agent_token_idx token ≡ none
    → agent_uuid_for_token_hash token s ≡ err invalid_token
unfolding agent_uuid_for_token_hash
not_indexed token s missing = rw (missing, agent_uuid_for_token_hash) refl

-- What a successful rotation leaves.
rotated :
    (id actor token : Text) (now : Time) (super : Bool) (s t : MemoryStore)
    → rotate_agent_token id actor token now super s ≡ (ok tt, t)
    → (a : Agent) × (get s.agents id ≡ some a)
      × (is_revoked a.status ≡ false)
      × (t.agent_token_idx ≡ put (remove s.agent_token_idx a.token_hash) token id)
      × SameAgents (put s.agents id (record a { token_hash = token })) t.agents
unfolding rotate_agent_token replace_token append_audit
rotated id actor token now super s t h = elim (Option-cases (live_agent s.agents id)) [
  | inl missing ↦ absurd (err_not_ok (ap (λ p. p.0) (rw (missing, rotate_agent_token) at h)))
  | inr (a, found) ↦
      let (at, live) = live_agent_lem s.agents id a found in
      let open_ = rw (found, rotate_agent_token) at h in
      let (_, done) =
        passed (not super && not (can_manage_agent s.directory a actor)) _ _ _ open_ in
      let (_, left) = settled done in
      (
        a,
        at,
        live,
        ap (λ (u : MemoryStore). u.agent_token_idx) (sym left),
        subst
            (λ (u : MemoryStore).
              SameAgents (put s.agents id (record a { token_hash = token })) u.agents)
            left
            (agents-append_audit a.org_id actor (text "agent") (text "rotate_token") id
              ((text "agent_id", string a.agent_id) ∷ []) now (replace_token id token a s)),
      )
]

-- After a token has been rotated, the new one stands for the agent and the old one, if it is
-- another, for nobody.
pub rotate_agent_token-authenticates :
    (id actor token : Text) (now : Time) (super : Bool) (s t : MemoryStore) (a : Agent)
    → get s.agents id ≡ some a
    → rotate_agent_token id actor token now super s ≡ (ok tt, t)
    → (agent_uuid_for_token_hash token t ≡ ok id)
      × (text_eq token a.token_hash ≡ false
          → agent_uuid_for_token_hash a.token_hash t ≡ err invalid_token)
rotate_agent_token-authenticates id actor token now super s t a at h =
    let (b, found, live, index, same) = rotated id actor token now super s t h in
    let it : b ≡ a = cc in
    let (c, there) =
      SameAgents-live _ _ id (record b { token_hash = token }) same (get-put_self s.agents id _)
        live in
    (
      authenticated token id c t
          (ap (λ m. get m token) index
            ∙ get-put_self (remove s.agent_token_idx b.token_hash) token id)
          there,
      λ other. not_indexed a.token_hash t (
          ap (λ m. get m a.token_hash) index
          ∙ gone b.token_hash a.token_hash (ap (λ (x : Agent). x.token_hash) it) other),
    )
  where
    gone :
        (old hash : Text)
        → old ≡ hash
        → text_eq token hash ≡ false
        → get (put (remove s.agent_token_idx old) token id) hash ≡ none
    gone old hash e other = ground (
      arith,
      get-put (remove s.agent_token_idx old) token hash id,
      get-remove_self s.agent_token_idx hash,
    )

audit-revoked :
    (side actor category action subject : Text) (details : Metadata) (now : Time) (s : MemoryStore)
    (id : Text) (a : Agent)
    → get s.agents id ≡ some a
    → is_revoked a.status ≡ true
    → live_agent (append_audit side actor category action subject details now s).agents id ≡ none
audit-revoked side actor category action subject details now s id a found dead =
    SameAgents-revoked _ _ id a
      (agents-append_audit side actor category action subject details now s) found dead

-- What is left of an agent that has been revoked.
cut :
    (id actor : Text) (now : Time) (super : Bool) (s t : MemoryStore) (a : Agent)
    → get s.agents id ≡ some a
    → is_revoked a.status ≡ false
    → revoke_agent id actor now super s ≡ (ok tt, t)
    → (live_agent t.agents id ≡ none) × (t.agent_trusts ≡ revoke_agent_edges id now s.agent_trusts)
unfolding revoke_agent purge_agent_queues revoke_agent_trusts close_agent
cut id actor now super s t a found live h =
    let granted = rw (found, revoke_agent) at h in
    let (_, done) =
      passed (not super && not (can_manage_agent s.directory a actor)) _ _ _ granted in
    let (_, left) = settled (rw (live, revoke_agent) at done) in
    (
      subst (λ (u : MemoryStore). live_agent u.agents id ≡ none) left
          (audit-revoked _ _ _ _ _ _ _ _ id (record a { status = revoked; revoked_at = some now })
            (get-put_self s.agents id _) refl),
      sym (ap (λ (u : MemoryStore). u.agent_trusts) left)
          ∙ ap (λ (u : Trusts). u.agent_trusts) (trusts-append_audit _ _ _ _ _ _ _ _),
    )

revoked_edge :
    (uuid : Text) (now : Time) (e : TrustEdge)
    → touches uuid (revoke_agent_edge uuid now e) ≡ true
    → is_active (revoke_agent_edge uuid now e).state ≡ false
unfolding revoke_agent_edge touches close_edge
revoked_edge uuid now e h = ground arith

no_active_edge :
    (uuid : Text) (now : Time) (edges : Dict TrustEdge) (id : Text) (e : TrustEdge)
    → get (revoke_agent_edges uuid now edges) id ≡ some e
    → touches uuid e ≡ true
    → is_active e.state ≡ false
no_active_edge uuid now edges id e h t = elim (Option-cases (get edges id)) [
  | inl missing ↦ absurd (ground (arith, get-revoke_agent_edges uuid now edges id))
  | inr (old, found) ↦
      let same : revoke_agent_edge uuid now old ≡ e =
        ground (arith, get-revoke_agent_edges uuid now edges id) in
      subst (λ (x : TrustEdge). is_active x.state ≡ false) same
        (revoked_edge uuid now old (ap (touches uuid) same ∙ t))
]

-- Revoking an agent that was not revoked cuts it off: no token stands for it any more, it is no
-- longer a live agent, and no trust edge of its is active.
pub revoke_agent-cut_off :
    (id actor : Text) (now : Time) (super : Bool) (s t : MemoryStore) (a : Agent)
    → get s.agents id ≡ some a
    → is_revoked a.status ≡ false
    → revoke_agent id actor now super s ≡ (ok tt, t)
    → ((token : Text) → agent_uuid_for_token_hash token t ≢ ok id)
      × (live_agent t.agents id ≡ none)
      × ((edge_id : Text) (e : TrustEdge)
          → get t.agent_trusts edge_id ≡ some e
          → touches id e ≡ true
          → is_active e.state ≡ false)
unfolding agent_uuid_for_token_hash
revoke_agent-cut_off id actor now super s t a found live h =
    let (dead, edges) = cut id actor now super s t a found live h in
    (
      λ token hit. stranger token hit dead,
      dead,
      λ edge_id e at own.
          no_active_edge id now s.agent_trusts edge_id e (ap (λ m. get m edge_id) (sym edges) ∙ at)
            own,
    )
  where
    clash :
        (j : Text) (b : Agent)
        → ◌≡◌ {A = Result Text} (ok j) (ok id)
        → live_agent t.agents j ≡ some b
        → live_agent t.agents id ≡ none
        → ⊥
    clash j b same there dead = let e : j ≡ id = cc in absurd (ground arith)

    stranger :
        (token : Text)
        → agent_uuid_for_token_hash token t ≡ ok id
        → live_agent t.agents id ≡ none
        → ⊥
    stranger token hit dead = elim (Option-cases (get t.agent_token_idx token)) [
      | inl missing ↦ absurd (err_not_ok (rw (missing, agent_uuid_for_token_hash) at hit))
      | inr (j, at) ↦ elim (Option-cases (live_agent t.agents j)) [
        | inl nobody ↦ absurd (
            err_not_ok (
              rw (nobody, agent_uuid_for_token_hash) at
                (rw (at, agent_uuid_for_token_hash) at hit)))
        | inr (b, there) ↦
            let same =
              rw (there, agent_uuid_for_token_hash) at
                (rw (at, agent_uuid_for_token_hash) at hit) in
            clash j b same there dead
      ]
    ]
