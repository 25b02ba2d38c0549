-- ===== src/Store/Agents/Once/History.antt =====
-- Bind tokens over a history of the store.
use moltenhub.Base.{
  ◌≡◌, refl, sym, ap, subst, ◌∙◌, inl, inr, ◌⊎◌, Bool, true, not, Option, none, some, [],
  Bool-cases, Option-cases, is_empty,
}
use moltenhub.Base.Text.{Text, trim_space}
use moltenhub.Base.Dict.{get}
use moltenhub.Model.{Agent, BindToken}
use moltenhub.Model.Clock.{Time}
use moltenhub.Store.State.{
  MemoryStore, Error, bind_not_found, bind_expired, id_failed, Registry, new_memory_store, Outcome,
  ok, err, err_not_ok, bind_used, Result-cases,
}
use moltenhub.Store.Audit.Frame.{audit_frame}
use moltenhub.Store.Queue.{live_agent}
use moltenhub.Store.Invites.{is_after}
use moltenhub.Store.Trust.Request.{is_missing}
use moltenhub.Store.Agents.{new_agent_uri, new_agent, add_agent, normalize_agent_name_key}
use moltenhub.Store.Agents.Binds.{
  create_bind_token, create_agent_invite_bind_token, redeem_bind_token, redeem, use_bind, find_bind,
  new_bind, bind_refusal, edge_id_for,
}
use moltenhub.Store.Agents.Once.{
  IsKeyed, Spent, Keeps, Keeps-same, Keeps-trans, store_bind-Keeps, use_bind-Keeps, add_agent-Keeps,
  bind_agent-registry, find_bind_lem, use_bind-Spent, add_agent-bind_by_hash,
}

Keeps-refl : (r : Registry) → Keeps r r
Keeps-refl r = Keeps-same r r refl refl

create_bind_token-Keeps :
    (org_id : Text) (owner : Option Text) (actor id hash : Text) (expires now : Time) (super : Bool)
    (s : MemoryStore)
    → get s.binds id ≡ none
    → Keeps s.registry (create_bind_token org_id owner actor id hash expires now super s).1.registry
unfolding create_bind_token new_bind
create_bind_token-Keeps org_id owner actor id hash expires now super s fresh =
    elim (Option-cases (bind_refusal s org_id owner actor super)) [
      | inr (e, refused) ↦ rw (refused, create_bind_token) (Keeps-refl s.registry)
      | inl granted ↦ elim (Option-cases (get s.bind_by_hash hash)) [
        | inr (other, known) ↦
            rw (granted, create_bind_token) (rw (known, create_bind_token) (Keeps-refl s.registry))
        | inl new ↦
            let b = new_bind id org_id owner [] hash actor expires now in
            let stored = store_bind-Keeps b s fresh new in
            elim (Bool-cases (is_empty org_id)) [
              | inl outside ↦
                  rw (granted, create_bind_token)
                    (rw (new, create_bind_token) (rw (outside, create_bind_token) stored))
              | inr inside ↦
                  rw (granted, create_bind_token)
                    (rw (new, create_bind_token)
                      (rw (inside, create_bind_token) (simp audit_frame stored)))
            ]
      ]
    ]

create_agent_invite_bind_token-Keeps :
    (host id hash : Text) (expires now : Time) (s : MemoryStore)
    → get s.binds id ≡ none
    → Keeps s.registry (create_agent_invite_bind_token host id hash expires now s).1.registry
unfolding create_agent_invite_bind_token new_bind
create_agent_invite_bind_token-Keeps host_id id hash expires now s fresh =
    elim (Option-cases (live_agent s.agents (trim_space host_id))) [
      | inl nobody ↦ rw (nobody, create_agent_invite_bind_token) (Keeps-refl s.registry)
      | inr (host, found) ↦ elim (Bool-cases (is_empty (trim_space host.host_agent_uuid))) [
        | inr hosted ↦
            rw (found, create_agent_invite_bind_token)
              (rw (hosted, create_agent_invite_bind_token) (Keeps-refl s.registry))
        | inl free ↦ elim (Option-cases (get s.bind_by_hash hash)) [
          | inr (other, known) ↦
              rw (found, create_agent_invite_bind_token)
                (rw (free, create_agent_invite_bind_token)
                  (rw (known, create_agent_invite_bind_token) (Keeps-refl s.registry)))
          | inl new ↦
              let b =
                new_bind id host.org_id none host.agent_uuid hash host.agent_uuid expires now in
              let stored = store_bind-Keeps b s fresh new in
              elim (Bool-cases (is_empty host.org_id)) [
                | inl outside ↦
                    rw (found, create_agent_invite_bind_token)
                      (rw (free, create_agent_invite_bind_token)
                        (rw (new, create_agent_invite_bind_token)
                          (rw (outside, create_agent_invite_bind_token) stored)))
                | inr inside ↦
                    rw (found, create_agent_invite_bind_token)
                      (rw (free, create_agent_invite_bind_token)
                        (rw (new, create_agent_invite_bind_token)
                          (rw (inside, create_agent_invite_bind_token) (simp audit_frame stored))))
              ]
        ]
      ]
    ]

-- A redemption fails and leaves the store, or spends the token for a new agent.
redeemed :
    (b : BindToken) (agent_id token : Text) (now : Time) (drawn edge : Option Text)
    (s : MemoryStore)
    → ((x : Error) × (redeem b agent_id token now drawn edge s ≡ (err x, s)))
      ⊎ ((a : Agent) × ((redeem b agent_id token now drawn edge s).1.registry
            ≡ (use_bind b now (add_agent a s)).registry))
unfolding redeem
redeemed b agent_id token now drawn edge s =
    elim (Result-cases
      (new_agent_uri s b.org_id b.owner_human_id (normalize_agent_name_key agent_id) true true)) [
        | inr (e, refused) ↦ inl (e, rw (refused, redeem) refl)
        | inl (uri, free) ↦ elim (Option-cases drawn) [
          | inl failed ↦ inl (id_failed, rw (free, redeem) (rw (failed, redeem) refl))
          | inr (uuid, drew) ↦ elim (Option-cases (edge_id_for b.host_agent_uuid edge)) [
            | inl failed ↦
                inl (id_failed, rw (free, redeem) (rw (drew, redeem) (rw (failed, redeem) refl)))
            | inr (id, drew_edge) ↦
                let a =
                  new_agent uuid uri (normalize_agent_name_key agent_id) none b.org_id
                    b.owner_human_id b.host_agent_uuid token b.created_by now in
                inr (
                  a,
                  rw (free, redeem)
                      (rw (drew, redeem)
                        (rw (drew_edge, redeem) (bind_agent-registry b a id now s))),
                )
          ]
        ]
      ]

-- The same for `RedeemBindToken`, which finds the token first.
redeemed_token :
    (hash agent_id token : Text) (now : Time) (drawn edge : Option Text) (s : MemoryStore)
    → ((x : Error) × (redeem_bind_token hash agent_id token now drawn edge s ≡ (err x, s)))
      ⊎ ((b : BindToken) × (a : Agent) × (find_bind s hash ≡ some b)
          × ((redeem_bind_token hash agent_id token now drawn edge s).1.registry
              ≡ (use_bind b now (add_agent a s)).registry))
unfolding redeem_bind_token
redeemed_token hash agent_id token now drawn edge s = elim (Option-cases (find_bind s hash)) [
  | inl missing ↦ inl (bind_not_found, rw (missing, redeem_bind_token) refl)
  | inr (b, found) ↦ elim (Bool-cases (not (is_missing b.used_at))) [
    | inl used ↦ inl (bind_used, rw (found, redeem_bind_token) (rw (used, redeem_bind_token) refl))
    | inr unused ↦ elim (Bool-cases (is_after now b.expires_at)) [
      | inl late ↦ inl (
        bind_expired,
        rw (found, redeem_bind_token)
            (rw (unused, redeem_bind_token) (rw (late, redeem_bind_token) refl)),
      )
      | inr timely ↦ elim (redeemed b agent_id token now drawn edge s) [
        | inl (x, refused) ↦ inl (
          x,
          rw (found, redeem_bind_token)
              (rw (unused, redeem_bind_token) (rw (timely, redeem_bind_token) refused)),
        )
        | inr (a, spends) ↦ inr (
          b,
          a,
          found,
          rw (found, redeem_bind_token)
              (rw (unused, redeem_bind_token) (rw (timely, redeem_bind_token) spends)),
        )
      ]
    ]
  ]
]

spends-Keeps :
    (b : BindToken) (a : Agent) (now : Time) (s : MemoryStore)
    → Keeps s.registry (use_bind b now (add_agent a s)).registry
spends-Keeps b a now s =
    Keeps-trans s.registry (add_agent a s).registry _ (add_agent-Keeps a s)
      (use_bind-Keeps b now (add_agent a s))

redeem_bind_token-Keeps :
    (hash agent_id token : Text) (now : Time) (drawn edge : Option Text) (s : MemoryStore)
    → Keeps s.registry (redeem_bind_token hash agent_id token now drawn edge s).1.registry
redeem_bind_token-Keeps hash agent_id token now drawn edge s =
    elim (redeemed_token hash agent_id token now drawn edge s) [
      | inl (x, refused) ↦
          subst (λ (u : MemoryStore). Keeps s.registry u.registry) (sym (ap (λ o. o.1) refused))
            (Keeps-refl s.registry)
      | inr (b, a, found, spends) ↦
          subst (λ (r : Registry). Keeps s.registry r) (sym spends) (spends-Keeps b a now s)
    ]

-- The operations on bind tokens, and any that leave the tokens; `DeleteOrg`, which deletes the
-- tokens of its organization, is no step. The ids of new tokens are fresh, as the handlers draw
-- them.
pub data BindStep (s : MemoryStore) : MemoryStore → Type 0 where
  creates :
      (org_id : Text) (owner : Option Text) (actor id hash : Text) (expires now : Time)
      (super : Bool)
      → get s.binds id ≡ none
      → BindStep s (create_bind_token org_id owner actor id hash expires now super s).1
  invites_agent :
      (host id hash : Text) (expires now : Time)
      → get s.binds id ≡ none
      → BindStep s (create_agent_invite_bind_token host id hash expires now s).1
  redeems :
      (hash agent_id token : Text) (now : Time) (drawn edge : Option Text)
      → BindStep s (redeem_bind_token hash agent_id token now drawn edge s).1
  elsewhere : (t : MemoryStore) → t.binds ≡ s.binds → t.bind_by_hash ≡ s.bind_by_hash → BindStep s t

pub data BindReach (s : MemoryStore) : MemoryStore → Type 0 where
  here : BindReach s s
  next : {t u : MemoryStore} → BindReach s t → BindStep t u → BindReach s u

BindStep-Keeps : {s t : MemoryStore} → BindStep s t → Keeps s.registry t.registry
BindStep-Keeps {s} (creates org_id owner actor id hash expires now super fresh) =
    create_bind_token-Keeps org_id owner actor id hash expires now super s fresh
BindStep-Keeps {s} (invites_agent host id hash expires now fresh) =
    create_agent_invite_bind_token-Keeps host id hash expires now s fresh
BindStep-Keeps {s} (redeems hash agent_id token now drawn edge) =
    redeem_bind_token-Keeps hash agent_id token now drawn edge s
BindStep-Keeps {s} (elsewhere t e f) = Keeps-same s.registry t.registry e f

BindReach-Keeps : {s t : MemoryStore} → BindReach s t → Keeps s.registry t.registry
BindReach-Keeps {s} here = Keeps-refl s.registry
BindReach-Keeps {s} (next {t} {u} r st) =
    Keeps-trans s.registry t.registry u.registry (BindReach-Keeps r) (BindStep-Keeps st)

new_memory_store-IsKeyed : IsKeyed new_memory_store.registry
unfolding new_memory_store get
new_memory_store-IsKeyed id b h = cc

-- A token that has been redeemed is spent.
redeem_bind_token-Spent :
    (hash agent_id token : Text) (now : Time) (drawn edge : Option Text) (s t : MemoryStore)
    (new : Agent)
    → IsKeyed s.registry
    → redeem_bind_token hash agent_id token now drawn edge s ≡ (ok new, t)
    → Spent t.registry hash
redeem_bind_token-Spent hash agent_id token now drawn edge s t new keyed h =
    elim (redeemed_token hash agent_id token now drawn edge s) [
      | inl (x, refused) ↦ absurd (err_not_ok (sym (ap (λ o. o.0) refused) ∙ ap (λ o. o.0) h))
      | inr (b, a, found, spends) ↦
          let (id, at, held) = find_bind_lem s hash b found in
          subst (λ (r : Registry). Spent r hash)
            (sym spends ∙ ap (λ (o : Outcome Agent). o.1.registry) h)
            (use_bind-Spent b now (add_agent a s) hash id
              (ap (λ m. get m hash) (add_agent-bind_by_hash a s) ∙ at) (keyed id b held))
    ]

refuses-Spent :
    (hash agent_id token : Text) (now : Time) (drawn edge : Option Text) (s : MemoryStore)
    → Spent s.registry hash
    → redeem_bind_token hash agent_id token now drawn edge s ≡ (err bind_used, s)
unfolding redeem_bind_token find_bind
refuses-Spent hash agent_id token now drawn edge s (id, b, at, found, used) =
    rw (at, redeem_bind_token, find_bind)
      (rw (found, redeem_bind_token) (rw (used, redeem_bind_token) refl))

-- A bind token is redeemed at most once. Take any history of bind tokens that are created, each
-- under a fresh id, and redeemed, with other operations in between that leave the tokens, as all do
-- but the deletion of an organization, which deletes its tokens. Once a token has been redeemed in
-- it, every further attempt is refused as a token already used and leaves the store as it is.
pub redeem_bind_token-once :
    {s t u : MemoryStore} (hash agent_id token : Text) (now : Time) (drawn edge : Option Text)
    (new : Agent)
    → BindReach new_memory_store s
    → redeem_bind_token hash agent_id token now drawn edge s ≡ (ok new, t)
    → BindReach t u
    → (other_id other_token : Text) (later : Time) (other_drawn other_edge : Option Text)
    → redeem_bind_token hash other_id other_token later other_drawn other_edge u
      ≡ (err bind_used, u)
redeem_bind_token-once {s} {t} {u} hash agent_id token now drawn edge new before h after other_id
      other_token later other_drawn other_edge =
    let keyed = (BindReach-Keeps before).keeps_keyed new_memory_store-IsKeyed in
    let spent = redeem_bind_token-Spent hash agent_id token now drawn edge s t new keyed h in
    refuses-Spent hash other_id other_token later other_drawn other_edge u
      ((BindReach-Keeps after).keeps_spent hash spent)
