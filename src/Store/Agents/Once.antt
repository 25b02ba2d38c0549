-- ===== src/Store/Agents/Once.antt =====
-- Bind tokens that have been redeemed, and what the operations on tokens and agents do to them.
pub mod History
use moltenhub.Base.{
  ◌≡◌, refl, sym, ap, subst, ◌∙◌, inl, inr, Bool, true, false, not, Option, none, some, [], ◌∷◌,
  arith, Bool-cases, Option-cases, if◌then◌else◌, is_empty,
}
use moltenhub.Base.Text.{Text, text_eq, text_eq_iff, trim_space}
use moltenhub.Base.Dict.{Dict, get, put, get-put, get-put_self}
use moltenhub.Model.{Agent, BindToken}
use moltenhub.Model.Clock.{Time}
use moltenhub.Store.State.{
  MemoryStore, Registry, new_memory_store, Result, Outcome, ok, err, err_not_ok, bind_used,
  Result-cases, passed, settled,
}
use moltenhub.Store.Audit.{append_audit}
use moltenhub.Store.Audit.Frame.{audit_frame}
use moltenhub.Store.Queue.{live_agent}
use moltenhub.Store.Invites.{is_after}
use moltenhub.Store.Trust.Request.{is_missing}
use moltenhub.Store.Agents.{
  new_agent_uri, new_agent, add_agent, index_name, normalize_agent_name_key,
}
use moltenhub.Store.Agents.Binds.{
  create_bind_token, create_agent_invite_bind_token, redeem_bind_token, redeem, bind_agent,
  trust_host, use_bind, find_bind, store_bind, new_bind, bind_refusal, edge_id_for,
}

abbrev pub IsKeyed : Registry → Type 0
IsKeyed r = (id : Text) (b : BindToken) → get r.binds id ≡ some b → b.bind_id ≡ id

-- The token of the hash is there, and used.
abbrev pub Spent : Registry → Text → Type 0
Spent r hash =
    (id : Text) × (b : BindToken) × (get r.bind_by_hash hash ≡ some id)
    × (get r.binds id ≡ some b)
    × (is_missing b.used_at ≡ false)

-- From one registry to the next, tokens stay under their ids and spent ones stay spent.
pub record Keeps (r q : Registry) : Type 0 where
  pub keeps_keyed : IsKeyed r → IsKeyed q
  pub keeps_spent : (hash : Text) → Spent r hash → Spent q hash

pub Keeps-same : (r q : Registry) → q.binds ≡ r.binds → q.bind_by_hash ≡ r.bind_by_hash → Keeps r q
Keeps-same r q e f = record { keeps_keyed = λ k. rw e k; keeps_spent = λ hash h. rw (e, f) h }

-- A new token under a new id and a new hash.
pub store_bind-Keeps :
    (b : BindToken) (s : MemoryStore)
    → get s.binds b.bind_id ≡ none
    → get s.bind_by_hash b.token_hash ≡ none
    → Keeps s.registry (store_bind b s).registry
unfolding store_bind
store_bind-Keeps b s fresh new = record {
  keeps_keyed = λ k id c h. elim (Bool-cases (text_eq b.bind_id id)) [
    | inl same ↦ ground (arith, get-put s.binds b.bind_id id b, text_eq_iff b.bind_id id)
    | inr other ↦ k id c (ground (arith, get-put s.binds b.bind_id id b))
  ];
  keeps_spent = λ hash (id, c, at, found, used). (
    id,
    c,
    ground
        (arith, get-put s.bind_by_hash b.token_hash hash b.bind_id, text_eq_iff b.token_hash hash),
    ground (arith, get-put s.binds b.bind_id id b, text_eq_iff b.bind_id id),
    used,
  );
}

pub use_bind-Keeps :
    (b : BindToken) (now : Time) (s : MemoryStore) → Keeps s.registry (use_bind b now s).registry
unfolding use_bind
use_bind-Keeps b now s = record {
  keeps_keyed = λ k id c h. elim (Bool-cases (text_eq b.bind_id id)) [
    | inl same ↦
        let it : record b { used_at = some now } ≡ c =
          ground (arith, get-put s.binds b.bind_id id (record b { used_at = some now })) in
        ap (λ (x : BindToken). x.bind_id) (sym it) ∙ (text_eq_iff b.bind_id id).0 same
    | inr other ↦
        k id c (ground (arith, get-put s.binds b.bind_id id (record b { used_at = some now })))
  ];
  keeps_spent = λ hash (id, c, at, found, used). elim (Bool-cases (text_eq b.bind_id id)) [
    | inl same ↦ (
      id,
      record b { used_at = some now },
      at,
      ground (arith, get-put s.binds b.bind_id id (record b { used_at = some now })),
      refl,
    )
    | inr other ↦ (
      id,
      c,
      at,
      ground (arith, get-put s.binds b.bind_id id (record b { used_at = some now })),
      used,
    )
  ];
}

pub Keeps-trans : (r q p : Registry) → Keeps r q → Keeps q p → Keeps r p
Keeps-trans r q p a b = record {
  keeps_keyed = λ k. b.keeps_keyed (a.keeps_keyed k);
  keeps_spent = λ hash h. b.keeps_spent hash (a.keeps_spent hash h);
}

index_name-binds :
    (a : Agent) (id : Text) (r : Registry)
    → ((index_name a id r).binds ≡ r.binds) × ((index_name a id r).bind_by_hash ≡ r.bind_by_hash)
unfolding index_name
index_name-binds a id r = elim (Option-cases a.owner_human_id) [
  | inl none_owns ↦ rw (none_owns, index_name) (refl, refl)
  | inr (owner, owned) ↦ rw (owned, index_name) (refl, refl)
]

pub add_agent-Keeps : (a : Agent) (s : MemoryStore) → Keeps s.registry (add_agent a s).registry
unfolding add_agent
add_agent-Keeps a s = let (e, f) = index_name-binds a a.agent_uuid _ in Keeps-same s.registry _ e f

pub add_agent-bind_by_hash :
    (a : Agent) (s : MemoryStore) → (add_agent a s).bind_by_hash ≡ s.bind_by_hash
unfolding add_agent
add_agent-bind_by_hash a s = (index_name-binds a a.agent_uuid _).1

pub use_bind-Spent :
    (b : BindToken) (now : Time) (s : MemoryStore) (hash id : Text)
    → get s.bind_by_hash hash ≡ some id
    → b.bind_id ≡ id
    → Spent (use_bind b now s).registry hash
unfolding use_bind
use_bind-Spent b now s hash id at own = (
  b.bind_id,
  record b { used_at = some now },
  at ∙ ap some (sym own),
  get-put_self s.binds b.bind_id (record b { used_at = some now }),
  refl,
)

pub find_bind_lem :
    (s : MemoryStore) (hash : Text) (b : BindToken)
    → find_bind s hash ≡ some b
    → (id : Text) × (get s.bind_by_hash hash ≡ some id) × (get s.binds id ≡ some b)
unfolding find_bind
find_bind_lem s hash b h = elim (Option-cases (get s.bind_by_hash hash)) [
  | inl missing ↦ absurd (ground arith)
  | inr (id, at) ↦ (id, at, rw (at, find_bind) at h)
]

-- What a redeemed token leaves of the registry.
pub bind_agent-registry :
    (b : BindToken) (a : Agent) (edge_id : Text) (now : Time) (s : MemoryStore)
    → (bind_agent b a edge_id now s).registry ≡ (use_bind b now (add_agent a s)).registry
unfolding bind_agent trust_host
bind_agent-registry b a edge_id now s = elim (Bool-cases (is_empty b.host_agent_uuid)) [
  | inl alone ↦ elim (Bool-cases (is_empty b.org_id)) [
    | inl outside ↦ rw (alone, outside, bind_agent) (simp audit_frame)
    | inr inside ↦ rw (alone, inside, bind_agent) (simp audit_frame)
  ]
  | inr hosted ↦ elim (Bool-cases (is_empty b.org_id)) [
    | inl outside ↦ rw (hosted, outside, bind_agent) (simp audit_frame)
    | inr inside ↦ rw (hosted, inside, bind_agent) (simp audit_frame)
  ]
]
