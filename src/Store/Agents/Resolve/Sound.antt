-- ===== src/Store/Agents/Resolve/Sound.antt =====
-- What a reference to an agent resolves to.
use moltenhub.Base.{
  ◌≡◌, refl, sym, ap, subst, ◌∙◌, ◌⊎◌, inl, inr, Bool, true, false, ◌||◌, Option, none, some, List,
  [], ◌∷◌, arith, Bool-cases, Option-cases, is_empty,
}
use moltenhub.Base.Text.{Text, text_eq, text_eq_iff, contains_char}
use moltenhub.Base.Dict.{Dict, get, keys}
use moltenhub.Model.{Agent}
use moltenhub.Handles.{normalize_agent_ref}
use moltenhub.Store.State.{MemoryStore, ok, err_not_ok, ok_injective}
use moltenhub.Store.Queue.{live_agent}
use moltenhub.Store.Trust.Request.{is_missing}
use moltenhub.Store.Agents.Resolve.{
  has_handle, next_match, match_handle, match_uri, resolve_agent_ref, resolve_agent_uuid,
}

is_listed : Text → List Text → Bool
is_listed id [] = false
is_listed id (i ∷ ids) = text_eq i id || is_listed id ids

get-is_listed :
    (agents : Dict Agent) (id : Text) (a : Agent)
    → get agents id ≡ some a
    → is_listed id (keys agents) ≡ true
unfolding get is_listed
get-is_listed [] id a h = absurd cc
get-is_listed ((i, b) ∷ agents) id a h = ground (arith, get-is_listed agents id a)

-- What the loop over `ids` ends with, that has `match` before it.
record Matched (ref : Text) (agents : Dict Agent) (ids : List Text) (match id : Text) : Type 0 where
  nonempty : is_empty id ≡ false
  only :
      (j : Text)
      → is_listed j ids ≡ true
      → is_empty j ≡ false
      → has_handle ref (get agents j) ≡ true
      → j ≡ id
  source : (id ≡ match) ⊎ (has_handle ref (get agents id) ≡ true)
  stays : is_empty match ≡ false → id ≡ match

next_match_lem :
    (ref : Text) (agents : Dict Agent) (i match m : Text)
    → next_match ref agents i match ≡ some m
    → ((has_handle ref (get agents i) ≡ false) × (m ≡ match))
      ⊎ ((has_handle ref (get agents i) ≡ true) × (is_empty match ≡ true) × (m ≡ i))
unfolding next_match
next_match_lem ref agents i match m h = elim (Bool-cases (has_handle ref (get agents i))) [
  | inl here ↦ elim (Bool-cases (is_empty match)) [
    | inl first ↦ inr (here, first, ground arith)
    | inr second ↦ absurd (ground arith)
  ]
  | inr other ↦ inl (other, ground arith)
]

match_handle_end :
    (ref : Text) (agents : Dict Agent) (match id : Text)
    → match_handle ref agents [] match ≡ ok id
    → (is_empty match ≡ false) × (match ≡ id)
unfolding match_handle
match_handle_end ref agents match id h = elim (Bool-cases (is_empty match)) [
  | inl none_yet ↦ absurd (ground arith)
  | inr found ↦ (found, ground arith)
]

match_handle_more :
    (ref : Text) (agents : Dict Agent) (i : Text) (ids : List Text) (match id : Text)
    → match_handle ref agents (i ∷ ids) match ≡ ok id
    → (m : Text) × (next_match ref agents i match ≡ some m)
      × (match_handle ref agents ids m ≡ ok id)
unfolding match_handle
match_handle_more ref agents i ids match id h =
    elim (Option-cases (next_match ref agents i match)) [
      | inl ambiguous ↦ absurd (err_not_ok (rw (ambiguous, match_handle) at h))
      | inr (m, e) ↦ (m, e, rw (e, match_handle) at h)
    ]

step-Matched :
    (ref : Text) (agents : Dict Agent) (i : Text) (ids : List Text) (match id m : Text)
    → next_match ref agents i match ≡ some m
    → Matched ref agents ids m id
    → Matched ref agents (i ∷ ids) match id
unfolding is_listed
step-Matched ref agents i ids match id m e r = elim (next_match_lem ref agents i match m e) [
  | inl (other, same) ↦ record {
    nonempty = r.nonempty;
    only = λ j l n k. elim (Bool-cases (text_eq i j)) [
      | inl it ↦ absurd (ground (arith, text_eq_iff i j))
      | inr later ↦ r.only j (ground arith) n k
    ];
    source = subst (λ x. (id ≡ x) ⊎ (has_handle ref (get agents id) ≡ true)) same r.source;
    stays = λ n. r.stays (ap is_empty same ∙ n) ∙ same;
  }
  | inr (here, first, same) ↦ record {
    nonempty = r.nonempty;
    only = λ j l n k. elim (Bool-cases (text_eq i j)) [
      | inl it ↦
          let eq : i ≡ j = (text_eq_iff i j).0 it in
          sym eq ∙ sym same ∙ sym (r.stays (ap is_empty (same ∙ eq) ∙ n))
      | inr later ↦ r.only j (ground arith) n k
    ];
    source = elim r.source [
      | inl eq ↦ inr (ap (λ x. has_handle ref (get agents x)) (eq ∙ same) ∙ here)
      | inr k ↦ inr k
    ];
    stays = λ n. absurd (ground arith);
  }
]

match_handle-Matched :
    (ref : Text) (agents : Dict Agent) (ids : List Text) (match id : Text)
    → match_handle ref agents ids match ≡ ok id
    → Matched ref agents ids match id
unfolding is_listed
match_handle-Matched ref agents [] match id h =
    let (found, same) = match_handle_end ref agents match id h in
    record {
      nonempty = ap is_empty (sym same) ∙ found;
      only = λ j l n k. absurd cc;
      source = inl (sym same);
      stays = λ n. sym same;
    }
match_handle-Matched ref agents (i ∷ ids) match id h =
    let (m, e, rest) = match_handle_more ref agents i ids match id h in
    step-Matched ref agents i ids match id m e (match_handle-Matched ref agents ids m id rest)

handled :
    (ref : Text) (agents : Dict Agent) (id : Text)
    → has_handle ref (get agents id) ≡ true
    → (a : Agent) × (live_agent agents id ≡ some a) × (a.handle ≡ ref)
unfolding has_handle live_agent
handled ref agents id h = elim (Option-cases (get agents id)) [
  | inl missing ↦ absurd (ground arith)
  | inr (a, found) ↦ (a, ground arith, (text_eq_iff a.handle ref).0 (ground arith))
]

live-handled :
    (ref : Text) (agents : Dict Agent) (id : Text) (a : Agent)
    → live_agent agents id ≡ some a
    → a.handle ≡ ref
    → (has_handle ref (get agents id) ≡ true) × (is_listed id (keys agents) ≡ true)
unfolding has_handle live_agent
live-handled ref agents id a h named = elim (Option-cases (get agents id)) [
  | inl missing ↦ absurd (ground arith)
  | inr (b, found) ↦ (ground (arith, text_eq_iff a.handle ref), get-is_listed agents id b found)
]

found_agent : {o : Option Agent} → is_missing o ≡ false → (a : Agent) × (o ≡ some a)
found_agent {o = none} e = absurd cc
found_agent {o = some a} e = (a, refl)

match_uri_lem :
    (ref : Text) (s : MemoryStore) (id : Text)
    → match_uri ref s ≡ some id
    → (get s.agent_by_uri ref ≡ some id) × (is_missing (live_agent s.agents id) ≡ false)
unfolding match_uri
match_uri_lem ref s id h = elim (Option-cases (get s.agent_by_uri ref)) [
  | inl missing ↦ absurd (ground arith)
  | inr (j, found) ↦ ground arith
]

-- A reference stands for an agent by its id, by its URI, or by its handle, where no other live
-- agent has that handle.
abbrev pub IsMeant : Text → MemoryStore → Text → Agent → Type 0
IsMeant ref s id a =
    (id ≡ ref)
    ⊎ ((get s.agent_by_uri ref ≡ some id)
        ⊎ ((a.handle ≡ ref)
            × ((j : Text) (b : Agent)
                → is_empty j ≡ false
                → live_agent s.agents j ≡ some b
                → b.handle ≡ ref
                → j ≡ id)))

by_handle-IsMeant :
    (ref : Text) (s : MemoryStore) (id : Text)
    → match_handle ref s.agents (keys s.agents) [] ≡ ok id
    → (a : Agent) × (live_agent s.agents id ≡ some a) × IsMeant ref s id a
by_handle-IsMeant ref s id h =
    let r = match_handle-Matched ref s.agents (keys s.agents) [] id h in
    let has : has_handle ref (get s.agents id) ≡ true = elim r.source [
      | inl nothing ↦ absurd (true_not_false (sym (ap is_empty nothing) ∙ r.nonempty))
      | inr k ↦ k
    ] in
    let (a, live, named) = handled ref s.agents id has in
    (
      a,
      live,
      inr (
          inr (
            named,
            λ j b n there same.
                let (k, l) = live-handled ref s.agents j b there same in r.only j l n k,
          )),
    )
  where
    true_not_false : true ≡ false → ⊥
    true_not_false e = cc

-- What a reference resolves to is a live agent: the one with that id, the one that is indexed under
-- that URI, or the one with that handle, and then no other live agent with an id has it. The
-- reference is normalized first.
pub resolve_agent_uuid-IsMeant :
    (raw : Text) (s : MemoryStore) (id : Text)
    → resolve_agent_uuid raw s ≡ ok id
    → (a : Agent) × (live_agent s.agents id ≡ some a) × IsMeant (normalize_agent_ref raw) s id a
unfolding resolve_agent_uuid resolve_agent_ref
resolve_agent_uuid-IsMeant raw s id h =
    let ref = normalize_agent_ref raw in
    elim (Bool-cases (is_empty ref)) [
      | inl nothing ↦ absurd (err_not_ok (rw (nothing, resolve_agent_ref) at h))
      | inr something ↦ elim (Bool-cases (is_missing (live_agent s.agents ref))) [
        | inr there ↦
            let (a, live) = found_agent there in
            let same : ref ≡ id = ok_injective (rw (something, there, resolve_agent_ref) at h) in
            (a, ap (live_agent s.agents) (sym same) ∙ live, inl (sym same))
        | inl missing ↦ elim (Option-cases (match_uri ref s)) [
          | inr (j, found) ↦
              let same : j ≡ id =
                ok_injective (rw (something, missing, found, resolve_agent_ref) at h) in
              let (at, there) = match_uri_lem ref s j found in
              let (a, live) = found_agent there in
              (a, ap (live_agent s.agents) (sym same) ∙ live, inr (inl (at ∙ ap some same)))
          | inl nowhere ↦ elim (Bool-cases (contains_char b'/' ref)) [
            | inl slash ↦
                absurd
                  (err_not_ok (rw (something, missing, nowhere, slash, resolve_agent_ref) at h))
            | inr plain ↦
                by_handle-IsMeant ref s id
                  (rw (something, missing, nowhere, plain, resolve_agent_ref) at h)
          ]
        ]
      ]
    ]
