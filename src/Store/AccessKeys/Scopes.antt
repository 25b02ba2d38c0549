-- ===== src/Store/AccessKeys/Scopes.antt =====
-- The scopes of a new access key: `normalizeOrgAccessScopes` of internal/store/memory.go.
use moltenhub.Base.{
  ◌≡◌, refl, sym, ap, ◌∙◌, ◌↔◌, ◌⊎◌, inl, inr, Bool, true, false, ◌&&◌, ◌||◌, List, [], ◌∷◌, arith,
  Bool-cases,
}
use moltenhub.Base.Text.{Text, text_eq, text_eq_iff, to_lower, trim_space}
use moltenhub.Store.Leases.{sort_strings, insert_key}
use moltenhub.Store.AccessKeys.{
  list_humans, list_agents, is_known_scope, add_scope, collect_scopes, normalize_org_access_scopes,
  org_access_scope_allowed,
}

-- The list has an entry that is the scope, but for its case and the space around it.
abbrev pub Names : List Text → Text → Type 0
Names [] scope = ⊥
Names (raw ∷ raws) scope = (to_lower (trim_space raw) ≡ scope) ⊎ Names raws scope

insert_key-allowed :
    (k : Text) (ks : List Text) (scope : Text)
    → org_access_scope_allowed (insert_key k ks) scope
      ≡ (text_eq k scope || org_access_scope_allowed ks scope)
unfolding insert_key org_access_scope_allowed
insert_key-allowed k [] scope = refl
insert_key-allowed k (j ∷ ks) scope = ground (arith, insert_key-allowed k ks scope)

sort_strings-allowed :
    (ks : List Text) (scope : Text)
    → org_access_scope_allowed (sort_strings ks) scope ≡ org_access_scope_allowed ks scope
unfolding sort_strings org_access_scope_allowed
sort_strings-allowed [] scope = refl
sort_strings-allowed (k ∷ ks) scope =
    insert_key-allowed k (sort_strings ks) scope
    ∙ ap (λ b. text_eq k scope || b) (sort_strings-allowed ks scope)

add_scope-allowed :
    (new : Text) (set : List Text) (scope : Text)
    → org_access_scope_allowed (add_scope new set) scope
      ≡ ((is_known_scope new && text_eq new scope) || org_access_scope_allowed set scope)
unfolding add_scope org_access_scope_allowed
add_scope-allowed new set scope = elim (Bool-cases (text_eq new scope)) [
  | inl same ↦
      let eq : new ≡ scope = (text_eq_iff new scope).0 same in
      let held : org_access_scope_allowed set new ≡ org_access_scope_allowed set scope =
        ap (org_access_scope_allowed set) eq in
      ground arith
  | inr other ↦ ground arith
]

-- The list names a known scope, as the loop finds it.
finds : List Text → Text → Bool
finds [] scope = false
finds (raw ∷ raws) scope =
    (is_known_scope (to_lower (trim_space raw)) && text_eq (to_lower (trim_space raw)) scope)
    || finds raws scope

collect_scopes-allowed :
    (raws set : List Text) (scope : Text)
    → org_access_scope_allowed (collect_scopes raws set) scope
      ≡ (finds raws scope || org_access_scope_allowed set scope)
unfolding collect_scopes finds
collect_scopes-allowed [] set scope = refl
collect_scopes-allowed (raw ∷ raws) set scope =
    let new = to_lower (trim_space raw) in
    collect_scopes-allowed raws (add_scope new set) scope
    ∙ ground (arith, add_scope-allowed new set scope)

known :
    (scope : Text) → (is_known_scope scope ≡ true) ↔ ((scope ≡ list_humans) ⊎ (scope ≡ list_agents))
unfolding is_known_scope
known scope = ground (arith, text_eq_iff scope list_humans, text_eq_iff scope list_agents)

finds-Names :
    (raws : List Text) (scope : Text)
    → finds raws scope ≡ true
    → (is_known_scope scope ≡ true) × Names raws scope
unfolding finds
finds-Names [] scope h = absurd cc
finds-Names (raw ∷ raws) scope h =
    let new = to_lower (trim_space raw) in
    elim (Bool-cases (is_known_scope new && text_eq new scope)) [
      | inl here ↦
          let same : new ≡ scope = (text_eq_iff new scope).0 (ground arith) in
          (sym (ap is_known_scope same) ∙ ground arith, inl same)
      | inr other ↦ let (k, n) = finds-Names raws scope (ground arith) in (k, inr n)
    ]

Names-finds :
    (raws : List Text) (scope : Text)
    → is_known_scope scope ≡ true
    → Names raws scope
    → finds raws scope ≡ true
unfolding finds
Names-finds [] scope k n = absurd n
Names-finds (raw ∷ raws) scope k (inl same) =
    let new = to_lower (trim_space raw) in
    let kn : is_known_scope new ≡ true = ap is_known_scope same ∙ k in
    ground (arith, text_eq_iff new scope)
Names-finds (raw ∷ raws) scope k (inr n) = ground (arith, Names-finds raws scope k n)

-- A new key allows a scope exactly if that is one of the two known scopes, `list_humans` and
-- `list_agents`, and some entry of its creator's list is that scope once it is trimmed and put in
-- lower case.
pub normalize_org_access_scopes-allowed :
    (scopes : List Text) (required : Text)
    → (org_access_scope_allowed (normalize_org_access_scopes scopes) required ≡ true)
      ↔ (((required ≡ list_humans) ⊎ (required ≡ list_agents)) × Names scopes required)
unfolding normalize_org_access_scopes org_access_scope_allowed
normalize_org_access_scopes-allowed scopes required =
    let same =
      sort_strings-allowed (collect_scopes scopes []) required
      ∙ collect_scopes-allowed scopes [] required in
    (
      λ h. let (k, n) = finds-Names scopes required (ground arith) in ((known required).0 k, n),
      λ (k, n). let found = Names-finds scopes required ((known required).1 k) n in ground arith,
    )
