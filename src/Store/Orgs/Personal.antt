-- ===== src/Store/Orgs/Personal.antt =====
-- `EnsurePersonalOrg` of internal/store/memory.go as a whole: when it returns, and with what.
use moltenhub.Base.{
  ℕ, ◌+◌, ◌^◌, ◌≤◌, ◌<◌, ◌≡◌, refl, ap, ◌∙◌, ◌⊎◌, inl, inr, Bool, true, false, none, some, ◌∷◌,
  ◌++◌, length, arith, Bool-cases, Option, Option-cases, ltb, suc, if◌then◌else◌,
}
use moltenhub.Base.{take}
use moltenhub.Base.Text.{Text, text, trim_space, to_lower, is_space, lower, drop_while, trim_func}
use moltenhub.Base.Text.Trim.{drop_end, trim_func_lem}
use moltenhub.Base.Dict.{get, get-put_self}
use moltenhub.Model.{Human, Organization}
use moltenhub.Model.Clock.{Time}
use moltenhub.Handles.{normalize, max_length, is_alnum, is_sep, scan, trim_seps, clip}
use moltenhub.Handles.Shape.{IsNormal, normalize-IsNormal, normalize_fix}
use moltenhub.Store.State.{MemoryStore, Outcome, ok, err, id_failed}
use moltenhub.Store.Audit.{append_audit}
use moltenhub.Store.Orgs.{
  personal_base_handle, normalize_org_handle_key, personal_org, ensure_personal_org, is_taken,
  create_personal_org, new_org, store_org, store_membership, init_org_stats,
}
use moltenhub.Store.Orgs.Search.{stuck, free_handle-ends}

-- A text that starts with a character that is not trimmed still starts with it.
trim_func-head :
    (p : ℕ → Bool) (c : ℕ) (s : Text) → p c ≡ false → (t : Text) × (trim_func p (c ∷ s) ≡ c ∷ t)
unfolding drop_end drop_while
trim_func-head p c s h = (drop_end p s, trim_func_lem p (c ∷ s) ∙ rw (h, drop_while) (ground arith))

scan-head : (c : ℕ) (s : Text) → is_alnum c ≡ true → scan true (c ∷ s) ≡ c ∷ scan false s
unfolding scan
scan-head c s h = rw (h, scan)

clip-head : (c : ℕ) (s : Text) → is_sep c ≡ false → (t : Text) × (clip (c ∷ s) ≡ c ∷ t)
unfolding clip trim_seps
clip-head c s h = elim (Bool-cases (ltb max_length (length (c ∷ s)))) [
  | inl long ↦ let (t, e) = trim_func-head is_sep c (take 63 s) h in (t, rw long e)
  | inr fits ↦ (s, rw fits)
]

-- A handle that starts with the letter p still does when it is normalized.
normalize-head : (s : Text) → (t : Text) × (normalize (b'p' ∷ s) ≡ b'p' ∷ t)
unfolding normalize to_lower trim_space trim_seps lower is_space is_alnum is_sep
normalize-head s =
    let (a, ea) = trim_func-head is_space b'p' (to_lower s) refl in
    let (b, eb) = trim_func-head is_sep b'p' (scan false a) refl in
    let (c, ec) = clip-head b'p' b refl in
    (
      c,
      ap (λ x. clip (trim_seps (scan true x))) ea
          ∙ ap (λ x. clip (trim_seps x)) (scan-head b'p' a refl)
          ∙ ap clip eb
          ∙ ec,
    )

-- The base of the handle is a normalized text that is not empty.
abbrev IsBase : Text → Type 0
IsBase base = IsNormal base × (0 < length base)

normalize-IsBase : (s : Text) → IsBase (normalize (b'p' ∷ s))
normalize-IsBase s =
    let (t, e) = normalize-head s in (normalize-IsNormal (b'p' ∷ s), rw e (omega arith))

if-IsBase : (b : Bool) (s t : Text) → IsBase s → IsBase t → IsBase (if b then s else t)
if-IsBase true s t h k = h
if-IsBase false s t h k = k

personal_base_handle-IsBase : (handle id : Text) → IsBase (personal_base_handle handle id)
unfolding personal_base_handle normalize_org_handle_key
personal_base_handle-IsBase handle id =
    if-IsBase _ _ _
      (if-IsBase _ _ _ (normalize-IsBase (text "ersonal-" ++ id))
        (normalize-IsBase (text "ersonal-" ++ handle)))
      (normalize-IsBase (text "ersonal-" ++ id))

-- How `EnsurePersonalOrg` ends on the store `s`: with an organization that is the personal one of
-- the human in the store it leaves, or, for a human who has none, with the failure to draw its
-- id.
abbrev pub IsEnsured : Text → Option Text → MemoryStore → Outcome Organization → Type 0
IsEnsured human_id drawn s o =
    ((org : Organization) × (o.0 ≡ ok org) × (personal_org o.1 human_id ≡ some org))
    ⊎ ((personal_org s human_id ≡ none) × (drawn ≡ none) × (o ≡ (err id_failed, s)))

create_personal_org-IsEnsured :
    (human_id : Text) (human : Human) (handle : Text) (now : Time) (drawn : Option Text)
    (s : MemoryStore)
    → personal_org s human_id ≡ none
    → IsEnsured human_id drawn s (create_personal_org human_id human handle now drawn s)
unfolding create_personal_org personal_org append_audit store_org store_membership init_org_stats
    new_org
create_personal_org-IsEnsured human_id human handle now none s missing = inr (missing, refl, refl)
create_personal_org-IsEnsured human_id human handle now (some org_id) s missing = inl (
  new_org org_id handle (text "Personal " ++ human.handle) human_id now,
  refl,
  rw (get-put_self s.personal_org_by_human human_id org_id, personal_org)
      (get-put_self s.orgs org_id _),
)

-- For a known human, `EnsurePersonalOrg` returns as soon as the base of the handle leaves room
-- for a dash and a number of `suc k` digits and there are fewer handles than that number can tell
-- apart: as many rounds as there are handles, and two, are enough. It returns an organization,
-- which is the personal one of the human in the store that it leaves, or, where the human has
-- none and the drawing of an id fails, that failure, and the store is as it was.
pub ensure_personal_org-ends :
    (s : MemoryStore) (human_id : Text) (human : Human) (now : Time) (drawn : Option Text) (k : ℕ)
    → get s.humans human_id ≡ some human
    → length (personal_base_handle human.handle human_id) + 2 + k ≤ max_length
    → length s.org_by_handle + 3 < 10 ^ suc k
    → (o : Outcome Organization) × (ensure_personal_org
          (length s.org_by_handle + 2)
          human_id
          now
          drawn
          s
        ≡ some o)
      × IsEnsured human_id drawn s o
unfolding ensure_personal_org
ensure_personal_org-ends s human_id human now drawn k found fits few =
    elim (Option-cases (personal_org s human_id)) [
      | inr (org, has) ↦ (
        (ok org, s),
        rw (found, ensure_personal_org) (rw (has, ensure_personal_org) refl),
        inl (org, refl, has),
      )
      | inl missing ↦
          let base = personal_base_handle human.handle human_id in
          let (b, n) = personal_base_handle-IsBase human.handle human_id in
          let (h, free) = free_handle-ends k s.org_by_handle base b n fits few in
          (
            create_personal_org human_id human h now drawn s,
            rw (found, ensure_personal_org)
                (rw (missing, ensure_personal_org) (rw (free, ensure_personal_org) refl)),
            create_personal_org-IsEnsured human_id human h now drawn s missing,
          )
    ]

-- For a human without a personal organization, whose handle gives a base of 64 characters that is
-- a handle already, `EnsurePersonalOrg` never returns: whatever the fuel, the search for a handle
-- goes on.
pub ensure_personal_org-endless :
    (s : MemoryStore) (human_id : Text) (human : Human) (now : Time) (drawn : Option Text)
    (fuel : ℕ)
    → get s.humans human_id ≡ some human
    → personal_org s human_id ≡ none
    → length (personal_base_handle human.handle human_id) ≡ max_length
    → is_taken s.org_by_handle (personal_base_handle human.handle human_id) ≡ true
    → ensure_personal_org fuel human_id now drawn s ≡ none
unfolding ensure_personal_org
ensure_personal_org-endless s human_id human now drawn fuel found missing e taken =
    let base = personal_base_handle human.handle human_id in
    let (b, n) = personal_base_handle-IsBase human.handle human_id in
    rw (found, ensure_personal_org)
      (rw (missing, ensure_personal_org)
        (rw (stuck fuel 2 s.org_by_handle base base b e taken (normalize_fix base b)) refl))
