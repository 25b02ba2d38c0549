-- ===== src/Store/Humans.antt =====
-- Humans in internal/store/memory.go: `UpsertHuman`, the updates of profiles and metadata, and the
-- search for a free handle. An id that the source draws is an argument; `none` is the error of
-- drawing it.
pub mod Presence
use moltenhub.Base.{
  ℕ, zero, suc, ◌+◌, ◌-◌, Bool, true, false, not, ◌&&◌, Option, none, some, [], ◌∷◌, ◌++◌, length,
  take, ltb, if◌then◌else◌, is_empty,
}
use moltenhub.Base.Text.{Text, text, text_eq, equal_fold}
use moltenhub.Base.Dict.{Dict, get, put, remove, get_or}
use moltenhub.Model.{Human}
use moltenhub.Model.Value.{Metadata}
use moltenhub.Model.Clock.{Time, decimal}
use moltenhub.Handles.{normalize, trim_seps, validate_handle}
use moltenhub.Store.State.{
  MemoryStore, Accounts, Result, Outcome, ok, err, or_error, id_failed, human_not_found,
  invalid_handle, human_handle_taken,
}
use moltenhub.Store.Activity.{copy_metadata}

-- authKey: the two joined by a NUL byte.
auth_key : Text → Text → Text
auth_key provider subject = provider ++ 0 ∷ subject

-- handles.ValidateHandle(h) == nil
unfoldable pub is_valid_handle : Text → Bool
is_valid_handle h = elim (validate_handle h) [ none ↦ true | some _ ↦ false ]

-- existingID, exists := m[handle]; !exists || existingID == id
unfoldable pub is_available : Dict Text → Text → Text → Bool
is_available m handle id = elim (get m handle) [ none ↦ true | some owner ↦ text_eq owner id ]

-- The part of the candidate before the suffix.
shorten : ℕ → Text → Text
shorten prefix_max candidate =
    let cut = trim_seps (take prefix_max candidate) in
    if ltb prefix_max (length candidate)
    then (if is_empty cut then text "human" else cut)
    else candidate

abbrev at_least_one : ℕ → ℕ
at_least_one n = if ltb n 1 then 1 else n

with_suffix : Text → ℕ → Text
unfolding shorten
with_suffix candidate i =
    let suffix = b'-' ∷ decimal i in shorten (at_least_one (64 - length suffix)) candidate ++ suffix

claim_loop : ℕ → ℕ → Text → Text → Dict Text → Option Text
unfolding with_suffix
claim_loop zero i candidate id taken = none
claim_loop (suc fuel) i candidate id taken =
    let rest = claim_loop fuel (i + 1) candidate id taken in
    let next = with_suffix candidate i in
    if not (is_valid_handle next)
    then rest
    else if is_available taken next id
    then some next
    else rest

-- `none` means that the fuel ran out.
unfoldable pub claim_unique_human_handle : ℕ → Text → Text → Dict Text → Option Text
unfolding claim_loop
claim_unique_human_handle fuel base id taken =
    let normalized = normalize base in
    let candidate = if is_valid_handle normalized then normalized else text "human" in
    if is_available taken candidate id then some candidate else claim_loop fuel 2 candidate id taken

abbrev no_human : Human
no_human = record {
  human_id = [];
  handle = [];
  handle_confirmed_at = none;
  auth_provider = [];
  auth_subject = [];
  email = [];
  email_verified = false;
  metadata = [];
  created_at = 0;
}

abbrev pub with_accounts : MemoryStore → Accounts → MemoryStore
with_accounts s a = record s { accounts = a }

-- s.humans[id] = h
abbrev store_human : Text → Human → MemoryStore → MemoryStore
store_human id h s = with_accounts s (record s.accounts { humans = put s.humans id h })

abbrev index_handle : Text → Text → MemoryStore → MemoryStore
index_handle handle id s =
    with_accounts s (record s.accounts { human_by_handle = put s.human_by_handle handle id })

refreshed : Text → Bool → Human → Human
refreshed email email_verified h = record h {
  email = if not (is_empty email) && not (equal_fold h.email email) then email else h.email;
  email_verified = email_verified;
}

-- The handle that a known human keeps, or is given if it has none.
handle_of : ℕ → Text → Text → Human → Dict Text → Option Text
handle_of fuel subject id h taken =
    let claimed = claim_unique_human_handle fuel (normalize subject) id taken in
    if is_empty h.handle then claimed else some h.handle

update_known : ℕ → Text → Text → Text → Bool → MemoryStore → Option (Outcome Human)
unfolding refreshed handle_of
update_known fuel id subject email email_verified s =
    let h = refreshed email email_verified (get_or s.humans id no_human) in
    elim (handle_of fuel subject id h s.human_by_handle) [
      | none ↦ none
      | some handle ↦
          let named = record h { handle = handle } in
          some (ok named, index_handle handle named.human_id (store_human id named s))
    ]

new_human : Text → Text → Text → Text → Text → Bool → Time → Human
new_human id handle provider subject email email_verified now = record {
  human_id = id;
  handle = handle;
  handle_confirmed_at = none;
  auth_provider = provider;
  auth_subject = subject;
  email = email;
  email_verified = email_verified;
  metadata = [];
  created_at = now;
}

add_human : ℕ → Text → Text → Text → Text → Bool → Time → MemoryStore → Option (Outcome Human)
unfolding new_human auth_key
add_human fuel id provider subject email email_verified now s =
    elim (claim_unique_human_handle fuel (normalize subject) [] s.human_by_handle) [
      | none ↦ none
      | some handle ↦
          let h = new_human id handle provider subject email email_verified now in
          let stored = store_human id h s in
          let keyed = with_accounts stored (record stored.accounts {
            human_by_auth_key = put s.human_by_auth_key (auth_key provider subject) id;
          }) in
          some (ok h, index_handle handle id keyed)
    ]

-- `none` means that the fuel of the search for a handle ran out.
unfoldable pub upsert_human :
    ℕ → Text → Text → Text → Bool → Time → Option Text → MemoryStore → Option (Outcome Human)
unfolding update_known add_human auth_key
upsert_human fuel provider subject email email_verified now drawn s =
    elim (get s.human_by_auth_key (auth_key provider subject)) [
      | some id ↦ update_known fuel id subject email email_verified s
      | none ↦ elim drawn [
        | none ↦ some (err id_failed, s)
        | some id ↦ add_human fuel id provider subject email email_verified now s
      ]
    ]

confirmed : Bool → Time → Human → Human
confirmed confirm now h = if confirm then record h { handle_confirmed_at = some now } else h

rename : Text → Text → Bool → Time → Human → MemoryStore → Outcome Human
unfolding confirmed
rename id next confirm now h s =
    let freed =
      if not (is_empty h.handle) && not (text_eq h.handle next)
      then remove s.human_by_handle h.handle
      else s.human_by_handle in
    let named = confirmed confirm now (record h { handle = next }) in
    (
      ok named,
      with_accounts s (record s.accounts {
        humans = put s.humans id named;
        human_by_handle = put freed next id;
      }),
    )

unfoldable pub update_human_profile : Text → Text → Bool → Time → MemoryStore → Outcome Human
unfolding rename confirmed
update_human_profile id handle confirm now s = elim (get s.humans id) [
  | none ↦ (err human_not_found, s)
  | some h ↦
      let next = normalize handle in
      if is_empty handle
      then (ok (confirmed confirm now h), store_human id (confirmed confirm now h) s)
      else if not (is_valid_handle next)
      then (err invalid_handle, s)
      else if not (is_available s.human_by_handle next id)
      then (err human_handle_taken, s)
      else rename id next confirm now h s
]

unfoldable pub update_human_metadata : Text → Metadata → MemoryStore → Outcome Human
update_human_metadata id metadata s = elim (get s.humans id) [
  | none ↦ (err human_not_found, s)
  | some h ↦
      let updated = record h { metadata = remove (copy_metadata metadata) (text "presence") } in
      (ok updated, store_human id updated s)
]

unfoldable pub get_human : Text → MemoryStore → Result Human
get_human id s = or_error (get s.humans id) human_not_found
