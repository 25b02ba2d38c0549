-- ===== src/Store/Leases/Sweep.antt =====
-- What `ExpireMessageLeases` leaves: exactly the deliveries whose lease runs past `now`.
use moltenhub.Base.{
  ◌≡◌, refl, sym, ap, ◌∙◌, inl, inr, Bool, true, false, ◌||◌, Option, none, some, List, [], ◌∷◌,
  arith, ltb, if◌then◌else◌, Bool-cases, Option-cases,
}
use moltenhub.Base.Text.{Text, text_eq, text_eq_iff}
use moltenhub.Base.Dict.{Dict, get, remove, keys, get-remove}
use moltenhub.Model.{MessageDelivery}
use moltenhub.Model.Clock.{Time}
use moltenhub.Store.State.{MemoryStore}
use moltenhub.Store.Activity.{contains}
use moltenhub.Store.Messages.Frame.{frame}
use moltenhub.Store.Leases.{
  expire_found, expire_one, expire_loop, expire_message_leases, sort_strings, insert_key,
}

-- A lease that has not run out.
abbrev pub unexpired : Time → Option MessageDelivery → Option MessageDelivery
unexpired now none = none
unexpired now (some d) = if ltb now d.lease_expires_at then some d else none

unexpired_idem :
    (now : Time) (o : Option MessageDelivery) → unexpired now (unexpired now o) ≡ unexpired now o
unexpired_idem now none = refl
unexpired_idem now (some d) = ground arith

contains-insert_key :
    (k j : Text) (ks : List Text) → contains (insert_key k ks) j ≡ (text_eq k j || contains ks j)
unfolding contains insert_key
contains-insert_key k j [] = refl
contains-insert_key k j (i ∷ ks) = ground (arith, contains-insert_key k j ks)

contains-sort_strings : (ks : List Text) (j : Text) → contains (sort_strings ks) j ≡ contains ks j
unfolding contains sort_strings
contains-sort_strings [] j = refl
contains-sort_strings (k ∷ ks) j =
    contains-insert_key k j (sort_strings ks)
    ∙ ap (λ b. text_eq k j || b) (contains-sort_strings ks j)

contains-keys : {V : Type 0} (m : Dict V) (j : Text) → contains (keys m) j ≡ false → get m j ≡ none
unfolding contains get
contains-keys [] j h = refl
contains-keys ((k, v) ∷ m) j h = ground (arith, contains-keys m j)

deliveries-expire_found :
    (d : MessageDelivery) (id : Text) (now : Time) (s : MemoryStore)
    → (expire_found d id now s).1.message_deliveries ≡ remove s.message_deliveries id
unfolding expire_found
deliveries-expire_found d id now s = elim (Option-cases (get s.message_records d.message_id)) [
  | inl missing ↦ rw (missing, expire_found)
  | inr (r, there) ↦ rw (there, expire_found) (simp frame)
]

-- A round that keeps what is stored under its id.
get_kept :
    (now : Time) (id j : Text) (ds : Dict MessageDelivery)
    → unexpired now (get ds id) ≡ get ds id
    → get ds j ≡ (if text_eq id j then unexpired now (get ds j) else get ds j)
get_kept now id j ds h = elim (Bool-cases (text_eq id j)) [
  | inl same ↦ rw (same, ← (text_eq_iff id j).0 same) (sym h)
  | inr other ↦ rw other
]

-- A round that deletes what is stored under its id.
get_dropped :
    (now : Time) (id j : Text) (ds : Dict MessageDelivery)
    → unexpired now (get ds id) ≡ none
    → get (remove ds id) j ≡ (if text_eq id j then unexpired now (get ds j) else get ds j)
get_dropped now id j ds h = elim (Bool-cases (text_eq id j)) [
  | inl same ↦ rw (get-remove ds id j, same, ← (text_eq_iff id j).0 same) (sym h)
  | inr other ↦ rw (get-remove ds id j, other)
]

get-expire_one :
    (now : Time) (id j : Text) (s : MemoryStore)
    → get (expire_one now id s).1.message_deliveries j ≡ (
        if text_eq id j
        then unexpired now (get s.message_deliveries j)
        else get s.message_deliveries j)
unfolding expire_one
get-expire_one now id j s = elim (Option-cases (get s.message_deliveries id)) [
  | inl missing ↦ rw (missing, expire_one) (get_kept now id j s.message_deliveries (rw missing))
  | inr (d, found) ↦ elim (Bool-cases (ltb now d.lease_expires_at)) [
    | inl held ↦
        rw (found, expire_one)
          (rw (held, expire_one) (get_kept now id j s.message_deliveries (rw (found, held))))
    | inr over ↦
        rw (found, expire_one)
          (rw (over, expire_one, deliveries-expire_found d id now s)
            (get_dropped now id j s.message_deliveries (rw (found, over))))
  ]
]

get-expire_loop :
    (now : Time) (ids : List Text) (j : Text) (s : MemoryStore)
    → get (expire_loop now ids s).1.message_deliveries j ≡ (
        if contains ids j
        then unexpired now (get s.message_deliveries j)
        else get s.message_deliveries j)
unfolding expire_loop contains
get-expire_loop now [] j s = refl
get-expire_loop now (id ∷ ids) j s =
    get-expire_loop now ids j (expire_one now id s).1
    ∙ (rw (get-expire_one now id j s)
        (combine (text_eq id j) (contains ids j) (get s.message_deliveries j)))
  where
    combine :
        (a b : Bool) (o : Option MessageDelivery)
        → (if b
            then unexpired now (if a then unexpired now o else o)
            else if a
            then unexpired now o
            else o)
          ≡ (if a || b then unexpired now o else o)
    combine true true o = unexpired_idem now o
    combine true false o = refl
    combine false true o = refl
    combine false false o = refl

-- After a sweep a delivery is stored exactly if it was before and its lease runs past `now`, and it
-- is unchanged.
pub get-expire_message_leases :
    (now : Time) (j : Text) (s : MemoryStore)
    → get (expire_message_leases now s).1.message_deliveries j
      ≡ unexpired now (get s.message_deliveries j)
unfolding expire_message_leases
get-expire_message_leases now j s =
    get-expire_loop now (sort_strings (keys s.message_deliveries)) j s
    ∙ rw (contains-sort_strings (keys s.message_deliveries) j)
        (elim (Bool-cases (contains (keys s.message_deliveries) j)) [
          | inl listed ↦ rw listed
          | inr unlisted ↦ rw (unlisted, contains-keys s.message_deliveries j unlisted)
        ])
