-- ===== src/Store/Peers/Outbound/Due.antt =====
-- What `ListDuePeerOutbounds` returns.
use moltenhub.Base.{
  ℕ, zero, suc, ◌≤◌, ◌<◌, ◌≡◌, ◌↔◌, ◌⊎◌, refl, ap, ◌∙◌, subst, some, inl, inr, true, List, [], ◌∷◌,
  length, take, ltb, All, Bool-cases, arith,
}
use moltenhub.Base.Text.{Text, text_eq}
use moltenhub.Base.Dict.{Dict, get}
use moltenhub.Model.{
  PeerOutboundMessage, Status, unset, pending, active, blocked, revoked, expired, deleted,
}
use moltenhub.Model.Clock.{Time}
use moltenhub.Store.State.{MemoryStore}
use moltenhub.Store.Peers.Outbound.{
  list_due_peer_outbounds, collect_due, insert_due, due_before, is_due, due_limit, is_pending,
}

-- A message that waits for its delivery, which is due.
abbrev pub Waits : Time → PeerOutboundMessage → Type 0
Waits now o = (o.status ≡ pending) × (o.next_attempt_at ≤ now)

abbrev pub AllDue : Time → List PeerOutboundMessage → Type 0
AllDue now = All (Waits now)

abbrev pub Lists : List PeerOutboundMessage → PeerOutboundMessage → Type 0
Lists [] o = ⊥
Lists (x ∷ xs) o = (x ≡ o) ⊎ Lists xs o

is_due-Waits : (now : Time) (o : PeerOutboundMessage) → (is_due now o ≡ true) ↔ Waits now o
unfolding is_due
is_due-Waits now o = (
  λ h. (pending_status o.status (ground arith), ground arith),
  λ (p, t). let waits = ap is_pending p in ground arith,
)
  where
    pending_status : (st : Status) → is_pending st ≡ true → st ≡ pending
    pending_status pending e = refl
    pending_status unset e = absurd cc
    pending_status active e = absurd cc
    pending_status blocked e = absurd cc
    pending_status revoked e = absurd cc
    pending_status expired e = absurd cc
    pending_status deleted e = absurd cc

insert_due-AllDue :
    (now : Time) (o : PeerOutboundMessage) (os : List PeerOutboundMessage)
    → Waits now o
    → AllDue now os
    → AllDue now (insert_due o os)
unfolding insert_due
insert_due-AllDue now o [] h hs = (h, tt)
insert_due-AllDue now o (x ∷ xs) h hs = elim (Bool-cases (due_before x o)) [
  | inl before ↦ rw (before, insert_due) (hs.0, insert_due-AllDue now o xs h hs.1)
  | inr after ↦ rw (after, insert_due) (h, hs)
]

collect_due-AllDue : (now : Time) (os : Dict PeerOutboundMessage) → AllDue now (collect_due now os)
unfolding collect_due
collect_due-AllDue now [] = tt
collect_due-AllDue now ((k, o) ∷ os) = elim (Bool-cases (is_due now o)) [
  | inl due ↦
      rw (due, collect_due)
        (insert_due-AllDue now o (collect_due now os) ((is_due-Waits now o).0 due)
          (collect_due-AllDue now os))
  | inr waits ↦ rw (waits, collect_due) (collect_due-AllDue now os)
]

take-AllDue :
    (now : Time) (n : ℕ) (os : List PeerOutboundMessage) → AllDue now os → AllDue now (take n os)
take-AllDue now zero os h = tt
take-AllDue now (suc n) [] h = tt
take-AllDue now (suc n) (o ∷ os) h = (h.0, take-AllDue now n os h.1)

length-take_le : (n : ℕ) (os : List PeerOutboundMessage) → length (take n os) ≤ n
length-take_le zero os = omega arith
length-take_le (suc n) [] = omega arith
length-take_le (suc n) (o ∷ os) = omega (arith, length-take_le n os)

insert_due-Lists :
    (o x : PeerOutboundMessage) (os : List PeerOutboundMessage)
    → (x ≡ o) ⊎ Lists os o
    → Lists (insert_due x os) o
unfolding insert_due
insert_due-Lists o x [] h = h
insert_due-Lists o x (y ∷ os) h = elim (Bool-cases (due_before y x)) [
  | inl before ↦
      rw (before, insert_due)
        (elim h [
          | inl same ↦ inr (insert_due-Lists o x os (inl same))
          | inr (inl first) ↦ inl first
          | inr (inr later) ↦ inr (insert_due-Lists o x os (inr later))
        ])
  | inr after ↦ rw (after, insert_due) h
]

collect_due-Lists :
    (now : Time) (os : Dict PeerOutboundMessage) (k : Text) (o : PeerOutboundMessage)
    → get os k ≡ some o
    → Waits now o
    → Lists (collect_due now os) o
unfolding collect_due get
collect_due-Lists now [] k o h w = absurd cc
collect_due-Lists now ((j, x) ∷ os) k o h w = elim (Bool-cases (text_eq j k)) [
  | inl here ↦
      let same : x ≡ o = ground arith in
      let due : is_due now x ≡ true = ap (is_due now) same ∙ (is_due-Waits now o).1 w in
      rw (due, collect_due) (insert_due-Lists o x (collect_due now os) (inl same))
  | inr there ↦
      let rest = collect_due-Lists now os k o (ground arith) w in
      elim (Bool-cases (is_due now x)) [
        | inl due ↦ rw (due, collect_due) (insert_due-Lists o x (collect_due now os) (inr rest))
        | inr waits ↦ rw (waits, collect_due) rest
      ]
]

length-take_full : (n : ℕ) (os : List PeerOutboundMessage) → n < length os → length (take n os) ≡ n
length-take_full zero os h = refl
length-take_full (suc n) [] h = absurd (omega arith)
length-take_full (suc n) (o ∷ os) h = let rest = length-take_full n os (omega arith) in omega arith

-- What the list is, for the limit that applies.
abbrev pub IsDueList : Time → ℕ → Dict PeerOutboundMessage → List PeerOutboundMessage → Type 0
IsDueList now n outbounds out =
    AllDue now out
    × (length out ≤ n)
    × ((k : Text) (o : PeerOutboundMessage)
        → get outbounds k ≡ some o
        → Waits now o
        → Lists out o ⊎ (length out ≡ n))

due_list :
    (now : Time) (limit : ℕ) (s : MemoryStore)
    → IsDueList now (due_limit limit) s.peer_outbounds (list_due_peer_outbounds now limit s)
unfolding list_due_peer_outbounds
due_list now limit s =
    let n = due_limit limit in
    let out = collect_due now s.peer_outbounds in
    elim (Bool-cases (ltb n (length out))) [
      | inl more ↦
          rw (more, list_due_peer_outbounds)
            (
              take-AllDue now n out (collect_due-AllDue now s.peer_outbounds),
              length-take_le n out,
              λ k o at w. inr (length-take_full n out (ground arith)),
            )
      | inr fits ↦
          rw (fits, list_due_peer_outbounds)
            (
              collect_due-AllDue now s.peer_outbounds,
              ground arith,
              λ k o at w. inl (collect_due-Lists now s.peer_outbounds k o at w),
            )
    ]

-- Every listed message is pending and its time has come; there are no more of them than the limit,
-- which is 32 where none is given; and a stored message that is pending and whose time has come is
-- listed, unless the list is as long as the limit.
pub list_due_peer_outbounds-AllDue :
    (now : Time) (s : MemoryStore)
    → IsDueList now 32 s.peer_outbounds (list_due_peer_outbounds now 0 s)
      × ((limit : ℕ)
          → 0 < limit
          → IsDueList now limit s.peer_outbounds (list_due_peer_outbounds now limit s))
list_due_peer_outbounds-AllDue now s = (
  due_list now 0 s,
  λ limit positive.
      let given : due_limit limit ≡ limit = ground arith in
      subst (λ n. IsDueList now n s.peer_outbounds (list_due_peer_outbounds now limit s)) given
        (due_list now limit s),
)
