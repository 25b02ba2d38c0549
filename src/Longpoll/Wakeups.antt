-- ===== src/Longpoll/Wakeups.antt =====
-- Which requests a notification wakes: internal/longpoll/waiters.go.
use moltenhub.Base.{
  ℕ, ◌≡◌, refl, ◌∙◌, inl, inr, true, false, ◌||◌, List, [], ◌∷◌, ◌==◌, is_empty, Bool-cases,
  Option-cases, arith,
}
use moltenhub.Base.Text.{Text, text_eq_iff}
use moltenhub.Base.Dict.{get-put_self, get, get-put, get-remove}
use moltenhub.Longpoll.{
  Waiters, register, cancel, notify, send, send_all, has_channel, delete_channel, waiters_of,
}

has_channel-send :
    (c d : ℕ) (signalled : List ℕ)
    → has_channel c (send d signalled) ≡ ((d == c) || has_channel c signalled)
unfolding send has_channel
has_channel-send c d signalled = elim (Bool-cases (has_channel d signalled)) [
  | inl there ↦ elim (Bool-cases (d == c)) [
    | inl same ↦ let own : d ≡ c = ground arith in rw (there, send) (rw (same, ← own) there)
    | inr other ↦ rw (there, other, send)
  ]
  | inr new ↦ rw (new, send)
]

has_channel-send_all :
    (c : ℕ) (cs signalled : List ℕ)
    → has_channel c (send_all cs signalled) ≡ (has_channel c signalled || has_channel c cs)
unfolding send_all has_channel
has_channel-send_all c [] signalled = ground arith
has_channel-send_all c (d ∷ cs) signalled =
    has_channel-send_all c cs (send d signalled) ∙ ground (arith, has_channel-send c d signalled)

-- A notification of an agent signals the channels that wait for it, and leaves those that were
-- signalled before.
pub has_channel-notify :
    (agent : Text) (c : ℕ) (w : Waiters)
    → has_channel c (notify agent w).signalled
      ≡ (has_channel c w.signalled || has_channel c (waiters_of w agent))
unfolding notify
has_channel-notify agent c w = has_channel-send_all c (waiters_of w agent) w.signalled

abbrev pub Waits : Text → ℕ → Waiters → Type 0
Waits agent c w = has_channel c (waiters_of w agent) ≡ true

-- What others may do while a channel waits: anything but cancel it.
pub data Step (c : ℕ) (w : Waiters) : Waiters → Type 0 where
  registers : (agent : Text) → Step c w (register agent w).1
  cancels : (agent : Text) (d : ℕ) → (d == c) ≡ false → Step c w (cancel agent d w)
  notifies : (agent : Text) → Step c w (notify agent w)

pub data Steps (c : ℕ) (w : Waiters) : Waiters → Type 0 where
  here : Steps c w w
  next : {t u : Waiters} → Steps c w t → Step c t u → Steps c w u

register-Waits_kept :
    (agent other : Text) (c : ℕ) (w : Waiters)
    → Waits agent c w
    → Waits agent c (register other w).1
unfolding register has_channel
register-Waits_kept agent other c w h = ground (
  arith,
  get-put w.by_agent other agent (w.next_channel ∷ waiters_of w other),
  text_eq_iff other agent,
)

has_channel-delete_channel :
    (c d : ℕ) (ds : List ℕ)
    → (d == c) ≡ false
    → has_channel c (delete_channel d ds) ≡ has_channel c ds
unfolding has_channel delete_channel
has_channel-delete_channel c d [] h = refl
has_channel-delete_channel c d (e ∷ ds) h = ground (arith, has_channel-delete_channel c d ds)

has_channel-is_empty : (c : ℕ) (ds : List ℕ) → is_empty ds ≡ true → has_channel c ds ≡ false
unfolding has_channel
has_channel-is_empty c [] h = refl
has_channel-is_empty c (d ∷ ds) h = ground arith

cancel-Waits :
    (agent other : Text) (c d : ℕ) (w : Waiters)
    → (d == c) ≡ false
    → Waits agent c w
    → Waits agent c (cancel other d w)
unfolding cancel has_channel
cancel-Waits agent other c d w apart h = elim (Option-cases (get w.by_agent other)) [
  | inl missing ↦ rw (missing, cancel) h
  | inr (waiters, found) ↦
      rw (found, cancel)
        (ground (
          arith,
          get-put w.by_agent other agent (delete_channel d waiters),
          get-remove w.by_agent other agent,
          text_eq_iff other agent,
          has_channel-delete_channel c d waiters apart,
          has_channel-is_empty c (delete_channel d waiters),
        ))
]

Step-Waits : (agent : Text) (c : ℕ) {w t : Waiters} → Step c w t → Waits agent c w → Waits agent c t
unfolding notify
Step-Waits agent c {w} (registers other) h = register-Waits_kept agent other c w h
Step-Waits agent c {w} (cancels other d apart) h = cancel-Waits agent other c d w apart h
Step-Waits agent c {w} (notifies other) h = h

Steps-Waits :
    (agent : Text) (c : ℕ) {w t : Waiters} → Steps c w t → Waits agent c w → Waits agent c t
Steps-Waits agent c here h = h
Steps-Waits agent c (next r st) h = Step-Waits agent c st (Steps-Waits agent c r h)

register-Waits :
    (agent : Text) (w : Waiters) → Waits agent (register agent w).0 (register agent w).1
unfolding register has_channel
register-Waits agent w =
    rw (get-put_self w.by_agent agent (w.next_channel ∷ waiters_of w agent)) (ground arith)

-- Whatever others do after a request registers, short of cancelling it, a notification of its agent
-- signals its channel.
pub notify-registered :
    (agent : Text) (w t : Waiters)
    → Steps (register agent w).0 (register agent w).1 t
    → has_channel (register agent w).0 (notify agent t).signalled ≡ true
notify-registered agent w t r =
    let waits = Steps-Waits agent (register agent w).0 r (register-Waits agent w) in
    ground (arith, has_channel-notify agent (register agent w).0 t)

delete_channel_gone : (c : ℕ) (ds : List ℕ) → has_channel c (delete_channel c ds) ≡ false
unfolding has_channel delete_channel
delete_channel_gone c [] = refl
delete_channel_gone c (d ∷ ds) = ground (arith, delete_channel_gone c ds)

cancel_gone :
    (agent : Text) (c : ℕ) (w : Waiters)
    → has_channel c (waiters_of (cancel agent c w) agent) ≡ false
unfolding cancel has_channel
cancel_gone agent c w = elim (Option-cases (get w.by_agent agent)) [
  | inl missing ↦ rw (missing, cancel) (ground arith)
  | inr (waiters, found) ↦
      rw (found, cancel)
        (ground (
          arith,
          get-put w.by_agent agent agent (delete_channel c waiters),
          get-remove w.by_agent agent agent,
          text_eq_iff agent agent,
          delete_channel_gone c waiters,
        ))
]

cancel_signals : (agent : Text) (c : ℕ) (w : Waiters) → (cancel agent c w).signalled ≡ w.signalled
unfolding cancel
cancel_signals agent c w = elim (Option-cases (get w.by_agent agent)) [
  | inl missing ↦ rw (missing, cancel) refl
  | inr (waiters, found) ↦ rw (found, cancel) refl
]

-- A cancelled request is not woken: a notification of its agent right after the cancellation
-- signals its channel only if it was signalled before, and then it stays so.
pub notify-cancel :
    (agent : Text) (c : ℕ) (w : Waiters)
    → has_channel c (notify agent (cancel agent c w)).signalled ≡ has_channel c w.signalled
notify-cancel agent c w = ground (
  arith,
  has_channel-notify agent c (cancel agent c w),
  cancel_gone agent c w,
  cancel_signals agent c w,
)
