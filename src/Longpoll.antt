-- ===== src/Longpoll.antt =====
-- internal/longpoll/waiters.go: the requests that wait for a message to an agent. A channel is a
-- number, and `make` gives one that no channel has yet; its buffer holds one signal or none.
pub mod Wakeups
mod Tests
use moltenhub.Base.{
  ℕ, ◌+◌, Bool, true, false, ◌||◌, none, some, List, [], ◌∷◌, ◌==◌, is_empty, if◌then◌else◌,
}
use moltenhub.Base.Text.{Text}
use moltenhub.Base.Dict.{Dict, get, put, remove, get_or}

pub record Waiters : Type 0 where
  pub by_agent : Dict (List ℕ)
  pub signalled : List ℕ
  pub next_channel : ℕ

abbrev pub new_waiters : Waiters
new_waiters = record { by_agent = []; signalled = []; next_channel = 0 }

unfoldable pub has_channel : ℕ → List ℕ → Bool
has_channel c [] = false
has_channel c (d ∷ ds) = d == c || has_channel c ds

abbrev pub waiters_of : Waiters → Text → List ℕ
waiters_of w agent = get_or w.by_agent agent []

unfoldable pub register : Text → Waiters → ℕ × Waiters
register agent w = (
  w.next_channel,
  record w {
    by_agent = put w.by_agent agent (w.next_channel ∷ waiters_of w agent);
    next_channel = w.next_channel + 1;
  },
)

unfoldable pub delete_channel : ℕ → List ℕ → List ℕ
delete_channel c [] = []
delete_channel c (d ∷ ds) = let rest = delete_channel c ds in if d == c then rest else d ∷ rest

-- The function that `Register` returns beside the channel.
unfoldable pub cancel : Text → ℕ → Waiters → Waiters
unfolding delete_channel
cancel agent c w = elim (get w.by_agent agent) [
  | none ↦ w
  | some waiters ↦
      let rest = delete_channel c waiters in
      record w {
        by_agent = if is_empty rest then remove w.by_agent agent else put w.by_agent agent rest;
      }
]

-- select { case ch <- struct{}{}: default: }
unfoldable pub send : ℕ → List ℕ → List ℕ
unfolding has_channel
send c signalled = if has_channel c signalled then signalled else c ∷ signalled

unfoldable pub send_all : List ℕ → List ℕ → List ℕ
unfolding send
send_all [] signalled = signalled
send_all (c ∷ cs) signalled = send_all cs (send c signalled)

unfoldable pub notify : Text → Waiters → Waiters
unfolding send_all
notify agent w = record w { signalled = send_all (waiters_of w agent) w.signalled }
