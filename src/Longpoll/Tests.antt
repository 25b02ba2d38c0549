-- ===== src/Longpoll/Tests.antt =====
-- Two requests that wait for one agent.
use moltenhub.Base.{◌≡◌, refl, true, ◌||◌}
use moltenhub.Base.Text.{text}
use moltenhub.Longpoll.{Waiters, new_waiters, register, cancel, notify, has_channel, waiters_of}
use moltenhub.Longpoll.Wakeups.{Step, Steps, notify-registered, has_channel-notify, notify-cancel}

abbrev first : Waiters
first = (register (text "a") new_waiters).1

abbrev second : Waiters
second = (register (text "a") first).1

notify-registered_example :
    has_channel
      (register (text "a") new_waiters).0
      (notify (text "a") (cancel (text "a") 1 second)).signalled
    ≡ true
unfolding register
notify-registered_example = notify-registered (text "a") new_waiters (cancel (text "a") 1 second) (
    Steps.next (Steps.next Steps.here (Step.registers (text "a"))) (Step.cancels (text "a") 1 refl))

has_channel-notify_example :
    has_channel 0 (notify (text "a") second).signalled
    ≡ (has_channel 0 second.signalled || has_channel 0 (waiters_of second (text "a")))
has_channel-notify_example = has_channel-notify (text "a") 0 second

notify-cancel_example :
    has_channel 0 (notify (text "a") (cancel (text "a") 0 second)).signalled
    ≡ has_channel 0 second.signalled
notify-cancel_example = notify-cancel (text "a") 0 second
