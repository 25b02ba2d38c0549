-- ===== src/Store/Metrics/Sums.antt =====
-- What the metrics count, as sums over the maps: the number of queued messages, the number of
-- deliveries, and the two oldest times.
use moltenhub.Base.{
  ℕ, ◌+◌, ◌≡◌, refl, sym, ap, ◌∙◌, inl, inr, false, Option, none, some, List, [], ◌∷◌, ◌++◌, length,
  arith, if◌then◌else◌, Bool-cases,
}
use moltenhub.Base.Dict.{Dict}
use moltenhub.Base.Dict.Folds.{IsCommMonoid, fold_values}
use moltenhub.Model.{Message, MessageDelivery}
use moltenhub.Model.Clock.{Time}
use moltenhub.Store.Metrics.{
  older, oldest_in_queue, oldest_in_queues, oldest_in_deliveries, count_available,
  metric_time_equal,
}

-- The earlier of two times that may be missing.
unfoldable pub earlier : Option Time → Option Time → Option Time
earlier a none = a
earlier a (some t) = older a t

pub earlier-monoid : IsCommMonoid earlier none
unfolding earlier
earlier-monoid = record { assoc = earlier_assoc; comm = earlier_comm; unit_left = earlier-none }
  where
    earlier-none : (a : Option Time) → earlier none a ≡ a
    earlier-none none = refl
    earlier-none (some a) = refl

    earlier_comm : (a b : Option Time) → earlier a b ≡ earlier b a
    earlier_comm none none = refl
    earlier_comm none (some b) = refl
    earlier_comm (some a) none = refl
    earlier_comm (some a) (some b) = ground arith

    earlier_assoc : (a b c : Option Time) → earlier (earlier a b) c ≡ earlier a (earlier b c)
    earlier_assoc none none none = refl
    earlier_assoc none none (some c) = refl
    earlier_assoc none (some b) none = refl
    earlier_assoc none (some b) (some c) = ground arith
    earlier_assoc (some a) none none = refl
    earlier_assoc (some a) none (some c) = refl
    earlier_assoc (some a) (some b) none = refl
    earlier_assoc (some a) (some b) (some c) = ground arith

pub sum-monoid : IsCommMonoid {A = ℕ} (λ a b. a + b) 0
sum-monoid = record {
  assoc = λ a b c. omega arith;
  comm = λ a b. omega arith;
  unit_left = λ a. omega arith;
}

-- The oldest message of one queue.
unfoldable pub queue_oldest : List Message → Option Time
queue_oldest [] = none
queue_oldest (m ∷ queue) = earlier (some m.created_at) (queue_oldest queue)

oldest_in_queue_lem :
    (o : Option Time) (queue : List Message)
    → oldest_in_queue o queue ≡ earlier o (queue_oldest queue)
unfolding oldest_in_queue queue_oldest
oldest_in_queue_lem o [] = unfold earlier in refl
oldest_in_queue_lem o (m ∷ queue) =
    oldest_in_queue_lem (older o m.created_at) queue
    ∙ earlier_older o m.created_at (queue_oldest queue)
  where
    earlier_older :
        (a : Option Time) (t : Time) (c : Option Time)
        → earlier (older a t) c ≡ earlier a (earlier (some t) c)
    earlier_older a t c = unfold earlier in earlier-monoid.assoc a (some t) c

pub oldest_in_queues_lem :
    (o : Option Time) (queues : Dict (List Message))
    → oldest_in_queues o queues ≡ earlier o (fold_values earlier none queue_oldest queues)
unfolding oldest_in_queues
oldest_in_queues_lem o [] = unfold earlier in refl
oldest_in_queues_lem o ((k, queue) ∷ queues) =
    oldest_in_queues_lem (oldest_in_queue o queue) queues
    ∙ ap (λ x. earlier x (fold_values earlier none queue_oldest queues))
        (oldest_in_queue_lem o queue)
    ∙ earlier-monoid.assoc o (queue_oldest queue) (fold_values earlier none queue_oldest queues)

abbrev pub expiry : MessageDelivery → Option Time
expiry d = some d.lease_expires_at

pub oldest_in_deliveries_lem :
    (o : Option Time) (ds : Dict MessageDelivery)
    → oldest_in_deliveries o ds ≡ earlier o (fold_values earlier none expiry ds)
unfolding oldest_in_deliveries
oldest_in_deliveries_lem o [] = unfold earlier in refl
oldest_in_deliveries_lem o ((k, d) ∷ ds) =
    oldest_in_deliveries_lem (older o d.lease_expires_at) ds
    ∙ (unfold earlier in
        earlier-monoid.assoc o (some d.lease_expires_at) (fold_values earlier none expiry ds))

pub count_available_lem :
    (queues : Dict (List Message))
    → count_available queues ≡ fold_values (λ a b. a + b) 0 (λ queue. length queue) queues
unfolding count_available
count_available_lem [] = refl
count_available_lem ((k, queue) ∷ queues) = ap (λ n. length queue + n) (count_available_lem queues)

pub length-fold : (ds : Dict MessageDelivery) → length ds ≡ fold_values (λ a b. a + b) 0 (λ _. 1) ds
length-fold [] = refl
length-fold ((k, d) ∷ ds) = omega (arith, length-fold ds)

-- Taking `t` away leaves the oldest time, unless `t` was the oldest.
earlier_other :
    (t : Time) (rest o : Option Time)
    → o ≡ earlier (some t) rest
    → metric_time_equal o t ≡ false
    → rest ≡ o
unfolding earlier
earlier_other t none o e h = ground arith
earlier_other t (some r) o e h = ground arith

-- A message at the end of a queue.
pub queue_oldest-append :
    (queue : List Message) (m : Message)
    → queue_oldest (queue ++ m ∷ []) ≡ earlier (queue_oldest queue) (some m.created_at)
unfolding queue_oldest
queue_oldest-append [] m = unfold earlier in refl
queue_oldest-append (n ∷ queue) m =
    ap (earlier (some n.created_at)) (queue_oldest-append queue m)
    ∙ sym (earlier-monoid.assoc (some n.created_at) (queue_oldest queue) (some m.created_at))

-- So looking again only when the oldest time goes gives the oldest of the rest.
pub oldest_after_removal :
    (t : Time) (rest o : Option Time)
    → o ≡ earlier (some t) rest
    → (if metric_time_equal o t then rest else o) ≡ rest
oldest_after_removal t rest o e = elim (Bool-cases (metric_time_equal o t)) [
  | inl same ↦ rw same
  | inr differs ↦ rw differs (sym (earlier_other t rest o e differs))
]
