-- ===== src/Store/Queue/Exact.antt =====
-- `Enqueue` and `Dequeue` keep the metrics exact.
use moltenhub.Base.{
  ◌+◌, ◌≡◌, refl, sym, ap, ◌∙◌, inl, inr, Option, none, some, List, [], ◌∷◌, ◌++◌, length,
  length-append, arith, Bool-cases, is_empty,
}
use moltenhub.Base.Text.{Text}
use moltenhub.Base.Dict.{put, remove, put-IsMap}
use moltenhub.Base.Dict.Folds.{fold-put, fold-get_or}
use moltenhub.Model.{Message, Agent}
use moltenhub.Model.Clock.{Time}
use moltenhub.Store.State.{Mailbox, MemoryStore}
use moltenhub.Store.Metrics.{older, note_queued_message_added, note_queued_message_removed}
use moltenhub.Store.Metrics.Sums.{
  earlier, queue_oldest, earlier-monoid, sum-monoid, oldest_after_removal, queue_oldest-append,
}
use moltenhub.Store.Metrics.Exact.{
  IsExact, agrees, IsExact-of_Agrees, available, oldest_queued, compute_oldest_queued_at_sum,
}
use moltenhub.Store.Queue.{push, pop, queue_of, deliver, enqueue, dequeue}

module _ (b : Mailbox) (k : Text) (e : IsExact b) where
  pub available_split : available b.queues ≡ length (queue_of b k) + available (remove b.queues k)
  available_split = fold-get_or _ 0 sum-monoid _ b.queues k [] e.queues_map refl

  pub oldest_split :
      oldest_queued b.queues
      ≡ earlier (queue_oldest (queue_of b k)) (oldest_queued (remove b.queues k))
  oldest_split =
      fold-get_or earlier none earlier-monoid queue_oldest b.queues k [] e.queues_map
        (unfold queue_oldest in refl)

  pub available-put :
      (queue : List Message)
      → available (put b.queues k queue) ≡ length queue + available (remove b.queues k)
  available-put queue = fold-put _ 0 sum-monoid _ b.queues k queue e.queues_map

  pub oldest_put :
      (queue : List Message)
      → oldest_queued (put b.queues k queue)
        ≡ earlier (queue_oldest queue) (oldest_queued (remove b.queues k))
  oldest_put queue = fold-put earlier none earlier-monoid queue_oldest b.queues k queue e.queues_map

-- `older` is `earlier` with one time; a time that joins a part joins the whole.
earlier_join :
    (part rest : Option Time) (t : Time)
    → older (earlier part rest) t ≡ earlier (earlier part (some t)) rest
earlier_join part rest t =
    unfold earlier in
    earlier-monoid.assoc part rest (some t)
    ∙ ap (earlier part) (earlier-monoid.comm rest (some t))
    ∙ sym (earlier-monoid.assoc part (some t) rest)

pub push-IsExact : (message : Message) (b : Mailbox) → IsExact b → IsExact (push message b)
unfolding push note_queued_message_added
push-IsExact message b e =
    IsExact-of_Agrees (put-IsMap b.queues _ _ e.queues_map) e.deliveries_map (record {
      available_agrees = omega (
        arith,
        (agrees e).available_agrees,
        available_split b to e,
        available-put b to e (queue_of b to ++ message ∷ []),
        length-append (queue_of b to) (message ∷ []),
      );
      leased_agrees = (agrees e).leased_agrees;
      queued_at_agrees =
          rw
            (
              (agrees e).queued_at_agrees,
              oldest_split b to e,
              oldest_put b to e (queue_of b to ++ message ∷ []),
              queue_oldest-append (queue_of b to) message,
            )
            (earlier_join (queue_oldest (queue_of b to)) _ message.created_at);
      expiry_agrees = (agrees e).expiry_agrees;
    })
  where
    to : Text
    to = message.to_agent_uuid

pub pop-IsExact :
    (uuid : Text) (queue : List Message) (b : Mailbox)
    → queue ≡ queue_of b uuid
    → IsExact b
    → IsExact (pop uuid queue b).1
unfolding pop note_queued_message_removed
pop-IsExact uuid [] b q e = e
pop-IsExact uuid (message ∷ rest) b q e =
    IsExact-of_Agrees (put-IsMap b.queues _ _ e.queues_map) e.deliveries_map (record {
      available_agrees = omega (
        arith,
        (agrees e).available_agrees,
        available_split b uuid e,
        available-put b uuid e rest,
        ap (λ l. length l) q,
      );
      leased_agrees = (agrees e).leased_agrees;
      queued_at_agrees =
          rw
            (
              compute_oldest_queued_at_sum (record b { queues = put b.queues uuid rest }),
              oldest_put b uuid e rest,
            )
            (oldest_after_removal message.created_at
              (earlier (queue_oldest rest) (oldest_queued (remove b.queues uuid)))
              b.queue_metrics.oldest_queued_at
              ((agrees e).queued_at_agrees
                ∙ oldest_split b uuid e
                ∙ ap (λ l. earlier (queue_oldest l) (oldest_queued (remove b.queues uuid))) (sym q)
                ∙ (unfold queue_oldest in
                    earlier-monoid.assoc (some message.created_at) (queue_oldest rest)
                      (oldest_queued (remove b.queues uuid)))));
      expiry_agrees = (agrees e).expiry_agrees;
    })

deliver-IsExact :
    (o : Option Agent) (message : Message) (s : MemoryStore)
    → IsExact s.mailbox
    → IsExact (deliver o message s).1.mailbox
unfolding deliver
deliver-IsExact none message s e = e
deliver-IsExact (some agent) message s e = push-IsExact _ s.mailbox e

pub enqueue-IsExact :
    (message : Message) (s : MemoryStore)
    → IsExact s.mailbox
    → IsExact (enqueue message s).1.mailbox
unfolding enqueue
enqueue-IsExact message s e = elim (Bool-cases (is_empty message.to_agent_uuid)) [
  | inl blank ↦ rw (blank, enqueue) e
  | inr to ↦ rw (to, enqueue) (deliver-IsExact _ message s e)
]

pub dequeue-IsExact :
    (uuid : Text) (s : MemoryStore) → IsExact s.mailbox → IsExact (dequeue uuid s).1.mailbox
unfolding dequeue
dequeue-IsExact uuid s e = pop-IsExact uuid _ s.mailbox refl e
