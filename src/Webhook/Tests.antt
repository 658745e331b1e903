-- ===== src/Webhook/Tests.antt =====
-- Runs of the webhook queue, and the theorems about it at concrete inputs.
use festival.Webhook.Queue.Deliveries.{Reach_delivered, retained_of, finished_of, accepted_of}
use festival.Webhook.Queue.Kept.{times, in_hand}
use festival.Webhook.Queue.Accounting.{total_handed}
use festival.Webhook.Queue.Duplicates.{enqueue_again_unbounded, enqueue_again}
use festival.Base.{◌≤◌, ◌+◌, ◌≡◌, refl, true, false, none, some, [], ◌∷◌, arith, length}
use festival.Webhook.Queue.{
  promote_one, start_worker, retain, is_idle, reject, WebhookWorkerQueue, init, enqueue, settle,
}
use festival.Webhook.Queue.Invariant.{
  IsValid, Reach, here, next, enqueued, settled, Reach-IsValid, Reach_not_stranded,
}

-- One worker and a backlog of two.
abbrev small : WebhookWorkerQueue
small = init (some 1) (some 2) (some 1)

abbrev after_three : WebhookWorkerQueue
after_three = (enqueue (some 9) true (enqueue (some 8) true (enqueue (some 7) true small).0).0).0

three-queue : (after_three.queue ≡ 8 ∷ 9 ∷ []) × (after_three.active_ids ≡ 7 ∷ [])
unfolding init enqueue start_worker promote_one
three-queue = (refl, refl)

abbrev after_five : WebhookWorkerQueue
after_five = (enqueue (some 5) true (enqueue (some 4) true after_three).0).0

five-queue :
    (after_five.pending_recovery_ids ≡ 4 ∷ [])
    × (after_five.recovery_overflow_count ≡ 1)
    × (after_five.rejected_count ≡ 2)
unfolding init enqueue start_worker promote_one reject retain
five-queue = (refl, refl, refl)

abbrev settled_one : WebhookWorkerQueue
settled_one = settle 7 true after_five

settled-queue : (settled_one.queue ≡ 9 ∷ 4 ∷ []) × (settled_one.active_ids ≡ 8 ∷ [])
unfolding init enqueue start_worker promote_one settle
settled-queue = (refl, refl)

history : Reach (init (some 1) (some 2) (some 1)) settled_one
unfolding init enqueue start_worker promote_one
history =
    next
      (next
        (next
          (next (next (next here (enqueued (some 7) true)) (enqueued (some 8) true))
            (enqueued (some 9) true))
          (enqueued (some 4) true))
        (enqueued (some 5) true))
      (settled 7 true refl)

Reach-IsValid_example : IsValid settled_one
Reach-IsValid_example = Reach-IsValid (some 1) (some 2) (some 1) history

-- The single worker ends, and nothing is left.
abbrev emptied : WebhookWorkerQueue
emptied = settle 7 false (enqueue (some 7) true small).0

emptied_history : Reach (init (some 1) (some 2) (some 1)) emptied
unfolding init enqueue start_worker promote_one
emptied_history = next (next here (enqueued (some 7) true)) (settled 7 false refl)

Reach_not_stranded_example : is_idle emptied ≡ true
unfolding init enqueue start_worker promote_one settle
Reach_not_stranded_example = Reach_not_stranded (some 1) (some 2) (some 1) emptied_history refl

Reach_delivered_example :
    (accepted_of 4 history ≤ finished_of 4 history + in_hand 4 settled_one)
    × (finished_of 4 history + in_hand 4 settled_one + times 4 settled_one.pending_recovery_ids
        ≤ accepted_of 4 history + retained_of 4 history)
    × (settled_one.completed
          + settled_one.failed
          + length settled_one.running
          + length settled_one.queue
        ≡ total_handed history + settled_one.recovered_count)
Reach_delivered_example = Reach_delivered (some 1) (some 2) (some 1) 4 history

enqueue_again_unbounded_example :
    let t = enqueue_again 7 42 (init (some 5) none none) in
    (length t.running ≡ 7) × (t.active_ids ≡ 42 ∷ [])
enqueue_again_unbounded_example = enqueue_again_unbounded 5 42 6 none none (omega arith)
