-- ===== src/Webhook/Queue/Deliveries.antt =====
-- What becomes of each delivery that the queue of
-- packages/backend/src/commerce/webhook-worker-queue.ts takes over, by its identifier.
use festival.Base.{
  if◌then◌else◌, leb, none, ◌++◌, some, not, ◌&&◌, false, true, Bool, contains, erase, Option, inr,
  length, inl, [], add, count-append, ◌==◌, Bool-cases, ◌≡◌, ◌∷◌, ◌≤◌, List, ◌+◌, arith, ℕ,
}
use festival.Webhook.Queue.Accounting.{total_handed, Reach_accounted}
use festival.Webhook.Queue.Invariant.{
  drained, here, settled, reclaimed, enqueued, next, Step, Reach,
}
use festival.Webhook.Queue.{
  is_known, check_drain, drain, ℕ, WebhookWorkerQueue, init, enqueue, reclaim_pending, settle,
  accept, reject, retain,
}
use festival.Webhook.Queue.Kept.{times, in_hand, dispatch-Keeps}

times-erase_le : (id k : ℕ) (s : List ℕ) → times id (erase k s) ≤ times id s
times-erase_le id k [] = omega arith
times-erase_le id k (x ∷ s) = ground (arith, times-erase_le id k s)

times-erase :
    (id k : ℕ) (s : List ℕ)
    → contains k s ≡ true
    → times id (erase k s) + (if k == id then 1 else 0) ≡ times id s
times-erase id k [] h = absurd (ground (arith, h))
times-erase id k (x ∷ s) h = ground (arith, h, times-erase id k s)

times-add : (id k : ℕ) (s : List ℕ) → times id (add k s) ≤ times id s + (if k == id then 1 else 0)
times-add id k s = ground (arith, count-append (λ i. i == id) s (k ∷ []))

-- A step that takes over a delivery `taken_over` times and retains it `kept` times.
record Advances (id taken_over kept finished : ℕ) (s t : WebhookWorkerQueue) : Type 0 where
  stays : in_hand id s + taken_over ≤ in_hand id t + finished
  bounded :
      in_hand id t + times id t.pending_recovery_ids + finished
      ≤ in_hand id s + times id s.pending_recovery_ids + taken_over + kept

-- How often a call of `enqueue` is for this delivery and returns `true`, and `false` though the
-- delivery may be retained.
abbrev pub one_if : Bool → ℕ
one_if true = 1
one_if false = 0

abbrev pub is_of : ℕ → Option ℕ → Bool
is_of id none = false
is_of id (some k) = k == id

enqueue-Advances :
    (id : ℕ) (call : Option ℕ) (keep : Bool) (s : WebhookWorkerQueue)
    → Advances id
        (one_if (is_of id call && (enqueue call keep s).1))
        (one_if (is_of id call && keep && not (enqueue call keep s).1))
        0
        s
        (enqueue call keep s).0
unfolding enqueue accept reject retain
enqueue-Advances id none keep s = ground arith
enqueue-Advances id (some k) keep s =
    let t : WebhookWorkerQueue = record s {
      pending_recovery_ids = erase k s.pending_recovery_ids;
      queue = s.queue ++ k ∷ [];
    } in
    elim (Bool-cases (leb s.max_backlog (length s.queue))) [
      | inr room ↦ ground (
        arith,
        room,
        dispatch-Keeps id t,
        times-erase_le id k s.pending_recovery_ids,
        count-append (λ i. i == id) s.queue (k ∷ []),
      )
      | inl full ↦ ground (arith, full, times-add id k s.pending_recovery_ids)
    ]

-- How often the loop of `reclaimPending` takes over this delivery.
abbrev pub reclaimed_of : ℕ → List (Option ℕ) → WebhookWorkerQueue → ℕ
reclaimed_of id [] s = 0
reclaimed_of id (call ∷ calls) s =
    let skip = reclaimed_of id calls s in
    let next = one_if (is_of id call) + reclaimed_of id calls (enqueue call false s).0 in
    if is_known call s then skip else if (enqueue call false s).1 then next else 0

reclaim_pending-Advances :
    (id : ℕ) (calls : List (Option ℕ)) (n : ℕ) (s : WebhookWorkerQueue)
    → Advances id (reclaimed_of id calls s) 0 0 s (reclaim_pending calls n s).0
unfolding reclaim_pending
reclaim_pending-Advances id [] n s = ground arith
reclaim_pending-Advances id (call ∷ calls) n s = elim (Bool-cases (is_known call s)) [
  | inl known ↦ ground (arith, known, reclaim_pending-Advances id calls n s)
  | inr unknown ↦ ground (
    arith,
    unknown,
    enqueue-Advances id call false s,
    reclaim_pending-Advances id calls (n + 1) (enqueue call false s).0,
  )
]

settle-Advances :
    (id k : ℕ) (returned : Bool) (s : WebhookWorkerQueue)
    → contains k s.running ≡ true
    → Advances id 0 0 (one_if (k == id)) s (settle k returned s)
unfolding settle check_drain
settle-Advances id k true s h =
    let t : WebhookWorkerQueue = record s {
      completed = s.completed + 1;
      active_ids = erase k s.active_ids;
      running = erase k s.running;
    } in
    ground (arith, dispatch-Keeps id t, times-erase id k s.running h)
settle-Advances id k false s h =
    let t : WebhookWorkerQueue = record s {
      failed = s.failed + 1;
      active_ids = erase k s.active_ids;
      running = erase k s.running;
    } in
    ground (arith, dispatch-Keeps id t, times-erase id k s.running h)

-- How often a step takes this delivery over, offers it for recovery, and ends a handler of it.
abbrev pub accepted_by : ℕ → {s t : WebhookWorkerQueue} → Step s t → ℕ
accepted_by id {s} (enqueued call keep) = one_if (is_of id call && (enqueue call keep s).1)
accepted_by id {s} (reclaimed calls) = reclaimed_of id calls s
accepted_by id drained = 0
accepted_by id (settled _ _ _) = 0

abbrev pub retained_by : ℕ → {s t : WebhookWorkerQueue} → Step s t → ℕ
retained_by id {s} (enqueued call keep) =
    one_if (is_of id call && keep && not (enqueue call keep s).1)
retained_by id (reclaimed _) = 0
retained_by id drained = 0
retained_by id (settled _ _ _) = 0

abbrev pub finished_by : ℕ → {s t : WebhookWorkerQueue} → Step s t → ℕ
finished_by id (enqueued _ _) = 0
finished_by id (reclaimed _) = 0
finished_by id drained = 0
finished_by id (settled k _ _) = one_if (k == id)

Step-Advances :
    (id : ℕ) {s t : WebhookWorkerQueue} (st : Step s t)
    → Advances id (accepted_by id st) (retained_by id st) (finished_by id st) s t
unfolding drain
Step-Advances id {s} (enqueued call keep) = enqueue-Advances id call keep s
Step-Advances id {s} (reclaimed calls) = reclaim_pending-Advances id calls 0 s
Step-Advances id {s} drained = ground arith
Step-Advances id {s} (settled k returned h) = settle-Advances id k returned s h

abbrev pub accepted_of : ℕ → {s t : WebhookWorkerQueue} → Reach s t → ℕ
accepted_of id here = 0
accepted_of id (next r st) = accepted_of id r + accepted_by id st

abbrev pub retained_of : ℕ → {s t : WebhookWorkerQueue} → Reach s t → ℕ
retained_of id here = 0
retained_of id (next r st) = retained_of id r + retained_by id st

abbrev pub finished_of : ℕ → {s t : WebhookWorkerQueue} → Reach s t → ℕ
finished_of id here = 0
finished_of id (next r st) = finished_of id r + finished_by id st

Reach-Advances :
    (id : ℕ) {s t : WebhookWorkerQueue} (r : Reach s t)
    → Advances id (accepted_of id r) (retained_of id r) (finished_of id r) s t
Reach-Advances id here = record { stays = omega arith; bounded = omega arith }
Reach-Advances id (next r st) = ground (arith, Reach-Advances id r, Step-Advances id st)

-- After every history of a new queue, for each delivery: as often as it was accepted, by a call of
-- `enqueue` that returned `true` or in `reclaimPending`, it is in the queue, in a worker, or a
-- handler of it has ended, at least; and the ends of its handlers, its places in the queue and the
-- workers, and its place among the retained ones are together at most as many as it was accepted
-- and as `enqueue` was called for it with `retainForRecovery` and returned `false`. The ends of all
-- handlers, the workers and the queue are as many as all acceptances and the recoveries counted by
-- `recoveredCount`.
pub Reach_delivered :
    (a b c : Option ℕ) (id : ℕ) {t : WebhookWorkerQueue} (r : Reach (init a b c) t)
    → (accepted_of id r ≤ finished_of id r + in_hand id t)
      × (finished_of id r + in_hand id t + times id t.pending_recovery_ids
          ≤ accepted_of id r + retained_of id r)
      × (t.completed + t.failed + length t.running + length t.queue
          ≡ total_handed r + t.recovered_count)
unfolding init
Reach_delivered a b c id r = ground (arith, Reach-Advances id r, Reach_accounted a b c r)
