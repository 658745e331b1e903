-- ===== src/Webhook/Queue/Accounting.antt =====
-- How many deliveries the queue of packages/backend/src/commerce/webhook-worker-queue.ts takes over.
use festival.Webhook.Queue.Invariant.{
  drained, here, settled, reclaimed, enqueued, next, dispatch-Dispatches, Step, Reach,
}
use festival.Base.{
  length-append, ◌++◌, length-erase_mem, contains, erase, ℕ, ◌+◌, ◌≡◌, Bool, true, false, Option,
  none, some, List, [], ◌∷◌, arith, length,
}
use festival.Webhook.Queue.{
  check_drain, drain, init, WebhookWorkerQueue, enqueue, reclaim_pending, settle, accept, reject,
  retain,
}

-- The deliveries that the queue has taken over: handled, in a worker, or queued.
abbrev pub taken : WebhookWorkerQueue → ℕ
taken s = s.completed + s.failed + length s.running + length s.queue

-- A promise: what was taken over on top of the promoted ones rises by `n`.
abbrev pub Takes : ℕ → WebhookWorkerQueue → WebhookWorkerQueue → Type 0
Takes n s t = taken t + s.recovered_count ≡ taken s + t.recovered_count + n

abbrev pub accepted_count : Bool → ℕ
accepted_count true = 1
accepted_count false = 0

-- `enqueue` takes over one delivery if it returns `true`, and none if it returns `false`.
pub enqueue-Takes :
    (id : Option ℕ) (keep : Bool) (s : WebhookWorkerQueue)
    → Takes (accepted_count (enqueue id keep s).1) s (enqueue id keep s).0
unfolding enqueue accept reject retain
enqueue-Takes none keep s = omega arith
enqueue-Takes (some id) keep s =
    let t : WebhookWorkerQueue = record s {
      pending_recovery_ids = erase id s.pending_recovery_ids;
      queue = s.queue ++ id ∷ [];
    } in
    ground (arith, dispatch-Dispatches t, length-append s.queue (id ∷ []))

-- `reclaimPending` takes over exactly as many deliveries as it returns.
reclaim_pending-Takes :
    (ids : List (Option ℕ)) (n : ℕ) (s : WebhookWorkerQueue)
    → let (t, m) = reclaim_pending ids n s in
      taken t + s.recovered_count + n ≡ taken s + t.recovered_count + m
unfolding reclaim_pending
reclaim_pending-Takes [] n s = omega arith
reclaim_pending-Takes (id ∷ ids) n s = ground (
  arith,
  reclaim_pending-Takes ids n s,
  enqueue-Takes id false s,
  reclaim_pending-Takes ids (n + 1) (enqueue id false s).0,
)

-- The end of a handler changes none of it.
pub settle-Takes :
    (id : ℕ) (returned : Bool) (s : WebhookWorkerQueue)
    → contains id s.running ≡ true
    → Takes 0 s (settle id returned s)
unfolding settle check_drain
settle-Takes id true s h =
    let t : WebhookWorkerQueue = record s {
      completed = s.completed + 1;
      active_ids = erase id s.active_ids;
      running = erase id s.running;
    } in
    ground (arith, dispatch-Dispatches t, length-erase_mem id s.running h)
settle-Takes id false s h =
    let t : WebhookWorkerQueue = record s {
      failed = s.failed + 1;
      active_ids = erase id s.active_ids;
      running = erase id s.running;
    } in
    ground (arith, dispatch-Dispatches t, length-erase_mem id s.running h)

-- The deliveries that a step hands over to the queue.
abbrev pub handed : {s t : WebhookWorkerQueue} → Step s t → ℕ
handed {s} (enqueued id keep) = accepted_count (enqueue id keep s).1
handed {s} (reclaimed ids) = (reclaim_pending ids 0 s).1
handed drained = 0
handed (settled _ _ _) = 0

Step-Takes : {s t : WebhookWorkerQueue} (st : Step s t) → Takes (handed st) s t
unfolding drain
Step-Takes {s} (enqueued id keep) = enqueue-Takes id keep s
Step-Takes {s} (reclaimed ids) = omega (arith, reclaim_pending-Takes ids 0 s)
Step-Takes {s} drained = ground arith
Step-Takes {s} (settled id returned h) = settle-Takes id returned s h

abbrev pub total_handed : {s t : WebhookWorkerQueue} → Reach s t → ℕ
total_handed here = 0
total_handed (next r st) = total_handed r + handed st

Reach-Takes : {s t : WebhookWorkerQueue} (r : Reach s t) → Takes (total_handed r) s t
Reach-Takes here = omega arith
Reach-Takes (next r st) = omega (arith, Reach-Takes r, Step-Takes st)

-- After every history of a new queue, the number of handlers that have ended (completed or failed),
-- of the workers and of the queued deliveries is the number of the acceptances, of `enqueue` and of
-- `reclaimPending`, and of the recoveries counted by `recoveredCount`.
pub Reach_accounted :
    (a b c : Option ℕ) {t : WebhookWorkerQueue} (r : Reach (init a b c) t)
    → t.completed + t.failed + length t.running + length t.queue
      ≡ total_handed r + t.recovered_count
unfolding init
Reach_accounted a b c r = ground (arith, Reach-Takes r)
