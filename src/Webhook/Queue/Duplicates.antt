-- ===== src/Webhook/Queue/Duplicates.antt =====
-- The limit on workers counts identifiers, so deliveries of one identifier escape it.
use festival.Base.{zero, suc, ℕ, ◌+◌, ◌≤◌, ◌≡◌, true, Option, some, [], ◌∷◌, arith, length}
use festival.Webhook.Queue.{
  init, promote_pending_recoveries, start_worker, promote_loop, dispatch_loop, dispatch,
  WebhookWorkerQueue, enqueue, accept,
}

-- `enqueue` of one identifier, `n` times over, with no handler that ends between the calls.
pub enqueue_again : ℕ → ℕ → WebhookWorkerQueue → WebhookWorkerQueue
enqueue_again zero id s = s
enqueue_again (suc n) id s = enqueue_again n id (enqueue (some id) true s).0

-- One delivery is active, `n` workers run for it, and nothing waits.
record Crowded (id n : ℕ) (s : WebhookWorkerQueue) : Type 0 where
  workers : 2 ≤ s.concurrency
  backlog : 1 ≤ s.max_backlog
  queue : s.queue ≡ []
  pending : s.pending_recovery_ids ≡ []
  active : s.active_ids ≡ id ∷ []
  running : length s.running ≡ n

enqueue-Crowded :
    (id n : ℕ) (s : WebhookWorkerQueue)
    → Crowded id n s
    → Crowded id (suc n) (enqueue (some id) true s).0
unfolding enqueue accept dispatch dispatch_loop promote_loop start_worker promote_pending_recoveries
enqueue-Crowded id n s h = ground arith

enqueue_again-Crowded :
    (m id n : ℕ) (s : WebhookWorkerQueue)
    → Crowded id n s
    → Crowded id (m + n) (enqueue_again m id s)
unfolding enqueue_again
enqueue_again-Crowded zero id n s h = ground arith
enqueue_again-Crowded (suc m) id n s h =
    ground (
      arith,
      enqueue-Crowded id n s,
      enqueue_again-Crowded m id (suc n) (enqueue (some id) true s).0,
    )

first-Crowded :
    (c id : ℕ) (backlog recovery : Option ℕ)
    → 2 ≤ c
    → Crowded id 1 (enqueue (some id) true (init (some c) backlog recovery)).0
unfolding init enqueue accept dispatch dispatch_loop promote_loop start_worker
    promote_pending_recoveries
first-Crowded c id backlog recovery h = ground arith

-- On a new queue with a concurrency of at least 2, calling `enqueue` with one identifier `n + 1`
-- times, before a handler ends, starts `n + 1` workers at once, whatever the concurrency is,
-- while the set of active deliveries lists one.
pub enqueue_again_unbounded :
    (c id n : ℕ) (backlog recovery : Option ℕ)
    → 2 ≤ c
    → let t = enqueue_again (suc n) id (init (some c) backlog recovery) in
      (length t.running ≡ suc n) × (t.active_ids ≡ id ∷ [])
unfolding enqueue_again
enqueue_again_unbounded c id n backlog recovery h = ground (
  arith,
  first-Crowded c id backlog recovery h,
  enqueue_again-Crowded n id 1 (enqueue (some id) true (init (some c) backlog recovery)).0,
)
