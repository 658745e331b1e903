-- ===== src/Webhook/Queue/Invariant.antt =====
-- What holds of the queue between two turns, and the relation of one turn to the next.
use festival.Webhook.Queue.Loops.{dispatch_loop-Dispatches, promote_loop-Promotes, Dispatches}
use festival.Base.{
  ◌++◌, erase-Nodup, add-Nodup, length-erase, ap, erase, contains, length-add, length-append, ℕ,
  ◌+◌, ◌≤◌, ◌<◌, ◌≡◌, Bool, true, false, Option, none, some, List, [], ◌∷◌, arith, length, Nodup,
}
use festival.Webhook.Queue.{
  dispatch_fuel, promote_loop, is_idle, WebhookWorkerQueue, promote_pending_recoveries, dispatch,
  retain, reject, accept, enqueue, reclaim_pending, drain, check_drain, settle, init,
}

-- The limits hold, the two sets list nothing twice, and nothing is left waiting that could move:
-- deliveries are queued only while every worker is taken, and retained only while the backlog
-- is full.
pub record IsValid (s : WebhookWorkerQueue) : Type 0 where
  pub some_worker : 1 ≤ s.concurrency
  pub some_backlog : 1 ≤ s.max_backlog
  pub within : length s.queue ≤ s.max_backlog
  pub workers : length s.active_ids ≤ s.concurrency
  pub retained : length s.pending_recovery_ids ≤ s.max_pending_recovery
  pub active_distinct : Nodup s.active_ids
  pub pending_distinct : Nodup s.pending_recovery_ids
  pub busy : 0 < length s.queue → s.concurrency ≤ length s.active_ids
  pub full : 0 < length s.pending_recovery_ids → s.max_backlog ≤ length s.queue

-- The same without the last two: what a turn has at its `dispatch`.
pub record IsReady (s : WebhookWorkerQueue) : Type 0 where
  pub some_worker : 1 ≤ s.concurrency
  pub some_backlog : 1 ≤ s.max_backlog
  pub within : length s.queue ≤ s.max_backlog
  pub workers : length s.active_ids ≤ s.concurrency
  pub retained : length s.pending_recovery_ids ≤ s.max_pending_recovery
  pub active_distinct : Nodup s.active_ids
  pub pending_distinct : Nodup s.pending_recovery_ids

pub dispatch-Dispatches : (s : WebhookWorkerQueue) → Dispatches s (dispatch s)
unfolding dispatch promote_pending_recoveries
dispatch-Dispatches s =
    let t : WebhookWorkerQueue = promote_loop s.pending_recovery_ids s in
    ground (
      arith,
      promote_loop-Promotes s.pending_recovery_ids s,
      dispatch_loop-Dispatches (dispatch_fuel t) t,
    )

dispatch-IsValid : (s : WebhookWorkerQueue) → IsReady s → IsValid (dispatch s)
dispatch-IsValid s h = ground (arith, dispatch-Dispatches s)

reject-IsValid :
    (id : ℕ) (keep : Bool) (s : WebhookWorkerQueue)
    → IsValid s
    → s.max_backlog ≤ length s.queue
    → IsValid (reject id keep s)
unfolding reject retain
reject-IsValid id keep s h k =
    ground (arith, length-add id s.pending_recovery_ids, add-Nodup id s.pending_recovery_ids)

accept-IsValid :
    (id : ℕ) (s : WebhookWorkerQueue)
    → IsValid s
    → length s.queue < s.max_backlog
    → IsValid (accept id s)
unfolding accept
accept-IsValid id s h k =
    dispatch-IsValid
      (record s {
        pending_recovery_ids = erase id s.pending_recovery_ids;
        queue = s.queue ++ id ∷ [];
      })
      (ground (
        arith,
        length-append s.queue (id ∷ []),
        length-erase id s.pending_recovery_ids,
        erase-Nodup id s.pending_recovery_ids,
      ))

pub enqueue-IsValid :
    (id : Option ℕ) (keep : Bool) (s : WebhookWorkerQueue)
    → IsValid s
    → IsValid (enqueue id keep s).0
unfolding enqueue
enqueue-IsValid none keep s h = h
enqueue-IsValid (some id) keep s h =
    ground (arith, reject-IsValid id keep s h, accept-IsValid id s h)

pub reclaim_pending-IsValid :
    (ids : List (Option ℕ)) (n : ℕ) (s : WebhookWorkerQueue)
    → IsValid s
    → IsValid (reclaim_pending ids n s).0
unfolding reclaim_pending
reclaim_pending-IsValid [] n s h = h
reclaim_pending-IsValid (id ∷ ids) n s h = ground (
  arith,
  reclaim_pending-IsValid ids n s h,
  enqueue-IsValid id false s h,
  reclaim_pending-IsValid ids (n + 1) (enqueue id false s).0,
)

pub settle-IsValid :
    (id : ℕ) (returned : Bool) (s : WebhookWorkerQueue) → IsValid s → IsValid (settle id returned s)
unfolding settle check_drain
settle-IsValid id true s h =
    let t : WebhookWorkerQueue = record s {
      completed = s.completed + 1;
      active_ids = erase id s.active_ids;
      running = erase id s.running;
    } in
    let v : IsValid (dispatch t) =
      dispatch-IsValid t
        (ground (arith, length-erase id s.active_ids, erase-Nodup id s.active_ids)) in
    ground arith
settle-IsValid id false s h =
    let t : WebhookWorkerQueue = record s {
      failed = s.failed + 1;
      active_ids = erase id s.active_ids;
      running = erase id s.running;
    } in
    let v : IsValid (dispatch t) =
      dispatch-IsValid t
        (ground (arith, length-erase id s.active_ids, erase-Nodup id s.active_ids)) in
    ground arith

drain-IsValid : (s : WebhookWorkerQueue) → IsValid s → IsValid (drain s).0
unfolding drain
drain-IsValid s h = ground arith

pub init-IsValid : (a b c : Option ℕ) → IsValid (init a b c)
unfolding init
init-IsValid a b c = ground arith

-- The turns of the event loop: a call of a method, or the end of a handler that runs.
pub data Step (s : WebhookWorkerQueue) : WebhookWorkerQueue → Type 0 where
  enqueued : (id : Option ℕ) (keep : Bool) → Step s (enqueue id keep s).0
  reclaimed : (ids : List (Option ℕ)) → Step s (reclaim_pending ids 0 s).0
  drained : Step s (drain s).0
  settled :
      (id : ℕ) (returned : Bool) → contains id s.running ≡ true → Step s (settle id returned s)

pub data Reach (s : WebhookWorkerQueue) : WebhookWorkerQueue → Type 0 where
  here : Reach s s
  next : {t u : WebhookWorkerQueue} → Reach s t → Step t u → Reach s u

Step-IsValid : {s t : WebhookWorkerQueue} → IsValid s → Step s t → IsValid t
Step-IsValid {s} h (enqueued id keep) = enqueue-IsValid id keep s h
Step-IsValid {s} h (reclaimed ids) = reclaim_pending-IsValid ids 0 s h
Step-IsValid {s} h drained = drain-IsValid s h
Step-IsValid {s} h (settled id returned running) = settle-IsValid id returned s h

-- After every history of a queue that the constructor has made, whatever options it was given:
-- the backlog, the set of active deliveries and the set of retained ones are within their limits, the two sets list nothing
-- twice, deliveries are queued only while every worker is taken, and retained only while the
-- backlog is full.
pub Reach-IsValid : (a b c : Option ℕ) {t : WebhookWorkerQueue} → Reach (init a b c) t → IsValid t
Reach-IsValid a b c here = init-IsValid a b c
Reach-IsValid a b c (next r st) = Step-IsValid (Reach-IsValid a b c r) st

-- After every history of a queue that the constructor has made, a queue with no active delivery has nothing queued and nothing
-- retained either: no delivery is stranded.
pub Reach_not_stranded :
    (a b c : Option ℕ) {t : WebhookWorkerQueue}
    → Reach (init a b c) t
    → t.active_ids ≡ []
    → is_idle t ≡ true
unfolding is_idle
Reach_not_stranded a b c r e = ground (arith, Reach-IsValid a b c r, ap length e)
