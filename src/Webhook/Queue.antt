-- ===== src/Webhook/Queue.antt =====
-- `class WebhookWorkerQueue` of packages/backend/src/commerce/webhook-worker-queue.ts.
-- Delivery identifiers are only compared, so they are naturals; `none` in `enqueue` is what the
-- guard of that method turns away, the empty string or a value that is no string.
-- A JavaScript turn runs to its end, so each method is one step. The handler is a parameter: it
-- is asynchronous, it enters no method of the queue before its first `await` and does not throw
-- before it, so starting it adds its delivery to `running` and its end is a later call of `settle`.
pub mod Loops
pub mod Accounting
pub mod Kept
pub mod Deliveries
pub mod Duplicates
pub mod Invariant
use festival.Base.{
  ℕ, zero, suc, ◌+◌, ◌*◌, ◌≤◌, ◌<◌, Bool, true, false, ◌&&◌, ◌||◌, not, Option, none, some, List,
  [], ◌∷◌, ◌++◌, ltb, leb, ◌==◌, if◌then◌else◌, length, contains, add, erase, any, or_else,
}

pub record WebhookWorkerQueue : Type 0 where
  pub concurrency : ℕ
  pub max_backlog : ℕ
  pub max_pending_recovery : ℕ
  pub queue : List ℕ
  pub active_ids : List ℕ
  pub pending_recovery_ids : List ℕ
  pub completed : ℕ
  pub failed : ℕ
  pub rejected_count : ℕ
  pub recovered_count : ℕ
  pub recovery_overflow_count : ℕ
  -- the promises of `drain` that wait
  pub drain_resolvers : ℕ
  -- the calls of `runWorker` that wait for the handler
  pub running : List ℕ

abbrev pub default_webhook_queue_concurrency : ℕ
default_webhook_queue_concurrency = 5

abbrev pub default_webhook_queue_max_backlog : ℕ
default_webhook_queue_max_backlog = 5000

-- `none` is `undefined` or a number that is not finite; a finite one is given by what
-- `Math.trunc` leaves of it, 0 for a negative number.
unfoldable pub clamp_positive_int : Option ℕ → ℕ → ℕ
clamp_positive_int none fallback = fallback
clamp_positive_int (some n) fallback = if ltb n 1 then 1 else n

-- The constructor.
unfoldable pub init : Option ℕ → Option ℕ → Option ℕ → WebhookWorkerQueue
unfolding clamp_positive_int
init concurrency max_backlog max_pending_recovery =
    let backlog : ℕ = clamp_positive_int max_backlog default_webhook_queue_max_backlog in
    record {
      concurrency = clamp_positive_int concurrency default_webhook_queue_concurrency;
      max_backlog = backlog;
      max_pending_recovery = clamp_positive_int max_pending_recovery (backlog * 4);
      queue = [];
      active_ids = [];
      pending_recovery_ids = [];
      completed = 0;
      failed = 0;
      rejected_count = 0;
      recovered_count = 0;
      recovery_overflow_count = 0;
      drain_resolvers = 0;
      running = [];
    }

unfoldable pub is_queued_or_active : ℕ → WebhookWorkerQueue → Bool
is_queued_or_active id s = contains id s.active_ids || contains id s.queue

-- One round of the loop of `promotePendingRecoveries`, with the first of the set taken out.
unfoldable pub promote_one : ℕ → WebhookWorkerQueue → WebhookWorkerQueue
unfolding is_queued_or_active
promote_one id s =
    if is_queued_or_active id s
    then s
    else record s { queue = s.queue ++ id ∷ []; recovered_count = s.recovered_count + 1 }

-- The loop, over the identifiers that are left in `pendingRecoveryIds`.
unfoldable pub promote_loop : List ℕ → WebhookWorkerQueue → WebhookWorkerQueue
promote_loop [] s = record s { pending_recovery_ids = [] }
promote_loop (id ∷ rest) s =
    let next = promote_loop rest (promote_one id s) in
    if ltb (length s.queue) s.max_backlog
    then next
    else record s { pending_recovery_ids = id ∷ rest }

unfoldable pub promote_pending_recoveries : WebhookWorkerQueue → WebhookWorkerQueue
unfolding promote_loop
promote_pending_recoveries s = promote_loop s.pending_recovery_ids s

-- The body of the loop of `dispatch`: a worker is started for the first in the queue.
unfoldable pub start_worker : ℕ → List ℕ → WebhookWorkerQueue → WebhookWorkerQueue
unfolding promote_pending_recoveries
start_worker id rest s =
    promote_pending_recoveries
      (record s { queue = rest; active_ids = add id s.active_ids; running = id ∷ s.running })

-- `while (activeIds.size < concurrency && queue.length > 0)`.
unfoldable pub dispatch_loop : ℕ → WebhookWorkerQueue → WebhookWorkerQueue
dispatch_loop zero s = s
dispatch_loop (suc fuel) s = elim s.queue [
  | [] ↦ s
  | id ∷ rest ↦
      let next = dispatch_loop fuel (start_worker id rest s) in
      if ltb (length s.active_ids) s.concurrency then next else s
]

-- A round takes one delivery out of the queue, and the queue gains only from the pending ones.
abbrev pub dispatch_fuel : WebhookWorkerQueue → ℕ
dispatch_fuel s = length s.queue + length s.pending_recovery_ids

unfoldable pub dispatch : WebhookWorkerQueue → WebhookWorkerQueue
unfolding dispatch_loop promote_pending_recoveries
dispatch s = let t = promote_pending_recoveries s in dispatch_loop (dispatch_fuel t) t

-- What `enqueue` does with a delivery that the backlog has no room for.
unfoldable pub retain : ℕ → WebhookWorkerQueue → WebhookWorkerQueue
retain id s =
    if contains id s.pending_recovery_ids
    then s
    else if ltb (length s.pending_recovery_ids) s.max_pending_recovery
    then record s { pending_recovery_ids = add id s.pending_recovery_ids }
    else record s { recovery_overflow_count = s.recovery_overflow_count + 1 }

unfoldable pub reject : ℕ → Bool → WebhookWorkerQueue → WebhookWorkerQueue
unfolding is_queued_or_active retain
reject id retain_for_recovery s =
    let t = record s { rejected_count = s.rejected_count + 1 } in
    if retain_for_recovery && not (is_queued_or_active id s) then retain id t else t

unfoldable pub accept : ℕ → WebhookWorkerQueue → WebhookWorkerQueue
unfolding dispatch
accept id s = dispatch (record s {
  pending_recovery_ids = erase id s.pending_recovery_ids;
  queue = s.queue ++ id ∷ [];
})

unfoldable pub enqueue : Option ℕ → Bool → WebhookWorkerQueue → WebhookWorkerQueue × Bool
unfolding reject accept
enqueue none retain_for_recovery s = (s, false)
enqueue (some id) retain_for_recovery s =
    if leb s.max_backlog (length s.queue)
    then (reject id retain_for_recovery s, false)
    else (accept id s, true)

abbrev pub is_known : Option ℕ → WebhookWorkerQueue → Bool
is_known none s = false
is_known (some id) s = is_queued_or_active id s

-- The loop of `reclaimPending`, over what the fetch returned.
unfoldable pub reclaim_pending : List (Option ℕ) → ℕ → WebhookWorkerQueue → WebhookWorkerQueue × ℕ
unfolding is_queued_or_active enqueue
reclaim_pending [] reclaimed s = (s, reclaimed)
reclaim_pending (id ∷ ids) reclaimed s =
    let skip = reclaim_pending ids reclaimed s in
    let (s', accepted) = enqueue id false s in
    let next = reclaim_pending ids (reclaimed + 1) s' in
    if is_known id s then skip else if accepted then next else (s', reclaimed)

unfoldable pub is_idle : WebhookWorkerQueue → Bool
is_idle s = length s.queue == 0 && length s.active_ids == 0 && length s.pending_recovery_ids == 0

-- `drain`: resolved at once, or later by `checkDrain`.
unfoldable pub drain : WebhookWorkerQueue → WebhookWorkerQueue × Bool
unfolding is_idle
drain s =
    if is_idle s then (s, true) else (record s { drain_resolvers = s.drain_resolvers + 1 }, false)

unfoldable pub check_drain : WebhookWorkerQueue → WebhookWorkerQueue
unfolding is_idle
check_drain s = if is_idle s && ltb 0 s.drain_resolvers then record s { drain_resolvers = 0 } else s

-- The end of `runWorker`: the handler has returned (`true`) or has thrown.
unfoldable pub settle : ℕ → Bool → WebhookWorkerQueue → WebhookWorkerQueue
unfolding dispatch check_drain
settle id returned s =
    let t =
      if returned
      then record s { completed = s.completed + 1 }
      else record s { failed = s.failed + 1 } in
    check_drain
      (dispatch (record t { active_ids = erase id t.active_ids; running = erase id t.running }))
