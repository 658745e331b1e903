-- ===== src/Webhook/Queue/Loops.antt =====
-- What the two loops of the queue do: `promotePendingRecoveries` and the loop of `dispatch`.
use festival.Base.{
  length-add, add-Nodup, List-cases, ℕ, zero, suc, ◌+◌, ◌≤◌, ◌<◌, ◌≡◌, inl, inr, true, List, [],
  ◌∷◌, arith, ltb, length, add, Nodup, length-append, Bool-cases,
}
use festival.Webhook.Queue.{
  WebhookWorkerQueue, promote_one, promote_loop, promote_pending_recoveries, start_worker,
  dispatch_loop,
}

-- The fields that neither loop writes.
pub record SameSettings (s t : WebhookWorkerQueue) : Type 0 where
  pub concurrency : t.concurrency ≡ s.concurrency
  pub max_backlog : t.max_backlog ≡ s.max_backlog
  pub max_pending_recovery : t.max_pending_recovery ≡ s.max_pending_recovery
  pub completed : t.completed ≡ s.completed
  pub failed : t.failed ≡ s.failed
  pub rejected_count : t.rejected_count ≡ s.rejected_count
  pub recovery_overflow_count : t.recovery_overflow_count ≡ s.recovery_overflow_count
  pub drain_resolvers : t.drain_resolvers ≡ s.drain_resolvers

-- What promotion does to a queue whose pending set is `ids`.
pub record Promotes (ids : List ℕ) (s t : WebhookWorkerQueue) : Type 0 where
  pub same : SameSettings s t
  pub active : t.active_ids ≡ s.active_ids
  pub running : t.running ≡ s.running
  pub within : length s.queue ≤ s.max_backlog → length t.queue ≤ s.max_backlog
  pub fewer : length t.pending_recovery_ids ≤ length ids
  pub falls : length t.queue + length t.pending_recovery_ids ≤ length s.queue + length ids
  pub full : 0 < length t.pending_recovery_ids → s.max_backlog ≤ length t.queue
  pub counted : length t.queue + s.recovered_count ≡ length s.queue + t.recovered_count
  pub distinct : Nodup ids → Nodup t.pending_recovery_ids

promote_one-Promotes :
    (id : ℕ) (rest : List ℕ) (s t : WebhookWorkerQueue)
    → ltb (length s.queue) s.max_backlog ≡ true
    → Promotes rest (promote_one id s) t
    → Promotes (id ∷ rest) s t
unfolding promote_one
promote_one-Promotes id rest s t room h = ground (arith, length-append s.queue (id ∷ []))

pub promote_loop-Promotes :
    (ids : List ℕ) (s : WebhookWorkerQueue) → Promotes ids s (promote_loop ids s)
unfolding promote_loop
promote_loop-Promotes [] s = ground arith
promote_loop-Promotes (id ∷ rest) s = elim (Bool-cases (ltb (length s.queue) s.max_backlog)) [
  | inl room ↦
      rw room
        (promote_one-Promotes id rest s _ room (promote_loop-Promotes rest (promote_one id s)))
  | inr no_room ↦ rw no_room (ground arith)
]

-- What `dispatch` does, once the pending set is promoted.
pub record Dispatches (s t : WebhookWorkerQueue) : Type 0 where
  pub same : SameSettings s t
  pub within : length s.queue ≤ s.max_backlog → length t.queue ≤ s.max_backlog
  pub workers : length s.active_ids ≤ s.concurrency → length t.active_ids ≤ s.concurrency
  pub fewer : length t.pending_recovery_ids ≤ length s.pending_recovery_ids
  pub busy : 0 < length t.queue → s.concurrency ≤ length t.active_ids
  pub full : 0 < length t.pending_recovery_ids → s.max_backlog ≤ length t.queue
  pub accounted :
      length t.running + length t.queue + s.recovered_count
      ≡ length s.running + length s.queue + t.recovered_count
  pub distinct : Nodup s.pending_recovery_ids → Nodup t.pending_recovery_ids
  pub active_distinct : Nodup s.active_ids → Nodup t.active_ids

dispatch_stop :
    (s : WebhookWorkerQueue)
    → (0 < length s.queue → s.concurrency ≤ length s.active_ids)
    → (0 < length s.pending_recovery_ids → s.max_backlog ≤ length s.queue)
    → Dispatches s s
dispatch_stop s busy full = ground arith

dispatch_round :
    (id : ℕ) (rest : List ℕ) (s t : WebhookWorkerQueue)
    → s.queue ≡ id ∷ rest
    → length s.active_ids < s.concurrency
    → Dispatches (start_worker id rest s) t
    → Dispatches s t
unfolding start_worker promote_pending_recoveries
dispatch_round id rest s t q room h = ground (
  arith,
  add-Nodup id s.active_ids,
  length-add id s.active_ids,
  promote_loop-Promotes s.pending_recovery_ids
      (record s { queue = rest; active_ids = add id s.active_ids; running = id ∷ s.running }),
)

start_worker-full :
    (id : ℕ) (rest : List ℕ) (s : WebhookWorkerQueue)
    → let t = start_worker id rest s in
      (0 < length t.pending_recovery_ids → t.max_backlog ≤ length t.queue)
      × (length t.queue + length t.pending_recovery_ids
          ≤ length rest + length s.pending_recovery_ids)
unfolding start_worker promote_pending_recoveries
start_worker-full id rest s = ground (
  arith,
  promote_loop-Promotes s.pending_recovery_ids
      (record s { queue = rest; active_ids = add id s.active_ids; running = id ∷ s.running }),
)

-- With fuel for every queued and pending delivery the loop ends by its own test.
pub dispatch_loop-Dispatches :
    (fuel : ℕ) (s : WebhookWorkerQueue)
    → length s.queue + length s.pending_recovery_ids ≤ fuel
    → (0 < length s.pending_recovery_ids → s.max_backlog ≤ length s.queue)
    → Dispatches s (dispatch_loop fuel s)
unfolding dispatch_loop
dispatch_loop-Dispatches zero s enough full = dispatch_stop s (omega arith) full
dispatch_loop-Dispatches (suc fuel) s enough full = elim (List-cases s.queue) [
  | inl e ↦ ground (arith, dispatch_stop s)
  | inr (id, rest, e) ↦ ground (
    arith,
    dispatch_stop s,
    dispatch_round id rest s (dispatch_loop fuel (start_worker id rest s)) e,
    start_worker-full id rest s,
    dispatch_loop-Dispatches fuel (start_worker id rest s),
  )
]
