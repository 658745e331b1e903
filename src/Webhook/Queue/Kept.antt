-- ===== src/Webhook/Queue/Kept.antt =====
-- What `dispatch` of packages/backend/src/commerce/webhook-worker-queue.ts keeps of each delivery.
use festival.Base.{
  zero, inr, length, ltb, inl, [], add, ap, count-append, ◌==◌, Bool-cases, List-cases, ◌≡◌, suc,
  ◌∷◌, count, ◌≤◌, List, ◌+◌, arith, ℕ,
}
use festival.Webhook.Queue.{
  dispatch_fuel, ℕ, WebhookWorkerQueue, dispatch, dispatch_loop, start_worker, promote_one,
  promote_loop, promote_pending_recoveries,
}

-- How often an identifier is in a list.
abbrev pub times : ℕ → List ℕ → ℕ
times id = count (λ i. i == id)

-- In the queue or in a worker.
abbrev pub in_hand : ℕ → WebhookWorkerQueue → ℕ
in_hand id s = times id s.queue + times id s.running

-- The deliveries in hand stay, and more come only from the retained ones.
pub record Keeps (id : ℕ) (pending : List ℕ) (s t : WebhookWorkerQueue) : Type 0 where
  pub stays : in_hand id s ≤ in_hand id t
  pub bounded : in_hand id t + times id t.pending_recovery_ids ≤ in_hand id s + times id pending

promote_one-Keeps :
    (id k : ℕ) (rest : List ℕ) (s t : WebhookWorkerQueue)
    → Keeps id rest (promote_one k s) t
    → Keeps id (k ∷ rest) s t
unfolding promote_one
promote_one-Keeps id k rest s t h = ground (arith, h, count-append (λ i. i == id) s.queue (k ∷ []))

promote_loop-Keeps :
    (id : ℕ) (ids : List ℕ) (s : WebhookWorkerQueue) → Keeps id ids s (promote_loop ids s)
unfolding promote_loop
promote_loop-Keeps id [] s = ground arith
promote_loop-Keeps id (k ∷ rest) s = elim (Bool-cases (ltb (length s.queue) s.max_backlog)) [
  | inl room ↦ rw room (
      promote_one-Keeps id k rest s (promote_loop rest (promote_one k s))
        (promote_loop-Keeps id rest (promote_one k s)))
  | inr no_room ↦ rw no_room (ground arith)
]

start_worker-Keeps :
    (id k : ℕ) (rest : List ℕ) (s : WebhookWorkerQueue)
    → s.queue ≡ k ∷ rest
    → Keeps id s.pending_recovery_ids s (start_worker k rest s)
unfolding start_worker promote_pending_recoveries
start_worker-Keeps id k rest s e = ground (
  arith,
  ap (times id) e,
  promote_loop-Keeps id s.pending_recovery_ids
      (record s { queue = rest; active_ids = add k s.active_ids; running = k ∷ s.running }),
)

dispatch_loop-Keeps :
    (id fuel : ℕ) (s : WebhookWorkerQueue)
    → Keeps id s.pending_recovery_ids s (dispatch_loop fuel s)
unfolding dispatch_loop
dispatch_loop-Keeps id zero s = ground arith
dispatch_loop-Keeps id (suc fuel) s = elim (List-cases s.queue) [
  | inl e ↦ ground (arith, e)
  | inr (k, rest, e) ↦ ground (
    arith,
    e,
    start_worker-Keeps id k rest s e,
    dispatch_loop-Keeps id fuel (start_worker k rest s),
  )
]

pub dispatch-Keeps :
    (id : ℕ) (s : WebhookWorkerQueue) → Keeps id s.pending_recovery_ids s (dispatch s)
unfolding dispatch promote_pending_recoveries
dispatch-Keeps id s =
    let t : WebhookWorkerQueue = promote_loop s.pending_recovery_ids s in
    ground (
      arith,
      promote_loop-Keeps id s.pending_recovery_ids s,
      dispatch_loop-Keeps id (dispatch_fuel t) t,
    )
