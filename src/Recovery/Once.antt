-- ===== src/Recovery/Once.antt =====
-- A recovery token is consumed once: `consumeRecoveryRequest` of
-- packages/backend/src/checkout/checkout-recovery-repository.ts.
use festival.Recovery.Single.{Steps-IsSingle}
use festival.Recovery.Steps.{
  stored, token_used, unchanged, closed, added, here, cancelled_for, Step-Change, next, Change,
  Steps,
}
use festival.Recovery.Invariant.{cancel-none_pending, first_with_token-found, IsSingle}
use festival.Base.{
  [], ◌∷◌, ap, count, none, List, subst, find?-insert_other, lookup-map_values-none, map_values,
  find?-insert_new, find?-insert, or_else, Bool, leb, Bool-cases, nat_eq, find?-Splits,
  find?-map_values, true, false, ◌⊎◌, arith, Option-cases, inl, some, inr, values, ◌≡◌, ◌==◌, find?,
  Dict, ℕ,
}
use festival.Recovery.Repository.{
  invalidate_intent, consume, new_request, cancel_if_pending, first_with_token, is_pending_for,
  cancel_pending_recovery_requests, consume_recovery_request,
}
use festival.Recovery.Records.{
  is_pending, CheckoutRecoveryRequestRecord, ConsumeRecoveryRequestParams,
  CheckoutRecoveryRepository, consumed, not_pending, request_not_found,
}

Change-first :
    {before after : Dict ℕ CheckoutRecoveryRequestRecord} (token_hash : ℕ)
    (request : CheckoutRecoveryRequestRecord)
    → find? (λ r. r.token_hash == token_hash) (values before) ≡ some request
    → is_pending request.status ≡ false
    → Change before after
    → find? (λ r. r.token_hash == token_hash) (values after) ≡ some request
unfolding cancel_pending_recovery_requests is_pending_for
Change-first token_hash request found done unchanged = found
Change-first token_hash request found done (cancelled_for {requests = requests} o i) = ground (
  arith,
  find?-map_values (λ r. r.token_hash == token_hash) (cancel_if_pending o i) request requests
      (λ w. ground arith) found,
  done,
)
Change-first token_hash request found done (added {requests = requests} params uuid now fresh) =
    let f = cancel_if_pending params.organization_id params.source_checkout_intent_id in
    let p : CheckoutRecoveryRequestRecord → Bool = λ r. r.token_hash == token_hash in
    find?-insert_new p (or_else params.id uuid) request (new_request params uuid now)
      (map_values f requests) (lookup-map_values-none f (or_else params.id uuid) requests fresh)
      (ground (arith, done, find?-map_values p f request requests (λ w. ground arith) found))
Change-first token_hash request found done (stored {requests = requests} new fresh admits) =
    find?-insert_new (λ r. r.token_hash == token_hash) new.id request new requests fresh found
Change-first token_hash request found done
      (closed {requests = requests} before after there was same token is) =
    find?-insert_other (λ r. r.token_hash == token_hash) (λ r. is_pending r.status) before.id
      request before after requests there (ground (arith, token)) was done found

Steps-first :
    {before after : CheckoutRecoveryRepository} (token_hash : ℕ)
    (request : CheckoutRecoveryRequestRecord)
    → IsSingle before.recovery_requests
    → find? (λ r. r.token_hash == token_hash) (values before.recovery_requests) ≡ some request
    → is_pending request.status ≡ false
    → Steps before after
    → find? (λ r. r.token_hash == token_hash) (values after.recovery_requests) ≡ some request
Steps-first token_hash request v found done here = found
Steps-first token_hash request v found done (next r st) =
    Change-first token_hash request (Steps-first token_hash request v found done r) done
      (Step-Change (Steps-IsSingle v r) st)

-- A consumption that succeeds has found the first pending request of its token, and leaves it
-- consumed.
consume_recovery_request-consumed :
    (params : ConsumeRecoveryRequestParams) (now : ℕ) (repo repo' : CheckoutRecoveryRepository)
    → (request : CheckoutRecoveryRequestRecord) → IsSingle repo.recovery_requests
    → consume_recovery_request params now repo ≡ (repo', inr request)
    → (find? (λ r. r.token_hash == params.token_hash) (values repo'.recovery_requests)
        ≡ some request)
      × (request.status ≡ consumed)
unfolding consume_recovery_request
consume_recovery_request-consumed params now repo repo' request v h =
    elim (Option-cases (first_with_token params.token_hash params.organization_id repo)) [
      | inl n ↦ absurd (ground (arith, n, h))
      | inr (old, n) ↦
          let (first, found) =
            first_with_token-found params.token_hash params.organization_id repo old v n in
          let token : (old.token_hash == params.token_hash) ≡ true =
            (find?-Splits (λ r. r.token_hash == params.token_hash) (values repo.recovery_requests)
              first).1 in
          elim (Bool-cases (is_pending old.status)) [
            | inr p ↦ absurd (ground (arith, n, p, h))
            | inl p ↦ elim (Bool-cases (leb old.expires_at (or_else params.consumed_at now))) [
              | inl e ↦ absurd (ground (arith, n, p, e, h))
              | inr e ↦ ground (
                arith,
                n,
                p,
                e,
                h,
                find?-insert (λ r. r.id) (λ r. r.token_hash == params.token_hash) old
                    (consume (or_else params.consumed_at now) old) repo.recovery_requests v.keyed
                    first token,
              )
            ]
          ]
    ]

-- Once a token is consumed, no later consumption of it succeeds, for any organization and at any
-- time: it writes nothing and answers that there is no such request or that it is consumed. At the
-- start requests are stored under their identifiers, and an intent has one pending request at most.
-- In between come any calls in which the requests that are created or added are given new
-- identifiers, and one is added as pending only for an intent that has no pending request.
pub consume_recovery_request_once :
    (params params' : ConsumeRecoveryRequestParams) (now now' : ℕ)
    → (repo consumed_repo later : CheckoutRecoveryRepository)
    → (request : CheckoutRecoveryRequestRecord) → IsSingle repo.recovery_requests
    → consume_recovery_request params now repo ≡ (consumed_repo, inr request)
    → Steps consumed_repo later
    → params'.token_hash ≡ params.token_hash
    → (consume_recovery_request params' now' later ≡ (later, inl request_not_found))
      ⊎ (consume_recovery_request params' now' later ≡ (later, inl (not_pending consumed)))
unfolding consume_recovery_request first_with_token
consume_recovery_request_once params params' now now' repo consumed_repo later request v h steps
      same =
    let (first, status) =
      consume_recovery_request-consumed params now repo consumed_repo request v h in
    let w =
      subst (λ r. IsSingle r.recovery_requests) (ap (λ x. x.0) h)
        (Steps-IsSingle v (next here (token_used params now))) in
    let found = Steps-first params.token_hash request w first (ground (arith, status)) steps in
    ground (arith, found, status, same)

find?-count_zero {ℓ} :
    {A : Type ℓ} (p q : A → Bool) (x : A) (xs : List A)
    → find? p xs ≡ some x
    → count q xs ≡ 0
    → q x ≡ false
find?-count_zero p q x [] h none_there = ground (arith, h)
find?-count_zero p q x (y ∷ xs) h none_there =
    ground (arith, h, none_there, find?-count_zero p q x xs)

-- After an intent has been invalidated, a token that stands for a request of that intent is not
-- consumed: the call writes nothing and answers that the request is not pending.
pub invalidate_intent-closes :
    (organization_id intent_id : ℕ) (repo repo' : CheckoutRecoveryRepository)
    → (params : ConsumeRecoveryRequestParams) (now : ℕ) (request : CheckoutRecoveryRequestRecord)
    → invalidate_intent organization_id intent_id repo ≡ (repo', none)
    → first_with_token params.token_hash params.organization_id repo' ≡ some request
    → request.organization_id ≡ organization_id
    → request.source_checkout_intent_id ≡ intent_id
    → consume_recovery_request params now repo' ≡ (repo', inl (not_pending request.status))
unfolding invalidate_intent consume_recovery_request first_with_token is_pending_for
invalidate_intent-closes organization_id intent_id repo repo' params now request h first o i =
    let closed_count : count (is_pending_for organization_id intent_id)
          (values repo'.recovery_requests)
        ≡ 0 =
      ground (arith, h, cancel-none_pending organization_id intent_id repo.recovery_requests) in
    let found : find? (λ r. r.token_hash == params.token_hash) (values repo'.recovery_requests)
        ≡ some request =
      ground (arith, first) in
    let closed_one =
      find?-count_zero (λ r. r.token_hash == params.token_hash)
        (is_pending_for organization_id intent_id) request (values repo'.recovery_requests) found
        closed_count in
    ground (arith, first, found, closed_one, o, i)
