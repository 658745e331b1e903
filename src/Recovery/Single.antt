-- ===== src/Recovery/Single.antt =====
use festival.Recovery.Steps.{
  stored, unchanged, closed, added, here, cancelled_for, Step-Change, next, Change, Steps,
}
use festival.Recovery.Invariant.{
  store-IsSingle, write-IsSingle, new_request-IsSingle, cancel-IsSingle, IsSingle,
}
use festival.Base.{
  or_else, lookup-insert_ne, lookup-map_values, arith, nat_eq, false, some, ◌≡◌, lookup, ℕ, Dict,
}
use festival.Recovery.Records.{
  is_pending, CheckoutRecoveryRequestRecord, CheckoutRecoveryRepository,
}
use festival.Recovery.Repository.{
  new_request, cancel_if_pending, is_pending_for, cancel_pending_recovery_requests,
}

-- What holds after every sequence of calls of the repository of
-- packages/backend/src/checkout/checkout-recovery-repository.ts.

Change-IsSingle :
    {before after : Dict ℕ CheckoutRecoveryRequestRecord}
    → IsSingle before
    → Change before after
    → IsSingle after
Change-IsSingle v unchanged = v
Change-IsSingle v (cancelled_for organization_id intent_id) =
    cancel-IsSingle organization_id intent_id _ v
Change-IsSingle v (added params uuid now fresh) = new_request-IsSingle params uuid now _ fresh v
Change-IsSingle v (stored request fresh admits) = store-IsSingle request _ fresh admits v
Change-IsSingle v (closed before after found was same token is) =
    write-IsSingle before after _ found same is v

-- Calls on a repository whose requests are stored under their identifiers, and in which an intent
-- has one pending request at most, lead to such a repository, where the requests that are created
-- or added are given new identifiers, and one is added as pending only for an intent that has no
-- pending request.
pub Steps-IsSingle :
    {before after : CheckoutRecoveryRepository}
    → IsSingle before.recovery_requests
    → Steps before after
    → IsSingle after.recovery_requests
Steps-IsSingle v here = v
Steps-IsSingle v (next r st) = let w = Steps-IsSingle v r in Change-IsSingle w (Step-Change w st)

Change-closed :
    {before after : Dict ℕ CheckoutRecoveryRequestRecord} (id : ℕ)
    (request : CheckoutRecoveryRequestRecord)
    → lookup id before ≡ some request
    → is_pending request.status ≡ false
    → Change before after
    → lookup id after ≡ some request
unfolding cancel_pending_recovery_requests is_pending_for
Change-closed id request found done unchanged = found
Change-closed id request found done (cancelled_for {requests = requests} o i) =
    ground (arith, lookup-map_values (cancel_if_pending o i) id request requests found, done)
Change-closed id request found done (added {requests = requests} params uuid now fresh) = ground (
  arith,
  done,
  found,
  fresh,
  lookup-map_values (cancel_if_pending params.organization_id params.source_checkout_intent_id) id
      request requests found,
  lookup-insert_ne (or_else params.id uuid) id (new_request params uuid now) (
      cancel_pending_recovery_requests params.organization_id params.source_checkout_intent_id
        requests),
)
Change-closed id request found done (stored {requests = requests} new fresh admits) =
    ground (arith, found, fresh, lookup-insert_ne new.id id new requests)
Change-closed id request found done
      (closed {requests = requests} before after there was same token is) =
    ground (arith, found, done, there, was, lookup-insert_ne before.id id after requests)

-- In a repository whose requests are stored under their identifiers, and in which an intent has one
-- pending request at most, a request that is not pending any more, be it consumed, expired or
-- cancelled, is kept as it is by every further sequence of calls in which the requests that are
-- created or added are given new identifiers, and one is added as pending only for an intent that
-- has no pending request.
pub Steps-closed :
    {before after : CheckoutRecoveryRepository} (id : ℕ) (request : CheckoutRecoveryRequestRecord)
    → IsSingle before.recovery_requests
    → lookup id before.recovery_requests ≡ some request
    → is_pending request.status ≡ false
    → Steps before after
    → lookup id after.recovery_requests ≡ some request
Steps-closed id request v found done here = found
Steps-closed id request v found done (next r st) =
    Change-closed id request (Steps-closed id request v found done r) done
      (Step-Change (Steps-IsSingle v r) st)
