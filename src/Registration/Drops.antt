-- ===== src/Registration/Drops.antt =====
-- What a drop does to the confirmed registrations of the classes.
use festival.Registration.Changes.{create_change_log, RegistrationChangeRepository}
use festival.Registration.Refunds.{RefundCalls}
use festival.Registration.Records.{
  customer, drop, system_actor, DropRegistrationResult, RegistrationChangeLog,
  DropRegistrationInput,
}
use festival.Registration.Seats.{IsStore}
use festival.Registration.Service.{
  LogCalls, get_entitlement, promote_top_waitlisted, DropTransferService, ServiceCalls,
  DropTransferOptions, is_droppable,
}
use festival.Entitlements.Repository.{get_class_entitlement, ClassEntitlementRepository}
use festival.Registration.Operations.{
  change_log_input, drop_updated, requests_refund, refund_if, droppable_statuses, drop_updates,
  after_confirmed_drop,
}
use festival.Entitlements.Updates.{
  apply_updates, is_confirmed_in, count_confirmed_class_entitlements, update_class_entitlement,
}
use festival.Entitlements.{status_eq, ClassEntitlement, confirmed, waitlisted}
use festival.Base.{
  inl, Bool-cases, none, lookup_key, ◌⊎◌, Option, ◌∷◌, [], refl, is_some, not, or_else,
  count-values-insert, false, inr, if◌then◌else◌, arith, ◌+◌, nat_eq, some, insert-Keyed, lookup,
  true, insert, List, Bool, ℕ, ◌≡◌,
}

abbrev pub is_empty {ℓ} : {A : Type ℓ} → List A → Bool
is_empty [] = true
is_empty (_ ∷ _) = false

refund_if-entitlements :
    (asks : Bool) (options : DropTransferOptions) (e : ClassEntitlement) (id : ℕ)
    → (input : DropRegistrationInput) (calls : RefundCalls) (service : DropTransferService)
    → (refund_if asks options e id input calls service).0.entitlements ≡ service.entitlements
refund_if-entitlements false options e id input calls service = refl
refund_if-entitlements true options e id input calls service = refl

-- The repository after the entitlement is cancelled.
abbrev pub cancel : ClassEntitlement → ℕ → ClassEntitlementRepository → ClassEntitlementRepository
cancel e now repo = record repo {
  entitlements = insert e.id (apply_updates drop_updates now e) repo.entitlements;
}

pub drop_updates-found :
    (e : ClassEntitlement) (now : ℕ) (repo : ClassEntitlementRepository)
    → lookup e.id repo.entitlements ≡ some e
    → is_droppable e.status ≡ true
    → update_class_entitlement e.organization_id e.id drop_updates
        (some droppable_statuses)
        now
        repo
      ≡ (cancel e now repo, some (apply_updates drop_updates now e))
unfolding update_class_entitlement is_droppable
drop_updates-found e now repo found droppable = ground (arith, found, droppable)

pub cancel-count :
    (o c : ℕ) (e : ClassEntitlement) (now : ℕ) (repo : ClassEntitlementRepository)
    → lookup e.id repo.entitlements ≡ some e
    → count_confirmed_class_entitlements o c (cancel e now repo)
        + (if is_confirmed_in o c e then 1 else 0)
      ≡ count_confirmed_class_entitlements o c repo
unfolding count_confirmed_class_entitlements is_confirmed_in
cancel-count o c e now repo found = ground (
  arith,
  count-values-insert (is_confirmed_in o c) e.id e (apply_updates drop_updates now e)
      repo.entitlements found,
)

pub cancel-IsStore :
    (e : ClassEntitlement) (now : ℕ) (repo : ClassEntitlementRepository)
    → IsStore repo
    → IsStore (cancel e now repo)
cancel-IsStore e now repo store =
    insert-Keyed (λ e. e.id) e.id (apply_updates drop_updates now e) repo.entitlements refl store

-- What a drop of a confirmed registration leaves: that of the promotion.
after_confirmed_drop_lem :
    (options : DropTransferOptions) (e updated : ClassEntitlement) (log : RegistrationChangeLog)
    → (input : DropRegistrationInput) (calls : ServiceCalls)
      (service service' : DropTransferService)
    → (result : DropRegistrationResult)
    → after_confirmed_drop options e updated log input calls service ≡ (service', inr result)
    → (let promotion =
          promote_top_waitlisted e.organization_id e.festival_class_id
            (or_else input.actor_uid system_actor)
            calls.promotion
            service in
        (service'.entitlements ≡ promotion.0.entitlements)
        × (is_empty result.promoted_waitlist_entitlements ≡ not (is_some promotion.1)))
unfolding after_confirmed_drop
after_confirmed_drop_lem options e updated log input calls service service' result h =
    let promotion =
      promote_top_waitlisted e.organization_id e.festival_class_id
        (or_else input.actor_uid system_actor) calls.promotion service in
    ground (
      arith,
      h,
      refund_if-entitlements (requests_refund input) options e log.id input calls.refund
          promotion.0,
    )

pub get_entitlement-found :
    (id : ℕ) (organization_id : Option ℕ) (repo : ClassEntitlementRepository)
    → (e : ClassEntitlement) → IsStore repo
    → get_entitlement id organization_id repo ≡ some e
    → (e.id ≡ id) × (lookup e.id repo.entitlements ≡ some e)
unfolding get_entitlement get_class_entitlement
get_entitlement-found id none repo e store h =
    let k = lookup_key (λ e. e.id) id e repo.entitlements store h in (k, ground (arith, k, h))
get_entitlement-found id (some organization_id) repo e store h =
    let found : lookup id repo.entitlements ≡ some e = ground (arith, h) in
    let k = lookup_key (λ e. e.id) id e repo.entitlements store found in
    (k, ground (arith, k, found))

pub get_entitlement_own :
    (e : ClassEntitlement) (repo : ClassEntitlementRepository)
    → lookup e.id repo.entitlements ≡ some e
    → get_entitlement e.id (some e.organization_id) repo ≡ some e
unfolding get_entitlement get_class_entitlement
get_entitlement_own e repo found = ground (arith, found)

-- What a drop leaves in the repository, and whether it has promoted a registration.
abbrev pub LeavesDropped :
    ClassEntitlement
    → DropRegistrationInput
    → LogCalls
    → DropTransferService
    → ClassEntitlementRepository
    → DropRegistrationResult
    → Type 0
LeavesDropped e input calls dropped repo result =
    let promotion =
      promote_top_waitlisted e.organization_id e.festival_class_id
        (or_else input.actor_uid system_actor) calls dropped in
    ((e.status ≡ waitlisted) × (repo ≡ dropped.entitlements))
    ⊎ ((e.status ≡ confirmed)
        × (repo ≡ promotion.0.entitlements)
        × (is_empty result.promoted_waitlist_entitlements ≡ not (is_some promotion.1)))

pub drop_updated-LeavesDropped :
    (options : DropTransferOptions) (e updated : ClassEntitlement)
    → (repo : ClassEntitlementRepository) (input : DropRegistrationInput) (calls : ServiceCalls)
    → (changes : RegistrationChangeRepository) (service' : DropTransferService)
    → (result : DropRegistrationResult) → is_droppable e.status ≡ true
    → drop_updated options e updated repo input calls changes ≡ (service', inr result)
    → (changes' : RegistrationChangeRepository) × LeavesDropped e input calls.promotion
        (record { entitlements = repo; changes = changes' })
        service'.entitlements
        result
unfolding drop_updated is_droppable
drop_updated-LeavesDropped options e updated repo input calls changes service' result droppable h =
    let (changes', log) =
      create_change_log
        (change_log_input e updated drop (or_else input.actor_uid system_actor)
          (or_else input.actor_role customer) input.reason)
        calls.change.change_log_id calls.change.logged_at changes in
    (
      changes',
      elim (Bool-cases (status_eq e.status waitlisted)) [
        | inl w ↦ inl (ground (arith, w), ground (arith, w, h))
        | inr w ↦
            let (r, p) =
              after_confirmed_drop_lem options e updated log input calls
                (record { entitlements = repo; changes = changes' }) service' result
                (ground (arith, w, h)) in
            inr (ground (arith, w, droppable), r, p)
      ],
    )
