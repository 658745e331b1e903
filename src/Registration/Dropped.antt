-- ===== src/Registration/Dropped.antt =====
-- `dropRegistration` on a registration that was dropped before.
use festival.Registration.Drops.{get_entitlement-found, cancel-IsStore, cancel}
use festival.Registration.Conserved.{drop_registration-LeavesDropped}
use festival.Registration.Seats.{promotion_queue-IsWaiting, IsWaiting, IsStore}
use festival.Registration.Records.{
  system_actor, already_cancelled, DropRegistrationResult, Actor, DropRegistrationInput,
}
use festival.Entitlements.Updates.{
  apply_updates, update_class_entitlement, update_class_entitlement_status,
}
use festival.Entitlements.Repository.{ClassEntitlementRepository, get_class_entitlement}
use festival.Registration.Service.{
  promotion_queue, promote_first, LogCalls, DropTransferService, ServiceCalls, promote,
  DropTransferOptions, promote_top_waitlisted, get_entitlement,
}
use festival.Registration.Operations.{drop_updates, drop_registration}
use festival.Entitlements.{ClassEntitlement, confirmed, cancelled}
use festival.Base.{
  refl, [], or_else, lookup-insert, lookup-insert_ne, ◌==◌, Bool-cases, ◌∷◌, none, nat_eq, All, inl,
  List, Option-cases, inr, arith, lookup, some, Option, ℕ, ◌≡◌,
}

-- A promotion leaves every entitlement as it is that is not waitlisted.
promote_top_waitlisted-lookup :
    (organization_id class_id : ℕ) (actor_uid : Actor) (calls : LogCalls)
    → (service : DropTransferService) (id : ℕ) (e : ClassEntitlement) → IsStore service.entitlements
    → lookup id service.entitlements.entitlements ≡ some e
    → e.status ≡ cancelled
    → (let (service', promoted) =
          promote_top_waitlisted organization_id class_id actor_uid calls service in
        lookup id service'.entitlements.entitlements ≡ some e)
unfolding promote_top_waitlisted promote update_class_entitlement_status update_class_entitlement
promote_top_waitlisted-lookup organization_id class_id actor_uid calls service id e store found k =
    go (promotion_queue organization_id class_id service.entitlements)
      (promotion_queue-IsWaiting organization_id class_id service.entitlements store)
  where
    go :
        (queue : List ClassEntitlement)
        → All (IsWaiting organization_id class_id service.entitlements) queue
        → lookup id (promote_first queue actor_uid calls service).0.entitlements.entitlements
          ≡ some e
    go [] h = found
    go (top ∷ rest) ((at, of, w), h) = elim (Bool-cases (top.id == id)) [
      | inl q ↦ absurd (ground (arith, q, at, found, w, k))
      | inr q ↦ ground (
        arith,
        at,
        found,
        lookup-insert_ne top.id id
            (apply_updates
              (record { festival_class_id = none; status = some confirmed; expected_status = none })
              calls.updated_at top)
            service.entitlements.entitlements q,
      )
    ]

get_entitlement-replaced :
    (id : ℕ) (organization_id : Option ℕ) (repo repo' : ClassEntitlementRepository)
    → (e e' : ClassEntitlement) → get_entitlement id organization_id repo ≡ some e
    → e.id ≡ id
    → lookup e.id repo'.entitlements ≡ some e'
    → e'.organization_id ≡ e.organization_id
    → get_entitlement id organization_id repo' ≡ some e'
unfolding get_entitlement get_class_entitlement
get_entitlement-replaced id none repo repo' e e' h i l o = ground (arith, i, l)
get_entitlement-replaced id (some organization_id) repo repo' e e' h i l o =
    elim (Option-cases (lookup id repo.entitlements)) [
      | inl n ↦ absurd (ground (arith, h, n))
      | inr (x, n) ↦ ground (arith, h, n, i, l, o)
    ]

-- Once a drop has succeeded, on a repository that holds every entitlement under its identifier, any
-- further drop of the same registration of the same organization is refused as already cancelled
-- and writes nothing, whatever refund it asks for.
pub drop_registration_again :
    (options options' : DropTransferOptions) (input input' : DropRegistrationInput)
    → (calls calls' : ServiceCalls) (service service' : DropTransferService)
    → (result : DropRegistrationResult) → IsStore service.entitlements
    → drop_registration options input calls service ≡ (service', inr result)
    → input'.class_entitlement_id ≡ input.class_entitlement_id
    → input'.organization_id ≡ input.organization_id
    → drop_registration options' input' calls' service' ≡ (service', inl already_cancelled)
unfolding drop_registration
drop_registration_again options options' input input' calls calls' service service' result store h i
      o =
    let (e, s, found, changes, leaves) =
      drop_registration-LeavesDropped options input calls service service' result store h in
    let now = calls.change.updated_at in
    let updated = apply_updates drop_updates now e in
    let dropped : DropTransferService = record {
      entitlements = cancel e now service.entitlements;
      changes = changes;
    } in
    let at_cancel : lookup e.id dropped.entitlements.entitlements ≡ some updated =
      lookup-insert e.id updated service.entitlements.entitlements in
    let at_end : lookup e.id service'.entitlements.entitlements ≡ some updated = elim leaves [
      | inl (w, r) ↦ ground (arith, r, at_cancel)
      | inr (w, r, q) ↦ ground (
        arith,
        r,
        promote_top_waitlisted-lookup e.organization_id e.festival_class_id
            (or_else input.actor_uid system_actor) calls.promotion dropped e.id updated
            (cancel-IsStore e now service.entitlements store) at_cancel refl,
      )
    ] in
    let (id, f) =
      get_entitlement-found input.class_entitlement_id input.organization_id service.entitlements e
        store s in
    let read =
      get_entitlement-replaced input.class_entitlement_id input.organization_id service.entitlements
        service'.entitlements e updated s id at_end refl in
    ground (arith, i, o, read)
