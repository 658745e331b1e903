-- ===== src/Registration/Conserved.antt =====
-- `dropRegistration`: the seats of the classes, and a drop that is made again.
use festival.Registration.Drops.{
  cancel-IsStore, cancel-count, drop_updated-LeavesDropped, get_entitlement-found, is_empty,
  drop_updates-found, cancel, LeavesDropped,
}
use festival.Registration.Changes.{RegistrationChangeRepository}
use festival.Registration.Seats.{promote_top_waitlisted-count, IsStore}
use festival.Registration.Records.{system_actor, DropRegistrationResult, DropRegistrationInput}
use festival.Registration.Service.{
  promote_top_waitlisted, get_entitlement, is_droppable, DropTransferService, ServiceCalls,
  DropTransferOptions,
}
use festival.Registration.Operations.{drop_updates, drop_updated, drop_registration, drop_found}
use festival.Entitlements.Updates.{
  apply_updates, count_confirmed_class_entitlements, is_confirmed_in,
}
use festival.Entitlements.{ClassEntitlement}
use festival.Base.{
  ◌∙◌, sym, ◌==◌, is_some, Bool-cases, or_else, arith, nat_eq, inl, Option-cases, ◌&&◌,
  if◌then◌else◌, ◌+◌, true, inr, some, lookup, ℕ, ◌≡◌,
}

drop_found_lem :
    (options : DropTransferOptions) (e : ClassEntitlement) (input : DropRegistrationInput)
    → (calls : ServiceCalls) (service : DropTransferService)
    → lookup e.id service.entitlements.entitlements ≡ some e
    → is_droppable e.status ≡ true
    → drop_found options e input calls service
      ≡ drop_updated options e
          (apply_updates drop_updates calls.change.updated_at e)
          (cancel e calls.change.updated_at service.entitlements)
          input
          calls
          service.changes
unfolding drop_found
drop_found_lem options e input calls service found droppable =
    ground
      (arith, drop_updates-found e calls.change.updated_at service.entitlements found droppable)

-- A drop that succeeds has found an entitlement that it may drop.
pub drop_registration-LeavesDropped :
    (options : DropTransferOptions) (input : DropRegistrationInput) (calls : ServiceCalls)
    → (service service' : DropTransferService) (result : DropRegistrationResult)
    → IsStore service.entitlements
    → drop_registration options input calls service ≡ (service', inr result)
    → (e : ClassEntitlement) × (get_entitlement input.class_entitlement_id input.organization_id
          service.entitlements
        ≡ some e)
      × (lookup e.id service.entitlements.entitlements ≡ some e)
      × (changes : RegistrationChangeRepository) × LeavesDropped e input calls.promotion
          (record {
            entitlements = cancel e calls.change.updated_at service.entitlements;
            changes = changes;
          })
          service'.entitlements
          result
unfolding drop_registration
drop_registration-LeavesDropped options input calls service service' result store h =
    elim (Option-cases
      (get_entitlement input.class_entitlement_id input.organization_id service.entitlements)) [
        | inl n ↦ absurd (ground (arith, n, h))
        | inr (e, s) ↦
            let (id, found) =
              get_entitlement-found input.class_entitlement_id input.organization_id
                service.entitlements e store s in
            elim (Bool-cases (is_droppable e.status)) [
              | inr k ↦ absurd (ground (arith, s, k, h))
              | inl k ↦
                  let dropped : drop_found options e input calls service ≡ (service', inr result) =
                    ground (arith, s, k, h) in
                  let (changes, leaves) =
                    drop_updated-LeavesDropped options e
                      (apply_updates drop_updates calls.change.updated_at e)
                      (cancel e calls.change.updated_at service.entitlements) input calls
                      service.changes service' result k
                      (sym (drop_found_lem options e input calls service found k) ∙ dropped) in
                  (e, s, found, changes, leaves)
            ]
      ]

-- A drop that succeeds on a repository that holds every entitlement under its identifier keeps the
-- number of confirmed registrations of every class, but for one: that of the class of a confirmed
-- registration that is dropped falls by one where the drop promotes no waitlisted registration.
pub drop_registration-count :
    (options : DropTransferOptions) (input : DropRegistrationInput) (calls : ServiceCalls)
    → (service service' : DropTransferService) (result : DropRegistrationResult)
    → (organization_id class_id : ℕ) → IsStore service.entitlements
    → drop_registration options input calls service ≡ (service', inr result)
    → (e : ClassEntitlement) × (get_entitlement input.class_entitlement_id input.organization_id
          service.entitlements
        ≡ some e)
      × (count_confirmed_class_entitlements organization_id class_id service'.entitlements
            + (if is_confirmed_in organization_id class_id e
                  && is_empty result.promoted_waitlist_entitlements
                then 1
                else 0)
          ≡ count_confirmed_class_entitlements organization_id class_id service.entitlements)
unfolding is_confirmed_in
drop_registration-count options input calls service service' result o c store h =
    let (e, s, found, changes, leaves) =
      drop_registration-LeavesDropped options input calls service service' result store h in
    let now = calls.change.updated_at in
    let dropped : DropTransferService = record {
      entitlements = cancel e now service.entitlements;
      changes = changes;
    } in
    (
      e,
      s,
      go e dropped (cancel-count o c e now service.entitlements found)
          (promote_top_waitlisted-count e.organization_id e.festival_class_id o c
            (or_else input.actor_uid system_actor) calls.promotion dropped
            (cancel-IsStore e now service.entitlements store))
          leaves,
    )
  where
    go :
        (e : ClassEntitlement) (dropped : DropTransferService)
        → count_confirmed_class_entitlements o c dropped.entitlements
            + (if is_confirmed_in o c e then 1 else 0)
          ≡ count_confirmed_class_entitlements o c service.entitlements
        → (let promotion =
              promote_top_waitlisted e.organization_id e.festival_class_id
                (or_else input.actor_uid system_actor)
                calls.promotion
                dropped in
            count_confirmed_class_entitlements o c promotion.0.entitlements
            ≡ count_confirmed_class_entitlements o c dropped.entitlements
              + (if is_some promotion.1 && (e.organization_id == o && e.festival_class_id == c)
                  then 1
                  else 0))
        → LeavesDropped e input calls.promotion dropped service'.entitlements result
        → count_confirmed_class_entitlements o c service'.entitlements
            + (if is_confirmed_in o c e && is_empty result.promoted_waitlist_entitlements
                then 1
                else 0)
          ≡ count_confirmed_class_entitlements o c service.entitlements
    go e dropped k p (inl (w, r)) = ground (arith, k, w, r)
    go e dropped k p (inr (w, r, q)) = ground (arith, k, p, w, r, q)
