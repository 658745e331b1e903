-- ===== src/Registration/Room.antt =====
-- The room in the class that a registration is transferred to.
use festival.Entitlements.Counting.{count_confirmed-list_class_entitlements}
use festival.Entitlements.{confirmed, waitlisted}
use festival.Entitlements.Repository.{ClassEntitlementRepository}
use festival.Registration.Operations.{droppable_statuses}
use festival.Registration.Transfer.{transfer_updates, transferred_status}
use festival.Entitlements.Updates.{
  apply_updates, is_confirmed_in, update_class_entitlement, count_confirmed_class_entitlements,
}
use festival.Base.{
  ◌⊎◌, ◌+◌, nat_eq, count-values-insert, inr, arith, inl, lookup, Option-cases, some, ◌≡◌, ℕ, ◌≤◌,
}

transferred_status_cases :
    (organization_id class_id room : ℕ) (repo : ClassEntitlementRepository)
    → ((transferred_status organization_id class_id room repo ≡ confirmed)
        × (count_confirmed_class_entitlements organization_id class_id repo + 1 ≤ room))
      ⊎ (transferred_status organization_id class_id room repo ≡ waitlisted)
unfolding transferred_status
transferred_status_cases organization_id class_id room repo =
    ground (arith, count_confirmed-list_class_entitlements organization_id class_id repo)

-- What a transfer writes to the entitlement, with the status that it computes from the capacity of
-- the target class, leaves the confirmed entitlements of that class within the capacity if they were
-- within it before, whatever the entitlement's class and status were.
pub transfer_updates-within_capacity :
    (organization_id id class_id room now : ℕ) (repo : ClassEntitlementRepository)
    → count_confirmed_class_entitlements organization_id class_id repo ≤ room
    → count_confirmed_class_entitlements organization_id class_id
        (update_class_entitlement organization_id id
          (transfer_updates class_id (transferred_status organization_id class_id room repo))
          (some droppable_statuses)
          now
          repo).0
      ≤ room
unfolding count_confirmed_class_entitlements update_class_entitlement is_confirmed_in
transfer_updates-within_capacity organization_id id class_id room now repo h =
    let status = transferred_status organization_id class_id room repo in
    elim (Option-cases (lookup id repo.entitlements)) [
      | inl n ↦ ground (arith, n, h)
      | inr (e, s) ↦ ground (
        arith,
        s,
        h,
        transferred_status_cases organization_id class_id room repo,
        count-values-insert (is_confirmed_in organization_id class_id) id e
            (apply_updates (transfer_updates class_id status) now e) repo.entitlements s,
      )
    ]
