-- ===== src/Entitlements/Counting.antt =====
-- The two ways in which the program counts the confirmed entitlements of a class:
-- `countConfirmedClassEntitlements` of packages/backend/src/commerce/class-entitlement-repository.ts,
-- and the length of a list of `listClassEntitlements`.
use festival.Entitlements.Repository.{ClassEntitlementRepository}
use festival.Entitlements.{confirmed, ClassEntitlement, status_eq, ClassEntitlementStatus}
use festival.Entitlements.Updates.{
  class_filter, list_class_entitlements, is_confirmed_in, passes,
  count_confirmed_class_entitlements,
}
use festival.Base.{
  count-congr, length-sort, nat_eq, length-filter, ◌∙◌, values, filter, leb, sym, length, arith, ℕ,
  ◌≡◌,
}

status_eq-sym : (s t : ClassEntitlementStatus) → status_eq s t ≡ status_eq t s
status_eq-sym s t = ground arith

passes-is_confirmed_in :
    (organization_id class_id : ℕ) (e : ClassEntitlement)
    → passes (class_filter organization_id class_id confirmed) e
      ≡ is_confirmed_in organization_id class_id e
unfolding passes is_confirmed_in
passes-is_confirmed_in organization_id class_id e = ground (arith, status_eq-sym e.status confirmed)

-- The count of a class's confirmed entitlements is the length of the list of them, which a transfer
-- compares with the capacity of its target class.
pub count_confirmed-list_class_entitlements :
    (organization_id class_id : ℕ) (repo : ClassEntitlementRepository)
    → count_confirmed_class_entitlements organization_id class_id repo
      ≡ length (list_class_entitlements (class_filter organization_id class_id confirmed) repo)
unfolding count_confirmed_class_entitlements list_class_entitlements
count_confirmed-list_class_entitlements organization_id class_id repo =
    let p = passes (class_filter organization_id class_id confirmed) in
    sym (
      length-sort (λ a b. leb b.created_at a.created_at) (filter p (values repo.entitlements))
      ∙ length-filter p (values repo.entitlements)
      ∙ count-congr p (is_confirmed_in organization_id class_id)
          (passes-is_confirmed_in organization_id class_id) (values repo.entitlements))
