-- ===== src/Registration/Detached.antt =====
-- Transfers where the class query is an object whose methods need it as `this`.
use festival.Registration.Service.{is_droppable, get_entitlement, DropTransferService, ServiceCalls}
use festival.Registration.Records.{
  cannot_transfer, same_class, entitlement_not_found, query_threw, AppError,
  TransferRegistrationInput,
}
use festival.Registration.Refunds.{RefundProvider}
use festival.Registration.Transfer.{transfer_registration}
use festival.Registration.Capacity.{
  thrown, a_query, ClassAnswer, query_capacity_from_object, Thrown, resolve_class_capacity,
  target_configuration, assert_target_class_in_festival, FestivalClassQuery,
}
use festival.Base.{◌==◌, Bool-cases, inr, Option-cases, arith, inl, some, ◌⊎◌, Option, none, ℕ, ◌≡◌}

-- A method that throws where it is called as a plain function, whatever its arguments.
abbrev pub IsDetached : FestivalClassQuery → Type 0
IsDetached query =
    (query.get_class_capacity ≡ none)
    × ((find : ℕ → Option ℕ → ℕ → Thrown ⊎ Option ClassAnswer)
        × (query.find_festival_class_configuration_by_id ≡ some find)
        × ((organization_id : ℕ) (festival_id : Option ℕ) (class_id : ℕ)
            → find organization_id festival_id class_id ≡ inl thrown))

-- No class has a capacity where the query has no `getClassCapacity` and its
-- `findFestivalClassConfigurationById` throws: the first call's error is caught, the second's not.
assert_target_class-IsDetached :
    (query : FestivalClassQuery)
    → IsDetached query
    → (organization_id festival_id class_id : ℕ)
    → assert_target_class_in_festival
        (some (a_query query))
        organization_id
        (some festival_id)
        class_id
      ≡ inl query_threw
unfolding assert_target_class_in_festival target_configuration resolve_class_capacity
    query_capacity_from_object
assert_target_class-IsDetached query (g, (find, f, t)) organization_id festival_id class_id =
    ground (arith, t organization_id none class_id, t organization_id (some festival_id) class_id)

-- With a class query that has no `getClassCapacity`, and whose
-- `findFestivalClassConfigurationById` throws where it is called as a plain function (as a method
-- that reads `this` does), no transfer succeeds and none writes anything: each is refused.
pub transfer_registration-IsDetached :
    (shop : RefundProvider) (query : FestivalClassQuery) (usd : ℕ)
    → IsDetached query
    → (input : TransferRegistrationInput) (calls : ServiceCalls) (service : DropTransferService)
    → (err : AppError) × (transfer_registration
          (record { provider = shop; class_query = some (a_query query); usd = usd })
          input
          calls
          service
        ≡ (service, inl err))
unfolding transfer_registration
transfer_registration-IsDetached shop query usd d input calls service =
    elim (Option-cases
      (get_entitlement input.class_entitlement_id input.organization_id service.entitlements)) [
        | inl n ↦ (entitlement_not_found, ground (arith, n))
        | inr (e, s) ↦ elim (Bool-cases (e.festival_class_id == input.target_festival_class_id)) [
          | inl c ↦ (same_class, ground (arith, s, c))
          | inr c ↦ elim (Bool-cases (is_droppable e.status)) [
            | inr k ↦ (cannot_transfer e.status, ground (arith, s, c, k))
            | inl k ↦ (
              query_threw,
              ground (
                arith,
                s,
                c,
                k,
                assert_target_class-IsDetached query d e.organization_id e.festival_id
                    input.target_festival_class_id,
              ),
            )
          ]
        ]
      ]
