-- ===== src/Registration/Capacity.antt =====
-- How `DropTransferService` of packages/backend/src/registration/drop-transfer-service.ts finds the
-- capacity of a class: `extractCapacity`, `queryCapacityFromObject`, `resolveClassCapacity` and
-- `assertTargetClassInFestival`. The functions of the class query are parameters.
use festival.Registration.Records.{class_not_in_festival, query_threw, AppError}
use festival.Base.{
  not, nat_eq, false, ◌==◌, none, lookup, find?, List, Bool, inl, Dict, some, inr, ◌⊎◌, Option, ℕ,
  if◌then◌else◌,
}

-- A number, as far as the code looks at it.
pub data CapacityNumber : Type 0 where
  at_least_zero : ℕ → CapacityNumber
  below_zero : CapacityNumber

-- A number, an object with a field `capacity` that may be a number, or anything else.
pub data CapacityValue : Type 0 where
  a_number : CapacityNumber → CapacityValue
  an_object : Option CapacityNumber → CapacityValue
  something_else : CapacityValue

pub record ClassAnswer : Type 0 where
  pub id : ℕ
  pub festival_id : Option ℕ
  pub capacity : Option CapacityNumber

-- The error that a call throws.
pub data Thrown : Type 0 where
  thrown : Thrown

-- The methods that an object may have, and its own fields. A festival of `none` is a call with two
-- arguments. The code calls `findFestivalClassConfigurationById` as a plain function, without its
-- object, and the field says what that call does: it may throw.
pub record FestivalClassQuery : Type 0 where
  pub get_class_capacity : Option (ℕ → ℕ → Option CapacityNumber)
  pub find_festival_class_configuration_by_id :
      Option (ℕ → Option ℕ → ℕ → Thrown ⊎ Option ClassAnswer)
  pub get_capacity : Option (ℕ → Option CapacityNumber)
  pub list_festival_class_configurations : Option (ℕ → ℕ → List ClassAnswer)
  pub get : Option (ℕ → CapacityValue)
  pub own_field : ℕ → CapacityValue

pub data ClassCapacityResolver : Type 0 where
  a_function : (ℕ → ℕ → Option ℕ → CapacityValue) → ClassCapacityResolver
  a_map : Dict ℕ CapacityValue → ClassCapacityResolver
  a_query : FestivalClassQuery → ClassCapacityResolver

abbrev pub extract_capacity : CapacityValue → Option CapacityNumber
extract_capacity (a_number n) = some n
extract_capacity (an_object capacity) = capacity
extract_capacity something_else = none

-- What a method answers, or the next source where it is absent or answers no number.
abbrev pub or_next : Option CapacityNumber → Option CapacityNumber → Option CapacityNumber
or_next none next = next
or_next (some n) next = some n

abbrev pub ask_class_capacity :
    Option (ℕ → ℕ → Option CapacityNumber) → ℕ → ℕ → Option CapacityNumber
ask_class_capacity none organization_id class_id = none
ask_class_capacity (some f) organization_id class_id = f organization_id class_id

abbrev pub capacity_of_answer : Option ClassAnswer → Option CapacityNumber
capacity_of_answer none = none
capacity_of_answer (some answer) = answer.capacity

abbrev pub ask_configuration :
    Option (ℕ → Option ℕ → ℕ → Thrown ⊎ Option ClassAnswer)
    → ℕ
    → Option ℕ
    → ℕ
    → Thrown ⊎ Option ClassAnswer
ask_configuration none organization_id festival_id class_id = inr none
ask_configuration (some f) organization_id festival_id class_id =
    f organization_id festival_id class_id

abbrev pub ask_capacity : Option (ℕ → Option CapacityNumber) → ℕ → Option CapacityNumber
ask_capacity none class_id = none
ask_capacity (some f) class_id = f class_id

abbrev pub ask_list : Option (ℕ → ℕ → List ClassAnswer) → ℕ → Option ℕ → ℕ → Option CapacityNumber
ask_list (some f) organization_id (some festival_id) class_id =
    capacity_of_answer (find? (λ item. item.id == class_id) (f organization_id festival_id))
ask_list _ organization_id _ class_id = none

abbrev pub ask_get : Option (ℕ → CapacityValue) → ℕ → Option CapacityNumber
ask_get none class_id = none
ask_get (some f) class_id = extract_capacity (f class_id)

-- The sources after `findFestivalClassConfigurationById`.
unfoldable pub query_other_sources : FestivalClassQuery → ℕ → Option ℕ → ℕ → Option CapacityNumber
query_other_sources query organization_id festival_id class_id =
    or_next (ask_capacity query.get_capacity class_id) (
      or_next
        (ask_list query.list_festival_class_configurations organization_id festival_id class_id)
        (or_next (ask_get query.get class_id) (extract_capacity (query.own_field class_id))))

unfoldable pub query_capacity_from_object :
    FestivalClassQuery → ℕ → Option ℕ → ℕ → Thrown ⊎ Option CapacityNumber
query_capacity_from_object query organization_id festival_id class_id =
    elim (ask_class_capacity query.get_class_capacity organization_id class_id) [
      | some n ↦ inr (some n)
      | none ↦
          elim (ask_configuration query.find_festival_class_configuration_by_id organization_id
            festival_id class_id) [
              | inl e ↦ inl e
              | inr answer ↦ inr (
                  or_next (capacity_of_answer answer)
                    (query_other_sources query organization_id festival_id class_id))
            ]
    ]

abbrev pub value_at : Option CapacityValue → Option CapacityNumber
value_at none = none
value_at (some value) = extract_capacity value

unfoldable pub resolve_class_capacity :
    Option ClassCapacityResolver → ℕ → Option ℕ → ℕ → Thrown ⊎ Option CapacityNumber
resolve_class_capacity none organization_id festival_id class_id = inr none
resolve_class_capacity (some (a_function f)) organization_id festival_id class_id =
    inr (extract_capacity (f class_id organization_id festival_id))
resolve_class_capacity (some (a_map m)) organization_id festival_id class_id =
    inr (value_at (lookup class_id m))
resolve_class_capacity (some (a_query query)) organization_id festival_id class_id =
    query_capacity_from_object query organization_id festival_id class_id

-- The answer names a festival, and another one than the entitlement's.
abbrev pub is_other_festival : Option ℕ → Option ClassAnswer → Bool
is_other_festival (some festival_id) (some answer) = elim answer.festival_id [
  | none ↦ false
  | some other ↦ not (other == festival_id)
]
is_other_festival _ _ = false

abbrev pub caught : Thrown ⊎ Option ClassAnswer → Option ClassAnswer
caught (inl e) = none
caught (inr answer) = answer

-- What the first check of a target class finds; a call that throws is caught.
unfoldable pub target_configuration : Option ClassCapacityResolver → ℕ → ℕ → Option ClassAnswer
target_configuration (some (a_query query)) organization_id class_id =
    caught (
      ask_configuration query.find_festival_class_configuration_by_id organization_id none class_id)
target_configuration _ organization_id class_id = none

abbrev pub usable_capacity : Thrown ⊎ Option CapacityNumber → AppError ⊎ ℕ
usable_capacity (inl e) = inl query_threw
usable_capacity (inr none) = inl class_not_in_festival
usable_capacity (inr (some below_zero)) = inl class_not_in_festival
usable_capacity (inr (some (at_least_zero n))) = inr n

unfoldable pub assert_target_class_in_festival :
    Option ClassCapacityResolver → ℕ → Option ℕ → ℕ → AppError ⊎ ℕ
assert_target_class_in_festival class_query organization_id festival_id class_id =
    if is_other_festival festival_id (target_configuration class_query organization_id class_id)
    then inl class_not_in_festival
    else usable_capacity (resolve_class_capacity class_query organization_id festival_id class_id)
