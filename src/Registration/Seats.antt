-- ===== src/Registration/Seats.antt =====
-- The confirmed registrations of a class while registrations of it are dropped and promoted.
use festival.Registration.Records.{
  top_candidate_promoted, system, ChangeReason, RegistrationActorRole, Actor,
}
use festival.Entitlements.Updates.{
  apply_updates, is_confirmed_in, count_confirmed_class_entitlements, update_class_entitlement,
  list_class_entitlements, class_filter, update_class_entitlement_status, passes,
}
use festival.Entitlements.Repository.{ClassEntitlementRepository}
use festival.Registration.Service.{
  promote_first, promotes_before, DropTransferService, LogCalls, promote, promote_top_waitlisted,
  promotion_queue,
}
use festival.Entitlements.{ClassEntitlement, confirmed, waitlisted}
use festival.Base.{
  [], none, Keyed-found, ◌∷◌, values, count-values-insert, List, filter-All, is_some, All-map,
  if◌then◌else◌, Option, leb, ◌+◌, arith, nat_eq, sort-All, ◌&&◌, some, true, All, Keyed, lookup,
  ◌==◌, Bool, ℕ, ◌≡◌,
}

-- The repository holds every entitlement under its identifier.
abbrev pub IsStore : ClassEntitlementRepository → Type 0
IsStore repo = Keyed (λ e. e.id) repo.entitlements

-- The entitlement is of the class.
abbrev pub is_of : ℕ → ℕ → ClassEntitlement → Bool
is_of organization_id class_id e =
    e.organization_id == organization_id && e.festival_class_id == class_id

promote-count :
    (organization_id class_id : ℕ) (e : ClassEntitlement) (festival_id : Option ℕ)
    → (actor_uid : Actor) (role : RegistrationActorRole) (reason : ChangeReason) (calls : LogCalls)
    → (service : DropTransferService) → lookup e.id service.entitlements.entitlements ≡ some e
    → e.status ≡ waitlisted
    → count_confirmed_class_entitlements organization_id class_id
        (promote e festival_id actor_uid role reason calls service).0.entitlements
      ≡ count_confirmed_class_entitlements organization_id class_id service.entitlements
        + (if is_of organization_id class_id e then 1 else 0)
unfolding promote update_class_entitlement_status update_class_entitlement
    count_confirmed_class_entitlements is_confirmed_in
promote-count organization_id class_id e festival_id actor_uid role reason calls service found w =
    ground (
      arith,
      found,
      w,
      count-values-insert (is_confirmed_in organization_id class_id) e.id e
          (apply_updates
            (record { festival_class_id = none; status = some confirmed; expected_status = none })
            calls.updated_at e)
          service.entitlements.entitlements found,
    )

abbrev pub IsWaiting : ℕ → ℕ → ClassEntitlementRepository → ClassEntitlement → Type 0
IsWaiting organization_id class_id repo e =
    (lookup e.id repo.entitlements ≡ some e)
    × (is_of organization_id class_id e ≡ true)
    × (e.status ≡ waitlisted)

waitlisted-passes :
    (organization_id class_id : ℕ) (e : ClassEntitlement)
    → passes (class_filter organization_id class_id waitlisted) e ≡ true
    → (is_of organization_id class_id e ≡ true) × (e.status ≡ waitlisted)
unfolding passes
waitlisted-passes organization_id class_id e h = ground (arith, h)

pub promotion_queue-IsWaiting :
    (organization_id class_id : ℕ) (repo : ClassEntitlementRepository)
    → IsStore repo
    → All (IsWaiting organization_id class_id repo) (promotion_queue organization_id class_id repo)
unfolding promotion_queue list_class_entitlements
promotion_queue-IsWaiting organization_id class_id repo store =
    let p = passes (class_filter organization_id class_id waitlisted) in
    let waiting = IsWaiting organization_id class_id repo in
    sort-All waiting promotes_before _ (
      sort-All waiting (λ a b. leb b.created_at a.created_at) _
        (All-map
          (λ e (found, h).
            let (of, w) = waitlisted-passes organization_id class_id e h in (found, of, w))
          _
          (filter-All (λ e. lookup e.id repo.entitlements ≡ some e) p (values repo.entitlements)
            (Keyed-found (λ e. e.id) repo.entitlements store))))

-- A promotion adds one confirmed registration to its class, if anyone waits for it, and none to
-- any other class.
pub promote_top_waitlisted-count :
    (organization_id class_id o c : ℕ) (actor_uid : Actor) (calls : LogCalls)
    → (service : DropTransferService) → IsStore service.entitlements
    → (let (service', promoted) =
          promote_top_waitlisted organization_id class_id actor_uid calls service in
        count_confirmed_class_entitlements o c service'.entitlements
        ≡ count_confirmed_class_entitlements o c service.entitlements
          + (if is_some promoted && (organization_id == o && class_id == c) then 1 else 0))
unfolding promote_top_waitlisted
promote_top_waitlisted-count organization_id class_id o c actor_uid calls service store =
    go (promotion_queue organization_id class_id service.entitlements)
      (promotion_queue-IsWaiting organization_id class_id service.entitlements store)
  where
    go :
        (queue : List ClassEntitlement)
        → All (IsWaiting organization_id class_id service.entitlements) queue
        → (let (service', promoted) = promote_first queue actor_uid calls service in
            count_confirmed_class_entitlements o c service'.entitlements
            ≡ count_confirmed_class_entitlements o c service.entitlements
              + (if is_some promoted && (organization_id == o && class_id == c) then 1 else 0))
    go [] h = omega arith
    go (top ∷ rest) ((found, of, w), h) = ground (
      arith,
      of,
      promote-count o c top none actor_uid system top_candidate_promoted calls service found w,
    )
