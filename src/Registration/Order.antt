-- ===== src/Registration/Order.antt =====
-- Which waitlisted registration a promotion takes.
use festival.Registration.Seats.{promotion_queue-IsWaiting, IsStore, IsWaiting}
use festival.Registration.Records.{top_candidate_promoted, system, WaitlistPromotionResult, Actor}
use festival.Entitlements.Updates.{
  apply_updates, update_class_entitlement, update_class_entitlement_status, class_filter,
  list_class_entitlements,
}
use festival.Entitlements.Repository.{ClassEntitlementRepository}
use festival.Registration.Service.{
  promote, promote_top_waitlisted, LogCalls, DropTransferService, promotion_queue, promotes_before,
}
use festival.Base.{
  refl, nat_eq, ◌==◌, lookup, lookup-insert_ne, lookup-insert, subst, inr, length-sort, inl,
  List-cases, none, some, length, Option, sort_first, All-map, ◌≤◌, ◌⊎◌, ◌<◌, All, ◌∷◌, arith, List,
  false, true, ℕ, ◌≡◌,
}
use festival.Entitlements.{confirmed, ClassEntitlement, waitlisted}

promotes_before_total :
    (x y : ClassEntitlement) → promotes_before x y ≡ false → promotes_before y x ≡ true
unfolding promotes_before
promotes_before_total x y h = ground arith

promotes_before_refl : (x : ClassEntitlement) → promotes_before x x ≡ true
unfolding promotes_before
promotes_before_refl x = ground arith

promotes_before_trans :
    (x y z : ClassEntitlement)
    → promotes_before x y ≡ true
    → promotes_before y z ≡ true
    → promotes_before x z ≡ true
unfolding promotes_before
promotes_before_trans x y z h k = ground arith

-- No waitlisted registration of the class was created before the first of the queue, and of those
-- created at the same time none has a smaller identifier.
pub promotion_queue_first :
    (organization_id class_id : ℕ) (repo : ClassEntitlementRepository)
    → (top : ClassEntitlement) (rest : List ClassEntitlement)
    → promotion_queue organization_id class_id repo ≡ top ∷ rest
    → All
        (λ e. (top.created_at < e.created_at) ⊎ ((top.created_at ≡ e.created_at) × (top.id ≤ e.id)))
        (list_class_entitlements (class_filter organization_id class_id waitlisted) repo)
unfolding promotion_queue promotes_before
promotion_queue_first organization_id class_id repo top rest h =
    All-map (λ e b. ground (arith, b))
      (list_class_entitlements (class_filter organization_id class_id waitlisted) repo)
      (sort_first promotes_before promotes_before_total promotes_before_refl promotes_before_trans
        (list_class_entitlements (class_filter organization_id class_id waitlisted) repo) top rest
        h)

-- The place in the order of promotion: created earlier, or at the same time with no larger identifier.
abbrev pub IsEarliest : ClassEntitlement → ClassEntitlement → Type 0
IsEarliest top e =
    (top.created_at < e.created_at) ⊎ ((top.created_at ≡ e.created_at) × (top.id ≤ e.id))

-- The registration that a promotion has confirmed: it waited for the class, it is the earliest
-- created of those that did, it is the one that the result names, and no other record changes.
pub record Promotes (organization_id class_id : ℕ) (before after : ClassEntitlementRepository)
    (result : WaitlistPromotionResult) : Type 0 where
  pub top : ClassEntitlement
  pub waiting : IsWaiting organization_id class_id before top
  pub named : result.class_entitlement_id ≡ top.id
  pub earliest :
      All
        (IsEarliest top)
        (list_class_entitlements (class_filter organization_id class_id waitlisted) before)
  pub updated_at : ℕ
  pub now_confirmed :
      lookup top.id after.entitlements
      ≡ some (record top { status = confirmed; updated_at = updated_at })
  pub others :
      (id : ℕ)
      → (top.id == id) ≡ false
      → lookup id after.entitlements ≡ lookup id before.entitlements

-- No one waited and nothing is written, or one is promoted.
abbrev pub IsPromotion :
    ℕ → ℕ → DropTransferService → DropTransferService → Option WaitlistPromotionResult → Type 0
IsPromotion organization_id class_id before after none =
    (length (
        list_class_entitlements (class_filter organization_id class_id waitlisted)
          before.entitlements)
      ≡ 0)
    × (after ≡ before)
IsPromotion organization_id class_id before after (some result) =
    Promotes organization_id class_id before.entitlements after.entitlements result

module _ (organization_id class_id : ℕ) (actor_uid : Actor) (calls : LogCalls)
    (service : DropTransferService) (store : IsStore service.entitlements) where
  promote-Promotes :
      (top : ClassEntitlement) (rest : List ClassEntitlement)
      → promotion_queue organization_id class_id service.entitlements ≡ top ∷ rest
      → (let (after, result) =
            promote top none actor_uid system top_candidate_promoted calls service in
          Promotes organization_id class_id service.entitlements after.entitlements result)
  unfolding promote update_class_entitlement_status update_class_entitlement
  promote-Promotes top rest h =
      let new : ClassEntitlement =
        apply_updates
          (record { festival_class_id = none; status = some confirmed; expected_status = none })
          calls.updated_at top in
      let (w, _) : IsWaiting organization_id class_id service.entitlements top
          × All (IsWaiting organization_id class_id service.entitlements) rest =
        subst (All (IsWaiting organization_id class_id service.entitlements)) h
          (promotion_queue-IsWaiting organization_id class_id service.entitlements store) in
      let (found, _, _) = w in
      record {
        top = top;
        waiting = w;
        named = refl;
        earliest = promotion_queue_first organization_id class_id service.entitlements top rest h;
        updated_at = calls.updated_at;
        now_confirmed =
            ground (arith, found, lookup-insert top.id new service.entitlements.entitlements);
        others = λ id ne.
            ground
              (arith, found, lookup-insert_ne top.id id new service.entitlements.entitlements ne);
      }

  -- `promoteTopWaitlisted`, where every entitlement is stored under its identifier, either finds no
  -- waitlisted registration of the class and writes nothing, or confirms the one of them that was
  -- created earliest, among those created at the same time the one with the smallest identifier; the result
  -- names it, and every other entitlement is left as it is.
  pub promote_top_waitlisted-IsPromotion :
      let (after, result) =
        promote_top_waitlisted organization_id class_id actor_uid calls service in
      IsPromotion organization_id class_id service after result
  unfolding promote_top_waitlisted
  promote_top_waitlisted-IsPromotion =
      elim (List-cases (promotion_queue organization_id class_id service.entitlements)) [
        | inl e ↦ rw e (
          unfold promotion_queue in
              ground (
                arith,
                e,
                length-sort promotes_before (
                    list_class_entitlements (class_filter organization_id class_id waitlisted)
                      service.entitlements),
              ),
          refl,
        )
        | inr (top, rest, e) ↦ rw e (promote-Promotes top rest e)
      ]
