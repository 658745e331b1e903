-- ===== src/Entitlements/Tests.antt =====
-- Runs of the repository of packages/backend/src/commerce/class-entitlement-repository.ts, and the
-- witnesses.
use festival.Entitlements.Counting.{count_confirmed-list_class_entitlements}
use festival.Entitlements.Updates.{
  class_filter, list_class_entitlements, count_confirmed_class_entitlements,
}
use festival.Entitlements.{confirmed}
use festival.Entitlements.Creation.{create_class_entitlement_again}
use festival.Entitlements.Repository.{
  new_class_entitlement, store_class_entitlement, create_for_order_line, indexed,
  fulfilled_intent_line, assert_valid_class_entitlement_input, TextTests, create_class_entitlement,
  ClassEntitlementRepository, CreateClassEntitlementInput,
}
use festival.Base.{length, nat_eq, ◌∷◌, values, map, some, true, ◌≡◌, none, ◌==◌, [], refl}

abbrev texts : TextTests
texts = record { is_blank = λ t. t == 0; is_currency_code = λ t. true }

abbrev purchase : CreateClassEntitlementInput
purchase = record {
  id = none;
  organization_id = 5;
  festival_id = 6;
  festival_class_id = 7;
  parent_customer_id = 8;
  child_id = 9;
  checkout_intent_id = 10;
  checkout_intent_line_id = some 11;
  shopify_order_gid = 12;
  shopify_order_line_gid = 13;
  paid_amount_cents = some 900;
  paid_currency_code = 3;
  status = none;
  admitted_cart_reference = none;
  capacity_at_allocation = none;
  placed_count_before_allocation = none;
  created_at = none;
  updated_at = none;
}

abbrev nothing_bought : ClassEntitlementRepository
nothing_bought = record {
  entitlements = [];
  by_order_line = [];
  by_intent = [];
  by_intent_line = [];
}

-- The entitlement that a purchase creates is found by its order line.
create_then_find :
    map
      (λ e. e.id)
      (values (create_class_entitlement texts purchase 1 100 nothing_bought).0.entitlements)
    ≡ 1 ∷ []
unfolding create_class_entitlement assert_valid_class_entitlement_input fulfilled_intent_line
    indexed create_for_order_line store_class_entitlement new_class_entitlement
create_then_find = refl

create_class_entitlement_again_example :
    create_class_entitlement texts purchase 2 101
      (create_class_entitlement texts purchase 1 100 nothing_bought).0
    ≡ create_class_entitlement texts purchase 1 100 nothing_bought
create_class_entitlement_again_example =
    create_class_entitlement_again texts purchase 1 100 2 101 nothing_bought

abbrev one_bought : ClassEntitlementRepository
one_bought = (create_class_entitlement texts purchase 1 100 nothing_bought).0

count_confirmed-list_class_entitlements_example :
    count_confirmed_class_entitlements 5 7 one_bought
    ≡ length (list_class_entitlements (class_filter 5 7 confirmed) one_bought)
count_confirmed-list_class_entitlements_example =
    count_confirmed-list_class_entitlements 5 7 one_bought
