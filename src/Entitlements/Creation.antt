-- ===== src/Entitlements/Creation.antt =====
-- Creating a class entitlement more than once.
use festival.Entitlements.{ClassEntitlement}
use festival.Base.{
  refl, sym, ap, ◌==◌, ◌∙◌, if◌then◌else◌, none, arith, Option-cases, inr, inl, Sum-cases,
  lookup-insert, lookup-insert_pair, some, ◌≡◌, ℕ,
}
use festival.Entitlements.Repository.{
  CreateError, intent_line_conflict, new_class_entitlement, assert_valid_class_entitlement_input,
  fulfilled_intent_line, create_for_order_line, indexed, store_class_entitlement,
  ClassEntitlementRepository, CreateClassEntitlementInput, TextTests, create_class_entitlement,
}

-- A record that was just stored is found under its order line and its intent line.
store-order_line :
    (e : ClassEntitlement) (repo : ClassEntitlementRepository)
    → indexed
        (e.organization_id, e.shopify_order_line_gid)
        (store_class_entitlement e repo).by_order_line
        (store_class_entitlement e repo)
      ≡ some e
unfolding store_class_entitlement indexed
store-order_line e repo =
    rw
      (
        indexed,
        lookup-insert_pair (e.organization_id, e.shopify_order_line_gid) e.id repo.by_order_line,
      )
      (lookup-insert e.id e repo.entitlements)

store-intent_line :
    (e : ClassEntitlement) (line : ℕ) (repo : ClassEntitlementRepository)
    → e.checkout_intent_line_id ≡ some line
    → indexed
        (e.organization_id, line)
        (store_class_entitlement e repo).by_intent_line
        (store_class_entitlement e repo)
      ≡ some e
unfolding store_class_entitlement indexed
store-intent_line e line repo h = simp (
  indexed,
  h,
  lookup-insert_pair (e.organization_id, line) e.id repo.by_intent_line,
  lookup-insert e.id e repo.entitlements,
)

create-invalid :
    (texts : TextTests) (input : CreateClassEntitlementInput) (err : CreateError)
    → assert_valid_class_entitlement_input texts input ≡ inl err
    → (uuid now : ℕ) (repo : ClassEntitlementRepository)
    → create_class_entitlement texts input uuid now repo ≡ (repo, inl err)
unfolding create_class_entitlement
create-invalid texts input err h uuid now repo = rw (create_class_entitlement, h)

module _ (texts : TextTests) (input : CreateClassEntitlementInput) (cents : ℕ)
    (valid : assert_valid_class_entitlement_input texts input ≡ inr cents) where
  create-conflict :
      (uuid now : ℕ) (repo : ClassEntitlementRepository) (e : ClassEntitlement)
      → fulfilled_intent_line input repo ≡ some e
      → create_class_entitlement texts input uuid now repo ≡ (
          if e.shopify_order_line_gid == input.shopify_order_line_gid
          then (repo, inr e)
          else (repo, inl intent_line_conflict))
  unfolding create_class_entitlement
  create-conflict uuid now repo e f = rw (create_class_entitlement, valid, f)

  create-open_line :
      (uuid now : ℕ) (repo : ClassEntitlementRepository)
      → fulfilled_intent_line input repo ≡ none
      → create_class_entitlement texts input uuid now repo
        ≡ create_for_order_line input cents uuid now repo
  unfolding create_class_entitlement
  create-open_line uuid now repo f = rw (create_class_entitlement, valid, f)

  -- After a record of the input's lines is stored, the input is answered with it.
  create-stored :
      (uuid now : ℕ) (repo : ClassEntitlementRepository) (e : ClassEntitlement)
      → e.organization_id ≡ input.organization_id
      → e.checkout_intent_line_id ≡ input.checkout_intent_line_id
      → e.shopify_order_line_gid ≡ input.shopify_order_line_gid
      → create_class_entitlement texts input uuid now (store_class_entitlement e repo)
        ≡ (store_class_entitlement e repo, inr e)
  unfolding fulfilled_intent_line create_for_order_line
  create-stored uuid now repo e o i s = elim (Option-cases input.checkout_intent_line_id) [
    | inl h ↦
        let order : indexed (input.organization_id, input.shopify_order_line_gid)
              (store_class_entitlement e repo).by_order_line (store_class_entitlement e repo)
            ≡ some e =
          ground (arith, store-order_line e repo) in
        create-open_line uuid now (store_class_entitlement e repo) (simp (fulfilled_intent_line, h))
        ∙ ground (arith, order)
    | inr (line, h) ↦
        let intent : indexed (input.organization_id, line)
              (store_class_entitlement e repo).by_intent_line (store_class_entitlement e repo)
            ≡ some e =
          ground (arith, store-intent_line e line repo (i ∙ h)) in
        create-conflict uuid now (store_class_entitlement e repo) e
          (simp (fulfilled_intent_line, h) intent)
        ∙ ground (arith)
  ]

create_for_order_line-known :
    (input : CreateClassEntitlementInput) (cents uuid now : ℕ) (repo : ClassEntitlementRepository)
    → (e : ClassEntitlement)
    → indexed (input.organization_id, input.shopify_order_line_gid) repo.by_order_line repo ≡ some e
    → create_for_order_line input cents uuid now repo ≡ (repo, inr e)
unfolding create_for_order_line
create_for_order_line-known input cents uuid now repo e h = rw (create_for_order_line, h)

create_for_order_line-new :
    (input : CreateClassEntitlementInput) (cents uuid now : ℕ) (repo : ClassEntitlementRepository)
    → indexed (input.organization_id, input.shopify_order_line_gid) repo.by_order_line repo ≡ none
    → create_for_order_line input cents uuid now repo ≡ (
      store_class_entitlement (new_class_entitlement input cents uuid now) repo,
      inr (new_class_entitlement input cents uuid now),
    )
unfolding create_for_order_line
create_for_order_line-new input cents uuid now repo h = rw (create_for_order_line, h)

create_for_order_line_again :
    (texts : TextTests) (input : CreateClassEntitlementInput) (cents : ℕ)
    → assert_valid_class_entitlement_input texts input ≡ inr cents
    → (uuid now uuid' now' : ℕ) (repo : ClassEntitlementRepository)
    → fulfilled_intent_line input repo ≡ none
    → create_class_entitlement texts input uuid' now'
        (create_class_entitlement texts input uuid now repo).0
      ≡ create_class_entitlement texts input uuid now repo
unfolding new_class_entitlement
create_for_order_line_again texts input cents valid uuid now uuid' now' repo f =
    let open_line = create-open_line texts input cents valid uuid now repo f in
    let open_line' = create-open_line texts input cents valid uuid' now' repo f in
    elim (Option-cases
      (indexed (input.organization_id, input.shopify_order_line_gid) repo.by_order_line repo)) [
        | inr (e, h) ↦ ground (
          arith,
          open_line,
          open_line',
          create_for_order_line-known input cents uuid now repo e h,
          create_for_order_line-known input cents uuid' now' repo e h,
        )
        | inl h ↦
            let e = new_class_entitlement input cents uuid now in
            let stored = create-stored texts input cents valid uuid' now' repo e refl refl refl in
            let new = open_line ∙ create_for_order_line-new input cents uuid now repo h in
            ap (λ r. create_class_entitlement texts input uuid' now' r.0) new ∙ stored ∙ sym new
      ]

-- A creation that is repeated, with any other new identifier and at any other time, answers what
-- the first one answered and writes nothing: the same entitlement, or the same error.
pub create_class_entitlement_again :
    (texts : TextTests) (input : CreateClassEntitlementInput) (uuid now uuid' now' : ℕ)
    → (repo : ClassEntitlementRepository)
    → (let first = create_class_entitlement texts input uuid now repo in
        create_class_entitlement texts input uuid' now' first.0 ≡ first)
create_class_entitlement_again texts input uuid now uuid' now' repo =
    elim (Sum-cases (assert_valid_class_entitlement_input texts input)) [
      | inl (err, h) ↦ ground (
        arith,
        create-invalid texts input err h uuid now repo,
        create-invalid texts input err h uuid' now' repo,
      )
      | inr (cents, valid) ↦ elim (Option-cases (fulfilled_intent_line input repo)) [
        | inr (e, f) ↦ ground (
          arith,
          create-conflict texts input cents valid uuid now repo e f,
          create-conflict texts input cents valid uuid' now' repo e f,
        )
        | inl f ↦ create_for_order_line_again texts input cents valid uuid now uuid' now' repo f
      ]
    ]
