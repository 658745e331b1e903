-- ===== src/Lib.antt =====
-- The festival registration program: models of its core components, and what is proved of them.
--
-- The program registers children for the classes of a music festival. A parent puts line items into
-- a cart; the eligibility check decides whether it may be bought; a paid order arrives as a webhook
-- and becomes a class entitlement; a class that is full has a waitlist. Identifiers are naturals
-- where the program only compares them, and times are naturals of milliseconds, since an ISO text of
-- `toISOString` has a fixed width and the order of those texts is the order in time.
--
-- Calls and interleavings: a method is one step of the program where its body has no `await` that
-- another call can use. `createOrReactivateEntry` of the waitlist awaits a search before it writes: it
-- is `find_active_entry` and, on what it returned, `create_after`. Interleaved is about calls that wait
-- at the `await` while others run, and Overlap about two of them for one child;
-- `create_or_reactivate_entry` composes the two parts, a call that no other writing call interrupts, and
-- Membership and Idempotence are about such calls. A call of the registration service is one
-- step too: its lock and the interleavings of its awaits are not modelled. In the sequences of calls of
-- Recovery, a request that `addRecoveryRequest` stores has a new identifier and, if it is pending, an
-- intent without a pending request, which the method does not check itself.
-- `evaluate_candidates` counts the line items, where the code asks `indexOf` for the place of each: the
-- same for line items that are distinct objects, which a request that is parsed has.
--
-- Files, and the code that each is about:
--   Base            shared names, lists, JavaScript sets and maps, the stable sort
--   Entitlements    types of packages/common/src/entitlements.ts and organization.ts; Repository and
--                   Updates hold the repository in memory of
--                   packages/backend/src/commerce/class-entitlement-repository.ts
--   Webhook.Queue   packages/backend/src/commerce/webhook-worker-queue.ts; a call of a method is one
--                   step, and a handler that runs is an entry of the field `running`
--   Eligibility     packages/common/src/purchase-eligibility.ts: Checks and Item hold
--                   `evaluateItemEligibility`, Cart the two modes of `evaluatePurchaseEligibility`
--   Waitlist        packages/common/src/waitlist.ts and
--                   packages/backend/src/waitlist/in-memory-waitlist-repository.ts
--   Registration    packages/backend/src/registration: Changes is the repository of change logs and
--                   refund events, Capacity, Refunds, Service, Operations (drops)
--                   and Transfer are drop-transfer-service.ts, with the repository of Entitlements as its store
--   Volunteers      packages/backend/src/volunteers/volunteer-repository.ts: Repository, Booking and
--                   Listing hold the methods of the class in memory
--   Checkout        packages/backend/src/checkout/checkout-repository.ts: Repository holds the intents
--                   and Carts the carts of the class in memory, with `buildIntentLineRecords` of
--                   checkout-line-helpers.ts
--   Recovery        packages/backend/src/checkout/checkout-recovery-repository.ts, the class in memory
--   Commerce        packages/backend/src/commerce/membership-commerce-repository.ts, the deliveries of
--                   the class in memory
--   Availability    packages/common/src/availability.ts: Hours holds `normalizeAvailableHours`, Dates
--                   `enumerateFestivalDates`
--
-- The loop of `dispatch` runs on fuel, one unit for each queued and retained delivery; a round takes
-- one of them away, so the loop ends by its own test. The loop of `enumerateFestivalDates` has one unit
-- of fuel for each day, and ends by its test after the last day. All other loops go through a list.
--
-- Parameters: the identifiers that `randomUUID` returns and the time of a call are arguments; so
-- are the `Date` of JavaScript, the provider that refunds through Shopify and the methods of the class
-- query.
-- Not modelled: of the components above, the registration metadata of the checkout repository, the
-- order projections and the decisions of the commerce repository, and the checks of a request for
-- availability; the classes that speak SQL, HTTP, Shopify's services, the user interface, and the
-- services of packages/backend that no file above is about.
pub mod Base
pub mod Entitlements
pub mod Eligibility
pub mod Waitlist
pub mod Registration
pub mod Volunteers
pub mod Checkout
pub mod Recovery
pub mod Commerce
pub mod Availability
pub mod Webhook
