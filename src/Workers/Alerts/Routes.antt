-- ===== src/Workers/Alerts/Routes.antt =====
-- The route and the body of a request to the order API: the tests of call_order_api.ts.
use mo_xx.Js.Text.{is_uuid_v5}
use mo_xx.Shared.{
  ◌&&◌, arith, ◌||◌, subst, refl, inr, ===→eq, ◌===◌, inl, false, not, none, Bool-cases, &&-eq-true,
  true, some, ◌≡◌, String, Option, Bool,
}
use mo_xx.Workers.Alerts.{ReadCapability, ClaimedWork, exact_order_contract, legacy_order_contract}
use mo_xx.Workers.Alerts.Execution.{
  is_exact_route, request_body, canonical_body, legacy_body, is_canonical, Url,
}
use mo_xx.Workers.Delivery.{is_positive_decimal, after_prefix}
use mo_xx.Js.Check.Inversion.{if-throw, not-eq-false, ok-inj}
use mo_xx.Js.Check.{ok}
use mo_xx.Js.Value.{Value, prop, str, field_of}

-- The registered path of a function on the project's own origin, and nothing else.
pub record IsRoute (path : String) (project endpoint : Url) : Type 0 where
  pub registered : after_prefix "/functions/v1/" (λ _. true) path ≡ true
  pub origin : endpoint.origin ≡ project.origin
  pub pathname : endpoint.pathname ≡ path
  pub search : endpoint.search ≡ ""
  pub hash : endpoint.hash ≡ ""

pub is_exact_route-IsRoute :
    (path : String) (project endpoint : Url)
    → is_exact_route path project endpoint ≡ true
    → IsRoute path project endpoint
unfolding is_exact_route
is_exact_route-IsRoute path project endpoint h =
    let (h1, p) = &&-eq-true _ (endpoint.pathname === path) h in
    let (h2, a) = &&-eq-true _ (endpoint.hash === "") h1 in
    let (h3, s) = &&-eq-true _ (endpoint.search === "") h2 in
    let (h4, o) = &&-eq-true _ (endpoint.origin === project.origin) h3 in
    let (r, _) = &&-eq-true (after_prefix "/functions/v1/" (λ _. true) path) _ h4 in
    record {
      registered = r;
      origin = ===→eq endpoint.origin project.origin o;
      pathname = ===→eq endpoint.pathname path p;
      search = ===→eq endpoint.search "" s;
      hash = ===→eq endpoint.hash "" a;
    }

-- The body of a request: of a canonical contract under a capability for it, of the legacy contract
-- under the trigger of the work.
pub data IsBody (job : ClaimedWork) (body : Value) : Option ReadCapability → Type 0 where
  by_capability :
      (c : ReadCapability)
      → is_canonical job ≡ true
      → c.contract_key ≡ job.api_contract_key
      → prop body "work_id" ≡ str c.work_id
      → prop body "order_id" ≡ str job.order_id
      → prop body "capability_token" ≡ str c.capability_token
      → (job.api_contract_key ≡ exact_order_contract
          → prop body "order_version_id" ≡ str job.source_version_id)
      → IsBody job body (some c)
  by_trigger :
      job.api_contract_key ≡ legacy_order_contract
      → prop body "work_id" ≡ str job.work_id
      → prop body "order_id" ≡ str job.order_id
      → prop body "trigger_token" ≡ str job.trigger_token
      → IsBody job body none

same_key : (a b : Bool) (s t : String) → (not a || not b || not (s === t)) ≡ false → s ≡ t
same_key a b s t h = elim (Bool-cases (s === t)) [
  | inl e ↦ ===→eq s t e
  | inr e ↦ ground (arith, e)
]

canonical_body-IsBody :
    (job : ClaimedWork) (c : ReadCapability) (body : Value)
    → is_canonical job ≡ true
    → canonical_body job (some c) ≡ ok body
    → IsBody job body (some c)
unfolding canonical_body field_of
canonical_body-IsBody job c body k h =
    let unkeyed =
      not (is_positive_decimal c.work_id)
      || not (is_uuid_v5 c.capability_token)
      || not (c.contract_key === job.api_contract_key) in
    let unidentified =
      not (is_uuid_v5 job.order_id)
      || (job.api_contract_key === exact_order_contract
          && not (is_uuid_v5 job.source_version_id)) in
    let (keyed, h1) =
      if-throw unkeyed "Canonical Order API requires an exact read capability" _ h in
    let (_, h2) = if-throw unidentified "Canonical Order API identity is invalid" _ h1 in
    subst (λ b. IsBody job b (some c)) (ok-inj h2)
      (by_capability c k (same_key _ _ c.contract_key job.api_contract_key keyed) refl refl refl
        (λ e. rw e refl))

legacy_body-IsBody :
    (job : ClaimedWork) (c : Option ReadCapability) (body : Value)
    → legacy_body job c ≡ ok body
    → IsBody job body c
unfolding legacy_body field_of
legacy_body-IsBody job none body h =
    let (k, h1) = if-throw _ "Order API contract is not supported" _ h in
    subst (λ b. IsBody job b none) (ok-inj h1)
      (by_trigger (===→eq job.api_contract_key legacy_order_contract (not-eq-false _ k)) refl refl
        refl)
legacy_body-IsBody job (some c) body h =
    let (_, h1) = if-throw (not (job.api_contract_key === legacy_order_contract)) _ _ h in cc

pub request_body-IsBody :
    (job : ClaimedWork) (c : Option ReadCapability) (body : Value)
    → request_body job c ≡ ok body
    → IsBody job body c
unfolding request_body
request_body-IsBody job c body h = elim (Bool-cases (is_canonical job)) [
  | inl k ↦ by_contract c (rw k at h) k
  | inr k ↦ legacy_body-IsBody job c body (rw k at h)
]
  where
    by_contract :
        (c : Option ReadCapability)
        → canonical_body job c ≡ ok body
        → is_canonical job ≡ true
        → IsBody job body c
    by_contract none e k = unfold canonical_body in cc
    by_contract (some x) e k = canonical_body-IsBody job x body k e
