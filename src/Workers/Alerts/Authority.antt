-- ===== src/Workers/Alerts/Authority.antt =====
-- What a claimed work may ask of the order API and of the database.
use mo_xx.Workers.Alerts.Routes.{is_exact_route-IsRoute, request_body-IsBody, IsRoute, IsBody}
use mo_xx.Workers.Alerts.Responses.{is_valid_order_response}
use mathlib.Core.Option.{none}
use mo_xx.Js.Value.{Value}
use mo_xx.Workers.Delivery.{DeliveryTrigger}
use mo_xx.Workers.Alerts.{ReadCapability, ClaimedWork}
use mo_xx.Workers.Alerts.Execution.{
  send, or_null_body, call_endpoint, claim_work, fail_delivery, acknowledge_delivery,
  stage_event_work, begin_delivery, record_failure, is_exact_route, complete_work, post_order_api,
  revoke_capability, request_body, issue_capability, is_canonical, Url, OrderApiResponse, post,
  call_order_api, AlertCall, AlertWorld,
}
use mo_xx.Js.Check.{throw, Exc, ok}
use mo_xx.Shared.{
  inr, inl, Bool-cases, refl, [], ◌∷◌, ℕ, true, false, ◌≡◌, ◌++◌, some, String, Option, List,
}
use mo_xx.Js.Session.{thrown, given, returned, Session, Result, Step, fail}
use mo_xx.Js.Session.Traces.{IsGood-pure, IsGood, IsGood-continue}

module _ (w : AlertWorld) (job : ClaimedWork) (delivery : Option DeliveryTrigger)
    (project_url : String) where
  -- The authority of a read after the calls `h`: none for a contract that is not canonical, else the
  -- one capability that was just issued for the delivery.
  abbrev pub IsIssued : List AlertCall → Option ReadCapability → Type 0
  IsIssued h none = is_canonical job ≡ false
  IsIssued h (some c) =
      (d : DeliveryTrigger) × (g : List AlertCall) × (delivery ≡ some d)
      × (h ≡ g ++ issue_capability job d ∷ [])
      × (w.issue_of job d g ≡ returned ((c.work_id, c.capability_token) ∷ []))
      × (c.contract_key ≡ job.api_contract_key)

  -- the calls when the read is over, after those by which the API had answered
  abbrev pub given_back : Option ReadCapability → List AlertCall → List AlertCall
  given_back none h = h
  given_back (some c) h = h ++ revoke_capability job c.work_id ∷ []

  abbrev pub IsGivenBack : Option ReadCapability → List AlertCall → Type 0
  IsGivenBack none h = Unit
  IsGivenBack (some c) h = w.revoke_of job c.work_id h ≡ returned true

  -- The endpoint is the registered route of the project at `project_url`.
  abbrev pub IsPost : List AlertCall → Option ReadCapability → Url → Value → Type 0
  IsPost h c endpoint body =
      IsIssued h c
      × IsBody job body c
      × ((project : Url) × (w.project_of project_url ≡ returned project)
          × (w.endpoint_of job.api_route_path project ≡ returned endpoint)
          × IsRoute job.api_route_path project endpoint)

  -- The order API has answered under this authority.
  pub record IsPosted (h : List AlertCall) (c : Option ReadCapability) (response : OrderApiResponse)
      : Type 0 where
    pub before : List AlertCall
    pub endpoint : Url
    pub request : Value
    pub json : Result Value
    pub posted : IsPost before c endpoint request
    pub answered : w.fetch endpoint request before ≡ returned (response.status, json)
    pub body : response.body ≡ or_null_body json
    pub calls : h ≡ before ++ post_order_api endpoint request ∷ []

  -- It has, and the authority is given back.
  pub record IsAnswered (h : List AlertCall) (c : Option ReadCapability)
      (response : OrderApiResponse) : Type 0 where
    pub at_answer : List AlertCall
    pub posted : IsPosted at_answer c response
    pub revoked : IsGivenBack c at_answer
    pub calls : h ≡ given_back c at_answer

  -- The call `c` of the execution, after the calls `h`.
  abbrev pub IsAllowed : List AlertCall → AlertCall → Type 0
  IsAllowed h (issue_capability j d) = (j ≡ job) × (delivery ≡ some d) × (is_canonical job ≡ true)
  IsAllowed h (post_order_api endpoint body) =
      (c : Option ReadCapability) × IsPost h c endpoint body
  IsAllowed h (revoke_capability j work_id) = j ≡ job
  IsAllowed h (complete_work j body) =
      (j ≡ job)
      × ((c : Option ReadCapability) × (response : OrderApiResponse) × IsAnswered h c response
          × (response.status ≡ 200)
          × (response.body ≡ body)
          × (is_valid_order_response w.date_finite body job c ≡ true))
  IsAllowed h (record_failure j status code) = j ≡ job
  IsAllowed h (begin_delivery d) = ⊥
  IsAllowed h (stage_event_work d) = ⊥
  IsAllowed h (acknowledge_delivery d) = ⊥
  IsAllowed h (fail_delivery d text) = ⊥
  IsAllowed h (claim_work input) = ⊥

  abbrev pub Fine :
      {A : Type 0} → (List AlertCall → A → Type 0) → List AlertCall → Step AlertCall A → Type 0
  Fine Q h s = IsGood IsAllowed Q h s

  abbrev pub Any : {A : Type 0} → List AlertCall → A → Type 0
  Any h a = Unit {0}

  pub fail-Fine :
      {A : Type 0} (Q : List AlertCall → A → Type 0) (h : List AlertCall) (e : String)
      → Fine Q h (fail e h)
  fail-Fine Q h e = record { admitted = tt; known = λ a q. cc }

  post-Fine :
      (c : Option ReadCapability) (endpoint : Url) (body : Value) (h : List AlertCall)
      → IsPost h c endpoint body
      → Fine (λ l r. IsPosted l c r) h (post w job endpoint body h)
  unfolding post
  post-Fine c endpoint body h p =
      IsGood-continue IsAllowed
        (λ l (r : ℕ × Result Value).
          (l ≡ h ++ post_order_api endpoint body ∷ []) × (w.fetch endpoint body h ≡ returned r))
        (λ l r. IsPosted l c r) (w.fetch endpoint body h) (post_order_api endpoint body ∷ []) h _
        (record { admitted = ((c, p), tt); known = λ r e. (refl, e) })
        (λ r q.
          IsGood-pure IsAllowed (λ l x. IsPosted l c x) (h ++ post_order_api endpoint body ∷ []) _
            (record {
              before = h;
              endpoint = endpoint;
              request = body;
              json = r.1;
              posted = p;
              answered = q.1;
              body = refl;
              calls = refl;
            }))

  call_endpoint-Fine :
      (project endpoint : Url) (c : Option ReadCapability) (h : List AlertCall)
      → IsIssued h c
      → w.project_of project_url ≡ returned project
      → w.endpoint_of job.api_route_path project ≡ returned endpoint
      → Fine (λ l r. IsPosted l c r) h (call_endpoint w job c project endpoint h)
  call_endpoint-Fine project endpoint c h i p e =
      elim (Bool-cases (is_exact_route job.api_route_path project endpoint)) [
        | inl x ↦ rw x (
            send-Fine (request_body job c)
              (is_exact_route-IsRoute job.api_route_path project endpoint x) refl)
        | inr x ↦ rw x (fail-Fine (λ l r. IsPosted l c r) h _)
      ]
    where
      send-Fine :
          (b : Exc Value)
          → IsRoute job.api_route_path project endpoint
          → request_body job c ≡ b
          → Fine (λ l r. IsPosted l c r) h (send w job endpoint b h)
      send-Fine (ok body) x b =
          post-Fine c endpoint body h (i, request_body-IsBody job c body b, (project, p, e, x))
      send-Fine (throw m) x e = fail-Fine (λ l r. IsPosted l c r) h m

  given-Fine :
      {A B : Type 0} (Q : List AlertCall → B → Type 0) (r : Result A) (f : A → Session AlertCall B)
      → (h : List AlertCall) → ((a : A) → r ≡ returned a → Fine Q h (f a h))
      → Fine Q h (given r f h)
  given-Fine Q (returned a) f h k = k a refl
  given-Fine Q (thrown e) f h k = record { admitted = tt; known = λ a q. cc }

  pub call_order_api-Fine :
      (c : Option ReadCapability) (h : List AlertCall)
      → IsIssued h c
      → Fine (λ l r. IsPosted l c r) h (call_order_api w job project_url c h)
  unfolding call_order_api
  call_order_api-Fine c h i =
      given-Fine (λ l r. IsPosted l c r) (w.project_of project_url) _ h
        λ project p.
          given-Fine (λ l r. IsPosted l c r) (w.endpoint_of job.api_route_path project) _ h
            λ endpoint e. call_endpoint-Fine project endpoint c h i p e
