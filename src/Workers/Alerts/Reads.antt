-- ===== src/Workers/Alerts/Reads.antt =====
-- The execution of a claimed work, step by step: each of its calls is allowed, and a capability that
-- was issued is revoked.
use mo_xx.Js.Value.{str, prop, strict_eq}
use mo_xx.Workers.Alerts.Responses.{is_valid_order_response}
use mathlib.Core.Option.{none}
use mathlib.Core.Bool.{true}
use mo_xx.Workers.Alerts.Authority.{
  fail-Fine, call_order_api-Fine, IsPosted, IsIssued, IsAnswered, IsAllowed, Fine,
}
use mo_xx.Workers.Alerts.Work.{
  after_revocation, run_result, decided, complete, use_response, revoke_order_read_capability,
  read_order, read_and_use,
}
use mo_xx.Workers.Delivery.{DeliveryTrigger}
use mo_xx.Workers.Alerts.{ReadCapability, ClaimedWork}
use mo_xx.Workers.Alerts.Execution.{
  complete_work, record_failure, call_order_api, revoke_capability, OrderApiResponse, AlertCall,
  AlertWorld,
}
use mo_xx.Shared.{
  inr, ==→eq, inl, ◌==◌, Bool-cases, refl, false, some, ◌∷◌, [], ◌≡◌, ◌++◌, String, Bool, Option,
  List,
}
use mo_xx.Js.Session.{returned, Session, Result, continue, Step, pure, fail}
use mo_xx.Js.Session.Traces.{IsGood-continue, IsGood-finally, IsGood-pure}

module _ (w : AlertWorld) (job : ClaimedWork) (delivery : Option DeliveryTrigger)
    (project_url : String) where
  abbrev pub Good :
      {A : Type 0} → (List AlertCall → A → Type 0) → List AlertCall → Step AlertCall A → Type 0
  Good Q h s = Fine w job delivery project_url Q h s

  abbrev pub Allowed : List AlertCall → AlertCall → Type 0
  Allowed = IsAllowed w job delivery project_url

  -- the capability was given back after the calls `h`
  abbrev Revoked : List AlertCall → String → List AlertCall → Unit {0} → Type 0
  Revoked h work_id l u =
      (l ≡ h ++ revoke_capability job work_id ∷ []) × (w.revoke_of job work_id h ≡ returned true)

  revoke-Good :
      (work_id : String) (h : List AlertCall)
      → Good (Revoked h work_id) h (revoke_order_read_capability w job work_id h)
  unfolding revoke_order_read_capability
  revoke-Good work_id h =
      IsGood-continue Allowed
        (λ l b.
          (l ≡ h ++ revoke_capability job work_id ∷ []) × (w.revoke_of job work_id h ≡ returned b))
        (Revoked h work_id) (w.revoke_of job work_id h) (revoke_capability job work_id ∷ []) h
        (after_revocation w) (record { admitted = (refl, tt); known = λ b e. (refl, e) })
        (λ b q. revoked-Good b q.1)
    where
      revoked-Good :
          (b : Bool)
          → w.revoke_of job work_id h ≡ returned b
          → Good
              (Revoked h work_id)
              (h ++ revoke_capability job work_id ∷ [])
              (after_revocation w b (h ++ revoke_capability job work_id ∷ []))
      revoked-Good true e =
          IsGood-pure Allowed (Revoked h work_id) (h ++ revoke_capability job work_id ∷ []) tt
            (refl, e)
      revoked-Good false e =
          fail-Fine w job delivery project_url (Revoked h work_id)
            (h ++ revoke_capability job work_id ∷ []) _

  abbrev Answered : Option ReadCapability → List AlertCall → OrderApiResponse → Type 0
  Answered c l r = IsAnswered w job delivery project_url l c r

  abbrev Posted : Option ReadCapability → List AlertCall → OrderApiResponse → Type 0
  Posted c l r = IsPosted w job delivery project_url l c r

  read_order-Good :
      (c : Option ReadCapability) (h : List AlertCall)
      → IsIssued w job delivery project_url h c
      → Good (Answered c) h (read_order w job project_url c h)
  unfolding read_order
  read_order-Good none h i =
      let s = call_order_api-Fine w job delivery project_url none h i in
      record {
        admitted = s.admitted;
        known = λ r e. record {
          at_answer = h ++ (call_order_api w job project_url none h).calls;
          posted = s.known r e;
          revoked = tt;
          calls = refl;
        };
      }
  read_order-Good (some c) h i =
      let m = call_order_api w job project_url (some c) h in
      IsGood-finally Allowed (Posted (some c)) (Answered (some c))
        (Revoked (h ++ m.calls) c.work_id) m.result m.calls h
        (revoke_order_read_capability w job c.work_id)
        (call_order_api-Fine w job delivery project_url (some c) h i)
        (revoke-Good c.work_id (h ++ m.calls))
        (λ r p q. record { at_answer = h ++ m.calls; posted = p; revoked = q.1; calls = q.0 })

  abbrev pub Nothing : {A : Type 0} → List AlertCall → A → Type 0
  Nothing h a = Unit {0}

  -- a call of which nothing more is needed, and what ends it
  pub last-Good :
      {A B : Type 0} (r : Result A) (c : AlertCall) (h : List AlertCall)
      (f : A → Session AlertCall B)
      → Allowed h c
      → ((a : A) → Good Nothing (h ++ c ∷ []) (f a (h ++ c ∷ [])))
      → Good Nothing h (continue r (c ∷ []) h f)
  last-Good r c h f p k =
      IsGood-continue Allowed Nothing Nothing r (c ∷ []) h f
        (record { admitted = (p, tt); known = λ _ _. tt }) (λ a _. k a)

  pub Nothing-Good :
      {A : Type 0} (m : Session AlertCall A) (h : List AlertCall)
      → (m h).calls ≡ []
      → Good Nothing h (m h)
  Nothing-Good m h e = record { admitted = rw e tt; known = λ _ _. tt }

  decided-Good : (b : Bool) (h : List AlertCall) → Good Nothing h (decided w job b h)
  decided-Good true h = Nothing-Good (decided w job true) h refl
  decided-Good false h = Nothing-Good (decided w job false) h refl

  use_response-Good :
      (c : Option ReadCapability) (response : OrderApiResponse) (h : List AlertCall)
      → Answered c h response
      → Good Nothing h (use_response w job c response h)
  unfolding use_response complete
  use_response-Good c response h a =
      let refused = λ (code : String).
        last-Good (w.record_of job (some response.status) code h)
          (record_failure job (some response.status) code) h
          (λ _. pure (run_result 502 false job.work_id (some code))) refl
          (λ _.
            Nothing-Good (pure _) (h ++ record_failure job (some response.status) code ∷ [])
              refl) in
      elim (Bool-cases (response.status == 200)) [
        | inl s ↦ elim (Bool-cases (is_valid_order_response w.date_finite response.body job c)) [
          | inl v ↦
              elim (Bool-cases
                (strict_eq (prop response.body "contract_key") (str job.api_contract_key))) [
                  | inl k ↦
                      rw (s, v, k)
                        (last-Good (w.complete_of job response.body h)
                          (complete_work job response.body) h (decided w job)
                          (refl, (c, response, a, ==→eq response.status 200 s, refl, v))
                          (λ b. decided-Good b (h ++ complete_work job response.body ∷ [])))
                  | inr k ↦ rw (s, v, k) (Nothing-Good (fail _) h refl)
                ]
          | inr v ↦ rw (s, v) (refused "order_api_contract_mismatch")
        ]
        | inr s ↦ rw s (refused "order_api_http_error")
      ]

  pub read_and_use-Good :
      (c : Option ReadCapability) (h : List AlertCall)
      → IsIssued w job delivery project_url h c
      → Good Nothing h (read_and_use w job project_url c h)
  unfolding read_and_use
  read_and_use-Good c h i =
      let s = read_order w job project_url c h in
      IsGood-continue Allowed (Answered c) Nothing s.result s.calls h (use_response w job c)
        (read_order-Good c h i) (λ r a. use_response-Good c r (h ++ s.calls) a)
