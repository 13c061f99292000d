-- ===== src/Workers/Alerts/Claims.antt =====
-- The execution of a claimed work as a whole.
use mathlib.Core.Option.{none}
use mo_xx.Workers.Alerts.Reads.{Nothing-Good, last-Good, read_and_use-Good, Allowed, Nothing, Good}
use mo_xx.Workers.Alerts.Authority.{fail-Fine, IsIssued, IsAllowed}
use mo_xx.Workers.Delivery.{DeliveryTrigger}
use mo_xx.Workers.Alerts.Work.{
  use_response, after_revocation, run_result, request_failed, revoke_order_read_capability,
  capability_of, read_order, read_and_use, issue_order_read_capability, issue_and_read,
  execute_claim, attempt,
}
use mo_xx.Workers.Alerts.{claimed, ReadCapability, WorkTriggerInput, ClaimedWork}
use mo_xx.Workers.Alerts.Execution.{
  call_order_api, record_failure, revoke_capability, issue_capability, is_canonical, AlertCall,
  AlertWorld,
}
use mathlib.Core.List.{append_assoc, append-nil}
use mo_xx.Shared.{
  ap, if◌then◌else◌, subst, Bool, false, none, inr, refl, inl, Bool-cases, ◌∷◌, sym, some, [], ◌++◌,
  true, Option, ◌≡◌, String, List,
}
use mo_xx.Js.Session.{
  catch, thrown, rescue, returned, Thrown, Session, Result, continue, pure, fail,
}
use mo_xx.Js.Session.Traces.{IsGood-continue, IsGood-rescue, IsGood-pure, AllAfter}

if-true : {A : Type 0} (b : Bool) (x y : A) → b ≡ true → (if b then x else y) ≡ x
if-true b x y h = rw h refl

-- calls put together from their parts
joined :
    {C : Type 0} (i r : C) (m r1 r2 r3 l1 l2 l3 l4 : List C)
    → l1 ≡ m ++ r ∷ r1
    → l2 ≡ l1 ++ r2
    → l3 ≡ i ∷ l2
    → l4 ≡ l3 ++ r3
    → l4 ≡ i ∷ m ++ r ∷ ((r1 ++ r2) ++ r3)
joined i r m r1 r2 r3 l1 l2 l3 l4 a b c d = rw (d, c, b, a) (simp append_assoc refl)

module _ (w : AlertWorld) (job : ClaimedWork) where
  module _ (d : DeliveryTrigger) (project_url : String) (canonical : is_canonical job ≡ true) where
    abbrev Issued : List AlertCall → ReadCapability → Type 0
    Issued h c = IsIssued w job (some d) project_url h (some c)

    abbrev Rows : List AlertCall → List AlertCall → List (String × String) → Type 0
    Rows h l rows = (l ≡ h ++ issue_capability job d ∷ []) × (w.issue_of job d h ≡ returned rows)

    capability_of-Good :
        (rows : List (String × String)) (h l : List AlertCall)
        → Rows h l rows
        → Good w job (some d) project_url Issued l (capability_of job rows l)
    capability_of-Good [] h l r = fail-Fine w job (some d) project_url Issued l _
    capability_of-Good (row ∷ []) h l r =
        IsGood-pure (Allowed w job (some d) project_url) Issued l _ (d, h, refl, r.0, r.1, refl)
    capability_of-Good (row ∷ other_row ∷ rows) h l r =
        fail-Fine w job (some d) project_url Issued l _

    issue_order_read_capability-Good :
        (h : List AlertCall)
        → Good w job (some d) project_url Issued h (issue_order_read_capability w job d h)
    unfolding issue_order_read_capability
    issue_order_read_capability-Good h = rw canonical (
        IsGood-continue (Allowed w job (some d) project_url) (Rows h) Issued (w.issue_of job d h)
          (issue_capability job d ∷ []) h (capability_of job)
          (record { admitted = ((refl, refl, canonical), tt); known = λ rows e. (refl, e) })
          (λ rows r. capability_of-Good rows h (h ++ issue_capability job d ∷ []) r))

    issue_and_read-Good :
        (h : List AlertCall)
        → Good w job
            (some d)
            project_url
            (Nothing w job (some d) project_url)
            h
            (issue_and_read w job project_url d h)
    unfolding issue_and_read
    issue_and_read-Good h =
        let s = issue_order_read_capability w job d h in
        IsGood-continue (Allowed w job (some d) project_url) Issued
          (Nothing w job (some d) project_url) s.result s.calls h _
          (issue_order_read_capability-Good h)
          (λ c i. read_and_use-Good w job (some d) project_url (some c) (h ++ s.calls) i)

  attempt-Good :
      (project_url : String) (delivery : Option DeliveryTrigger) (h : List AlertCall)
      → Good w job delivery project_url
          (Nothing w job delivery project_url)
          h
          (attempt w job project_url delivery h)
  unfolding attempt
  attempt-Good project_url none h = elim (Bool-cases (is_canonical job)) [
    | inl c ↦ rw c (fail-Fine w job none project_url (Nothing w job none project_url) h _)
    | inr c ↦ rw c (read_and_use-Good w job none project_url none h c)
  ]
  attempt-Good project_url (some d) h = elim (Bool-cases (is_canonical job)) [
    | inl c ↦
        subst (λ m. Good w job (some d) project_url (Nothing w job (some d) project_url) h (m h))
          (sym (if-true (is_canonical job) (issue_and_read w job project_url d) (fail _) c))
          (issue_and_read-Good d project_url c h)
    | inr c ↦ rw c (fail-Fine w job (some d) project_url (Nothing w job (some d) project_url) h _)
  ]

  -- For a claimed work the order API is asked only at the endpoint of the work's route under the
  -- project's URL, which has the project's origin, the registered path and nothing else; the body
  -- names the work, the order and, where the contract is canonical, the capability that was just
  -- issued for the delivery, else the work's own trigger; the work is completed only with a body
  -- that the API answered with 200 under this authority, that is valid for the work, and after the
  -- capability was given back.
  pub execute_claim-IsAllowed :
      (input : WorkTriggerInput) (project_url : String) (delivery : Option DeliveryTrigger)
      → (h : List AlertCall)
      → AllAfter
          (IsAllowed w job delivery project_url)
          h
          (execute_claim w input project_url delivery (claimed job) h).calls
  unfolding execute_claim
  execute_claim-IsAllowed input project_url delivery h =
      let s = attempt w job project_url delivery h in
      let code : String = "order_api_request_failed" in
      (IsGood-rescue (Allowed w job delivery project_url) (Nothing w job delivery project_url)
        s.result s.calls h (λ e. request_failed w job) (attempt-Good project_url delivery h)
        (λ e.
          last-Good w job delivery project_url (w.record_of job none code (h ++ s.calls))
            (record_failure job none code) (h ++ s.calls)
            (λ _. pure (run_result 502 false job.work_id (some code))) refl
            (λ _. Nothing-Good w job delivery project_url (pure _) _ refl))).admitted

  -- a list of calls that begins with `cs`
  abbrev Starts : List AlertCall → List AlertCall → Type 0
  Starts cs ds = (rest : List AlertCall) × (ds ≡ cs ++ rest)

  continue-Starts :
      {A B : Type 0} (r : Result A) (cs h : List AlertCall) (f : A → Session AlertCall B)
      → Starts cs (continue r cs h f).calls
  continue-Starts (returned a) cs h f = ((f a (h ++ cs)).calls, refl)
  continue-Starts (thrown e) cs h f = ([], sym (append-nil cs))

  rescue-Starts :
      {A : Type 0} (r : Result A) (cs h : List AlertCall) (f : Thrown → Session AlertCall A)
      → Starts cs (rescue r cs h f).calls
  rescue-Starts (returned a) cs h f = ([], sym (append-nil cs))
  rescue-Starts (thrown e) cs h f = ((f e (h ++ cs)).calls, refl)

  revoke-Starts :
      (work_id : String) (h : List AlertCall)
      → Starts
          (revoke_capability job work_id ∷ [])
          (revoke_order_read_capability w job work_id h).calls
  unfolding revoke_order_read_capability
  revoke-Starts work_id h =
      continue-Starts (w.revoke_of job work_id h) (revoke_capability job work_id ∷ []) h
        (after_revocation w)

  issue_and_read-calls :
      (project_url : String) (d : DeliveryTrigger) (h : List AlertCall) (work_id token : String)
      → is_canonical job ≡ true
      → w.issue_of job d h ≡ returned ((work_id, token) ∷ [])
      → (issue_and_read w job project_url d h).calls
        ≡ issue_capability job d
          ∷ (read_and_use w job project_url
              (some (record {
                contract_key = job.api_contract_key;
                work_id = work_id;
                capability_token = token;
              }))
              (h ++ issue_capability job d ∷ [])).calls
  unfolding issue_and_read issue_order_read_capability
  issue_and_read-calls project_url d h work_id token c e = rw c (rw e refl)

  -- If a capability is issued for a claimed work of a canonical contract, it is revoked, whatever
  -- the order API and the database answer after that.
  pub execute_claim-revokes :
      (input : WorkTriggerInput) (project_url : String) (d : DeliveryTrigger) (h : List AlertCall)
      → (work_id token : String) → is_canonical job ≡ true
      → w.issue_of job d h ≡ returned ((work_id, token) ∷ [])
      → (before after : List AlertCall) × ((execute_claim w input project_url
            (some d)
            (claimed job)
            h).calls
          ≡ issue_capability job d ∷ before ++ revoke_capability job work_id ∷ after)
  unfolding execute_claim attempt
  execute_claim-revokes input project_url d h work_id token c e =
      let cap : ReadCapability = record {
        contract_key = job.api_contract_key;
        work_id = work_id;
        capability_token = token;
      } in
      let h1 = h ++ issue_capability job d ∷ [] in
      let m = (call_order_api w job project_url (some cap) h1).calls in
      let (r1, q1) = revoke-Starts work_id (h1 ++ m) in
      let read = read_order w job project_url (some cap) h1 in
      let (r2, q2) = continue-Starts read.result read.calls h1 (use_response w job (some cap)) in
      let all = issue_and_read w job project_url d h in
      let (r3, q3) = rescue-Starts all.result all.calls h (λ x. request_failed w job) in
      (
        m,
        (r1 ++ r2) ++ r3,
        joined (issue_capability job d) (revoke_capability job work_id) m r1 r2 r3 read.calls
            (read_and_use w job project_url (some cap) h1).calls all.calls _ (ap (λ l. m ++ l) q1)
            (unfold read_and_use in q2) (issue_and_read-calls project_url d h work_id token c e)
            (subst (λ x. (catch x (λ y. request_failed w job) h).calls ≡ all.calls ++ r3)
              (sym (if-true (is_canonical job) (issue_and_read w job project_url d) (fail _) c))
              q3),
      )
