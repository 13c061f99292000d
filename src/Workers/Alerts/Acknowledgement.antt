-- ===== src/Workers/Alerts/Acknowledgement.antt =====
-- When a delivery of an order's event is acknowledged.
use mo_xx.Workers.Alerts.Claims.{execute_claim-IsAllowed}
use mathlib.Core.Option.{none}
use mo_xx.Square.Types.{or_empty}
use mo_xx.Workers.Alerts.Authority.{IsAllowed}
use mo_xx.Workers.Alerts.Work.{is_set, execute_claim, execute_work}
use mo_xx.Workers.Alerts.Events.{
  acknowledged, give_up, use_staged, use_begun, process_event_delivery, after_execution,
  acknowledge,
}
use mo_xx.Workers.Alerts.{
  unavailable, not_found, ignored_non_live_event, ready, claimed, WorkClaim, StagedEventWork,
  WorkTriggerInput,
}
use mo_xx.Workers.Delivery.{DeliveryTrigger}
use mo_xx.Workers.Alerts.Execution.{
  record_failure, complete_work, post_order_api, revoke_capability, issue_capability, fail_delivery,
  stage_event_work, claim_work, begin_delivery, acknowledge_delivery, ExecutionResult, AlertCall,
  AlertWorld,
}
use mo_xx.Workers.Alerts.{already_succeeded, unavailable, not_found}
use mo_xx.Shared.{
  false, true, none, ◌||◌, not, ==→eq, inr, refl, inl, if◌then◌else◌, ◌==◌, [], Bool-cases, ◌∷◌,
  true, ◌≡◌, ◌++◌, some, Option, Bool, String, List,
}
use mo_xx.Js.Session.{◌>>=◌, thrown, returned, Result, continue, Step, fail, call}
use mo_xx.Js.Session.Traces.{AllAfter-continue, AllAfter-rescue, AllAfter, AllAfter-map}

module _ (w : AlertWorld) (d : DeliveryTrigger) where
  abbrev begun_calls : List AlertCall → List AlertCall
  begun_calls g = g ++ begin_delivery d ∷ []

  abbrev staged_calls : List AlertCall → List AlertCall
  staged_calls g = begun_calls g ++ stage_event_work d ∷ []

  abbrev run_of : String → String → List AlertCall → Step AlertCall ExecutionResult
  run_of work_id token h =
      execute_work w (record { work_id = work_id; trigger_token = token }) (some d) h

  -- The work that was staged after the calls `g` is done: there is nothing to alert of, it has
  -- succeeded before, or its execution has now.
  abbrev pub IsDone : List AlertCall → List AlertCall → StagedEventWork → Type 0
  IsDone g h ignored_non_live_event = h ≡ staged_calls g
  IsDone g h (ready work_id token true) = h ≡ staged_calls g
  IsDone g h (ready work_id token false) =
      (r : ExecutionResult) × ((run_of work_id token (staged_calls g)).result ≡ returned r)
      × (r.status ≡ 200)
      × (r.is_ok ≡ true)
      × (h ≡ staged_calls g ++ (run_of work_id token (staged_calls g)).calls)

  abbrev pub IsDue : List AlertCall → Type 0
  IsDue h =
      (g : List AlertCall) × (work : StagedEventWork) × (w.begin_of d g ≡ returned true)
      × (w.stage_of d (begun_calls g) ≡ returned (some work))
      × IsDone g h work

  -- An acknowledgement is the delivery's own, and is due.
  abbrev pub IsRightful : List AlertCall → AlertCall → Type 0
  IsRightful h (acknowledge_delivery e) = (e ≡ d) × IsDue h
  IsRightful h _ = Unit

  abbrev Rightful : List AlertCall → List AlertCall → Type 0
  Rightful h cs = AllAfter IsRightful h cs

  acknowledge-Rightful :
      (outcome : String) (h : List AlertCall)
      → IsDue h
      → Rightful h (acknowledge w d outcome h).calls
  unfolding acknowledge
  acknowledge-Rightful outcome h p =
      AllAfter-continue IsRightful (w.acknowledge_of d h) (acknowledge_delivery d ∷ []) h
        (acknowledged w d outcome) ((refl, p), tt)
        (λ b e. quiet b (h ++ acknowledge_delivery d ∷ []))
    where
      quiet : (b : Bool) (l : List AlertCall) → Rightful l (acknowledged w d outcome b l).calls
      quiet true l = tt
      quiet false l = tt

  after_execution-Rightful :
      (r : ExecutionResult) (h : List AlertCall)
      → (r.status ≡ 200 → r.is_ok ≡ true → IsDue h)
      → Rightful h (after_execution w d r h).calls
  unfolding after_execution
  after_execution-Rightful r h p = elim (Bool-cases (r.status == 409)) [
    | inl a ↦ rw a tt
    | inr a ↦ elim (Bool-cases (r.status == 200)) [
      | inl b ↦ elim (Bool-cases r.is_ok) [
        | inl c ↦ rw (a, b, c) (acknowledge-Rightful "processed" h (p (==→eq r.status 200 b) c))
        | inr c ↦ rw (a, b, c) tt
      ]
      | inr b ↦ rw (a, b) tt
    ]
  ]

  execute_claim-Rightful :
      (input : WorkTriggerInput) (project_url : String) (c : WorkClaim) (h : List AlertCall)
      → Rightful h (execute_claim w input project_url (some d) c h).calls
  execute_claim-Rightful input project_url (claimed job) h =
      AllAfter-map h _ (λ l c p. rightful l c p)
        (execute_claim-IsAllowed w job input project_url (some d) h)
    where
      rightful :
          (l : List AlertCall) (c : AlertCall)
          → IsAllowed w job (some d) project_url l c
          → IsRightful l c
      rightful l (acknowledge_delivery e) p = absurd p
      rightful l (begin_delivery e) p = tt
      rightful l (stage_event_work e) p = tt
      rightful l (fail_delivery e text) p = tt
      rightful l (claim_work input) p = tt
      rightful l (issue_capability j e) p = tt
      rightful l (revoke_capability j work_id) p = tt
      rightful l (post_order_api endpoint body) p = tt
      rightful l (complete_work j body) p = tt
      rightful l (record_failure j status code) p = tt
  execute_claim-Rightful input project_url not_found h = unfold execute_claim in tt
  execute_claim-Rightful input project_url unavailable h = unfold execute_claim in tt
  execute_claim-Rightful input project_url already_succeeded h = unfold execute_claim in tt

  execute_work-Rightful :
      (input : WorkTriggerInput) (h : List AlertCall)
      → Rightful h (execute_work w input (some d) h).calls
  unfolding execute_work
  execute_work-Rightful input h =
      let run =
        AllAfter-continue IsRightful (w.claim_of input h) (claim_work input ∷ []) h
          (execute_claim w input (or_empty w.project_url) (some d)) (tt, tt)
          (λ c e.
            execute_claim-Rightful input (or_empty w.project_url) c (h ++ claim_work input ∷ [])) in
      configured
        (not (is_set w w.code_sha) || not (is_set w w.project_url) || not (is_set w w.gateway_key))
        run
    where
      configured :
          (b : Bool)
          → Rightful h
              (continue
                (w.claim_of input h)
                (claim_work input ∷ [])
                h
                (execute_claim w input (or_empty w.project_url) (some d))).calls
          → Rightful h
              ((if b
                  then fail "Worker runtime configuration is incomplete"
                  else call (claim_work input) (w.claim_of input)
                    >>= execute_claim w input (or_empty w.project_url) (some d))
                h).calls
      configured true run = tt
      configured false run = run

  use_staged-Rightful :
      (g : List AlertCall) (r : Result (Option StagedEventWork))
      → w.begin_of d g ≡ returned true
      → w.stage_of d (begun_calls g) ≡ r
      → Rightful
          (begun_calls g)
          (continue r (stage_event_work d ∷ []) (begun_calls g) (use_staged w d)).calls
  unfolding use_staged
  use_staged-Rightful g (returned none) b e = (tt, tt)
  use_staged-Rightful g (returned (some ignored_non_live_event)) b e = (
    tt,
    acknowledge-Rightful "ignored_non_live_event" (staged_calls g)
        (g, ignored_non_live_event, b, e, refl),
  )
  use_staged-Rightful g (returned (some (ready work_id token true))) b e =
      (tt, acknowledge-Rightful "replay" (staged_calls g) (g, ready work_id token true, b, e, refl))
  use_staged-Rightful g (returned (some (ready work_id token false))) b e =
      let s = run_of work_id token (staged_calls g) in
      (
        tt,
        AllAfter-continue IsRightful s.result s.calls (staged_calls g) (after_execution w d)
            (execute_work-Rightful (record { work_id = work_id; trigger_token = token })
              (staged_calls g))
            (λ r q.
              after_execution-Rightful r (staged_calls g ++ s.calls)
                (λ x y. (g, ready work_id token false, b, e, (r, q, x, y, refl)))),
      )
  use_staged-Rightful g (thrown x) b e = (tt, tt)

  use_begun-Rightful :
      (g : List AlertCall) (r : Result Bool)
      → w.begin_of d g ≡ r
      → Rightful g (continue r (begin_delivery d ∷ []) g (use_begun w d)).calls
  unfolding use_begun
  use_begun-Rightful g (returned true) e =
      (tt, use_staged-Rightful g (w.stage_of d (begun_calls g)) e refl)
  use_begun-Rightful g (returned false) e = (tt, tt)
  use_begun-Rightful g (thrown x) e = (tt, tt)

  -- The order alert worker acknowledges only the delivery it was given, once it was begun and its
  -- work staged, and only if the event is none to alert of, the work had succeeded before, or its
  -- execution has returned 200 and ok just before.
  pub process_event_delivery-IsRightful :
      (h : List AlertCall) → AllAfter IsRightful h (process_event_delivery w d h).calls
  unfolding process_event_delivery give_up
  process_event_delivery-IsRightful h =
      let s = continue (w.begin_of d h) (begin_delivery d ∷ []) h (use_begun w d) in
      AllAfter-rescue IsRightful s.result s.calls h (give_up w d)
        (use_begun-Rightful h (w.begin_of d h) refl)
        (λ e q.
          AllAfter-continue IsRightful (w.failure_of d _ (h ++ s.calls)) (fail_delivery d _ ∷ [])
            (h ++ s.calls) _ (tt, tt) (λ f p. tt))
