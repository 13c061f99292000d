-- ===== src/Lib.antt =====
-- MoXX: the preorder payment path of MoMi and of its web client, the workers that consume its
-- events, and the windows in which it acquires Toast's data.
--
-- A preorder is quoted, held, ordered and paid through the functions of
-- MoMi/services/preorder-operations. The payment functions claim a payment attempt in the database,
-- ask Square for a charge or for the state of a payment through the public contracts of
-- MoMi/services/square-payment-delivery and MoMi/services/square-payment-acquisition, and project
-- the evidence that they get. Square's webhooks reach momi-preorder-square-webhook-v1, which has
-- them authenticated by square-payment-acquisition, captures them, and projects their evidence.
--
-- The web client in MoXi/src prepares a checkout by a quote, a hold if the quote requires one and
-- an order, and hands the payment over; its requests go to the functions above. A draft of a cart
-- that was saved is checked against the menu before it is used.
--
-- The workers consume deliveries of events: momi-warehouse-projection-worker-v1 projects Toast's
-- events and goes on in the background while its settings leave deliveries and time;
-- momi-order-alert-worker-v1 stages a work for an order's event, reads the order from the order API
-- under a capability that is issued for the delivery, and has the alert decided.
--
-- Files and sources:
--   Shared, Shared/*: library names passed on, tests on numbers and texts, lists.
--   Js/Value, Js/Keys: values as JSON.parse gives them, truthiness, ===, Object.keys and sets.
--   Js/Check: String(v) with its exceptions, and the course of a parser: it accepts, returns null or
--     throws. Js/Text: the regular expressions, place by place, and lengths in UTF-16 units.
--   Js/Effect: an asynchronous function by what it returns or throws and the calls that it makes.
--   Payment/Claim, Payment/Evidence: preorder-operations/src/parse_payment_claim.ts,
--     parse_payment_evidence.ts and indeterminate_payment_evidence.ts.
--   Payment/Initiate, Payment/Reconcile: the orchestrate.ts of momi-preorder-payment-initiate-v1 and
--     of momi-preorder-payment-reconcile-v1 (orchestrate, step by step: proceed, deliver_claim or
--     retrieve_claim, settle, project_evidence).
--   Preorder/Http: preorder-operations/src/public_origin.ts (publicOriginPolicy), requests, responses.
--   Preorder/Requests: the parse_request.ts of the hold, order, initiate and reconcile functions.
--   Preorder/Checkout: handleRequestWithExecutor of the hold and the order functions.
--   Preorder/PaymentService: handleRequestWithDependencies and readJsonBody of the payment functions.
--   Preorder/Quote: parseRequest and handleRequestWithCreator of momi-preorder-quote-v1.
--   Preorder/Contribution: compareContext of momi-preorder-contribution-v1.
--   Preorder/OrderStatus: handleRequestWithReader of momi-preorder-order-status-v1.
--   Preorder/SquareWebhook: processWebhook of momi-preorder-square-webhook-v1.
--   Square/Types, Square/Delivery, Square/Refund: square-payment-delivery, the charge
--     (executePayment) and the refund (executeRefund).
--   Square/Retrieval, Square/Reconciliation: square-payment-acquisition, the retrieval and the
--     observation of a payment (retrievePayment).
--   Square/Webhook, Square/WebhookEvidence: square-payment-acquisition, the authentication of webhooks
--     and their evidence (authenticateWebhookEvidence).
--   Js/Session: an asynchronous function whose calls are answered by a world that changes: an answer may
--     depend on all calls before it. try, catch and finally.
--   Workers/Delivery, Workers/Projection: warehouse-projection's worker: parseDeliveryTrigger,
--     processDelivery; in Projection/Background runBackgroundContinuation and handleRequest.
--   Workers/Alerts: order-alerting's worker: its parsers; in Alerts/Presentation, Alerts/Document,
--     Alerts/Responses and Alerts/SameJson the validation of the order API's answers (isValidOrderResponse);
--     in Alerts/Execution and Alerts/Work executeWork and callOrderApi; in Alerts/Events
--     processEventDelivery; in Alerts/Handler handleRequest.
--   Toast, Toast/*: toast-data-acquisition's resolve_window.ts (resolveWindow, branch by branch, in
--     Toast/BusinessDays, Toast/Slices and Toast/Window), and the windows of a job one after the other.
--   Moxi/Checkout: MoXi/src/features/preorder/checkout.ts, the types; in Checkout/Prepare
--     preparePreorderCheckout, handoffPreorderPayment and replacePaymentCommand.
--   Moxi/Draft: MoXi/src/features/preorder/draft.ts (revalidateRecoveredDraft).
--   Tests, Tests/*: runs at concrete values.
--
-- Everything is a total function. The one loop that is not over a list or a text is the projection
-- worker's; it recurs on fuel, and fuel for more rounds than its settings leave deliveries is
-- enough. The windows of a job recur on fuel too, and fuel for its span in windows of 28 days is
-- enough. A moment is counted in milliseconds from the first that a Date can hold. Numbers of JSON
-- are whole, negative, fractional (sign and whole part), infinite or not a number, each with the
-- text that String gives for it. The lengths of texts count UTF-16 units.
--
-- Parameters, by what they return or throw: the database functions, fetch, the digest, Date.parse,
-- encodeURIComponent, base64, the import of keys, the check of signatures, JSON.parse,
-- JSON.stringify, URL, the environment and the time. The web client's functions for requests give
-- envelopes that their schemas let through. Time-outs are exceptions of fetch. An aborted or
-- repeated delivery of a request is a further run.
--
-- An object that stands in one place of a value is never the same object as one in another, and the
-- sign of a zero is not kept.
--
-- Not modelled: console output and the headers of the order API's answers, the random identifier
-- and the time in an answer's envelope, headers but for the allowed origin and Retry-After, the SQL
-- behind the database functions, the policy and the handler of the contribution function, the
-- bootstrap function, the other services, the views, the stored drafts, the state machine and the
-- transport of the web client, the scripts and the local tools.
mod Shared
mod Tests
pub mod Js
pub mod Square
pub mod Workers
pub mod Toast
pub mod Moxi
pub mod Payment
pub mod Preorder
