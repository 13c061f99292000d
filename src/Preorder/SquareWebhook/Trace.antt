-- ===== src/Preorder/SquareWebhook/Trace.antt =====
-- The calls that the processing of a webhook may make, one after the other.
use mo_xx.Js.Text.{fits}
use mo_xx.Payment.Evidence.{parse_payment_evidence}
use mo_xx.Js.Check.{text_with, accept, ok}
use mo_xx.Square.Types.{or_empty}
use mo_xx.Js.Value.{str, prop, Value}
use mo_xx.Square.WebhookEvidence.{rejected, AuthenticationResult}
use mo_xx.Preorder.SquareWebhook.{
  read_webhook_identity, project, capture, resolve, authenticate, WebhookCall, Delivery,
  WebhookDependencies,
}
use mo_xx.Square.WebhookEvidence.{unavailable}
use mo_xx.Shared.{true, ◌∷◌, ◌≢◌, some, [], List, Bool, String, ◌≡◌}

module _ (date_finite : String → Bool) (deps : WebhookDependencies) (d : Delivery) where
  -- The body of a delivery that is authenticated.
  abbrev pub IsAuthentic : AuthenticationResult → Type 0
  IsAuthentic r =
      (deps.authenticate d.body (or_empty d.signature) ≡ ok r)
      × (r.disposition ≢ rejected)
      × (r.disposition ≢ unavailable)

  -- What may be captured: the payload, under its identity, for a location of at most 64 units.
  abbrev pub IsCapture : Value → String → Value → Type 0
  IsCapture payload identity location =
      (d.payload ≡ ok payload)
      × (identity ≡ read_webhook_identity payload d.digest)
      × (text_with (fits 1 64) location ≡ true)

  -- Evidence that the authentication gave and the parser lets through, of a webhook.
  abbrev pub IsWebhookEvidence : AuthenticationResult → Value → Type 0
  IsWebhookEvidence r evidence =
      (given : Value) × (r.evidence ≡ some given)
      × (parse_payment_evidence date_finite given ≡ accept evidence)
      × (prop evidence "source" ≡ str "webhook")

  -- The calls that follow one another: each step rests on what the one before it returned.
  pub data IsTrace : List WebhookCall → Type 0 where
    silent : IsTrace []
    authenticated_only : IsTrace (authenticate d.body (or_empty d.signature) ∷ [])
    captured :
        (r : AuthenticationResult) (payload location order : Value) (identity : String)
        → IsAuthentic r
        → IsCapture payload identity location
        → IsTrace (
            authenticate d.body (or_empty d.signature)
            ∷ capture payload identity location order r.disposition
            ∷ [])
    resolved :
        (r : AuthenticationResult) (payload location order evidence : Value) (identity : String)
        → IsAuthentic r
        → IsCapture payload identity location
        → deps.capture payload identity location ≡ ok tt
        → IsWebhookEvidence r evidence
        → IsTrace (
            authenticate d.body (or_empty d.signature)
            ∷ capture payload identity location order r.disposition
            ∷ resolve evidence
            ∷ [])
    projected :
        (r : AuthenticationResult) (payload location order evidence : Value)
        (identity attempt : String)
        → IsAuthentic r
        → IsCapture payload identity location
        → deps.capture payload identity location ≡ ok tt
        → IsWebhookEvidence r evidence
        → deps.resolve evidence ≡ ok (some attempt)
        → IsTrace (
            authenticate d.body (or_empty d.signature)
            ∷ capture payload identity location order r.disposition
            ∷ resolve evidence
            ∷ project attempt evidence
            ∷ [])
