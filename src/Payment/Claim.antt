-- ===== src/Payment/Claim.antt =====
-- src/parse_payment_claim.ts: the claim that the database grants on a payment attempt.
pub mod Soundness
use mo_xx.Shared.{String}
use mo_xx.Js.Text.{fits, is_uuid}
use mo_xx.Js.Value.{Value, str, prop, is_truthy, is_positive_safe, strict_eq}
use mo_xx.Js.Check.{Check, accept, ◌>>◌, require, on_text, text_with, null_or}

pub data ClaimKind : Type 0 where
  initiate reconcile : ClaimKind

abbrev pub kind_text : ClaimKind → String
kind_text initiate = "initiate"
kind_text reconcile = "reconcile"

-- the tests of the claim itself, in the order of the source
unfoldable pub check_claim : Value → Value → ClaimKind → Check Value
check_claim claim receipt kind = do
  require (is_truthy claim)
  require (strict_eq (prop claim "claim_kind") (str (kind_text kind)))
  on_text is_uuid (prop claim "claim_id")
  on_text is_uuid (prop claim "payment_attempt_id")
  on_text is_uuid (prop claim "owner_order_id")
  require (strict_eq (prop claim "payment_attempt_id") (prop receipt "payment_attempt_id"))
  require (strict_eq (prop claim "owner_order_id") (prop receipt "order_id"))
  require (is_positive_safe (prop claim "amount_minor"))
  require (strict_eq (prop claim "currency") (str "USD"))
  require (text_with (fits 1 64) (prop claim "location_id"))
  require (null_or (text_with (fits 1 192)) (prop claim "provider_payment_id"))
  accept claim

unfoldable pub parse_payment_claim : Value → ClaimKind → Check Value
unfolding check_claim
parse_payment_claim result kind = do
  require (strict_eq (prop result "disposition") (str "claimed"))
  check_claim (prop result "claim") (prop result "receipt") kind
