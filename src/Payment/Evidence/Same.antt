-- ===== src/Payment/Evidence/Same.antt =====
-- parse_payment_evidence returns the object that it was given.
use mo_xx.Shared.{◌≡◌}
use mo_xx.Js.Value.{Value, obj}
use mo_xx.Js.Check.{accept}
use mo_xx.Js.Check.Inversion.{require-eq-accept, on_text-eq-accept}
use mo_xx.Payment.Evidence.{Bool, String, parse_payment_evidence}

module _ (date_finite : String → Bool) where
  pub parse_payment_evidence-same :
      (v e : Value) → parse_payment_evidence date_finite v ≡ accept e → v ≡ e
  unfolding parse_payment_evidence
  parse_payment_evidence-same (obj fs) e h =
      let (_, h) = require-eq-accept _ _ h in
      let (_, h) = require-eq-accept _ _ h in
      let (_, h) = on_text-eq-accept _ _ _ h in
      let (_, h) = on_text-eq-accept _ _ _ h in
      let (_, h) = on_text-eq-accept _ _ _ h in
      let (_, h) = require-eq-accept _ _ h in
      let (_, h) = require-eq-accept _ _ h in
      let (_, h) = require-eq-accept _ _ h in
      let (_, h) = require-eq-accept _ _ h in
      let (_, h) = require-eq-accept _ _ h in let (_, h) = require-eq-accept _ _ h in cc h
  parse_payment_evidence-same v e h = cc
