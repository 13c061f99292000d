-- ===== src/Tests/Executions.antt =====
-- A refund and a retrieval, from the command to what is reported.
use mo_xx.Js.Text.{is_api_version, is_uuid, utf16_length}
use mo_xx.Tests.{cents, order_uuid, sample_world, sample_environment}
use mo_xx.Payment.Evidence.{evidence_object}
use mo_xx.Square.Types.{World}
use mo_xx.Square.Refund.Execution.{execute_refund-refunded, IsRequested}
use mo_xx.Square.Refund.{is_refund_match, execute_refund}
use mo_xx.Js.Value.{strict_eq, str, field_of, Value}
use mo_xx.Js.Check.{ok, to_string}
use mo_xx.Tests.Square.{refund_command, square_refund, refunded}
use mo_xx.Shared.{refl, ◌≡◌}

abbrev refund_world : World
refund_world = sample_world "refund" square_refund

refund_runs : (execute_refund refund_world sample_environment refund_command).outcome ≡ ok refunded
unfolding execute_refund is_refund_match field_of strict_eq to_string is_uuid is_api_version
    utf16_length
refund_runs = refl

execute_refund-refunded_example :
    IsRequested refund_world refund_command
      (execute_refund refund_world sample_environment refund_command)
execute_refund-refunded_example =
    execute_refund-refunded refund_world refund_command sample_environment refunded refund_runs refl

abbrev reconciled : Value
reconciled =
    evidence_object "square:reconciliation:sha256:5f" "reconciliation" (str "matched") (str "paid")
      (str "PAY1") (str "2026-07-15T10:00:00Z") (str order_uuid) cents (str "USD") (str "LOC1")
