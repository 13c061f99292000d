-- ===== src/Toast.antt =====
-- The acquisition of Toast's data: jobs, registered operations and windows
-- (toast-data-acquisition/functions/toast-data-acquisition-v1/src/registry_types.ts).
pub mod Dates
pub mod Jobs
pub mod BusinessDays
pub mod Slices
pub mod Window
pub mod Coverage
pub mod Spans
pub mod Resolution
pub mod Run
pub mod Tiling
use mo_xx.Shared.{Bool, String, Option, List}
use mo_xx.Js.Value.{Fields, Value}

pub record OperationParameter : Type 0 where
  pub parameter_key : String
  pub in_query : Bool
  pub required : Bool

-- A registered operation, by what the windows read of it.
pub record RegisteredOperation : Type 0 where
  pub resource_type : String
  pub requires_window : Bool
  pub first_business_date : Option String
  pub operation_parameters : List OperationParameter

pub record ClaimedJob : Type 0 where
  pub window_start : Option String
  pub window_end : Option String
  pub cursor : Fields
  pub parameters : Fields

pub record WindowResolution : Type 0 where
  pub parameters : Fields
  pub cursor_context : Fields
  pub next_cursor : Option Fields
  pub coverage_start : Option String
  pub coverage_end : Option String
