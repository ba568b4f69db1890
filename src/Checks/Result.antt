-- ===== src/Checks/Result.antt =====
-- The result of a check, and the event of a crossed threshold (internal/checks/check.go, scheduler.go).
use pathosd.Common.{String, Bool, false, Option, none}
use pathosd.Common.Int.{ℤ, pos}
use pathosd.Model.Details.{CheckDetails}

-- type Result; an error is its text
pub record Result : Type 0 where
  pub success : Bool
  pub detail : String
  pub duration : ℤ  -- nanoseconds
  pub err : Option String
  pub timed_out : Bool
  pub details : Option CheckDetails

-- Result{}
abbrev pub zero_result : Result
zero_result = record {
  success = false;
  detail = "";
  duration = pos 0;
  err = none;
  timed_out = false;
  details = none;
}

-- type HealthTransition, without its trace context
pub record HealthTransition : Type 0 where
  pub vip_name : String
  pub check_name : String
  pub healthy : Bool
  pub reason : String
  pub check_result : Result
