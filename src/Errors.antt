-- ===== src/Errors.antt =====
-- The errors that the program makes (`errors.New`, `fmt.Errorf`) or passes on, a constructor for
-- each format with the values that it prints. `context.Canceled` and `context.DeadlineExceeded`
-- are what `ctx.Err()` returns; `external` is an error of code outside the repository.
use policy_decision_service.Prelude.{String}
use policy_decision_service.Prelude.Int.{ℤ}

pub data Error : Type 0 where
  canceled deadline_exceeded : Error
  external : String → Error
  message : String → Error
  in_context : String → Error → Error
  unsupported_version : ℤ → Error
  duplicate_rule_id : String → Error
  unknown_rule_type : String → String → Error
  unknown_reference : String → String → Error
  unknown_rule : String → Error
  combiner_cycle : String → Error
