-- ===== src/Shared/Errors.antt =====
-- shared/src/errors/app-error.ts, and the errors of the platform's clients. Messages are left out.
pub data Error : Type 0 where
  bad_request unauthorized forbidden not_found conflict : Error
  invalid_state_transition phone_not_verified : Error
  -- a Postgres unique_violation (23505), and any other failure of a database or a remote call
  unique_violation upstream_failure : Error
  -- driver-service refused a change of status (DriverStatusRejectedError of delivery-service)
  driver_status_rejected : Error
  -- 422 (RatingNotAllowedError of delivery-service)
  rating_not_allowed : Error

unfoldable pub Error-discrete : Discrete Error
Error-discrete = hlevel
