-- ===== src/Errors.antt =====
-- server/src/common/api-exception.filter.ts: what a client is told of an exception. The identifier of
-- the request and the details, which no service sets, are left out.
use study_room_sdk.Base.{ℕ, String, Option, none, some, ◌==◌, if◌then◌else◌}
use study_room_sdk.Service.Monad.{
  ErrorBody, message, coded, p2002, p2003, p2025, Failure, bad_request, unauthorized, forbidden,
  not_found, conflict, unavailable, rate_limited, known_request, constraint_violation, fault,
}

-- The status, the body and the header `Retry-After`
pub record ErrorResponse : Type 0 where
  pub status : ℕ
  pub code : String
  pub text : String
  pub retry_after : Option ℕ

-- `codeFor`
unfoldable pub code_for : ℕ → String
code_for status =
    if status == 400
    then "invalid_request"
    else if status == 401
    then "unauthorized"
    else if status == 403
    then "forbidden"
    else if status == 404
    then "not_found"
    else if status == 409
    then "conflict"
    else if status == 429
    then "rate_limited"
    else "request_failed"

-- The branch of an `HttpException`
unfoldable pub http_response : ℕ → ErrorBody → ErrorResponse
unfolding code_for
http_response status (message t) = record {
  status = status;
  code = code_for status;
  text = t;
  retry_after = none;
}
http_response status (coded c t) = record {
  status = status;
  code = c;
  text = t;
  retry_after = none;
}

abbrev pub internal_error : ErrorResponse
internal_error = record {
  status = 500;
  code = "internal_error";
  text = "Internal server error";
  retry_after = none;
}

-- `catch`
unfoldable pub respond : Failure → ErrorResponse
unfolding http_response
respond (bad_request body) = http_response 400 body
respond (unauthorized body) = http_response 401 body
respond (forbidden body) = http_response 403 body
respond (not_found body) = http_response 404 body
respond (conflict body) = http_response 409 body
respond (unavailable body) = http_response 503 body
respond (rate_limited t seconds) = record {
  status = 429;
  code = "rate_limited";
  text = t;
  retry_after = some seconds;
}
respond (known_request p2002) = record {
  status = 409;
  code = "conflict";
  text = "Resource already exists";
  retry_after = none;
}
respond (known_request p2025) = record {
  status = 404;
  code = "not_found";
  text = "Resource not found";
  retry_after = none;
}
respond (known_request p2003) = internal_error
respond constraint_violation = internal_error
respond (fault t) = internal_error
