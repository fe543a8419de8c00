-- ===== src/Api.antt =====
-- control/internal/api: what the handlers share (errors.go, middleware.go). A handler is a computation
-- over the database that ends in an answer, or in a problem, which is its early return. What the
-- router and the decoders make of a request are arguments: `none` is a text that they refuse.
mod Tests
pub mod Nodes
pub mod Agents
pub mod Sandboxes
pub mod Checks
pub mod Access
pub mod Logs
pub mod Observing
pub mod Router
use appx_forge.Base.{
  ℕ, Bool, true, false, Option, none, some, String, str_eq, Result, if◌then◌else◌,
}
use appx_forge.Store.{DbErr}
use appx_forge.Store.Call.{M, pure, fail}

pub record ProblemDetail : Type 0 where
  pub problem_type : String
  pub title : String
  pub status : ℕ
  pub detail : String

abbrev pub Handler : Type 0 → Type 0
Handler A = M ProblemDetail A

unfoldable pub write_problem : ℕ → String → String → String → ProblemDetail
write_problem status problem_type title detail = record {
  problem_type = problem_type;
  title = title;
  status = status;
  detail = detail;
}

abbrev pub not_found : String → ProblemDetail
not_found = write_problem 404 "urn:forge:error:not-found" "Not Found"

abbrev pub unauthorized : ProblemDetail
unauthorized =
    write_problem 401 "urn:forge:error:unauthorized" "Unauthorized"
      "missing or invalid bearer token"

abbrev pub conflict : String → ProblemDetail
conflict = write_problem 409 "urn:forge:error:conflict" "Conflict"

abbrev pub bad_request : String → ProblemDetail
bad_request = write_problem 400 "urn:forge:error:bad-request" "Bad Request"

abbrev pub service_unavailable : String → ProblemDetail
service_unavailable = write_problem 503 "urn:forge:error:service-unavailable" "Service Unavailable"

-- `WriteProblem` with StatusInternalServerError, as the handlers call it.
abbrev pub internal_error : String → ProblemDetail
internal_error = write_problem 500 "urn:forge:error:internal" "Internal Server Error"

-- An early return where the test holds.
abbrev pub reject_if : Bool → ProblemDetail → Handler (Unit {0})
reject_if b problem = if b then fail problem else pure tt

-- A value that the router or a decoder gave, or an early return.
abbrev pub require : {A : Type 0} → Option A → ProblemDetail → Handler A
require (some a) problem = pure a
require none problem = fail problem
