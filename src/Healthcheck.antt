-- ===== src/Healthcheck.antt =====
-- The health handler of pkg/healthcheck/health.go. A checker is given as its result, `none` where it does
-- not answer before the time is out.
pub mod Laws
use rusi.Prelude.{
  ℕ, zero, suc, ◌+◌, ◌-◌, ◌*◌, ◌/◌, ◌%◌, ◌^◌, ◌≤◌, ◌<◌, String, ◌≡◌, refl, sym, ap, ◌∙◌, subst, ◌≢◌,
  ◌↔◌, ◌⊎◌, inl, inr, Bool, true, false, not, ◌&&◌, ◌||◌, Option, none, some, List, [], ◌∷◌, ◌++◌,
  map, append_assoc, append-nil, arith, ◌==◌, eq_iff, eq_refl, ltb, leb, beq, if◌then◌else◌,
  Bool-cases, Option-cases, length, is_empty, any, length-append, any-append_right, All, All-append,
  Error, Result, ok, err, ◌>>=◌, ◌>>◌, fail_if, Result-cases, >>=-eq-ok,
}
use rusi.Prelude.Int.{ℤ, pos, negsuc, pos_part, neg_part, neg, ltb_ℤ, IsSigned, to_uint64, to_int64}
use rusi.Prelude.Dict.{
  Dict, lookup, insert, delete, lookup-insert, lookup-delete, lookup-empty, dict_laws, get,
}
use rusi.Prelude.Text.{◌⊕◌, single, to_lower, to_lower-append, split, trim_space, replace_char}
use rusi.Prelude.Number.{parse_uint64, parse_int32, parse_int32-IsSigned, parse_uint64-lt, itoa}
use rusi.Messaging.{HealthResult, HealthStatus, unhealthy, degraded, healthy}

-- IsHealthy of timeoutChecker
pub timeout_checker : Option HealthResult → HealthResult
timeout_checker (some r) = r
timeout_checker none = record { status = unhealthy; description = "max check time exceeded" }

abbrev pub is_healthy_status : HealthStatus → Bool
is_healthy_status healthy = true
is_healthy_status _ = false

pub record Response : Type 0 where
  pub code : ℕ
  pub errors : Dict String

abbrev pub status_ok : ℕ
status_ok = 200

abbrev pub status_service_unavailable : ℕ
status_service_unavailable = 503

-- what the goroutine of one checker does when it has its result, under the mutex
pub record_result : String → HealthResult → Response → Response
record_result key r response = if is_healthy_status r.status then response else record response {
  code = status_service_unavailable;
  errors = insert key r.description response.errors;
}

-- the goroutines of the checkers, in the order in which they come to an end
unfoldable pub serve_http : List (String × Option HealthResult) → Response → Response
unfolding record_result timeout_checker
serve_http [] response = response
serve_http ((key, checker) ∷ rest) response =
    serve_http rest (record_result key (timeout_checker checker) response)

abbrev pub empty_response : Response
empty_response = record { code = status_ok; errors = [] }
