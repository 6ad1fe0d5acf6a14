-- ===== src/Healthcheck/Laws.antt =====
-- What the health handler answers.
use rusi.Prelude.{
  String, ◌≡◌, refl, Bool, true, false, not, ◌&&◌, ◌||◌, Option, none, some, List, [], ◌∷◌, arith,
  ◌==◌, if◌then◌else◌,
}
use rusi.Prelude.Dict.{lookup, lookup-insert, lookup-empty}
use rusi.Messaging.{HealthResult}
use rusi.Healthcheck.{
  timeout_checker, is_healthy_status, Response, status_ok, status_service_unavailable,
  record_result, serve_http, empty_response,
}

abbrev pub all_healthy : List (String × Option HealthResult) → Bool
all_healthy [] = true
all_healthy ((_, checker) ∷ rest) =
    is_healthy_status (timeout_checker checker).status && all_healthy rest

serve_http-code :
    (checkers : List (String × Option HealthResult)) (response : Response)
    → (serve_http checkers response).code
      ≡ (if all_healthy checkers then response.code else status_service_unavailable)
unfolding serve_http
serve_http-code [] response = refl
serve_http-code ((key, checker) ∷ rest) response =
    let ih = serve_http-code rest (record_result key (timeout_checker checker) response) in
    ground (arith, ih)

abbrev pub is_some : Option String → Bool
is_some none = false
is_some (some _) = true

-- some checker of that name does not answer in time that it is healthy
abbrev pub fails : String → List (String × Option HealthResult) → Bool
fails key [] = false
fails key ((k, checker) ∷ rest) =
    ((k == key) && not (is_healthy_status (timeout_checker checker).status)) || fails key rest

serve_http-errors :
    (checkers : List (String × Option HealthResult)) (response : Response) (key : String)
    → is_some (lookup key (serve_http checkers response).errors)
      ≡ (fails key checkers || is_some (lookup key response.errors))
unfolding serve_http
serve_http-errors [] response key = refl
serve_http-errors ((k, checker) ∷ rest) response key =
    let r = timeout_checker checker in
    let ih = serve_http-errors rest (record_result k r response) key in
    ground (arith, ih, lookup-insert k key r.description response.errors)

-- Whatever the order in which the checkers answer, the code is 200 where all of them answer in time that
-- they are healthy, and 503 otherwise; and the errors have an entry for exactly the checkers that do not.
pub serve_http_lem :
    (checkers : List (String × Option HealthResult))
    → ((serve_http checkers empty_response).code
        ≡ (if all_healthy checkers then status_ok else status_service_unavailable))
      × ((key : String)
          → is_some (lookup key (serve_http checkers empty_response).errors) ≡ fails key checkers)
serve_http_lem checkers = (
  serve_http-code checkers empty_response,
  λ key.
      let e = serve_http-errors checkers empty_response key in
      ground (arith, e, lookup-empty {V = String} key),
)
