-- ===== src/Observability/Requests.antt =====
-- What a request leaves behind: its sample, its header and its line.
use auth_profile_service.Common.{
  ℕ, String, ◌≡◌, refl, true, false, none, some, [], ◌∷◌, ◌++◌, if◌then◌else◌, Bool-cases, inl, inr,
}
use auth_profile_service.Auth.Errors.{Error, Result, ok, err}
use auth_profile_service.Dto.{Content}
use auth_profile_service.Rest.{respond}
use auth_profile_service.Security.Settings.{Settings}
use auth_profile_service.Observability.{
  Request, Line, Telemetry, correlation_of, is_handled, correlation_for, is_quiet, route_label,
  handle_errors, observe, correlate, handle_unexpected, serve_request,
}

-- The outcome of a route has an answer of its own: it returned, or it raised an error with a handler.
abbrev pub IsAnswered : {A : Type 0} → Result A → Type 0
IsAnswered (ok a) = Unit
IsAnswered (err e) = is_handled e ≡ true

-- The id of a request.
abbrev pub id_of : (uuid : String) → Request → String
id_of uuid r = correlation_for uuid r.correlation_header

module _ (Token : Type 0) (s : Settings) (uuid : String) (success : ℕ) (r : Request)
    (t : Telemetry) where
  -- A route that returns, or that raises an error with a handler: the response is the route's, with the id
  -- of the request's header or the drawn one where there is none; one sample is counted, under the service,
  -- the method, the route's template or the path where no route matched, and the status; and one line with
  -- the id, the method, the path and the status is logged, unless the path is one of the quiet ones.
  pub serve_request_lem :
      (result : Result (Content Token))
      → IsAnswered result
      → let response = respond success result in
        serve_request s uuid success r result t ≡ (
          record { response = response; correlation_id = some (id_of uuid r) },
          record {
            requests_total =
                t.requests_total
                ++ record {
                  service = s.app_name;
                  method = r.method;
                  route = route_label r;
                  status = response.status;
                }
                  ∷ [];
            lines =
                if is_quiet r.path
                then t.lines
                else t.lines
                  ++ Line.request_line
                      (correlation_of (some (id_of uuid r)))
                      r.method
                      r.path
                      response.status
                    ∷ [];
          },
        )
  unfolding serve_request handle_errors observe correlate handle_unexpected
  serve_request_lem (ok content) h = elim (Bool-cases (is_quiet r.path)) [
    | inl e ↦ simp e
    | inr e ↦ simp e
  ]
  serve_request_lem (err x) h = elim (Bool-cases (is_quiet r.path)) [
    | inl e ↦ simp (h, e)
    | inr e ↦ simp (h, e)
  ]

  -- A route that raises an error without a handler: the response is a 500 without a correlation id, nothing is
  -- counted and no request is logged, but a line on the error with the id.
  pub serve_request_unhandled :
      (e : Error)
      → is_handled e ≡ false
      → let (reply, t') = serve_request {Token = Token} s uuid success r (err e) t in
        (reply.response.status ≡ 500)
        × (reply.correlation_id ≡ none)
        × (t'.requests_total ≡ t.requests_total)
        × (t'.lines
            ≡ t.lines
              ++ Line.unhandled_line (correlation_of (some (id_of uuid r))) r.method r.path ∷ [])
  unfolding serve_request handle_errors observe correlate handle_unexpected
  serve_request_unhandled e h = simp h ((refl, refl, refl, refl))
