-- ===== src/Observability.antt =====
-- What app/core and app/infrastructure/observability add to a request: the correlation id of
-- middleware.py, context.py and logging_config.py, the metrics of metrics.py, and the answer of
-- exceptions.py to what nobody handles. The layers stand in the order of main.py.
pub mod Requests
use auth_profile_service.Common.{
  ℕ, String, Bool, true, false, ◌||◌, Option, none, some, List, [], ◌∷◌, ◌++◌, ◌==◌, is_empty,
  if◌then◌else◌,
}
use auth_profile_service.Auth.Errors.{Error, Result, ok, err}
use auth_profile_service.Dto.{Content}
use auth_profile_service.Rest.{Response, respond}
use auth_profile_service.Security.Settings.{Settings}

-- `route` is the template of the path, where a route matched.
pub record Request : Type 0 where
  pub method : String
  pub path : String
  pub route : Option String
  pub correlation_header : Option String

-- The labels of `arcadia_http_requests_total`.
pub record Labels : Type 0 where
  pub service : String
  pub method : String
  pub route : String
  pub status : ℕ

-- A line of the log, with the correlation id that the filter puts on it.
pub data Line : Type 0 where
  request_line : (correlation_id method path : String) (status : ℕ) → Line
  unhandled_line : (correlation_id method path : String) → Line

-- What the process has counted, and logged of requests.
pub record Telemetry : Type 0 where
  pub requests_total : List Labels
  pub lines : List Line

-- A response with the header of the correlation id, where it was set.
pub record Reply (Token : Type 0) : Type 0 where
  pub response : Response Token
  pub correlation_id : Option String

-- What a layer gives to the one around it.
pub data Handling (Token : Type 0) : Type 0 where
  answered : Reply Token → Handling Token
  raised : Error → Handling Token

-- `record.correlation_id = get_correlation_id() or "-"`
unfoldable pub correlation_of : Option String → String
correlation_of none = "-"
correlation_of (some id) = if is_empty id then "-" else id

-- The errors of the domain, of FastAPI and of slowapi have handlers of their own.
unfoldable pub is_handled : Error → Bool
is_handled Error.malformed_envelope = false
is_handled Error.kafka_error = false
is_handled Error.value_error = false
is_handled Error.key_error = false
is_handled Error.attribute_error = false
is_handled Error.integrity_error = false
is_handled Error.multiple_results_found = false
is_handled e = true

-- `request.headers.get(CORRELATION_HEADER) or str(uuid.uuid4())`
unfoldable pub correlation_for : (uuid : String) → Option String → String
correlation_for uuid none = uuid
correlation_for uuid (some id) = if is_empty id then uuid else id

-- `_QUIET_PATHS`
unfoldable pub is_quiet : String → Bool
is_quiet path =
    path == "/livez" || (path == "/readyz" || (path == "/healthz" || path == "/metrics"))

-- `getattr(route, "path", request.url.path)`
unfoldable pub route_label : Request → String
route_label r = elim r.route [ none ↦ r.path | some path ↦ path ]

module _ {Token : Type 0} where
  -- The innermost layer: what a route returns or raises, and the handlers of the errors that have one.
  unfoldable pub handle_errors : (success : ℕ) → Result (Content Token) → Handling Token
  unfolding respond is_handled
  handle_errors success (ok content) =
      Handling.answered (record { response = respond success (ok content); correlation_id = none })
  handle_errors success (err e) =
      if is_handled e
      then Handling.answered (record { response = respond success (err e); correlation_id = none })
      else Handling.raised e

  -- `_observe`, after `call_next`.
  unfoldable pub observe :
      Settings → Request → Handling Token → Telemetry → Handling Token × Telemetry
  unfolding route_label
  observe s r (Handling.raised e) t = (Handling.raised e, t)
  observe s r (Handling.answered reply) t = (
    Handling.answered reply,
    record t {
      requests_total =
          t.requests_total
          ++ record {
            service = s.app_name;
            method = r.method;
            route = route_label r;
            status = reply.response.status;
          }
            ∷ [];
    },
  )

  -- `CorrelationIdMiddleware.dispatch`, after `call_next`, with the id that it has set.
  unfoldable pub correlate :
      (id : String) → Request → Handling Token → Telemetry → Handling Token × Telemetry
  unfolding is_quiet correlation_of
  correlate id r (Handling.raised e) t = (Handling.raised e, t)
  correlate id r (Handling.answered reply) t = (
    Handling.answered (record reply { correlation_id = some id }),
    if is_quiet r.path then t else record t {
      lines =
          t.lines
          ++ Line.request_line (correlation_of (some id)) r.method r.path reply.response.status
            ∷ [];
    },
  )

  -- `handle_unexpected_error`, outside of the other layers: the id is still set where it logs.
  unfoldable pub handle_unexpected :
      (id : String) → Request → Handling Token → Telemetry → Reply Token × Telemetry
  unfolding correlation_of
  handle_unexpected id r (Handling.answered reply) t = (reply, t)
  handle_unexpected id r (Handling.raised e) t = (
    record {
      response = record { status = 500; content = Content.detail "Internal server error." };
      correlation_id = none;
    },
    record t {
      lines = t.lines ++ Line.unhandled_line (correlation_of (some id)) r.method r.path ∷ [];
    },
  )

  -- A request through all the layers; `uuid` is the one that is drawn if there is no header.
  unfoldable pub serve_request :
      Settings
      → (uuid : String) → (success : ℕ) → Request
      → Result (Content Token)
      → Telemetry
      → Reply Token × Telemetry
  unfolding handle_errors observe correlate handle_unexpected correlation_for
  serve_request s uuid success r result t =
      let id = correlation_for uuid r.correlation_header in
      let (h, t') = observe s r (handle_errors success result) t in
      let (h', t'') = correlate id r h t' in handle_unexpected id r h' t''
