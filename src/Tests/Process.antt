-- ===== src/Tests/Process.antt =====
-- The examples of the process: its start, its end, its probes and what a request leaves behind.
use auth_profile_service.Common.{
  String, ◌≡◌, refl, ◌++◌, true, none, some, List, [], ◌∷◌, map, if◌then◌else◌,
}
use auth_profile_service.Auth.Errors.{Error, Result, ok, err}
use auth_profile_service.Dto.{Content}
use auth_profile_service.Rest.{respond}
use auth_profile_service.Security.Settings.{defaults}
use auth_profile_service.Startup.{
  ClientCall, Task, Consumer, NewTopic, Admin, App, new_topics, topics_to_create, all_consumers,
}
use auth_profile_service.Startup.Lifespan.{opened}
use auth_profile_service.Observability.{
  Request, Telemetry, Line, correlation_of, route_label, is_handled, is_quiet, serve_request,
}
use auth_profile_service.Observability.Requests.{id_of, serve_request_lem, serve_request_unhandled}

abbrev fine : ClientCall → Result (Unit {0})
fine call = ok tt

abbrev names : List NewTopic → List String
names wanted = map (λ (t : NewTopic). t.name) wanted

-- An administration that makes what it is asked for.
abbrev making : Admin
making = record {
  starts = true;
  create_topics = λ wanted existing. (ok tt, names wanted ++ existing);
}

abbrev app_of : List Consumer → App
app_of consumers = record {
  publisher_open = true;
  dispatcher = some Task.running;
  topics = [];
  consumers = consumers;
  presence_open = true;
  blacklist_open = true;
  engine_open = true;
}

abbrev listening : String → Task → Consumer
listening topic task = record { topic = topic; group_id = "g"; is_open = true; task = some task }

-- The process after a start that meets no failure.
abbrev begun : App
begun = record (app_of (map opened (all_consumers defaults))) {
  topics = names (new_topics (topics_to_create defaults)) ++ [];
}

abbrev bad_message : Task
bad_message = Task.failed Error.value_error

abbrev request : Request
request = record {
  method = "GET";
  path = "/v1/profile/ali";
  route = some "/v1/profile/{user_id}";
  correlation_header = some "abc";
}

abbrev before : Telemetry
before = record { requests_total = []; lines = [] }

abbrev said : Result (Content String)
said = ok (Content.detail "x")

serve_request_lem_example : serve_request defaults "u1" 200 request said before ≡ (
  record { response = respond 200 said; correlation_id = some (id_of "u1" request) },
  record {
    requests_total =
        []
        ++ record {
          service = defaults.app_name;
          method = "GET";
          route = route_label request;
          status = 200;
        }
          ∷ [];
    lines =
        if is_quiet "/v1/profile/ali"
        then []
        else []
          ++ Line.request_line
              (correlation_of (some (id_of "u1" request)))
              "GET"
              "/v1/profile/ali"
              200
            ∷ [];
  },
)
unfolding respond
serve_request_lem_example = serve_request_lem String defaults "u1" 200 request before said tt

serve_request_unhandled_example :
    let (reply, t') =
      serve_request {Token = String} defaults "u1" 200 request (err Error.value_error) before in
    (reply.response.status ≡ 500)
    × (reply.correlation_id ≡ none)
    × (t'.requests_total ≡ [])
    × (t'.lines
        ≡ []
          ++ Line.unhandled_line
              (correlation_of (some (id_of "u1" request)))
              "GET"
              "/v1/profile/ali"
            ∷ [])
unfolding is_handled
serve_request_unhandled_example =
    serve_request_unhandled String defaults "u1" 200 request before Error.value_error refl
