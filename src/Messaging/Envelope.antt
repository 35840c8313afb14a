-- ===== src/Messaging/Envelope.antt =====
-- app/infrastructure/messaging/envelope.py: reading the platform's event envelope.
use auth_profile_service.Common.{
  String, ◌||◌, Option, none, some, List, [], ◌∷◌, ◌==◌, if◌then◌else◌, is_empty,
}
use auth_profile_service.Json.{Json, Fields, get, is_truthy}
use auth_profile_service.Auth.Errors.{Error, Result, ok, err}

pub record Envelope : Type 0 where
  pub event_id : String
  pub event_type : String
  pub aggregate_id : String
  pub payload : Fields
  pub producer : String
  pub occurred_at : String

-- `handlers.get(event_type)`
unfoldable pub handler_for {ℓ} : {H : Type ℓ} → String → List (String × H) → Option H
handler_for k [] = none
handler_for k ((j, h) ∷ rest) = if j == k then some h else handler_for k rest

abbrev pub object_of : Option Json → Result Fields
object_of (some (Json.obj p)) = ok p
object_of _ = err Error.malformed_envelope

-- `printed` is Python's `str` on a value that is neither a text nor false.
module _ (printed : Json → String) where
  abbrev text_of : Json → String
  text_of (Json.str s) = s
  text_of v = printed v

  -- `str(value or "")`
  unfoldable pub text_or_empty : Option Json → String
  text_or_empty none = ""
  text_or_empty (some v) = if is_truthy v then text_of v else ""

  unfoldable pub parse_object : Fields → Result Envelope
  unfolding text_or_empty
  parse_object m =
      if is_empty (text_or_empty (get "event_id" m))
        || is_empty (text_or_empty (get "event_type" m))
      then err Error.malformed_envelope
      else elim (object_of (get "payload" m)) [
        | err e ↦ err e
        | ok payload ↦ ok (record {
          event_id = text_or_empty (get "event_id" m);
          event_type = text_or_empty (get "event_type" m);
          aggregate_id = text_or_empty (get "aggregate_id" m);
          payload = payload;
          producer = text_or_empty (get "producer" m);
          occurred_at = text_or_empty (get "occurred_at" m);
        })
      ]

  -- `Envelope.parse`
  unfoldable pub parse : Json → Result Envelope
  unfolding parse_object
  parse (Json.obj m) = parse_object m
  parse _ = err Error.malformed_envelope

  abbrev with_handler {ℓ} : {H : Type ℓ} → Envelope → Option H → Option (Envelope × H)
  with_handler e none = none
  with_handler e (some h) = some (e, h)

  unfoldable pub route {ℓ} :
      {H : Type ℓ} → Json → List (String × H) → Result (Option (Envelope × H))
  unfolding parse handler_for
  route message handlers = elim (parse message) [
    | err e ↦ err e
    | ok envelope ↦ ok (with_handler envelope (handler_for envelope.event_type handlers))
  ]
