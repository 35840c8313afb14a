-- ===== src/Auth/Events.antt =====
-- app/domain/auth/events.py: what the account's methods raise, and the names they are routed by.
use auth_profile_service.Common.{String}
use auth_profile_service.Json.{Fields, end, field, Json}
use Prim.Native.String.{◌++◌}

-- The domain fields of each event. `event_id` and `occurred_at` of the base class are drawn at
-- random and never stored: `to_payload` drops them.
pub data DomainEvent : Type 0 where
  -- user_id, email, display_name, role, state
  user_registered : String → String → String → String → String → DomainEvent
  -- user_id, decided_by
  registration_approved : String → String → DomainEvent
  -- user_id, decided_by, reason
  registration_rejected : String → String → String → DomainEvent
  -- request_id, user_id, requested_role
  role_requested : String → String → String → DomainEvent
  -- user_id, old_role, new_role, granted_by
  role_granted : String → String → String → String → DomainEvent
  -- user_id, banned_by, reason
  user_banned : String → String → String → DomainEvent
  -- user_id, unbanned_by
  user_unbanned : String → String → DomainEvent

unfoldable pub class_name : DomainEvent → String
class_name (DomainEvent.user_registered _ _ _ _ _) = "UserRegistered"
class_name (DomainEvent.registration_approved _ _) = "RegistrationApproved"
class_name (DomainEvent.registration_rejected _ _ _) = "RegistrationRejected"
class_name (DomainEvent.role_requested _ _ _) = "RoleRequested"
class_name (DomainEvent.role_granted _ _ _ _) = "RoleGranted"
class_name (DomainEvent.user_banned _ _ _) = "UserBanned"
class_name (DomainEvent.user_unbanned _ _) = "UserUnbanned"

-- `NAMESPACE`.
abbrev pub namespace : String
namespace = "arcadia.auth.v1"

unfoldable pub event_type : DomainEvent → String
unfolding class_name
event_type e = namespace ++ ("." ++ class_name e)

abbrev entry : String → String → Fields → Fields
entry k v rest = field k (Json.str v) rest

unfoldable pub to_payload : DomainEvent → Fields
to_payload (DomainEvent.user_registered u e d r s) =
    entry "user_id" u
      (entry "email" e (entry "display_name" d (entry "role" r (entry "state" s end))))
to_payload (DomainEvent.registration_approved u b) = entry "user_id" u (entry "decided_by" b end)
to_payload (DomainEvent.registration_rejected u b r) =
    entry "user_id" u (entry "decided_by" b (entry "reason" r end))
to_payload (DomainEvent.role_requested q u r) =
    entry "request_id" q (entry "user_id" u (entry "requested_role" r end))
to_payload (DomainEvent.role_granted u o n b) =
    entry "user_id" u (entry "old_role" o (entry "new_role" n (entry "granted_by" b end)))
to_payload (DomainEvent.user_banned u b r) =
    entry "user_id" u (entry "banned_by" b (entry "reason" r end))
to_payload (DomainEvent.user_unbanned u b) = entry "user_id" u (entry "unbanned_by" b end)
