-- ===== src/Auth/User/Replay.antt =====
-- The events of an account tell its role and its state to those who only read the events.
use mathlib.Core.List.{foldl, foldl-append}
use auth_profile_service.Common.{
  ℕ, String, ◌≡◌, refl, Option, none, some, List, [], ◌∷◌, ◌++◌, arith,
}
use auth_profile_service.Auth.Enums.{Role, role_value, state_value}
use auth_profile_service.Auth.Events.{DomainEvent}
use auth_profile_service.Auth.User.{User, new_account}
use auth_profile_service.Auth.User.Machine.{Call, call, after, run}

-- What a consumer knows of one account: nothing, or its role and its state as texts.
abbrev pub View : Type 0
View = Option (String × String)

abbrev with_state : String → View → View
with_state s none = none
with_state s (some (r, _)) = some (r, s)

abbrev with_role : String → View → View
with_role r none = none
with_role r (some (_, s)) = some (r, s)

-- A consumer that takes each event at its word.
unfoldable pub observe : View → DomainEvent → View
observe v (DomainEvent.user_registered _ _ _ r s) = some (r, s)
observe v (DomainEvent.registration_approved _ _) = with_state "ACTIVE" v
observe v (DomainEvent.registration_rejected _ _ _) = with_state "REJECTED" v
observe v (DomainEvent.role_requested _ _ _) = v
observe v (DomainEvent.role_granted _ _ r _) = with_role r v
observe v (DomainEvent.user_banned _ _ _) = with_state "BANNED" v
observe v (DomainEvent.user_unbanned _ _) = with_state "ACTIVE" v

unfoldable pub replay : List DomainEvent → View
unfolding observe
replay = foldl observe none

abbrev pub truth : User → View
truth u = some (role_value u.role, state_value u.state)

replay-append :
    (es : List DomainEvent) (e : DomainEvent) → replay (es ++ e ∷ []) ≡ observe (replay es) e
unfolding replay
replay-append es e = rw foldl-append

-- An account whose events tell the truth about it.
abbrev pub IsTold : User → Type 0
IsTold u = replay u.pending_events ≡ truth u

call-IsTold : (c : Call) (u : User) → IsTold u → IsTold (after (call c u) u)
unfolding call after observe state_value
call-IsTold (Call.approve by) u h =
    ground (arith, replay-append u.pending_events (DomainEvent.registration_approved u.id by))
call-IsTold (Call.reject by reason) u h =
    ground
      (arith, replay-append u.pending_events (DomainEvent.registration_rejected u.id by reason))
call-IsTold (Call.ban_for by reason) u h =
    ground (arith, replay-append u.pending_events (DomainEvent.user_banned u.id by reason))
call-IsTold (Call.lift_ban by) u h =
    ground (arith, replay-append u.pending_events (DomainEvent.user_unbanned u.id by))
call-IsTold (Call.set_role role by) u h = ground (
  arith,
  replay-append u.pending_events
      (DomainEvent.role_granted u.id (role_value u.role) (role_value role) by),
)

run-IsTold : (cs : List Call) (u : User) → IsTold u → IsTold (run cs u)
unfolding run
run-IsTold [] u h = h
run-IsTold (c ∷ cs) u h = run-IsTold cs (after (call c u) u) (call-IsTold c u h)

-- From its registration on, as an ordinary user or as the first administrator, and after any calls,
-- the events of an account in their order tell its role and its state.
pub replay-run :
    (role : Role) (cs : List Call) (id : String) (now : ℕ) (email hash name : String)
    → replay (run cs (new_account role id now email hash name)).pending_events
      ≡ truth (run cs (new_account role id now email hash name))
replay-run role cs id now email hash name =
    run-IsTold cs (new_account role id now email hash name) (unfold replay new_account in refl)
