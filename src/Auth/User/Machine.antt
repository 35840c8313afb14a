-- ===== src/Auth/User/Machine.antt =====
-- The account's state machine: every sequence of calls on one account follows the documented arrows.
use auth_profile_service.Common.{
  String, ◌≡◌, ◌≢◌, refl, ◌↔◌, ◌⊎◌, inl, inr, Bool, true, false, List, [], ◌∷◌, arith,
}
use auth_profile_service.Auth.Enums.{Role, UserState, state_value}
use auth_profile_service.Auth.Errors.{Error, Result, ok, err}
use auth_profile_service.Auth.User.{
  User, raise_event, approve_registration, reject_registration, ban, unban, change_role, can_login,
}

-- The methods of an account that change it, with their arguments.
pub data Call : Type 0 where
  approve : String → Call
  reject : String → String → Call
  ban_for : String → String → Call
  lift_ban : String → Call
  set_role : Role → String → Call

unfoldable pub call : Call → User → Result User
unfolding approve_registration reject_registration ban unban change_role raise_event
call (Call.approve by) u = approve_registration by u
call (Call.reject by reason) u = reject_registration by reason u
call (Call.ban_for by reason) u = ban by reason u
call (Call.lift_ban by) u = unban by u
call (Call.set_role role by) u = ok (change_role role by u)

-- What is left of the account after a call: a call that raises leaves it as it was.
unfoldable pub after : Result User → User → User
after (ok u') u = u'
after (err e) u = u

unfoldable pub run : List Call → User → User
unfolding after
run [] u = u
run (c ∷ cs) u = run cs (after (call c u) u)

-- The arrows that the enum documents.
abbrev pub Arrow : UserState → UserState → Type 0
Arrow s t =
    ((s ≡ UserState.active) × (t ≡ UserState.banned))
    ⊎ (((s ≡ UserState.banned) × (t ≡ UserState.active))
        ⊎ (((s ≡ UserState.pending) × (t ≡ UserState.active))
            ⊎ ((s ≡ UserState.pending) × (t ≡ UserState.rejected))))

pub data Reaches (s : UserState) : UserState → Type 0 where
  here : Reaches s s
  next : {t u : UserState} → Reaches s t → Arrow t u → Reaches s u

pub Reaches-trans : {s t u : UserState} → Reaches s t → Reaches t u → Reaches s u
Reaches-trans p here = p
Reaches-trans p (next q a) = next (Reaches-trans p q) a

-- One call moves along one arrow, or leaves the state alone.
call-Arrow :
    (c : Call) (u : User)
    → ((after (call c u) u).state ≡ u.state) ⊎ Arrow u.state (after (call c u) u).state
unfolding call after
call-Arrow (Call.approve by) u = ground arith
call-Arrow (Call.reject by reason) u = ground arith
call-Arrow (Call.ban_for by reason) u = ground arith
call-Arrow (Call.lift_ban by) u = ground arith
call-Arrow (Call.set_role role by) u = ground arith

Reaches-of_step : {s t : UserState} → (t ≡ s) ⊎ Arrow s t → Reaches s t
Reaches-of_step {s} (inl e) = rw e here
Reaches-of_step (inr a) = next here a

run-Reaches : (cs : List Call) (u : User) → Reaches u.state (run cs u).state
unfolding run
run-Reaches [] u = here
run-Reaches (c ∷ cs) u =
    Reaches-trans (Reaches-of_step (call-Arrow c u)) (run-Reaches cs (after (call c u) u))

Reaches-rejected : {s t : UserState} → Reaches s t → s ≡ UserState.rejected → t ≡ UserState.rejected
Reaches-rejected here e = e
Reaches-rejected (next p a) e = ground (arith, Reaches-rejected p e)

Reaches-usable :
    {s t : UserState}
    → Reaches s t
    → (s ≡ UserState.active) ⊎ (s ≡ UserState.banned)
    → (t ≡ UserState.active) ⊎ (t ≡ UserState.banned)
Reaches-usable here e = e
Reaches-usable (next p a) e = ground (arith, Reaches-usable p e)

-- A rejected account stays rejected and can never sign in, whatever calls are made on it.
pub rejected_is_final :
    (cs : List Call) (u : User)
    → u.state ≡ UserState.rejected
    → ((run cs u).state ≡ UserState.rejected) × (can_login (run cs u) ≡ false)
unfolding can_login
rejected_is_final cs u e = ground (arith, Reaches-rejected (run-Reaches cs u) e)

-- An account that is ACTIVE or BANNED is never PENDING or REJECTED again: no decision on its
-- registration succeeds after any calls.
pub decided_once :
    (cs : List Call) (u : User) (by reason : String)
    → (u.state ≡ UserState.active) ⊎ (u.state ≡ UserState.banned)
    → let v = run cs u in
      (approve_registration by v
        ≡ err (Error.invalid_state_transition (state_value v.state) "approve_registration"))
      × (reject_registration by reason v
          ≡ err (Error.invalid_state_transition (state_value v.state) "reject_registration"))
unfolding approve_registration reject_registration
decided_once cs u by reason e = ground (arith, Reaches-usable (run-Reaches cs u) e)

-- The arrow of each call: the state that it needs, and the state that it leaves.
abbrev pub source : Call → UserState
source (Call.approve by) = UserState.pending
source (Call.reject by reason) = UserState.pending
source (Call.ban_for by reason) = UserState.active
source (Call.lift_ban by) = UserState.banned
source (Call.set_role role by) = UserState.active

abbrev pub target : Call → UserState
target (Call.approve by) = UserState.active
target (Call.reject by reason) = UserState.rejected
target (Call.ban_for by reason) = UserState.banned
target (Call.lift_ban by) = UserState.active
target (Call.set_role role by) = UserState.active

abbrev pub moves_state : Call → Bool
moves_state (Call.set_role role by) = false
moves_state _ = true

abbrev pub Succeeds : Result User → Type 0
Succeeds (ok u) = Unit
Succeeds (err e) = ⊥

-- A call that moves the state succeeds exactly in its source state.
pub call_iff :
    (c : Call) (u : User) → moves_state c ≡ true → Succeeds (call c u) ↔ (u.state ≡ source c)
unfolding call
call_iff (Call.approve by) u h = ground arith
call_iff (Call.reject by reason) u h = ground arith
call_iff (Call.ban_for by reason) u h = ground arith
call_iff (Call.lift_ban by) u h = ground arith
call_iff (Call.set_role role by) u h = cc

-- What one call does to the state: each decision moves it along its own arrow, a change of the role
-- leaves it, and so does a call that is refused, since the state is not the one that it needs.
pub data Moves : Call → UserState → UserState → Type 0 where
  approves : (by : String) → Moves (Call.approve by) UserState.pending UserState.active
  rejects :
      (by reason : String) → Moves (Call.reject by reason) UserState.pending UserState.rejected
  bans : (by reason : String) → Moves (Call.ban_for by reason) UserState.active UserState.banned
  lifts : (by : String) → Moves (Call.lift_ban by) UserState.banned UserState.active
  sets_role : (role : Role) (by : String) (s : UserState) → Moves (Call.set_role role by) s s
  refuses : (c : Call) (s : UserState) → moves_state c ≡ true → s ≢ source c → Moves c s s

pub data Trace : List Call → UserState → UserState → Type 0 where
  done : (s : UserState) → Trace [] s s
  step :
      {c : Call} {cs : List Call} {s t u : UserState}
      → Moves c s t
      → Trace cs t u
      → Trace (c ∷ cs) s u

Moves-source : (c : Call) → moves_state c ≡ true → Moves c (source c) (target c)
Moves-source (Call.approve by) h = Moves.approves by
Moves-source (Call.reject by reason) h = Moves.rejects by reason
Moves-source (Call.ban_for by reason) h = Moves.bans by reason
Moves-source (Call.lift_ban by) h = Moves.lifts by
Moves-source (Call.set_role role by) h = cc

-- A call that moves the state leaves its target in its source state, and any other state alone.
call-state :
    (c : Call) (u : User)
    → moves_state c ≡ true
    → let t = (after (call c u) u).state in
      ((u.state ≡ source c) × (t ≡ target c)) ⊎ ((u.state ≢ source c) × (t ≡ u.state))
unfolding call after
call-state (Call.approve by) u h = ground arith
call-state (Call.reject by reason) u h = ground arith
call-state (Call.ban_for by reason) u h = ground arith
call-state (Call.lift_ban by) u h = ground arith
call-state (Call.set_role role by) u h = cc

Moves-of_state :
    (c : Call) (s t : UserState)
    → moves_state c ≡ true
    → ((s ≡ source c) × (t ≡ target c)) ⊎ ((s ≢ source c) × (t ≡ s))
    → Moves c s t
Moves-of_state c s t h (inl (e, f)) = rw (e, f) (Moves-source c h)
Moves-of_state c s t h (inr (e, f)) = rw f (Moves.refuses c s h e)

call-Moves : (c : Call) (u : User) → Moves c u.state (after (call c u) u).state
unfolding call after
call-Moves (Call.set_role role by) u = Moves.sets_role role by u.state
call-Moves (Call.approve by) u =
    Moves-of_state (Call.approve by) u.state _ refl (call-state (Call.approve by) u refl)
call-Moves (Call.reject by reason) u =
    Moves-of_state (Call.reject by reason) u.state _ refl
      (call-state (Call.reject by reason) u refl)
call-Moves (Call.ban_for by reason) u =
    Moves-of_state (Call.ban_for by reason) u.state _ refl
      (call-state (Call.ban_for by reason) u refl)
call-Moves (Call.lift_ban by) u =
    Moves-of_state (Call.lift_ban by) u.state _ refl (call-state (Call.lift_ban by) u refl)

-- Whatever calls are made on an account, each moves its state along its own documented arrow, PENDING
-- to ACTIVE for an approval, PENDING to REJECTED for a rejection, ACTIVE to BANNED for a ban and BANNED
-- to ACTIVE for its end, or leaves it: a change of the role, or one of those in another state.
pub run-Trace : (cs : List Call) (u : User) → Trace cs u.state (run cs u).state
unfolding run
run-Trace [] u = Trace.done u.state
run-Trace (c ∷ cs) u = Trace.step (call-Moves c u) (run-Trace cs (after (call c u) u))

-- A call that moves the state, made in its source state, leaves its target state, and the id, email,
-- hash, name, role and creation time as they were.
pub call-target :
    (c : Call) (u : User)
    → moves_state c ≡ true
    → u.state ≡ source c
    → let v = after (call c u) u in
      (v.state ≡ target c)
      × (v.id ≡ u.id)
      × (v.email ≡ u.email)
      × (v.password_hash ≡ u.password_hash)
      × (v.display_name ≡ u.display_name)
      × (v.role ≡ u.role)
      × (v.created_at ≡ u.created_at)
unfolding call after
call-target (Call.approve by) u h e = ground arith
call-target (Call.reject by reason) u h e = ground arith
call-target (Call.ban_for by reason) u h e = ground arith
call-target (Call.lift_ban by) u h e = ground arith
call-target (Call.set_role role by) u h e = cc
