-- ===== src/Calls/Accept.antt =====
-- internal/calls/calls.go: `accept`, with its two locked parts.
use chirpy.Prelude.{
  ℕ, ◌+◌, min, true, not, ◌||◌, Option, none, some, List, [], ◌∷◌, if◌then◌else◌, ltb, ◌==◌, update,
}
use chirpy.Calls.Types.{
  ended, elsewhere, limit, unknown_call, unavailable, forward, max_duration, Conn, Call,
  accepted_event, Effect, send_to_conn, write_to_user_except, answer_call, ended_payload, fail,
}
use chirpy.Calls.Manager.{Manager, Env, after_func, stop, remaining}
use chirpy.Calls.Ending.{end}

-- The call may last as long as the one with less time left today allows.
unfoldable pub accept_limit : Manager → (ℕ → Option ℕ) → List ℕ → ℕ → Option ℕ
accept_limit m used [] best = some best
accept_limit m used (u ∷ us) best = elim (remaining m (used u)) [
  | none ↦ none
  | some left ↦ accept_limit m used us (min best left)
]

-- The first locked part of `accept`, and the limits read from the log.
unfoldable pub accept_check : Env → Manager → Conn → ℕ → Option ℕ
unfolding accept_limit
accept_check env m from id = elim (m.calls id) [
  | none ↦ some max_duration
  | some p ↦
      let c = m.objs p in
      if c.callee == from.user
      then accept_limit m env.used (c.caller ∷ c.callee ∷ []) max_duration
      else some max_duration
]

-- The manager once the call object `p` is answered: the ring timer is stopped, and a new timer
-- ends the call when its time is up.
unfoldable pub take_up : Manager → ℕ → ℕ → ℕ → ℕ → ℕ → Manager
unfolding after_func stop
take_up m p conn_id id left now =
    let c = m.objs p in
    let reason = if ltb left max_duration then limit else ended in
    let m1 = after_func (record m { armed = stop c.timer m.armed }) (now + left) id reason in
    let c1 = record c {
      active = true;
      callee_conn = conn_id;
      answered = now;
      timer = m.next_timer;
    } in
    record m1 { objs = update m1.objs p c1 }

unfoldable pub accept_effects : Call → Conn → ℕ → ℕ → List Effect
accept_effects c from id now =
    answer_call id now
    ∷ send_to_conn (record { user = c.caller; id = c.caller_conn }) (accepted_event id)
    ∷ write_to_user_except from.user from.id (ended_payload id elsewhere (forward 0))
    ∷ []

-- The second locked part of `accept`.
unfoldable pub accept_locked : Manager → Conn → ℕ → ℕ → ℕ → Manager × List Effect
unfolding take_up accept_effects
accept_locked m from id left now = elim (m.calls id) [
  | none ↦ (m, fail from id unknown_call ∷ [])
  | some p ↦
      let c = m.objs p in
      if not (c.callee == from.user) || c.active
      then (m, fail from id unknown_call ∷ [])
      else (take_up m p from.id id left now, accept_effects c from id now)
]

unfoldable pub accept : Env → Manager → Conn → ℕ → Manager × List Effect
unfolding accept_check accept_locked end
accept env m from id = elim (accept_check env m from id) [
  | none ↦ (m, fail from id unavailable ∷ [])
  | some left ↦ if left == 0 then end m id limit env.later else accept_locked m from id left env.now
]
