-- ===== src/Calls/Ending.antt =====
-- internal/calls/calls.go: `end` and `hangUp`. An operation that locks the mutex twice is the
-- composition of its locked parts; the step relation takes the parts one by one.
use chirpy.Prelude.{
  ℕ, Bool, true, false, not, ◌&&◌, Option, none, some, List, [], ◌∷◌, if◌then◌else◌, ◌==◌, update,
}
use chirpy.Calls.Types.{
  Reason, ended, missed, declined, cancelled, disconnected, unfriended, limit, unknown_call,
  LogState, failed, of_reason, Duration, forward, sub_time, Conn, Call, Effect, write_to_users,
  finish_call, notify_missed, ended_payload, fail,
}
use chirpy.Calls.Manager.{Manager, Env, stop, stop_all}

-- `if m.byUser[u] == c { delete(m.byUser, u) }`
abbrev pub points_to : Option ℕ → ℕ → Bool
points_to none p = false
points_to (some q) p = q == p

unfoldable pub drop_user : (ℕ → Option ℕ) → ℕ → ℕ → ℕ → Option ℕ
drop_user by u p = if points_to (by u) p then update by u none else by

-- The `state` that `end` writes into the log.
unfoldable pub final_state : Bool → Reason → LogState
final_state true reason = of_reason ended
final_state false disconnected = failed
final_state false unfriended = failed
final_state false limit = failed
final_state false reason = of_reason reason

unfoldable pub talked : Call → ℕ → Duration
talked c now = if c.active then sub_time now c.answered else forward 0

abbrev is_missed : Reason → Bool
is_missed missed = true
is_missed _ = false

-- The manager once the call object `p` is taken out under the mutex.
unfoldable pub take_out : Manager → ℕ → ℕ → Manager
unfolding drop_user
take_out m id p =
    let c = m.objs p in
    record m {
      calls = update m.calls id none;
      by_user = drop_user (drop_user m.by_user c.caller p) c.callee p;
      armed = stop_all c.lost (stop c.timer m.armed);
    }

unfoldable pub end_effects : Manager → Call → ℕ → Reason → ℕ → List Effect
unfolding final_state talked
end_effects m c id reason now =
    finish_call id (final_state c.active reason) reason now
    ∷ write_to_users (c.caller ∷ c.callee ∷ []) (ended_payload id reason (talked c now))
    ∷ (if is_missed reason && m.notify then notify_missed c.callee c.caller id ∷ [] else [])

unfoldable pub end : Manager → ℕ → Reason → ℕ → Manager × List Effect
unfolding take_out end_effects
end m id reason now = elim (m.calls id) [
  | none ↦ (m, [])
  | some p ↦ (take_out m id p, end_effects m (m.objs p) id reason now)
]

-- The reason of CallDecline and CallEnd; `none` refuses.
unfoldable pub hang_up_reason : Manager → Conn → ℕ → Option Reason
hang_up_reason m from id = elim (m.calls id) [
  | none ↦ none
  | some p ↦
      let c = m.objs p in
      if not (from.user == c.caller) && not (from.user == c.callee)
      then none
      else some (if c.active then ended else if from.user == c.caller then cancelled else declined)
]

unfoldable pub hang_up : Env → Manager → Conn → ℕ → Manager × List Effect
unfolding hang_up_reason end
hang_up env m from id = elim (hang_up_reason m from id) [
  | none ↦ (m, fail from id unknown_call ∷ [])
  | some reason ↦ end m id reason env.now
]
