-- ===== src/Calls/Start.antt =====
-- internal/calls/calls.go: `start`, the placing of a call.
use chirpy.Prelude.{
  ℕ, ◌+◌, Bool, true, false, not, ◌&&◌, ◌||◌, none, some, List, [], ◌∷◌, if◌then◌else◌, ◌==◌,
  update,
}
use chirpy.Calls.Types.{
  missed, busy, not_friends, in_call, rate_limited, bad_request, unavailable, daily_limit, ringing,
  of_reason, forward, Conn, Call, ringing_event, Effect, send_to_conn, write_to_users, insert_call,
  notify_call, pg_uuid, ended_payload, incoming, fail,
}
use chirpy.Calls.Manager.{Manager, Env, after_func, remaining, allow_start}

-- The new call and its ring timer.
unfoldable pub place_call : Manager → Conn → ℕ → ℕ → ℕ → Manager
unfolding after_func
place_call m from to now id =
    let p = m.next_ptr in
    let c : Call = record {
      id = id;
      caller = from.user;
      callee = to;
      caller_conn = from.id;
      callee_conn = 0;
      active = false;
      started = now;
      answered = 0;
      timer = m.next_timer;
      lost = [];
      signals = λ u. 0;
    } in
    let m1 = after_func m (now + m.ring) id missed in
    record m1 {
      objs = update m1.objs p c;
      next_ptr = p + 1;
      calls = update m1.calls id (some p);
      by_user = update (update m1.by_user from.user (some p)) to (some p);
    }

unfoldable pub placed_effects : Manager → Conn → ℕ → ℕ → ℕ → Bool → List Effect
unfolding place_call
placed_effects m from to now id online =
    let row : Effect = insert_call (record {
      id = id;
      caller_id = pg_uuid from.user;
      callee_id = pg_uuid to;
      state = ringing;
      started_at = now;
      ended_at = none;
      end_reason = none;
    }) in
    let c = (place_call m from to now id).objs m.next_ptr in
    let push : List Effect =
      if not online && m.notify then notify_call to from.user id ∷ [] else [] in
    row ∷ send_to_conn from (ringing_event id to) ∷ write_to_users (to ∷ []) (incoming c) ∷ push

-- The callee is in another call: a finished row in the log, and the caller is told.
unfoldable pub busy_effects : Conn → ℕ → ℕ → ℕ → List Effect
busy_effects from to now id =
    insert_call (record {
      id = id;
      caller_id = pg_uuid from.user;
      callee_id = pg_uuid to;
      state = of_reason busy;
      started_at = now;
      ended_at = some now;
      end_reason = some busy;
    })
    ∷ send_to_conn from (ended_payload id busy (forward 0))
    ∷ []

-- The part of `start` under the mutex, from the rate limit on.
unfoldable pub start_locked : Manager → Conn → ℕ → ℕ → ℕ → Bool → Manager × List Effect
unfolding place_call placed_effects busy_effects
start_locked m from to now id online =
    let (m1, granted) = allow_start m from.user now in
    if not granted then (m1, fail from 0 rate_limited ∷ []) else elim (m1.by_user from.user) [
      | some p ↦ (m1, fail from 0 in_call ∷ [])
      | none ↦ elim (m1.by_user to) [
        | some p ↦ (m1, busy_effects from to now id)
        | none ↦ (place_call m1 from to now id, placed_effects m1 from to now id online)
      ]
    ]

unfoldable pub start : Env → Manager → Conn → ℕ → Manager × List Effect
unfolding start_locked remaining
start env m from to =
    if to == 0 || to == from.user
    then (m, fail from 0 bad_request ∷ [])
    else elim (env.friends from.user to) [
      | none ↦ (m, fail from 0 unavailable ∷ [])
      | some false ↦ (m, fail from 0 not_friends ∷ [])
      | some true ↦ elim (remaining m (env.used from.user)) [
        | none ↦ (m, fail from 0 unavailable ∷ [])
        | some left ↦
            if left == 0
            then (m, fail from 0 daily_limit ∷ [])
            else start_locked m from to env.now env.fresh (env.online to)
      ]
    ]
