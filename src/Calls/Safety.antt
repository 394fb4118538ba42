-- ===== src/Calls/Safety.antt =====
-- Properties of the calls of internal/calls/calls.go.
use chirpy.Prelude.{
  ℕ, ◌+◌, ◌≤◌, ◌<◌, ◌≡◌, ◌⊎◌, Bool, true, false, none, some, [], ◌∷◌, ◌++◌, arith, length,
  lookup-insert, ltb, ◌↔◌, if◌then◌else◌, length-append, length-keep-le,
}
use chirpy.Calls.Types.{
  Reason, missed, ended, Conn, finish_call, write_to_users, ended_payload, notify_missed, of_reason,
  starts_per_minute, minute, sub_time,
}
use chirpy.Calls.Manager.{Manager, new_manager, allow_start, starts_of, recent_starts}
use chirpy.Calls.Ending.{take_out, drop_user, end, end_effects}
use chirpy.Calls.Accept.{accept_locked}
use chirpy.Calls.Dispatch.{fire, run_fired}
use chirpy.Calls.Steps.{Reach, here, next}
use chirpy.Calls.Linked.{Linked, Reach-Linked, new_manager-Linked, drop_user_lem}
use chirpy.Calls.Timers.{Timed}
use chirpy.Calls.Timers.Moves.{new_manager-Timed}
use chirpy.Calls.Timers.Reached.{Step-Timed}

-- In every state that the server reaches from an empty manager, whatever the order of starts,
-- answers, signals, hang-ups, connections, disconnections and timers, two live calls with a party
-- in common are the same call.
pub one_call_each :
    (ring grace daily : ℕ) (b : Bool) {m : Manager}
    → Reach (new_manager ring grace daily b) m
    → (u id p id' p' : ℕ) → m.calls id ≡ some p
    → m.calls id' ≡ some p'
    → (u ≡ (m.objs p).caller) ⊎ (u ≡ (m.objs p).callee)
    → (u ≡ (m.objs p').caller) ⊎ (u ≡ (m.objs p').callee)
    → id ≡ id'
one_call_each ring grace daily b r u id p id' p' e e' party party' =
    let l = Reach-Linked (new_manager-Linked ring grace daily b) r in
    ground (arith, l.calls_live id p, l.calls_live id' p')

Reach-Timed :
    (ring grace daily : ℕ) (b : Bool) {m : Manager}
    → Reach (new_manager ring grace daily b) m
    → Timed none m
Reach-Timed ring grace daily b here = new_manager-Timed ring grace daily b
Reach-Timed ring grace daily b (next r st) =
    Step-Timed (Reach-Linked (new_manager-Linked ring grace daily b) r)
      (Reach-Timed ring grace daily b r) st

end-calls :
    (m : Manager) (id : ℕ) (reason : Reason) (now : ℕ) → (end m id reason now).0.calls id ≡ none
unfolding end take_out
end-calls m id reason now = ground arith

-- In every reached state each live call has a timer of its own whose going off, followed by the
-- run of its function, ends that call.
pub timer_ends_call :
    (ring grace daily : ℕ) (b : Bool) {m : Manager}
    → Reach (new_manager ring grace daily b) m
    → (id p now : ℕ) → m.calls id ≡ some p
    → let t = (m.objs p).timer in (run_fired now (fire m t) t).0.calls id ≡ none
unfolding fire run_fired end take_out
timer_ends_call ring grace daily b {m} r id p now e =
    let v = Reach-Timed ring grace daily b r in
    ground (arith, v.rings id p (λ x. cc) e, v.apart (m.objs p).timer)

-- Ending a live call takes it off the books: both parties are free, the call is unknown, and a
-- second end, for whatever reason, does nothing and tells nobody.
pub end_once :
    (m : Manager) (id p : ℕ) (reason again : Reason) (now later : ℕ)
    → Linked m
    → m.calls id ≡ some p
    → let n = (end m id reason now).0 in
      (n.by_user (m.objs p).caller ≡ none)
      × (n.by_user (m.objs p).callee ≡ none)
      × (end n id again later ≡ (n, []))
unfolding end take_out
end_once m id p reason again now later l e = ground (
  arith,
  l.calls_live id p,
  drop_user_lem m.by_user (m.objs p).caller p (m.objs p).caller,
  drop_user_lem m.by_user (m.objs p).caller p (m.objs p).callee,
  drop_user_lem (drop_user m.by_user (m.objs p).caller p) (m.objs p).callee p (m.objs p).caller,
  drop_user_lem (drop_user m.by_user (m.objs p).caller p) (m.objs p).callee p (m.objs p).callee,
)

-- A ring timer that has gone off but whose function waits for the mutex is not called back by the
-- answer: the answered call is then ended as missed, and the log and both phones are told so.
pub late_ring_timer :
    (m : Manager) (from : Conn) (id p t left now later at : ℕ)
    → Linked m
    → m.calls id ≡ some p
    → (m.objs p).callee ≡ from.user
    → (m.objs p).active ≡ false
    → m.fired t ≡ some (record { at = at; call = id; reason = missed })
    → let n = (accept_locked m from id left now).0 in
      let gone = run_fired later n t in
      ((n.objs p).active ≡ true)
      × (gone.0.calls id ≡ none)
      × (gone.1
          ≡ finish_call id (of_reason ended) missed later
            ∷ write_to_users
                ((m.objs p).caller ∷ (m.objs p).callee ∷ [])
                (ended_payload id missed (sub_time later now))
            ∷ (if m.notify then notify_missed (m.objs p).callee (m.objs p).caller id ∷ [] else []))
unfolding accept_locked run_fired end end_effects
late_ring_timer m from id p t left now later at l e callee idle waits = ground arith

-- If no user has more than ten starts on record, none has after another call is asked for, and the
-- call is granted exactly when fewer than ten of the caller's are less than a minute old.
pub allow_start_bounded :
    (m : Manager) (u now w : ℕ)
    → ((v : ℕ) → length (starts_of m v) ≤ starts_per_minute)
    → (length (starts_of (allow_start m u now).0 w) ≤ starts_per_minute)
      × (((allow_start m u now).1 ≡ true)
          ↔ (length (recent_starts now (starts_of m u)) < starts_per_minute))
unfolding allow_start
allow_start_bounded m u now w h = ground (
  arith,
  h w,
  h u,
  lookup-insert u w (recent_starts now (starts_of m u)) m.starts,
  lookup-insert u w (recent_starts now (starts_of m u) ++ now ∷ []) m.starts,
  length-append (recent_starts now (starts_of m u)) (now ∷ []),
  length-keep-le (λ t. ltb now (t + minute)) (starts_of m u),
)
