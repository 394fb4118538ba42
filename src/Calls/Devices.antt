-- ===== src/Calls/Devices.antt =====
-- internal/calls/calls.go: `signal`, and what happens when devices come and go and friendships end.
use chirpy.Prelude.{
  ℕ, ◌+◌, Bool, not, ◌&&◌, ◌||◌, none, some, List, [], ◌∷◌, if◌then◌else◌, ltb, ◌==◌, update,
  lookup, insert, delete, length,
}
use chirpy.Calls.Types.{
  cancelled, disconnected, unfriended, rate_limited, unknown_call, bad_request, max_signal_bytes,
  max_signals, Conn, Call, peer, conn, resumed_event, signal_event, Effect, send_to_conn, incoming,
  fail,
}
use chirpy.Calls.Manager.{Manager, after_func, stop}
use chirpy.Calls.Ending.{end}

-- `len(data) == 0 || len(data) > maxSignalBytes || !json.Valid(data)`; `valid` is json.Valid.
unfoldable pub bad_signal : (List ℕ → Bool) → List ℕ → Bool
bad_signal valid payload =
    length payload == 0 || ltb max_signal_bytes (length payload) || not (valid payload)

-- Is `from` the device that `c` runs on?
unfoldable pub on_call : Call → Conn → Bool
on_call c from =
    c.active && (from.user == c.caller || from.user == c.callee) && conn c from.user == from.id

-- `c.signals[from.User]++`
unfoldable pub count_signal : Manager → ℕ → ℕ → Manager
count_signal m p u =
    let c = m.objs p in
    record m {
      objs = update m.objs p (record c { signals = update c.signals u (c.signals u + 1) });
    }

unfoldable pub relay : Call → Conn → ℕ → List ℕ → Effect
relay c from id payload =
    let other = peer c from.user in
    send_to_conn (record { user = other; id = conn c other }) (signal_event id from.user payload)

unfoldable pub signal : (List ℕ → Bool) → Manager → Conn → ℕ → List ℕ → Manager × List Effect
unfolding bad_signal on_call count_signal relay
signal valid m from id payload =
    if bad_signal valid payload then (m, fail from id bad_request ∷ []) else elim (m.calls id) [
      | none ↦ (m, fail from id unknown_call ∷ [])
      | some p ↦
          let c = m.objs p in
          if not (on_call c from) then (m, fail from id unknown_call ∷ []) else (
            count_signal m p from.user,
            (if ltb max_signals (c.signals from.user + 1)
                  then fail from id rate_limited
                  else relay c from id payload)
                ∷ [],
          )
    ]

-- The call moves to the device that came back.
unfoldable pub resume : Call → Conn → Call
resume c back =
    let c1 = record c { lost = delete back.user c.lost } in
    if back.user == c.caller
    then record c1 { caller_conn = back.id }
    else record c1 { callee_conn = back.id }

-- The grace timer `t` is stopped.
unfoldable pub move_call : Manager → ℕ → Conn → ℕ → Manager
unfolding resume stop
move_call m p back t = record m {
  armed = stop t m.armed;
  objs = update m.objs p (resume (m.objs p) back);
}

unfoldable pub resume_effects : Call → Conn → List Effect
unfolding resume
resume_effects c back =
    let c1 = resume c back in
    let other = peer c1 back.user in
    send_to_conn back (resumed_event c.id other)
    ∷ send_to_conn (record { user = other; id = conn c1 other }) (resumed_event c.id back.user)
    ∷ []

unfoldable pub connected : Manager → Conn → Manager × List Effect
unfolding move_call resume_effects
connected m back = elim (m.by_user back.user) [
  | none ↦ (m, [])
  | some p ↦
      let c = m.objs p in
      if not c.active
      then (m, if back.user == c.callee then send_to_conn back (incoming c) ∷ [] else [])
      else elim (lookup back.user c.lost) [
        | none ↦ (m, [])
        | some t ↦ (move_call m p back t, resume_effects c back)
      ]
]

-- The grace timer of a party whose device went away.
unfoldable pub await_return : Manager → ℕ → ℕ → ℕ → Manager
unfolding after_func
await_return m p u now =
    let c = m.objs p in
    let m1 = after_func m (now + m.grace) c.id disconnected in
    record m1 { objs = update m1.objs p (record c { lost = insert u m.next_timer c.lost }) }

unfoldable pub disconnected_conn : ℕ → Manager → Conn → Manager × List Effect
unfolding await_return end
disconnected_conn now m gone = elim (m.by_user gone.user) [
  | none ↦ (m, [])
  | some p ↦
      let c = m.objs p in
      if not (conn c gone.user == gone.id)
      then (m, [])
      else if not c.active
      then (if gone.user == c.caller then end m c.id cancelled now else (m, []))
      else elim (lookup gone.user c.lost) [
        | some t ↦ (m, [])
        | none ↦ (await_return m p gone.user now, [])
      ]
]

unfoldable pub end_between : ℕ → Manager → ℕ → ℕ → Manager × List Effect
unfolding end
end_between now m a b = elim (m.by_user a) [
  | none ↦ (m, [])
  | some p ↦ let c = m.objs p in if peer c a == b then end m c.id unfriended now else (m, [])
]
