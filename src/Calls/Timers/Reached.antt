-- ===== src/Calls/Timers/Reached.antt =====
-- The timers under the steps of internal/calls/calls.go.
use chirpy.Prelude.{ℕ, ◌≡◌, inl, inr, none, some, arith, Option-cases}
use chirpy.Calls.Types.{Reason, cancelled}
use chirpy.Calls.Manager.{Manager}
use chirpy.Calls.Ending.{end}
use chirpy.Calls.Dispatch.{clear_fired}
use chirpy.Calls.Steps.{Step, starts, accepts, signals, ends, connects, disconnects, fires, runs}
use chirpy.Calls.Cases.{
  start_locked_cases, accept_locked_cases, signal_cases, connected_cases, disconnected_conn_cases,
  fire_cases, run_fired_cases,
}
use chirpy.Calls.Linked.{Linked}
use chirpy.Calls.Linked.{allow_start-Linked, allow_start-calls}
use chirpy.Calls.Timers.{Timed}
use chirpy.Calls.Timers.Moves.{
  allow_start-Timed, place_call-Timed, take_out-Timed, take_up-Timed, count_signal-Timed,
  move_call-Timed, await_return-Timed, set_fired-Timed, clear_fired-Timed,
}

weaken : (m : Manager) (id : ℕ) → Timed none m → Timed (some id) m
weaken m id v = record {
  rings = λ i q x h. v.rings i q (λ e. cc) h;
  owns = v.owns;
  graces = v.graces;
  unused = v.unused;
  apart = v.apart;
}

-- If the call that is ended is not there, every call has its timer.
none_left : (m : Manager) (id : ℕ) → Timed (some id) m → m.calls id ≡ none → Timed none m
none_left m id v e = record {
  rings = λ i q x h. ground (arith, v.rings i q);
  owns = v.owns;
  graces = v.graces;
  unused = v.unused;
  apart = v.apart;
}

end-Timed :
    (m : Manager) (id : ℕ) (reason : Reason) (now : ℕ)
    → Timed (some id) m
    → Timed none (end m id reason now).0
unfolding end
end-Timed m id reason now v = elim (Option-cases (m.calls id)) [
  | inl e ↦ rw (e, end) (none_left m id v e)
  | inr (p, e) ↦ rw (e, end) (take_out-Timed m id p e v)
]

-- The timers are in order in every state that a step leads to.
pub Step-Timed : {m n : Manager} → Linked m → Timed none m → Step m n → Timed none n
Step-Timed {m} l v (starts from to now id online ne fresh) =
    let w = allow_start-Timed m from.user now v in
    start_locked_cases (Timed none) m from to now id online w λ hf ht.
      place_call-Timed _ from to now id (allow_start-Linked m from.user now l)
        (rw (allow_start-calls m from.user now) fresh) w
Step-Timed {m} l v (accepts from id left now some_left most) =
    accept_locked_cases (Timed none) m from id left now v
      λ p e callee idle. take_up-Timed m id p from.id left now l e v
Step-Timed {m} l v (signals valid from id payload) =
    signal_cases (Timed none) m valid from id payload v λ p e. count_signal-Timed m p from.user v
Step-Timed {m} l v (ends id reason now b e) = end-Timed m id reason now (weaken m id v)
Step-Timed {m} l v (connects back) =
    connected_cases (Timed none) m back v λ p t e found. move_call-Timed m p t back l e found v
Step-Timed {m} l v (disconnects now gone) =
    disconnected_conn_cases (Timed none) m now gone v
      (λ id. end-Timed m id cancelled now (weaken m id v))
      λ p e active found. await_return-Timed m p gone.user now l e v
Step-Timed {m} l v (fires t) = fire_cases (Timed none) m t v λ job e. set_fired-Timed m t job e v
Step-Timed {m} l v (runs now t) =
    run_fired_cases (Timed none) m now t v
      λ job e. end-Timed (clear_fired m t) job.call job.reason now (clear_fired-Timed m t job e v)
