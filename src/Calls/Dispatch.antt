-- ===== src/Calls/Dispatch.antt =====
-- internal/calls/calls.go: `HandleCall`, and the runtime that runs the timers' functions.
use chirpy.Prelude.{
  ℕ, ◌+◌, Bool, Option, none, some, List, [], ◌∷◌, if◌then◌else◌, ltb, update, length,
}
use chirpy.Calls.Types.{bad_request, max_signal_bytes, Conn, Effect, fail}
use chirpy.Calls.Manager.{Manager, Env, Job}
use chirpy.Calls.Ending.{end, hang_up}
use chirpy.Calls.Start.{start}
use chirpy.Calls.Accept.{accept}
use chirpy.Calls.Devices.{signal}

-- The events that the app sends; any other name is `other_event`.
pub data EventName : Type 0 where
  ev_start ev_accept ev_signal ev_decline ev_end other_event : EventName

pub record IdPayload : Type 0 where
  pub to_id : ℕ
  pub call_id : ℕ
  pub body : List ℕ

-- encoding/json, which the package calls: `json.Unmarshal` into the payload and `json.Valid`.
module _ (unmarshal : List ℕ → Option IdPayload) (valid : List ℕ → Bool) where
  unfoldable pub dispatch : Env → Manager → Conn → EventName → IdPayload → Manager × List Effect
  dispatch env m from ev_start p = start env m from p.to_id
  dispatch env m from ev_accept p = accept env m from p.call_id
  dispatch env m from ev_signal p = signal valid m from p.call_id p.body
  dispatch env m from ev_decline p = hang_up env m from p.call_id
  dispatch env m from ev_end p = hang_up env m from p.call_id
  dispatch env m from other_event p = (m, fail from 0 bad_request ∷ [])

  unfoldable pub handle_call : Env → Manager → Conn → EventName → List ℕ → Manager × List Effect
  unfolding dispatch
  handle_call env m from event raw =
      if ltb (max_signal_bytes + 512) (length raw)
      then (m, fail from 0 bad_request ∷ [])
      else elim (unmarshal raw) [
        | none ↦ (m, fail from 0 bad_request ∷ [])
        | some p ↦ dispatch env m from event p
      ]

-- The runtime: an armed timer goes off, and the goroutine of a fired one runs.
unfoldable pub set_fired : Manager → ℕ → Job → Manager
set_fired m t job = record m { armed = update m.armed t none; fired = update m.fired t (some job) }

unfoldable pub fire : Manager → ℕ → Manager
unfolding set_fired
fire m t = elim (m.armed t) [ none ↦ m | some job ↦ set_fired m t job ]

unfoldable pub clear_fired : Manager → ℕ → Manager
clear_fired m t = record m { fired = update m.fired t none }

unfoldable pub run_fired : ℕ → Manager → ℕ → Manager × List Effect
unfolding clear_fired end
run_fired now m t = elim (m.fired t) [
  | none ↦ (m, [])
  | some job ↦ end (clear_fired m t) job.call job.reason now
]
