-- ===== src/Calls/Entry.antt =====
-- The entry points of internal/calls/calls.go and the steps of Calls/Steps.antt.
use chirpy.Prelude.{
  ℕ, ◌≤◌, ◌≡◌, ◌≢◌, inl, inr, Bool, Option, none, some, List, [], ◌∷◌, min, arith, Option-cases,
  Bool-cases, ◌==◌,
}
use chirpy.Calls.Types.{Reason, limit, busy, elsewhere, Conn, max_duration}
use chirpy.Calls.Manager.{Manager, Env, remaining}
use chirpy.Calls.Start.{start, start_locked}
use chirpy.Calls.Ending.{hang_up_reason, hang_up}
use chirpy.Calls.Accept.{accept_check, accept_limit, accept}
use chirpy.Calls.Dispatch.{
  EventName, ev_start, ev_accept, ev_signal, ev_decline, ev_end, other_event, IdPayload, dispatch,
  handle_call,
}
use chirpy.Calls.Steps.{starts, accepts, signals, ends, Reach, here, next}

start-Reach :
    (env : Env) (m : Manager) (from : Conn) (to : ℕ)
    → m.calls env.fresh ≡ none
    → Reach m (start env m from to).0
unfolding start
start-Reach env m from to fresh =
    let stay : Reach m m = here in
    elim (Bool-cases (from.user == to)) [
      | inl b ↦ ground (arith, stay)
      | inr b ↦
          let placed : Reach m (start_locked m from to env.now env.fresh (env.online to)).0 =
            next here (starts from to env.now env.fresh (env.online to) (ground arith) fresh) in
          ground (arith, stay, placed)
    ]

accept_limit-le :
    (m : Manager) (used : ℕ → Option ℕ) (us : List ℕ) (best left : ℕ)
    → accept_limit m used us best ≡ some left
    → left ≤ best
unfolding accept_limit
accept_limit-le m used [] best left e = ground arith
accept_limit-le m used (u ∷ us) best left e = elim (Option-cases (remaining m (used u))) [
  | inl n ↦ ground arith
  | inr (l, s) ↦ ground (arith, accept_limit-le m used us (min best l) left)
]

accept_check-le :
    (env : Env) (m : Manager) (from : Conn) (id left : ℕ)
    → accept_check env m from id ≡ some left
    → left ≤ max_duration
unfolding accept_check
accept_check-le env m from id left e = elim (Option-cases (m.calls id)) [
  | inl n ↦ ground arith
  | inr (p, c) ↦ ground (
    arith,
    accept_limit-le m env.used ((m.objs p).caller ∷ (m.objs p).callee ∷ []) max_duration left,
  )
]

accept-Reach : (env : Env) (m : Manager) (from : Conn) (id : ℕ) → Reach m (accept env m from id).0
unfolding accept
accept-Reach env m from id = elim (Option-cases (accept_check env m from id)) [
  | inl e ↦ rw (e, accept) here
  | inr (left, e) ↦ elim (Bool-cases (left == 0)) [
    | inl b ↦ rw (e, accept, b) (next here (ends id limit env.later (λ x. cc) (λ x. cc)))
    | inr b ↦
        rw (e, accept, b)
          (next here
            (accepts from id left env.now (ground arith) (accept_check-le env m from id left e)))
  ]
]

-- The reasons of a hang-up are those that the call log accepts.
hang_up_reason-ne :
    (m : Manager) (from : Conn) (id : ℕ) (reason : Reason)
    → hang_up_reason m from id ≡ some reason
    → (reason ≢ busy) × (reason ≢ elsewhere)
unfolding hang_up_reason
hang_up_reason-ne m from id reason e = ground arith

hang_up-Reach : (env : Env) (m : Manager) (from : Conn) (id : ℕ) → Reach m (hang_up env m from id).0
unfolding hang_up
hang_up-Reach env m from id = elim (Option-cases (hang_up_reason m from id)) [
  | inl e ↦ rw (e, hang_up) here
  | inr (reason, e) ↦
      let ne = hang_up_reason-ne m from id reason e in
      rw (e, hang_up) (next here (ends id reason env.now ne.0 ne.1))
]

module _ (unmarshal : List ℕ → Option IdPayload) (valid : List ℕ → Bool) where
  dispatch-Reach :
      (env : Env) (m : Manager) (from : Conn) (event : EventName) (p : IdPayload)
      → m.calls env.fresh ≡ none
      → Reach m (dispatch unmarshal valid env m from event p).0
  unfolding dispatch
  dispatch-Reach env m from ev_start p fresh = start-Reach env m from p.to_id fresh
  dispatch-Reach env m from ev_accept p fresh = accept-Reach env m from p.call_id
  dispatch-Reach env m from ev_signal p fresh = next here (signals valid from p.call_id p.body)
  dispatch-Reach env m from ev_decline p fresh = hang_up-Reach env m from p.call_id
  dispatch-Reach env m from ev_end p fresh = hang_up-Reach env m from p.call_id
  dispatch-Reach env m from other_event p fresh = here

  -- Whatever a client sends, the manager that HandleCall leaves is one that the steps lead to,
  -- when the uuid that it draws is not in use.
  pub handle_call-Reach :
      (env : Env) (m : Manager) (from : Conn) (event : EventName) (raw : List ℕ)
      → m.calls env.fresh ≡ none
      → Reach m (handle_call unmarshal valid env m from event raw).0
  unfolding handle_call
  handle_call-Reach env m from event raw fresh =
      let stay : Reach m m = here in
      elim (Option-cases (unmarshal raw)) [
        | inl e ↦ ground (arith, stay)
        | inr (p, e) ↦ ground (arith, stay, dispatch-Reach env m from event p fresh)
      ]
