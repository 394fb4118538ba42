-- ===== src/Calls/Cases.antt =====
-- What each locked part of internal/calls/calls.go does to the manager: nothing, or one transition,
-- with the facts that the code has checked when it makes it.
use chirpy.Prelude.{
  insert, [], ◌∷◌, ◌++◌, ℕ, ◌≡◌, inl, inr, Bool, true, false, none, some, List, arith, Option-cases,
  lookup,
}
use chirpy.Calls.Types.{Reason, cancelled, Conn}
use chirpy.Calls.Manager.{recent_starts, starts_of, Manager, Job, allow_start}
use chirpy.Calls.Start.{place_call, start_locked}
use chirpy.Calls.Ending.{take_out, end}
use chirpy.Calls.Accept.{take_up, accept_locked}
use chirpy.Calls.Devices.{
  count_signal, signal, move_call, connected, await_return, disconnected_conn,
}
use chirpy.Calls.Dispatch.{set_fired, fire, clear_fired, run_fired}

module _ {ℓ} (P : Manager → Type ℓ) (m : Manager) where
  -- The rate limit writes `starts` only.
  pub allow_start_cases :
      (u now : ℕ)
      → ((log : List (ℕ × List ℕ)) → P (record m { starts = log }))
      → P (allow_start m u now).0
  unfolding allow_start
  allow_start_cases u now kept = ground (
    arith,
    kept (insert u (recent_starts now (starts_of m u)) m.starts),
    kept [],
    kept (insert u (recent_starts now (starts_of m u) ++ now ∷ []) m.starts),
  )

  pub start_locked_cases :
      (from : Conn) (to now id : ℕ) (online : Bool)
      → let m1 = (allow_start m from.user now).0 in
        P m1
        → (m1.by_user from.user ≡ none → m1.by_user to ≡ none → P (place_call m1 from to now id))
        → P (start_locked m from to now id online).0
  unfolding start_locked
  start_locked_cases from to now id online kept placed = ground arith

  pub end_cases :
      (id : ℕ) (reason : Reason) (now : ℕ)
      → P m
      → ((p : ℕ) → m.calls id ≡ some p → P (take_out m id p))
      → P (end m id reason now).0
  unfolding end
  end_cases id reason now kept gone = elim (Option-cases (m.calls id)) [
    | inl e ↦ rw (e, end) kept
    | inr (p, e) ↦ rw (e, end) (gone p e)
  ]

  pub accept_locked_cases :
      (from : Conn) (id left now : ℕ)
      → P m
      → ((p : ℕ)
          → m.calls id ≡ some p
          → (m.objs p).callee ≡ from.user
          → (m.objs p).active ≡ false
          → P (take_up m p from.id id left now))
      → P (accept_locked m from id left now).0
  unfolding accept_locked
  accept_locked_cases from id left now kept taken = elim (Option-cases (m.calls id)) [
    | inl e ↦ rw (e, accept_locked) kept
    | inr (p, e) ↦ rw (e, accept_locked) (ground (arith, taken p e))
  ]

  pub signal_cases :
      (valid : List ℕ → Bool) (from : Conn) (id : ℕ) (payload : List ℕ)
      → P m
      → ((p : ℕ) → m.calls id ≡ some p → P (count_signal m p from.user))
      → P (signal valid m from id payload).0
  unfolding signal
  signal_cases valid from id payload kept counted = elim (Option-cases (m.calls id)) [
    | inl e ↦ ground arith
    | inr (p, e) ↦ ground (arith, counted p e)
  ]

  pub connected_cases :
      (back : Conn)
      → P m
      → ((p t : ℕ)
          → m.by_user back.user ≡ some p
          → lookup back.user (m.objs p).lost ≡ some t
          → P (move_call m p back t))
      → P (connected m back).0
  unfolding connected
  connected_cases back kept moved = elim (Option-cases (m.by_user back.user)) [
    | inl e ↦ ground arith
    | inr (p, e) ↦ elim (Option-cases (lookup back.user (m.objs p).lost)) [
      | inl n ↦ ground arith
      | inr (t, l) ↦ ground (arith, moved p t e l)
    ]
  ]

  pub disconnected_conn_cases :
      (now : ℕ) (gone : Conn)
      → P m
      → ((id : ℕ) → P (end m id cancelled now).0)
      → ((p : ℕ)
          → m.by_user gone.user ≡ some p
          → (m.objs p).active ≡ true
          → lookup gone.user (m.objs p).lost ≡ none
          → P (await_return m p gone.user now))
      → P (disconnected_conn now m gone).0
  unfolding disconnected_conn
  disconnected_conn_cases now gone kept over awaited = elim (Option-cases (m.by_user gone.user)) [
    | inl e ↦ ground arith
    | inr (p, e) ↦ ground (arith, over (m.objs p).id, awaited p e)
  ]

  pub fire_cases :
      (t : ℕ) → P m → ((job : Job) → m.armed t ≡ some job → P (set_fired m t job)) → P (fire m t)
  unfolding fire
  fire_cases t kept went = elim (Option-cases (m.armed t)) [
    | inl e ↦ ground arith
    | inr (job, e) ↦ ground (arith, went job e)
  ]

  pub run_fired_cases :
      (now t : ℕ)
      → P m
      → ((job : Job) → m.fired t ≡ some job → P (end (clear_fired m t) job.call job.reason now).0)
      → P (run_fired now m t).0
  unfolding run_fired
  run_fired_cases now t kept ran = elim (Option-cases (m.fired t)) [
    | inl e ↦ ground arith
    | inr (job, e) ↦ ground (arith, ran job e)
  ]
