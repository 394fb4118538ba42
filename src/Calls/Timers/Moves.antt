-- ===== src/Calls/Timers/Moves.antt =====
-- The timers under each transition of internal/calls/calls.go.
use chirpy.Prelude.{ℕ, ◌+◌, ◌≡◌, ◌⊎◌, refl, inl, Bool, true, Option, none, some, arith, lookup}
use chirpy.Calls.Types.{Conn}
use chirpy.Calls.Manager.{Manager, Job, stop, stop_all, allow_start, new_manager}
use chirpy.Calls.Start.{place_call}
use chirpy.Calls.Ending.{take_out}
use chirpy.Calls.Accept.{take_up}
use chirpy.Calls.Devices.{count_signal, resume, move_call, await_return}
use chirpy.Calls.Dispatch.{set_fired, clear_fired}
use chirpy.Calls.Cases.{allow_start_cases}
use chirpy.Calls.Linked.{Linked, resume_keeps}
use chirpy.Calls.Timers.{
  main_job, grace_job, Timed, Graces-mono, Graces-delete, Graces-insert, Graces-lookup,
  Graces-update, Graces-rewrite, stop_all-main, stop_all-none,
}

pub new_manager-Timed :
    (ring grace daily : ℕ) (b : Bool) → Timed none (new_manager ring grace daily b)
unfolding new_manager
new_manager-Timed ring grace daily b = record {
  rings = λ i q x h. ground arith;
  owns = λ i q h. ground arith;
  graces = λ i q h. absurd (ground arith);
  unused = λ t h. (refl, refl);
  apart = λ t. inl refl;
}

pub allow_start-Timed :
    (m : Manager) (u now : ℕ) → Timed none m → Timed none (allow_start m u now).0
allow_start-Timed m u now v = allow_start_cases (Timed none) m u now λ log. record {
  rings = v.rings;
  owns = v.owns;
  graces = v.graces;
  unused = v.unused;
  apart = v.apart;
}

pub place_call-Timed :
    (m : Manager) (from : Conn) (to now id : ℕ)
    → Linked m
    → m.calls id ≡ none
    → Timed none m
    → Timed none (place_call m from to now id)
unfolding place_call
place_call-Timed m from to now id l fresh v = record {
  rings = λ i q x h. ground (arith, v.rings i q x, l.calls_live i q, v.owns i q);
  owns = λ i q h. ground (arith, v.owns i q, l.calls_live i q);
  graces = λ i q h.
      Graces-update m.next_timer (m.next_timer + 1) m.armed (place_call m from to now id).armed
        m.objs m.next_ptr _ i q (omega arith) (λ t lt g. ground arith)
        (λ ne. v.graces i q (ground (arith, fresh))) (λ same. tt);
  unused = λ t h. ground (arith, v.unused t);
  apart = λ t. ground (arith, v.apart t, v.unused t);
}

pub take_out-Timed :
    (m : Manager) (id p : ℕ)
    → m.calls id ≡ some p
    → Timed (some id) m
    → Timed none (take_out m id p)
unfolding take_out stop
take_out-Timed m id p e v = record {
  rings = λ i q x h.
      let old : m.calls i ≡ some q = ground arith in
      ground (arith, v.rings i q, v.owns id p e, sparing (m.objs q).timer i);
  owns = λ i q h.
      let old : m.calls i ≡ some q = ground arith in
      ground (arith, v.owns i q old, fewer (m.objs q).timer);
  graces = λ i q h.
      let old : m.calls i ≡ some q = ground arith in
      Graces-mono _ _ m.armed _ i (m.objs q).lost (omega arith) (λ t lt g. ground (arith, fewer t))
        (v.graces i q old);
  unused = λ t h. ground (arith, v.unused t, fewer t);
  apart = λ t. ground (arith, v.apart t, fewer t);
}
  where
    main_stopped : ℕ → Option Job
    main_stopped = stop (m.objs p).timer m.armed

    fewer :
        (t : ℕ)
        → (stop_all (m.objs p).lost main_stopped t ≡ main_stopped t)
          ⊎ (stop_all (m.objs p).lost main_stopped t ≡ none)
    fewer t = stop_all-none main_stopped t (m.objs p).lost

    sparing :
        (t i : ℕ)
        → main_job (main_stopped t) i ≡ true
        → stop_all (m.objs p).lost main_stopped t ≡ main_stopped t
    sparing t i = stop_all-main m.next_timer main_stopped id i t (m.objs p).lost (
        Graces-mono _ _ m.armed _ id (m.objs p).lost (omega arith) (λ r lt g. ground arith)
          (v.graces id p e))

pub take_up-Timed :
    (m : Manager) (id p conn_id left now : ℕ)
    → Linked m
    → m.calls id ≡ some p
    → Timed none m
    → Timed none (take_up m p conn_id id left now)
unfolding take_up
take_up-Timed m id p conn_id left now l e v = record {
  rings = λ i q x h.
      ground (arith, v.rings i q x, l.calls_live i q, l.calls_live id p, v.owns i q, v.owns id p);
  owns = λ i q h. ground (arith, v.owns i q, l.calls_live i q, l.calls_live id p);
  graces = λ i q h.
      Graces-rewrite m.next_timer (m.next_timer + 1) m.armed (take_up m p conn_id id left now).armed
        m.objs p _ i q (omega arith) (λ t lt g. ground arith) (v.graces i q h) refl;
  unused = λ t h. ground (arith, v.unused t);
  apart = λ t. ground (arith, v.apart t, v.unused t);
}

pub count_signal-Timed : (m : Manager) (p u : ℕ) → Timed none m → Timed none (count_signal m p u)
unfolding count_signal
count_signal-Timed m p u v = record {
  rings = λ i q x h. ground (arith, v.rings i q x);
  owns = λ i q h. ground (arith, v.owns i q);
  graces = λ i q h.
      Graces-rewrite m.next_timer m.next_timer m.armed m.armed m.objs p _ i q (omega arith)
        (λ t lt g. g) (v.graces i q h) refl;
  unused = v.unused;
  apart = v.apart;
}

-- The grace timer `t` of a user is stopped, and the call is linked to another device.
pub move_call-Timed :
    (m : Manager) (p t : ℕ) (back : Conn)
    → Linked m
    → m.by_user back.user ≡ some p
    → lookup back.user (m.objs p).lost ≡ some t
    → Timed none m
    → Timed none (move_call m p back t)
unfolding move_call stop
move_call-Timed m p t back l e found v = record {
  rings = λ i q x h. ground (arith, v.rings i q x, same_timer, grace);
  owns = λ i q h. ground (arith, v.owns i q, same_timer);
  graces = λ i q h.
      Graces-update m.next_timer m.next_timer m.armed (stop t m.armed) m.objs p _ i q (omega arith)
        (λ r lt g. ground arith) (λ ne. v.graces i q h)
        (λ same. rw (resume_keeps (m.objs p) back).6 (
          Graces-delete m.next_timer (stop t m.armed) i back.user (m.objs p).lost (
            Graces-mono m.next_timer m.next_timer m.armed (stop t m.armed) i (m.objs p).lost
              (omega arith) (λ r lt g. ground arith) (v.graces i p (rw same h)))));
  unused = λ r h. ground (arith, v.unused r);
  apart = λ r. ground (arith, v.apart r);
}
  where
    same_timer : (resume (m.objs p) back).timer ≡ (m.objs p).timer
    same_timer = (resume_keeps (m.objs p) back).3

    grace : grace_job (m.armed t) (m.objs p).id ≡ true
    grace =
        Graces-lookup _ m.armed (m.objs p).id back.user t (m.objs p).lost
          (v.graces _ p (l.users_live back.user p e).0) found

pub await_return-Timed :
    (m : Manager) (p u now : ℕ)
    → Linked m
    → m.by_user u ≡ some p
    → Timed none m
    → Timed none (await_return m p u now)
unfolding await_return
await_return-Timed m p u now l e v = record {
  rings = λ i q x h. ground (arith, v.rings i q x, v.owns i q);
  owns = λ i q h. ground (arith, v.owns i q);
  graces = λ i q h.
      Graces-update m.next_timer (m.next_timer + 1) m.armed (await_return m p u now).armed m.objs p
        _ i q (omega arith) (λ r lt g. ground arith) (λ ne. v.graces i q h)
        (λ same.
          Graces-insert (m.next_timer + 1) (await_return m p u now).armed i u m.next_timer
            (m.objs p).lost (omega arith) (ground (arith, l.calls_live i p))
            (Graces-mono m.next_timer (m.next_timer + 1) m.armed (await_return m p u now).armed i
              (m.objs p).lost (omega arith) (λ r lt g. ground arith) (v.graces i p (rw same h))));
  unused = λ t h. ground (arith, v.unused t);
  apart = λ t. ground (arith, v.apart t, v.unused t);
}

pub set_fired-Timed :
    (m : Manager) (t : ℕ) (job : Job)
    → m.armed t ≡ some job
    → Timed none m
    → Timed none (set_fired m t job)
unfolding set_fired
set_fired-Timed m t job e v = record {
  rings = λ i q x h. ground (arith, v.rings i q x, v.apart t);
  owns = λ i q h. ground (arith, v.owns i q);
  graces = λ i q h.
      Graces-mono _ _ m.armed _ i (m.objs q).lost (omega arith) (λ r lt g. ground arith)
        (v.graces i q h);
  unused = λ r h. ground (arith, v.unused r);
  apart = λ r. ground (arith, v.apart r);
}

pub clear_fired-Timed :
    (m : Manager) (t : ℕ) (job : Job)
    → m.fired t ≡ some job
    → Timed none m
    → Timed (some job.call) (clear_fired m t)
unfolding clear_fired
clear_fired-Timed m t job e v = record {
  rings = λ i q x h. ground (arith, v.rings i q, x);
  owns = v.owns;
  graces = v.graces;
  unused = λ r h. ground (arith, v.unused r);
  apart = λ r. ground (arith, v.apart r);
}
