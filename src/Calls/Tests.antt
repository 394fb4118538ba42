-- ===== src/Calls/Tests.antt =====
-- Concrete runs of internal/calls/calls.go: user 1 calls user 2 from phone 11, and the theorems at
-- such runs.
use chirpy.Prelude.{ℕ, ◌+◌, ◌≡◌, refl, inl, true, Option, none, some, List, [], arith}
use chirpy.Calls.Types.{ended, declined, Conn, ring_timeout, reconnect_grace}
use chirpy.Calls.Manager.{Manager, Env, new_manager, allow_start}
use chirpy.Calls.Start.{start_locked, start}
use chirpy.Calls.Ending.{end}
use chirpy.Calls.Accept.{accept_locked}
use chirpy.Calls.Dispatch.{handle_call, fire, run_fired, ev_start, IdPayload}
use chirpy.Calls.Steps.{Reach, here, next, starts, fires}
use chirpy.Calls.Linked.{Linked, new_manager-Linked, Reach-Linked}
use chirpy.Calls.Entry.{handle_call-Reach}
use chirpy.Calls.Safety.{one_call_each, timer_ends_call, end_once, late_ring_timer}

abbrev idle : Manager
idle = new_manager ring_timeout reconnect_grace 0 true

abbrev caller_phone : Conn
caller_phone = record { user = 1; id = 11 }

abbrev callee_phone : Conn
callee_phone = record { user = 2; id = 21 }

abbrev rung : Manager
rung = (start_locked idle caller_phone 2 1000 7 true).0

-- The ring timer has gone off.
abbrev overdue : Manager
overdue = fire rung 0

idle_free : idle.calls 7 ≡ none
unfolding new_manager
idle_free = refl

rung-Reach : Reach idle rung
rung-Reach = next here (starts caller_phone 2 1000 7 true (omega arith) idle_free)

overdue-Linked : Linked overdue
overdue-Linked =
    Reach-Linked (new_manager-Linked ring_timeout reconnect_grace 0 true)
      (next rung-Reach (fires 0))

one_call_each_example : ◌≡◌ {A = ℕ} 7 7
unfolding new_manager start_locked allow_start
one_call_each_example =
    one_call_each ring_timeout reconnect_grace 0 true rung-Reach 1 7 0 7 0 refl refl (inl refl)
      (inl refl)

timer_ends_call_example :
    (run_fired 9000 (fire rung (rung.objs 0).timer) (rung.objs 0).timer).0.calls 7 ≡ none
unfolding new_manager start_locked allow_start
timer_ends_call_example =
    timer_ends_call ring_timeout reconnect_grace 0 true rung-Reach 7 0 9000 refl

rung-Linked : Linked rung
rung-Linked = Reach-Linked (new_manager-Linked ring_timeout reconnect_grace 0 true) rung-Reach

end_once_example :
    let n = (end rung 7 declined 2000).0 in
    (n.by_user (rung.objs 0).caller ≡ none)
    × (n.by_user (rung.objs 0).callee ≡ none)
    × (end n 7 ended 3000 ≡ (n, []))
unfolding new_manager start_locked allow_start
end_once_example = end_once rung 7 0 declined ended 2000 3000 rung-Linked refl

late_ring_timer_example :
    let n = (accept_locked overdue callee_phone 7 60000 2000).0 in
    (run_fired 2500 n 0).0.calls 7 ≡ none
unfolding new_manager start_locked allow_start fire
late_ring_timer_example =
    (late_ring_timer overdue callee_phone 7 0 0 60000 2000 2500 (1000 + ring_timeout) overdue-Linked
      refl refl refl refl).1

abbrev env : Env
env = record {
  friends = λ a b. some true;
  used = λ u. some 0;
  online = λ u. true;
  now = 1000;
  later = 1001;
  fresh = 7;
}

abbrev to_two : List ℕ → Option IdPayload
to_two raw = some (record { to_id = 2; call_id = 0; body = [] })

handle_call-Reach_example :
    Reach idle (handle_call to_two (λ b. true) env idle caller_phone ev_start []).0
handle_call-Reach_example =
    handle_call-Reach to_two (λ b. true) env idle caller_phone ev_start [] idle_free

-- The call that is placed rings: the caller and the callee are both taken.
placed : (handle_call to_two (λ b. true) env idle caller_phone ev_start []).0.by_user 2 ≡ some 0
unfolding handle_call new_manager allow_start start
placed = refl
