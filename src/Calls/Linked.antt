-- ===== src/Calls/Linked.antt =====
-- The two maps of calls.Manager (internal/calls/calls.go): what it means that they agree.
use chirpy.Prelude.{
  delete, ℕ, ◌<◌, ◌≡◌, ◌≢◌, ◌⊎◌, refl, Bool, ◌&&◌, Option, none, some, arith, ◌==◌, update,
  if◌then◌else◌,
}
use chirpy.Calls.Types.{Reason, cancelled, Conn, Call}
use chirpy.Calls.Manager.{Manager, Job, allow_start, new_manager}
use chirpy.Calls.Start.{place_call}
use chirpy.Calls.Ending.{points_to, take_out, drop_user, end}
use chirpy.Calls.Accept.{take_up}
use chirpy.Calls.Devices.{count_signal, resume, move_call, await_return}
use chirpy.Calls.Dispatch.{set_fired, clear_fired}
use chirpy.Calls.Steps.{
  Step, starts, accepts, signals, ends, connects, disconnects, fires, runs, Reach, here, next,
}
use chirpy.Calls.Cases.{
  allow_start_cases, start_locked_cases, end_cases, accept_locked_cases, signal_cases,
  connected_cases, disconnected_conn_cases, fire_cases, run_fired_cases,
}

-- The call object `p` is the live call `id`, and both its users point to it.
abbrev pub Live : Manager → ℕ → ℕ → Type 0
Live m id p =
    (p < m.next_ptr)
    × ((m.objs p).id ≡ id)
    × ((m.objs p).caller ≢ (m.objs p).callee)
    × (m.by_user (m.objs p).caller ≡ some p)
    × (m.by_user (m.objs p).callee ≡ some p)

-- `u` is a party to the live call object `p`.
abbrev pub Party : Manager → ℕ → ℕ → Type 0
Party m u p = (m.calls (m.objs p).id ≡ some p) × ((u ≡ (m.objs p).caller) ⊎ (u ≡ (m.objs p).callee))

pub record Linked (m : Manager) : Type 0 where
  pub calls_live : (id p : ℕ) → m.calls id ≡ some p → Live m id p
  pub users_live : (u p : ℕ) → m.by_user u ≡ some p → Party m u p

pub new_manager-Linked : (ring grace daily : ℕ) (b : Bool) → Linked (new_manager ring grace daily b)
unfolding new_manager
new_manager-Linked ring grace daily b = record {
  calls_live = λ id p h. ground arith;
  users_live = λ u p h. ground arith;
}

pub allow_start-Linked : (m : Manager) (u now : ℕ) → Linked m → Linked (allow_start m u now).0
allow_start-Linked m u now v =
    allow_start_cases Linked m u now
      λ log. record { calls_live = v.calls_live; users_live = v.users_live }

place_call-Linked :
    (m : Manager) (from : Conn) (to now id : ℕ)
    → Linked m
    → from.user ≢ to
    → m.calls id ≡ none
    → m.by_user from.user ≡ none
    → m.by_user to ≡ none
    → Linked (place_call m from to now id)
unfolding place_call
place_call-Linked m from to now id v ne fresh hf ht = record {
  calls_live = λ i q h. ground (arith, v.calls_live i q);
  users_live = λ u q h. ground (arith, v.users_live u q, v.calls_live (m.objs q).id q);
}

-- Only a user who points to `p` is let go.
pub drop_user_lem :
    (by : ℕ → Option ℕ) (u p j : ℕ)
    → drop_user by u p j ≡ (if u == j && points_to (by j) p then none else by j)
unfolding drop_user
drop_user_lem by u p j = ground arith

take_out-Linked :
    (m : Manager) (id p : ℕ) → Linked m → m.calls id ≡ some p → Linked (take_out m id p)
unfolding take_out
take_out-Linked m id p v e = record {
  calls_live = λ i q h. ground (
    arith,
    v.calls_live i q,
    v.calls_live id p,
    drop_user_lem m.by_user (m.objs p).caller p (m.objs q).caller,
    drop_user_lem m.by_user (m.objs p).caller p (m.objs q).callee,
    drop_user_lem (drop_user m.by_user (m.objs p).caller p) (m.objs p).callee p (m.objs q).caller,
    drop_user_lem (drop_user m.by_user (m.objs p).caller p) (m.objs p).callee p (m.objs q).callee,
  );
  users_live = λ u q h. ground (
    arith,
    v.users_live u q,
    v.calls_live id p,
    drop_user_lem m.by_user (m.objs p).caller p u,
    drop_user_lem (drop_user m.by_user (m.objs p).caller p) (m.objs p).callee p u,
  );
}

-- Writing a call object in place keeps the links if its identity and its parties stay.
relink :
    (m n : Manager) (p : ℕ) (c : Call)
    → n.calls ≡ m.calls
    → n.by_user ≡ m.by_user
    → n.next_ptr ≡ m.next_ptr
    → n.objs ≡ update m.objs p c
    → c.id ≡ (m.objs p).id
    → c.caller ≡ (m.objs p).caller
    → c.callee ≡ (m.objs p).callee
    → Linked m
    → Linked n
relink m n p c ec eu ep eo ei er ee v = record {
  calls_live =
      λ i q h. rw (eu, ep, eo) (let h2 = rw ec at h in ground (arith, v.calls_live i q h2));
  users_live = λ u q h. rw (ec, eo) (let h2 = rw eu at h in ground (arith, v.users_live u q h2));
}

take_up-Linked :
    (m : Manager) (p conn_id id left now : ℕ) → Linked m → Linked (take_up m p conn_id id left now)
unfolding take_up
take_up-Linked m p conn_id id left now v = relink m _ p _ refl refl refl refl refl refl refl v

count_signal-Linked : (m : Manager) (p u : ℕ) → Linked m → Linked (count_signal m p u)
unfolding count_signal
count_signal-Linked m p u v = relink m _ p _ refl refl refl refl refl refl refl v

await_return-Linked : (m : Manager) (p u now : ℕ) → Linked m → Linked (await_return m p u now)
unfolding await_return
await_return-Linked m p u now v = relink m _ p _ refl refl refl refl refl refl refl v

-- A device that comes back changes a connection and the lost devices, nothing else.
pub resume_keeps :
    (c : Call) (back : Conn)
    → ((resume c back).id ≡ c.id)
      × ((resume c back).caller ≡ c.caller)
      × ((resume c back).callee ≡ c.callee)
      × ((resume c back).timer ≡ c.timer)
      × ((resume c back).active ≡ c.active)
      × ((resume c back).answered ≡ c.answered)
      × ((resume c back).lost ≡ delete back.user c.lost)
unfolding resume
resume_keeps c back = ground arith

move_call-Linked : (m : Manager) (p t : ℕ) (back : Conn) → Linked m → Linked (move_call m p back t)
unfolding move_call
move_call-Linked m p t back v =
    let k = resume_keeps (m.objs p) back in relink m _ p _ refl refl refl refl k.0 k.1 k.2 v

pub end-Linked :
    (m : Manager) (id : ℕ) (reason : Reason) (now : ℕ) → Linked m → Linked (end m id reason now).0
end-Linked m id reason now v =
    end_cases Linked m id reason now v (λ p e. take_out-Linked m id p v e)

set_fired-Linked : (m : Manager) (t : ℕ) (job : Job) → Linked m → Linked (set_fired m t job)
unfolding set_fired
set_fired-Linked m t job v = record { calls_live = v.calls_live; users_live = v.users_live }

pub clear_fired-Linked : (m : Manager) (t : ℕ) → Linked m → Linked (clear_fired m t)
unfolding clear_fired
clear_fired-Linked m t v = record { calls_live = v.calls_live; users_live = v.users_live }

pub allow_start-calls : (m : Manager) (u now : ℕ) → (allow_start m u now).0.calls ≡ m.calls
allow_start-calls m u now = allow_start_cases (λ n. n.calls ≡ m.calls) m u now (λ log. refl)

-- Every step keeps the two maps in agreement.
pub Step-Linked : {m n : Manager} → Linked m → Step m n → Linked n
Step-Linked {m} v (starts from to now id online ne fresh) =
    let w = allow_start-Linked m from.user now v in
    start_locked_cases Linked m from to now id online w λ hf ht.
      place_call-Linked _ from to now id w ne (rw (allow_start-calls m from.user now) fresh) hf ht
Step-Linked {m} v (accepts from id left now some_left most) =
    accept_locked_cases Linked m from id left now v
      λ p e callee idle. take_up-Linked m p from.id id left now v
Step-Linked {m} v (signals valid from id payload) =
    signal_cases Linked m valid from id payload v λ p e. count_signal-Linked m p from.user v
Step-Linked {m} v (ends id reason now b e) = end-Linked m id reason now v
Step-Linked {m} v (connects back) =
    connected_cases Linked m back v λ p t e l. move_call-Linked m p t back v
Step-Linked {m} v (disconnects now gone) =
    disconnected_conn_cases Linked m now gone v (λ id. end-Linked m id cancelled now v)
      λ p e active l. await_return-Linked m p gone.user now v
Step-Linked {m} v (fires t) = fire_cases Linked m t v λ job e. set_fired-Linked m t job v
Step-Linked {m} v (runs now t) =
    run_fired_cases Linked m now t v
      λ job e. end-Linked (clear_fired m t) job.call job.reason now (clear_fired-Linked m t v)

pub Reach-Linked : {m n : Manager} → Linked m → Reach m n → Linked n
Reach-Linked v here = v
Reach-Linked v (next r st) = Step-Linked (Reach-Linked v r) st
