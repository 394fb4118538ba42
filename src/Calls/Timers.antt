-- ===== src/Calls/Timers.antt =====
-- The timers of internal/calls/calls.go: whose they are, and the lists of reconnect-grace timers.
pub mod Moves
pub mod Reached
use chirpy.Prelude.{
  ℕ, ◌+◌, ◌≤◌, ◌<◌, ◌≡◌, ◌≢◌, ◌⊎◌, refl, ◌∙◌, inl, inr, Bool, true, false, not, ◌&&◌, ◌||◌, Option,
  none, some, List, [], ◌∷◌, ◌==◌, arith, subst, sym, update_cases, Option-cases, Bool-cases,
  lookup, insert, delete, update, if◌then◌else◌,
}
use chirpy.Calls.Types.{Reason, disconnected, cancelled, Conn, Call}
use chirpy.Calls.Manager.{Manager, Job, stop, stop_all, allow_start, new_manager}
use chirpy.Calls.Start.{place_call}
use chirpy.Calls.Ending.{take_out, end}
use chirpy.Calls.Accept.{take_up}
use chirpy.Calls.Devices.{count_signal, resume, move_call, await_return}
use chirpy.Calls.Dispatch.{fire, run_fired, set_fired, clear_fired}
use chirpy.Calls.Steps.{
  Step, starts, accepts, signals, ends, connects, disconnects, fires, runs, Reach, here, next,
}
use chirpy.Calls.Cases.{
  allow_start_cases, start_locked_cases, end_cases, accept_locked_cases, signal_cases,
  connected_cases, disconnected_conn_cases, fire_cases, run_fired_cases,
}
use chirpy.Calls.Linked.{Linked, Step-Linked, resume_keeps}

abbrev pub is_grace : Reason → Bool
is_grace disconnected = true
is_grace _ = false

-- The ring timer or the limit timer of the call `id`.
abbrev pub main_job : Option Job → ℕ → Bool
main_job none id = false
main_job (some job) id = job.call == id && not (is_grace job.reason)

abbrev pub for_call : Option Job → ℕ → Bool
for_call none id = false
for_call (some job) id = job.call == id

abbrev pub owned : Option Job → ℕ → Bool
owned none id = true
owned (some job) id = job.call == id

-- A reconnect-grace timer of the call `id`, or one that is not armed.
abbrev pub grace_job : Option Job → ℕ → Bool
grace_job none id = true
grace_job (some job) id = job.call == id && is_grace job.reason

abbrev pub Graces : ℕ → (ℕ → Option Job) → ℕ → List (ℕ × ℕ) → Type 0
Graces n a id [] = Unit {0}
Graces n a id ((u, t) ∷ rest) = (t < n) × (grace_job (a t) id ≡ true) × Graces n a id rest

-- `gone` names a call that is being ended.
pub record Timed (gone : Option ℕ) (m : Manager) : Type 0 where
  pub rings :
      (id p : ℕ)
      → gone ≢ some id
      → m.calls id ≡ some p
      → (main_job (m.armed (m.objs p).timer) id || for_call (m.fired (m.objs p).timer) id) ≡ true
  pub owns :
      (id p : ℕ)
      → m.calls id ≡ some p
      → ((m.objs p).timer < m.next_timer) × (owned (m.armed (m.objs p).timer) id ≡ true)
  pub graces : (id p : ℕ) → m.calls id ≡ some p → Graces m.next_timer m.armed id (m.objs p).lost
  pub unused : (t : ℕ) → m.next_timer ≤ t → (m.armed t ≡ none) × (m.fired t ≡ none)
  pub apart : (t : ℕ) → (m.armed t ≡ none) ⊎ (m.fired t ≡ none)

pub Graces-mono :
    (n k : ℕ) (a b : ℕ → Option Job) (id : ℕ) (l : List (ℕ × ℕ))
    → n ≤ k
    → ((t : ℕ) → t < n → grace_job (a t) id ≡ true → grace_job (b t) id ≡ true)
    → Graces n a id l
    → Graces k b id l
Graces-mono n k a b id [] le h g = tt
Graces-mono n k a b id ((u, t) ∷ rest) le h g =
    (omega arith, h t g.0 g.1, Graces-mono n k a b id rest le h g.2)

pub Graces-delete :
    (n : ℕ) (a : ℕ → Option Job) (id u : ℕ) (l : List (ℕ × ℕ))
    → Graces n a id l
    → Graces n a id (delete u l)
Graces-delete n a id u [] g = tt
Graces-delete n a id u ((w, t) ∷ rest) g = ground (arith, Graces-delete n a id u rest g.2)

pub Graces-insert :
    (n : ℕ) (a : ℕ → Option Job) (id u t : ℕ) (l : List (ℕ × ℕ))
    → t < n
    → grace_job (a t) id ≡ true
    → Graces n a id l
    → Graces n a id (insert u t l)
Graces-insert n a id u t [] lt e g = (lt, e, tt)
Graces-insert n a id u t ((w, s) ∷ rest) lt e g =
    ground (arith, Graces-insert n a id u t rest lt e g.2)

-- Stopping the grace timers of one call leaves every main timer alone.
pub stop_all-main :
    (n : ℕ) (a : ℕ → Option Job) (id i t : ℕ) (l : List (ℕ × ℕ))
    → Graces n a id l
    → main_job (a t) i ≡ true
    → stop_all l a t ≡ a t
unfolding stop_all stop
stop_all-main n a id i t [] g e = refl
stop_all-main n a id i t ((u, s) ∷ rest) g e =
    let spared : stop s a t ≡ a t = ground arith in
    let others : Graces n (stop s a) id rest =
      Graces-mono n n a (stop s a) id rest (omega arith) (λ r lt h. ground arith) g.2 in
    stop_all-main n (stop s a) id i t rest others (rw spared e) ∙ spared

pub stop_all-none :
    (a : ℕ → Option Job) (t : ℕ) (l : List (ℕ × ℕ))
    → (stop_all l a t ≡ a t) ⊎ (stop_all l a t ≡ none)
unfolding stop_all stop
stop_all-none a t [] = inl refl
stop_all-none a t ((u, s) ∷ rest) = ground (arith, stop_all-none (update a s none) t rest)

pub Graces-lookup :
    (n : ℕ) (a : ℕ → Option Job) (id u t : ℕ) (l : List (ℕ × ℕ))
    → Graces n a id l
    → lookup u l ≡ some t
    → grace_job (a t) id ≡ true
Graces-lookup n a id u t [] g e = cc
Graces-lookup n a id u t ((w, s) ∷ rest) g e = ground (arith, Graces-lookup n a id u t rest g.2)

-- A call object that is written in place: the other calls' grace timers, and its own.
pub Graces-update :
    (n k : ℕ) (a b : ℕ → Option Job) (objs : ℕ → Call) (p : ℕ) (c : Call) (i q : ℕ)
    → n ≤ k
    → ((t : ℕ) → t < n → grace_job (a t) i ≡ true → grace_job (b t) i ≡ true)
    → (p ≢ q → Graces n a i (objs q).lost)
    → (p ≡ q → Graces k b i c.lost)
    → Graces k b i (update objs p c q).lost
Graces-update n k a b objs p c i q le step others own =
    update_cases (λ d. Graces k b i d.lost) objs p c q own
      λ ne. Graces-mono n k a b i (objs q).lost le step (others ne)

-- The same of an object that keeps its own grace timers.
pub Graces-rewrite :
    (n k : ℕ) (a b : ℕ → Option Job) (objs : ℕ → Call) (p : ℕ) (c : Call) (i q : ℕ)
    → n ≤ k
    → ((t : ℕ) → t < n → grace_job (a t) i ≡ true → grace_job (b t) i ≡ true)
    → (Graces n a i (objs q).lost)
    → c.lost ≡ (objs p).lost
    → Graces k b i (update objs p c q).lost
Graces-rewrite n k a b objs p c i q le step g e =
    Graces-update n k a b objs p c i q le step (λ ne. g)
      λ same. rw (e, same) (Graces-mono n k a b i (objs q).lost le step g)
