-- ===== src/Calls/Manager.antt =====
-- The state of calls.Manager, with the runtime's timers. `calls` and `byUser` hold pointers to call
-- objects: `objs` is that heap, and `next_ptr` its first free address. time.AfterFunc puts a timer
-- into `armed`; when it goes off the runtime moves it to `fired`, from where its function runs as
-- a goroutine of its own. Timer.Stop takes a timer out of `armed` only: one that fired is not
-- called back.
use chirpy.Prelude.{
  ℕ, ◌+◌, ◌-◌, ◌*◌, min, Bool, true, false, Option, none, some, List, [], ◌∷◌, ◌++◌, if◌then◌else◌,
  ltb, leb, ◌==◌, update, lookup, insert, length, keep,
}
use chirpy.Calls.Types.{Reason, Call, minute, second, max_duration, starts_per_minute}

-- What a timer does: `m.end(id, reason)`, at a time.
pub record Job : Type 0 where
  pub at : ℕ
  pub call : ℕ
  pub reason : Reason

pub record Manager : Type 0 where
  pub ring : ℕ
  pub grace : ℕ
  pub daily : ℕ
  pub notify : Bool  -- a notifier is set
  pub calls : ℕ → Option ℕ
  pub by_user : ℕ → Option ℕ
  pub starts : List (ℕ × List ℕ)
  pub objs : ℕ → Call
  pub next_ptr : ℕ
  pub armed : ℕ → Option Job
  pub fired : ℕ → Option Job
  pub next_timer : ℕ

-- Before its first allocation the heap holds no call; this value is never read.
abbrev blank : Call
blank = record {
  id = 0;
  caller = 0;
  callee = 0;
  caller_conn = 0;
  callee_conn = 0;
  active = false;
  started = 0;
  answered = 0;
  timer = 0;
  lost = [];
  signals = λ u. 0;
}

unfoldable pub new_manager : ℕ → ℕ → ℕ → Bool → Manager
new_manager ring grace daily notify = record {
  ring = ring;
  grace = grace;
  daily = daily;
  notify = notify;
  calls = λ id. none;
  by_user = λ u. none;
  starts = [];
  objs = λ p. blank;
  next_ptr = 0;
  armed = λ t. none;
  fired = λ t. none;
  next_timer = 0;
}

-- time.AfterFunc; the new timer is the old `next_timer`.
unfoldable pub after_func : Manager → ℕ → ℕ → Reason → Manager
after_func m at id reason = record m {
  armed = update m.armed m.next_timer (some (record { at = at; call = id; reason = reason }));
  next_timer = m.next_timer + 1;
}

-- Timer.Stop.
unfoldable pub stop : ℕ → (ℕ → Option Job) → ℕ → Option Job
stop t armed = update armed t none

unfoldable pub stop_all : List (ℕ × ℕ) → (ℕ → Option Job) → ℕ → Option Job
stop_all [] armed = armed
stop_all ((u, t) ∷ rest) armed = stop_all rest (stop t armed)

-- The call time that a user has left; the user's answered seconds come from the call log, `none`
-- when the query fails. A negative rest and 0 are treated alike by every caller.
unfoldable pub remaining : Manager → Option ℕ → Option ℕ
remaining m used =
    if m.daily == 0
    then some max_duration
    else elim used [ none ↦ none | some s ↦ some (min (m.daily - s * second) max_duration) ]

-- The starts of the last minute.
unfoldable pub recent_starts : ℕ → List ℕ → List ℕ
recent_starts now = keep (λ t. ltb now (t + minute))

abbrev pub starts_of : Manager → ℕ → List ℕ
starts_of m u = elim (lookup u m.starts) [ none ↦ [] | some ts ↦ ts ]

unfoldable pub allow_start : Manager → ℕ → ℕ → Manager × Bool
unfolding recent_starts
allow_start m u now =
    let recent = recent_starts now (starts_of m u) in
    let starts = insert u (recent ++ now ∷ []) m.starts in
    if leb starts_per_minute (length recent)
    then (record m { starts = insert u recent m.starts }, false)
    else (record m { starts = if ltb 100000 (length starts) then [] else starts }, true)

-- What an operation reads from outside. `friends a b` and `used u` are `none` when the service or
-- the query fails; `later` is a second reading of the clock; `fresh` is uuid.NewV7.
pub record Env : Type 0 where
  pub friends : ℕ → ℕ → Option Bool
  pub used : ℕ → Option ℕ
  pub online : ℕ → Bool
  pub now : ℕ
  pub later : ℕ
  pub fresh : ℕ
