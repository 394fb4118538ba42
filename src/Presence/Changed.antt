-- ===== src/Presence/Changed.antt =====
-- internal/presence/presence.go: `Changed` for one user, with the grace timer and the announcements.
use chirpy.Prelude.{
  ℕ, ◌+◌, ◌-◌, ◌<◌, ◌≡◌, ◌⊎◌, Bool, true, false, not, Option, none, some, List, [], ◌∷◌, ◌++◌, ◌==◌,
  keep, contains, if◌then◌else◌, ◌&&◌,
}

-- `is_online` is what the hub says. `notices` are the calls of Changed that the hub has started.
-- `pending` is the timer in s.pending; `armed` are the timers yet to go off, `fired` counts those
-- whose function waits to run, and `announcing` the calls of announce that have yet to read the
-- hub. `view` is what one friend was told last.
pub record Status : Type 0 where
  pub is_online : Bool
  pub notices : List Bool
  pub pending : Option ℕ
  pub armed : List ℕ
  pub fired : ℕ
  pub announcing : ℕ
  pub next_timer : ℕ
  pub view : Bool

-- t.Stop()
abbrev pub stop_timer : ℕ → List ℕ → List ℕ
stop_timer t armed = keep (λ r. not (r == t)) armed

-- Changed, from the mutex on, for a first device that came or a last one that went.
unfoldable pub changed_on : Status → Status
changed_on s = elim s.pending [
  | some t ↦ record s { armed = stop_timer t s.armed; pending = none }
  | none ↦ record s { announcing = s.announcing + 1 }
]

unfoldable pub changed_off : Status → Status
changed_off s = elim s.pending [
  | some t ↦ s
  | none ↦ record s {
    pending = some s.next_timer;
    armed = s.next_timer ∷ s.armed;
    next_timer = s.next_timer + 1;
  }
]

unfoldable pub on_changed : Status → Bool → Status
unfolding changed_on changed_off
on_changed s true = changed_on s
on_changed s false = changed_off s

-- The timer's function.
unfoldable pub run_timer : Status → Status
run_timer s = record s { fired = s.fired - 1; pending = none; announcing = s.announcing + 1 }

-- `announce`, for a user who hides the last seen at the time or does not: `broadcast` reads the hub and
-- writes to the friends who are online and do not hide theirs; an error is only logged. `reached` says
-- whether the friend gets the event.
unfoldable pub announce : Bool → Bool → Status → Status
announce hides reached s = record s {
  announcing = s.announcing - 1;
  view = if reached then not hides && s.is_online else s.view;
}

-- The hub sees the first device come or the last one go, and starts Changed.
unfoldable pub flips : Status → Status
flips s = record s { is_online = not s.is_online; notices = s.notices ++ (not s.is_online ∷ []) }

-- Nothing is on its way.
abbrev pub Calm : Status → Type 0
Calm s = (s.notices ≡ []) × (s.fired ≡ 0) × (s.announcing ≡ 0)

-- The user does not hide, and the friend gets the event.
abbrev pub Shows : Bool → Bool → Type 0
Shows hides reached = (hides ≡ false) × (reached ≡ true)

-- One step. With `prompt` the hub changes only when no call, function or announcement is under way, and
-- each announcement shows the friend the user's state.
pub data Turn (prompt : Bool) : Status → Status → Type 0 where
  turns : (s : Status) → (prompt ≡ false) ⊎ Calm s → Turn prompt s (flips s)
  delivers :
      (s : Status) (on : Bool) (rest : List Bool)
      → s.notices ≡ on ∷ rest
      → Turn prompt s (on_changed (record s { notices = rest }) on)
  goes_off :
      (s : Status) (t : ℕ)
      → contains s.armed t ≡ true
      → Turn prompt s (record s { armed = stop_timer t s.armed; fired = s.fired + 1 })
  runs : (s : Status) → 0 < s.fired → Turn prompt s (run_timer s)
  announces :
      (s : Status) (hides reached : Bool)
      → 0 < s.announcing
      → (prompt ≡ false) ⊎ Shows hides reached
      → Turn prompt s (announce hides reached s)

pub data Turns (prompt : Bool) : Status → Status → Type 0 where
  still : (s : Status) → Turns prompt s s
  then_turn : {s t u : Status} → Turns prompt s t → Turn prompt t u → Turns prompt s u

-- Nothing is on its way, and no timer is left.
abbrev pub Settled : Status → Type 0
Settled s = Calm s × (s.pending ≡ none) × (s.armed ≡ [])
