-- ===== src/Limits/Memory.antt =====
-- internal/platform/ratelimit/memory.go. Times are nanoseconds of a clock that does not go back, so
-- that now.Sub(t) > period is t + period < now.
use chirpy.Prelude.{
  ℕ, ◌+◌, ◌-◌, Bool, true, false, Option, none, some, List, [], ◌∷◌, if◌then◌else◌, ltb, leb,
  update,
}

pub record Window : Type 0 where
  pub uses : ℕ
  pub start : ℕ

pub record Memory : Type 0 where
  pub windows : ℕ → Option Window
  pub limit : ℕ
  pub period : ℕ
  pub last_scan : ℕ

pub record Verdict : Type 0 where
  pub allowed : Bool
  pub remaining : ℕ
  pub of_limit : ℕ
  pub retry_after : ℕ

-- A window that is over is none.
abbrev pub open_window : ℕ → ℕ → Option Window → Option Window
open_window period now none = none
open_window period now (some w) = if ltb (w.start + period) now then none else some w

-- The scan drops the windows that are over.
unfoldable pub scan : Memory → ℕ → Memory
scan m now =
    if ltb (m.last_scan + m.period) now
    then record m { windows = λ k. open_window m.period now (m.windows k); last_scan = now }
    else m

-- The window of the key: a new one if there is none, or the old one is over.
abbrev pub window_or_new : ℕ → Option Window → Window
window_or_new now none = record { uses = 0; start = now }
window_or_new now (some w) = w

-- Allow, from the window on.
unfoldable pub use_window : Memory → ℕ → ℕ → Window → Memory × Verdict
use_window m key now w =
    if leb m.limit w.uses
    then (
      record m { windows = update m.windows key (some w) },
      record {
        allowed = false;
        remaining = 0;
        of_limit = m.limit;
        retry_after = m.period - (now - w.start);
      },
    )
    else (
      record m { windows = update m.windows key (some (record w { uses = w.uses + 1 })) },
      record {
        allowed = true;
        remaining = m.limit - (w.uses + 1);
        of_limit = m.limit;
        retry_after = 0;
      },
    )

unfoldable pub allow : Memory → ℕ → ℕ → Memory × Verdict
unfolding scan use_window
allow m key now =
    let m1 = scan m now in
    use_window m1 key now (window_or_new now (open_window m1.period now (m1.windows key)))

-- Requests: the key and the time of each.
unfoldable pub allow_all : Memory → List (ℕ × ℕ) → List Verdict
unfolding allow
allow_all m [] = []
allow_all m ((key, now) ∷ rest) = let (m1, v) = allow m key now in v ∷ allow_all m1 rest
