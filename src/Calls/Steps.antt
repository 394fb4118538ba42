-- ===== src/Calls/Steps.antt =====
-- The interleavings of internal/calls/calls.go: what may happen between two moments at which the
-- manager's mutex is free. An operation that locks it twice appears here by its locked parts, each
-- with any values that its first part may have read: `accept` with any positive limit, and every
-- `end` that was decided on earlier.
use chirpy.Prelude.{ℕ, ◌≤◌, ◌<◌, ◌≡◌, ◌≢◌, Bool, none, List}
use chirpy.Calls.Types.{Reason, busy, elsewhere, Conn, max_duration}
use chirpy.Calls.Manager.{Manager}
use chirpy.Calls.Start.{start_locked}
use chirpy.Calls.Ending.{end}
use chirpy.Calls.Accept.{accept_locked}
use chirpy.Calls.Devices.{signal, connected, disconnected_conn}
use chirpy.Calls.Dispatch.{fire, run_fired}

pub data Step (m : Manager) : Manager → Type 0 where
  -- uuid.NewV7 gives an id that is not in use.
  starts :
      (from : Conn) (to now id : ℕ) (online : Bool)
      → from.user ≢ to
      → m.calls id ≡ none
      → Step m (start_locked m from to now id online).0
  accepts :
      (from : Conn) (id left now : ℕ)
      → 0 < left
      → left ≤ max_duration
      → Step m (accept_locked m from id left now).0
  signals :
      (valid : List ℕ → Bool) (from : Conn) (id : ℕ) (payload : List ℕ)
      → Step m (signal valid m from id payload).0
  ends :
      (id : ℕ) (reason : Reason) (now : ℕ)
      → reason ≢ busy
      → reason ≢ elsewhere
      → Step m (end m id reason now).0
  connects : (back : Conn) → Step m (connected m back).0
  disconnects : (now : ℕ) (gone : Conn) → Step m (disconnected_conn now m gone).0
  fires : (t : ℕ) → Step m (fire m t)
  runs : (now t : ℕ) → Step m (run_fired now m t).0

pub data Reach (m : Manager) : Manager → Type 0 where
  here : Reach m m
  next : {n k : Manager} → Reach m n → Step n k → Reach m k
