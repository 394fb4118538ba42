-- ===== src/Cache/Readers.antt =====
-- Readers and writers of redisx.Versioned at work on one key. A writer commits to Postgres and then
-- calls Invalidate; a reader that missed reads the version, loads from Postgres, and calls Put.
-- Either key may expire. The run of each Redis transaction is one step.
use chirpy.Prelude.{ℕ, ◌+◌, ◌-◌, ◌<◌, ◌≡◌, ◌⊎◌, Bool, true, false, none, update}
use chirpy.Cache.Versioned.{Entry, counter, put, invalidate}

-- Where a reader is: not reading, holding a version, or holding a version and what it loaded.
pub data Reading {ℓ} (V : Type ℓ) : Type ℓ where
  resting : Reading V
  versioned : ℕ → Reading V
  loaded : ℕ → V → Reading V

abbrev pub is_resting {ℓ} : {V : Type ℓ} → Reading V → Bool
is_resting resting = true
is_resting (versioned v) = false
is_resting (loaded v x) = false

-- `row` is what Postgres holds; `owed` counts the writers that committed and have yet to invalidate.
pub record System {ℓ} (V : Type ℓ) : Type ℓ where
  pub entry : Entry V
  pub row : V
  pub owed : ℕ
  pub readers : ℕ → Reading V

module _ {ℓ} {V : Type ℓ} where
  abbrev pub with_reader : System V → ℕ → Reading V → System V
  with_reader s r d = record s { readers = update s.readers r d }

  -- The expiry of a key, and what the steps of a writer and of a reader leave.
  unfoldable pub value_gone : System V → System V
  value_gone s = record s { entry = record s.entry { value = none } }

  unfoldable pub counter_gone : System V → System V
  counter_gone s = record s { entry = record s.entry { ver = none } }

  unfoldable pub committed : System V → V → System V
  committed s x = record s { row = x; owed = s.owed + 1 }

  unfoldable pub invalidated : System V → System V
  unfolding invalidate
  invalidated s = record s { entry = invalidate s.entry; owed = s.owed - 1 }

  unfoldable pub finished : System V → ℕ → ℕ → V → System V
  unfolding put
  finished s r v x = record (with_reader s r resting) { entry = put v x s.entry }

  -- One step. The counter may expire at any time when `early` holds, and otherwise only while no
  -- reader is at work.
  pub data Step (early : Bool) : System V → System V → Type ℓ where
    commits : (s : System V) (x : V) → Step early s (committed s x)
    invalidates : (s : System V) → 0 < s.owed → Step early s (invalidated s)
    value_expires : (s : System V) → Step early s (value_gone s)
    counter_expires :
        (s : System V)
        → (early ≡ true) ⊎ ((r : ℕ) → is_resting (s.readers r) ≡ true)
        → Step early s (counter_gone s)
    reads_version :
        (s : System V) (r : ℕ)
        → s.readers r ≡ resting
        → Step early s (with_reader s r (versioned (counter s.entry.ver)))
    loads_row :
        (s : System V) (r v : ℕ)
        → s.readers r ≡ versioned v
        → Step early s (with_reader s r (loaded v s.row))
    fails : (s : System V) (r : ℕ) → Step early s (with_reader s r resting)
    puts :
        (s : System V) (r v : ℕ) (x : V)
        → s.readers r ≡ loaded v x
        → Step early s (finished s r v x)

  pub data Run (early : Bool) : System V → System V → Type ℓ where
    idle : (s : System V) → Run early s s
    then_step : {s t u : System V} → Run early s t → Step early t u → Run early s u
