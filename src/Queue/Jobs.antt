-- ===== src/Queue/Jobs.antt =====
-- internal/platform/queue: Backoff, handle of the queue in memory, and Publish, process and moveDue of the
-- queue in Redis. A payload is a number, a time a number of milliseconds, and Redis runs each
-- transaction and script whole.
use chirpy.Prelude.{
  ℕ, zero, suc, ◌+◌, ◌-◌, ◌*◌, ◌^◌, min, Bool, not, ◌&&◌, ◌||◌, List, [], ◌∷◌, ◌++◌, if◌then◌else◌,
  ltb, leb, ◌==◌, keep,
}

abbrev pub first_delay : ℕ
first_delay = 200

abbrev pub longest_delay : ℕ
longest_delay = 30 * 1000

-- 200ms << min(n-1, 8), and 30 s at most; `n` is 1 or more.
unfoldable pub backoff : ℕ → ℕ
backoff n = min (first_delay * 2 ^ (min (n - 1) 8)) longest_delay

-- What a handler returns: nil, an error, or one that is marked Permanent.
pub data Handled : Type 0 where
  handled : Handled
  failed : Handled
  permanent : Handled

pub record Job : Type 0 where
  pub topic : ℕ
  pub payload : ℕ
  pub attempt : ℕ

-- What becomes of a job that was handled.
pub data Next : Type 0 where
  finished : Next
  dropped : Next
  retry_after : ℕ → Job → Next

-- The switch of handle and of process.
unfoldable pub next_step : ℕ → Handled → Job → Next
unfolding backoff
next_step max_retries handled j = finished
next_step max_retries permanent j = dropped
next_step max_retries failed j =
    if leb max_retries (j.attempt + 1)
    then dropped
    else retry_after (backoff (j.attempt + 1)) (record j { attempt = j.attempt + 1 })

-- A member of jobs:delayed, the JSON of an envelope, with its score.
pub record Delayed : Type 0 where
  pub due : ℕ
  pub job : Job

-- An entry of a stream.
pub record Entry : Type 0 where
  pub id : ℕ
  pub job : Job

-- The entries of all streams, jobs:delayed by score and then by text, and jobs:dead.
pub record Queue : Type 0 where
  pub next_id : ℕ
  pub jobs : List Entry
  pub delayed : List Delayed
  pub dead : List Job

-- XADD. What it trims is a step of its own.
unfoldable pub add : Job → Queue → Queue
add j q = record q {
  next_id = q.next_id + 1;
  jobs = q.jobs ++ (record { id = q.next_id; job = j } ∷ []);
}

unfoldable pub publish : ℕ → ℕ → Queue → Queue
unfolding add
publish topic payload q = add (record { topic = topic; payload = payload; attempt = 0 }) q

-- XDEL.
abbrev pub delete_entry : ℕ → List Entry → List Entry
delete_entry id es = keep (λ (e : Entry). not (e.id == id)) es

-- The same text.
abbrev pub same_job : Job → Job → Bool
same_job j k = (j.topic == k.topic) && ((j.payload == k.payload) && (j.attempt == k.attempt))

abbrev pub without_job : Job → List Delayed → List Delayed
without_job j ds = keep (λ (d : Delayed). not (same_job j d.job)) ds

-- moveDueScript takes the entries that are due off jobs:delayed, the lowest scores first.
abbrev pub due_jobs : ℕ → ℕ → List Delayed → List Job
due_jobs zero now ds = []
due_jobs (suc n) now [] = []
due_jobs (suc n) now (d ∷ ds) = if leb d.due now then d.job ∷ due_jobs n now ds else []

abbrev pub not_due : ℕ → ℕ → List Delayed → List Delayed
not_due zero now ds = ds
not_due (suc n) now [] = []
not_due (suc n) now (d ∷ ds) = if leb d.due now then not_due n now ds else d ∷ ds

unfoldable pub add_all : List Job → Queue → Queue
unfolding add
add_all [] q = q
add_all (j ∷ js) q = add_all js (add j q)

unfoldable pub move_due : ℕ → Queue → Queue
unfolding add_all
move_due now q =
    add_all (due_jobs 100 now q.delayed) (record q { delayed = not_due 100 now q.delayed })

-- The order of the texts of two envelopes.
module _ (text_before : Job → Job → Bool) where
  abbrev pub comes_before : Delayed → Delayed → Bool
  comes_before d e = ltb d.due e.due || ((d.due == e.due) && text_before d.job e.job)

  abbrev pub put_in : Delayed → List Delayed → List Delayed
  put_in d [] = d ∷ []
  put_in d (e ∷ ds) = if comes_before d e then d ∷ e ∷ ds else e ∷ put_in d ds

  -- ZADD: a member that is there gets the new score.
  unfoldable pub put_delayed : Delayed → List Delayed → List Delayed
  put_delayed d ds = put_in d (without_job d.job ds)

  unfoldable pub settle : ℕ → Job → Next → Queue → Queue
  unfolding put_delayed
  settle now j finished q = q
  settle now j dropped q = record q { dead = q.dead ++ (record j { attempt = j.attempt + 1 } ∷ []) }
  settle now j (retry_after delay again) q = record q {
    delayed = put_delayed (record { due = now + delay; job = again }) q.delayed;
  }

  -- The part of process after the handler, for the entry that the worker has: all of the transaction or
  -- none. The entry need not be there any more.
  unfoldable pub process_job : ℕ → ℕ → Handled → Bool → Entry → Queue → Queue
  unfolding settle next_step
  process_job max_retries now answer committed e q =
      if committed
      then settle now e.job (next_step max_retries answer e.job)
          (record q { jobs = delete_entry e.id q.jobs })
      else q
