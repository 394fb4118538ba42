-- ===== src/Queue/Attempts.antt =====
-- How often a job is tried.
use chirpy.Prelude.{ℕ, ◌<◌, ◌≤◌, Bool, All}
use chirpy.Queue.Jobs.{Job, Delayed, Entry}
use chirpy.Queue.Steps.{System}

module _ (text_before : Job → Job → Bool) (m : ℕ) where
  abbrev Tried : Entry → Type 0
  Tried e = e.job.attempt < m

  abbrev Again : Delayed → Type 0
  Again d = d.job.attempt < m

  -- What may still be handled has been tried fewer than m times, and the dead at most m times.
  pub record Bounded (s : System) : Type 0 where
    pub streams : All Tried s.queue.jobs
    pub hands : All Tried s.hands
    pub retries : All Again s.queue.delayed
    pub dead : All (λ (j : Job). j.attempt ≤ m) s.queue.dead
