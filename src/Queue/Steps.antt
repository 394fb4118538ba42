-- ===== src/Queue/Steps.antt =====
-- internal/platform/queue/redis.go: the queue and its workers, in any order of what they do.
use chirpy.Prelude.{ℕ, zero, suc, Bool, Option, none, some, List, [], ◌∷◌, ◌++◌}
use chirpy.Queue.Jobs.{Handled, Job, Entry, Queue, publish, process_job, move_due}

-- `hands` are the entries that the workers have: consume reads them, and reclaims entries that are idle,
-- so an entry may be in several hands.
pub record System : Type 0 where
  pub queue : Queue
  pub hands : List Entry

pub data Act : Type 0 where
  publishing : ℕ → ℕ → Act
  reading : ℕ → Act  -- the entry at a place of the streams goes to a worker
  processing : ℕ → Handled → Bool → ℕ → Act  -- at a time, and whether the transaction is made
  moving : ℕ → Act
  trimming : ℕ → Act  -- XADD trims the entry at a place of the streams
  trimming_dead : Act
  crashing : ℕ → Act  -- what a worker has is given up

abbrev pub at {ℓ} : {A : Type ℓ} → ℕ → List A → Option A
at n [] = none
at zero (x ∷ xs) = some x
at (suc n) (x ∷ xs) = at n xs

abbrev pub take_out {ℓ} : {A : Type ℓ} → ℕ → List A → List A
take_out n [] = []
take_out zero (x ∷ xs) = xs
take_out (suc n) (x ∷ xs) = x ∷ take_out n xs

abbrev pub given : Option Entry → List Entry
given none = []
given (some e) = e ∷ []

module _ (text_before : Job → Job → Bool) (max_retries : ℕ) where
  abbrev pub process_hand : ℕ → Handled → Bool → Option Entry → Queue → Queue
  process_hand now answer committed none q = q
  process_hand now answer committed (some e) q =
      process_job text_before max_retries now answer committed e q

  unfoldable pub act : Act → System → System
  act (publishing topic payload) s = record s { queue = publish topic payload s.queue }
  act (reading n) s = record s { hands = s.hands ++ given (at n s.queue.jobs) }
  act (processing now answer committed n) s = record {
    queue = process_hand now answer committed (at n s.hands) s.queue;
    hands = take_out n s.hands;
  }
  act (moving now) s = record s { queue = move_due now s.queue }
  act (trimming n) s = record s { queue = record s.queue { jobs = take_out n s.queue.jobs } }
  act trimming_dead s = record s { queue = record s.queue { dead = take_out 0 s.queue.dead } }
  act (crashing n) s = record s { hands = take_out n s.hands }

  unfoldable pub act_all : List Act → System → System
  unfolding act
  act_all [] s = s
  act_all (a ∷ as') s = act_all as' (act a s)

abbrev pub new_system : System
new_system = record {
  queue = record { next_id = 0; jobs = []; delayed = []; dead = [] };
  hands = [];
}
