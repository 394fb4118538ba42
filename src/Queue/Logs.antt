-- ===== src/Queue/Logs.antt =====
-- Entries in the streams and in the hands of workers that have the same id are the same.
use chirpy.Prelude.{
  ℕ, zero, suc, ◌+◌, ◌<◌, ◌≡◌, refl, Bool, true, false, not, Option, none, some, List, [], ◌∷◌,
  ◌++◌, leb, ◌==◌, arith, All, update, Bool-cases, inl, inr,
}
use chirpy.Queue.Jobs.{
  Handled, handled, failed, permanent, Job, next_step, Entry, Queue, add, publish, delete_entry,
  due_jobs, not_due, add_all, move_due, settle, process_job,
}
use chirpy.Queue.Steps.{
  System, Act, publishing, reading, processing, moving, trimming, trimming_dead, crashing, at,
  take_out, given, process_hand, act,
}

-- What XADD has stored under each id.
abbrev pub Logged : (ℕ → Job) → ℕ → Entry → Type 0
Logged log next e = (log e.id ≡ e.job) × (e.id < next)

abbrev AllLogged : (ℕ → Job) → System → Type 0
AllLogged log s =
    All (Logged log s.queue.next_id) s.queue.jobs × All (Logged log s.queue.next_id) s.hands

-- Entries with the same id, in the streams and in hands, are the same.
pub data Sound (s : System) : Type 0 where
  by_log : (log : ℕ → Job) → AllLogged log s → Sound s

abbrev pub Logs : (ℕ → Job) → ℕ → List Entry → Type 0
Logs log next es = All (Logged log next) es

Logs-append :
    (log : ℕ → Job) (next : ℕ) (xs ys : List Entry)
    → Logs log next xs
    → Logs log next ys
    → Logs log next (xs ++ ys)
Logs-append log next [] ys a b = b
Logs-append log next (x ∷ xs) ys a b = (a.0, Logs-append log next xs ys a.1 b)

Logs-take_out :
    (log : ℕ → Job) (next n : ℕ) (es : List Entry)
    → Logs log next es
    → Logs log next (take_out n es)
Logs-take_out log next n [] a = tt
Logs-take_out log next zero (e ∷ es) a = a.1
Logs-take_out log next (suc n) (e ∷ es) a = (a.0, Logs-take_out log next n es a.1)

Logs-at :
    (log : ℕ → Job) (next n : ℕ) (es : List Entry)
    → Logs log next es
    → Logs log next (given (at n es))
Logs-at log next n [] a = tt
Logs-at log next zero (e ∷ es) a = (a.0, tt)
Logs-at log next (suc n) (e ∷ es) a = Logs-at log next n es a.1

Logs-delete :
    (log : ℕ → Job) (next id : ℕ) (es : List Entry)
    → Logs log next es
    → Logs log next (delete_entry id es)
Logs-delete log next id [] a = tt
Logs-delete log next id (e ∷ es) a = elim (Bool-cases (not (e.id == id))) [
  | inl y ↦ rw y (a.0, Logs-delete log next id es a.1)
  | inr n ↦ rw n (Logs-delete log next id es a.1)
]

-- A new id changes nothing for the entries that are there.
Logs-update :
    (log : ℕ → Job) (next : ℕ) (j : Job) (es : List Entry)
    → Logs log next es
    → Logs (update log next j) (next + 1) es
Logs-update log next j [] a = tt
Logs-update log next j (e ∷ es) a =
    ((ground (arith, a.0), omega (arith, a.0.1)), Logs-update log next j es a.1)

add-Sound : (j : Job) (s : System) → Sound s → Sound (record s { queue = add j s.queue })
unfolding add
add-Sound j s (by_log log (a, b)) =
    let next = s.queue.next_id in
    by_log (update log next j) (
      Logs-append (update log next j) (next + 1) s.queue.jobs (record { id = next; job = j } ∷ [])
          (Logs-update log next j s.queue.jobs a) ((ground arith, omega arith), tt),
      Logs-update log next j s.hands b,
    )

add_all-Sound :
    (js : List Job) (s : System) → Sound s → Sound (record s { queue = add_all js s.queue })
unfolding add_all
add_all-Sound [] s v = v
add_all-Sound (j ∷ js) s v = add_all-Sound js (record s { queue = add j s.queue }) (add-Sound j s v)

module _ (text_before : Job → Job → Bool) (max_retries : ℕ) where
  -- What process changes of the streams.
  process_hand-jobs :
      (now : ℕ) (answer : Handled) (committed : Bool) (o : Option Entry) (q : Queue)
      → (log : ℕ → Job) → Logs log q.next_id q.jobs
      → Logs log
          (process_hand text_before max_retries now answer committed o q).next_id
          (process_hand text_before max_retries now answer committed o q).jobs
  unfolding process_job settle next_step
  process_hand-jobs now answer committed none q log a = a
  process_hand-jobs now answer false (some e) q log a = a
  process_hand-jobs now handled true (some e) q log a = Logs-delete log q.next_id e.id q.jobs a
  process_hand-jobs now permanent true (some e) q log a = Logs-delete log q.next_id e.id q.jobs a
  process_hand-jobs now failed true (some e) q log a =
      elim (Bool-cases (leb max_retries (e.job.attempt + 1))) [
        | inl last ↦ rw last (Logs-delete log q.next_id e.id q.jobs a)
        | inr more ↦ rw more (Logs-delete log q.next_id e.id q.jobs a)
      ]

  process_hand-next :
      (now : ℕ) (answer : Handled) (committed : Bool) (o : Option Entry) (q : Queue)
      → (process_hand text_before max_retries now answer committed o q).next_id ≡ q.next_id
  unfolding process_job settle next_step
  process_hand-next now answer committed none q = refl
  process_hand-next now answer false (some e) q = refl
  process_hand-next now handled true (some e) q = refl
  process_hand-next now permanent true (some e) q = refl
  process_hand-next now failed true (some e) q = ground arith

  pub act-Sound : (a : Act) (s : System) → Sound s → Sound (act text_before max_retries a s)
  unfolding act publish move_due
  act-Sound (publishing t p) s v = add-Sound (record { topic = t; payload = p; attempt = 0 }) s v
  act-Sound (reading n) s (by_log log (a, b)) = by_log log (
    a,
    Logs-append log s.queue.next_id s.hands _ b (Logs-at log s.queue.next_id n s.queue.jobs a),
  )
  act-Sound (processing now answer committed n) s (by_log log (a, b)) = by_log log (
    process_hand-jobs now answer committed (at n s.hands) s.queue log a,
    rw (process_hand-next now answer committed (at n s.hands) s.queue)
        (Logs-take_out log s.queue.next_id n s.hands b),
  )
  act-Sound (moving now) s (by_log log (a, b)) =
      add_all-Sound (due_jobs 100 now s.queue.delayed)
        (record s { queue = record s.queue { delayed = not_due 100 now s.queue.delayed } })
        (by_log log (a, b))
  act-Sound (trimming n) s (by_log log (a, b)) =
      by_log log (Logs-take_out log s.queue.next_id n s.queue.jobs a, b)
  act-Sound trimming_dead s (by_log log (a, b)) = by_log log (a, b)
  act-Sound (crashing n) s (by_log log (a, b)) =
      by_log log (a, Logs-take_out log s.queue.next_id n s.hands b)
