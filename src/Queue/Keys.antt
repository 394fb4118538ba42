-- ===== src/Queue/Keys.antt =====
-- What a queue has of the jobs of a topic with a payload, and what ends one.
use chirpy.Prelude.{
  ℕ, zero, suc, ◌≡◌, refl, Bool, true, false, ◌&&◌, ◌||◌, Option, none, some, List, [], ◌∷◌, ◌++◌,
  ◌==◌, arith, Bool-cases, inl, inr,
}
use chirpy.Queue.Jobs.{
  Handled, handled, failed, permanent, Job, Delayed, Entry, Queue, add, without_job, due_jobs,
  not_due, add_all, put_in, put_delayed, comes_before,
}
use chirpy.Queue.Steps.{
  System, Act, publishing, reading, processing, moving, trimming, trimming_dead, crashing, at,
  take_out,
}

-- Jobs of a topic with a payload.
module _ (topic payload : ℕ) where
  abbrev pub is_it : Job → Bool
  is_it j = (j.topic == topic) && (j.payload == payload)

  abbrev pub in_jobs : List Job → Bool
  in_jobs [] = false
  in_jobs (j ∷ js) = is_it j || in_jobs js

  abbrev pub in_entries : List Entry → Bool
  in_entries [] = false
  in_entries (e ∷ es) = is_it e.job || in_entries es

  abbrev pub in_delayed : List Delayed → Bool
  in_delayed [] = false
  in_delayed (d ∷ ds) = is_it d.job || in_delayed ds

  -- One waits in a stream, or is to be retried, or is dead.
  unfoldable pub is_held : Queue → Bool
  is_held q = in_entries q.jobs || (in_delayed q.delayed || in_jobs q.dead)

  abbrev pub is_entry : Option Entry → Bool
  is_entry none = false
  is_entry (some e) = is_it e.job

  abbrev pub is_job : Option Job → Bool
  is_job none = false
  is_job (some j) = is_it j

  abbrev pub is_done : Bool → Handled → Option Entry → Bool
  is_done false answer e = false
  is_done true handled e = is_entry e
  is_done true failed e = false
  is_done true permanent e = false

  -- A handler has done one, in a transaction that was made, or one was trimmed away.
  unfoldable pub ends : Act → System → Bool
  ends (publishing t p) s = false
  ends (reading n) s = false
  ends (processing now answer committed n) s = is_done committed answer (at n s.hands)
  ends (moving now) s = false
  ends (trimming n) s = is_entry (at n s.queue.jobs)
  ends trimming_dead s = is_job (at 0 s.queue.dead)
  ends (crashing n) s = false

  abbrev pub asks : Act → Bool
  asks (publishing t p) = (t == topic) && (p == payload)
  asks other = false

  abbrev pub is_asked : List Act → Bool
  is_asked [] = false
  is_asked (a ∷ as') = asks a || is_asked as'

  pub in_entries-append :
      (xs ys : List Entry) → in_entries (xs ++ ys) ≡ (in_entries xs || in_entries ys)
  in_entries-append [] ys = refl
  in_entries-append (x ∷ xs) ys = ground (arith, in_entries-append xs ys)

  pub in_jobs-append : (xs ys : List Job) → in_jobs (xs ++ ys) ≡ (in_jobs xs || in_jobs ys)
  in_jobs-append [] ys = refl
  in_jobs-append (x ∷ xs) ys = ground (arith, in_jobs-append xs ys)

  in_delayed-without :
      (j : Job) (ds : List Delayed)
      → (is_it j || in_delayed (without_job j ds)) ≡ (is_it j || in_delayed ds)
  in_delayed-without j [] = refl
  in_delayed-without j (d ∷ ds) = ground (arith, in_delayed-without j ds)

  pub in_delayed-due :
      (n now : ℕ) (ds : List Delayed)
      → in_delayed ds ≡ (in_jobs (due_jobs n now ds) || in_delayed (not_due n now ds))
  in_delayed-due zero now ds = refl
  in_delayed-due (suc n) now [] = refl
  in_delayed-due (suc n) now (d ∷ ds) = ground (arith, in_delayed-due n now ds)

  pub in_entries-take_out :
      (n : ℕ) (es : List Entry) → in_entries es ≡ (is_entry (at n es) || in_entries (take_out n es))
  in_entries-take_out n [] = refl
  in_entries-take_out zero (e ∷ es) = refl
  in_entries-take_out (suc n) (e ∷ es) = ground (arith, in_entries-take_out n es)

  pub in_jobs-take_out :
      (js : List Job) → in_jobs js ≡ (is_job (at 0 js) || in_jobs (take_out 0 js))
  in_jobs-take_out [] = refl
  in_jobs-take_out (j ∷ js) = refl

  pub held-add_all :
      (js : List Job) (q : Queue)
      → (in_entries (add_all js q).jobs ≡ (in_entries q.jobs || in_jobs js))
        × ((add_all js q).delayed ≡ q.delayed)
        × ((add_all js q).dead ≡ q.dead)
  unfolding add_all add
  held-add_all [] q = (ground arith, refl, refl)
  held-add_all (j ∷ js) q =
      let (a, b, c) = held-add_all js (add j q) in
      (ground (arith, a, in_entries-append q.jobs (record { id = q.next_id; job = j } ∷ [])), b, c)

  module _ (text_before : Job → Job → Bool) where
    in_delayed-put_in :
        (d : Delayed) (ds : List Delayed)
        → in_delayed (put_in text_before d ds) ≡ (is_it d.job || in_delayed ds)
    in_delayed-put_in d [] = refl
    in_delayed-put_in d (e ∷ ds) = elim (Bool-cases (comes_before text_before d e)) [
      | inl y ↦ rw y refl
      | inr n ↦ rw n (ground (arith, in_delayed-put_in d ds))
    ]

    pub in_delayed-put_delayed :
        (d : Delayed) (ds : List Delayed)
        → in_delayed (put_delayed text_before d ds) ≡ (is_it d.job || in_delayed ds)
    unfolding put_delayed
    in_delayed-put_delayed d ds =
        ground (arith, in_delayed-put_in d (without_job d.job ds), in_delayed-without d.job ds)
