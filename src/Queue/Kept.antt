-- ===== src/Queue/Kept.antt =====
-- What becomes of what is published.
use chirpy.Prelude.{
  ℕ, zero, suc, ◌+◌, ◌≡◌, refl, ap, sym, ◌∙◌, Bool, true, false, ◌||◌, some, List, [], ◌∷◌, leb,
  ◌==◌, arith, Bool-cases, Option-cases, inl, subst, inr,
}
use chirpy.Queue.Jobs.{
  Handled, handled, failed, permanent, Job, next_step, Entry, Queue, add, publish, delete_entry,
  due_jobs, not_due, move_due, settle, process_job, backoff,
}
use chirpy.Queue.Steps.{
  System, Act, publishing, reading, processing, moving, trimming, trimming_dead, crashing, at,
  process_hand, act, act_all, new_system,
}
use chirpy.Queue.Keys.{
  is_it, in_jobs, in_entries, in_delayed, is_held, is_done, ends, asks, is_asked, in_entries-append,
  in_jobs-append, in_delayed-due, in_entries-take_out, in_jobs-take_out, held-add_all,
  in_delayed-put_delayed,
}
use chirpy.Queue.Logs.{Logged, Logs, Sound, by_log, act-Sound}

regrouped :
    (a b c d e : Bool)
    → d ≡ (b || c)
    → (a || (d || e)) ≡ true
    → (((a || b) || (c || e)) || false) ≡ true
regrouped a b c d e h k = ground arith

module _ (text_before : Job → Job → Bool) (max_retries : ℕ) where
  module _ (topic payload : ℕ) where
    in_entries-delete :
        (log : ℕ → Job) (next : ℕ) (e : Entry) (es : List Entry)
        → Logged log next e
        → Logs log next es
        → in_entries topic payload es ≡ true
        → (in_entries topic payload (delete_entry e.id es) || is_it topic payload e.job) ≡ true
    in_entries-delete log next e [] l a h = absurd (cc)
    in_entries-delete log next e (x ∷ es) l a h =
        let (y, z) = l in
        let (b, c) = a.0 in
        let d = in_entries-delete log next e es l a.1 in
        elim (Bool-cases (x.id == e.id)) [
          | inl same ↦
              let i : x.id ≡ e.id = ground arith in
              let j : x.job ≡ e.job = sym b ∙ (ap log i ∙ y) in
              ground (arith, ap (λ (k : Job). is_it topic payload k) j)
          | inr other ↦ ground arith
        ]

    settled :
        (now : ℕ) (answer : Handled) (e : Entry) (q : Queue) (log : ℕ → Job)
        → Logged log q.next_id e
        → Logs log q.next_id q.jobs
        → is_held topic payload q ≡ true
        → (is_held topic payload (process_job text_before max_retries now answer true e q)
            || is_done topic payload true answer (some e))
          ≡ true
    unfolding is_held process_job settle next_step
    settled now handled e q log l a h = ground (arith, in_entries-delete log q.next_id e q.jobs l a)
    settled now permanent e q log l a h = ground (
      arith,
      in_entries-delete log q.next_id e q.jobs l a,
      in_jobs-append topic payload q.dead (record e.job { attempt = e.job.attempt + 1 } ∷ []),
    )
    settled now failed e q log l a h = elim (Bool-cases (leb max_retries (e.job.attempt + 1))) [
      | inl last ↦ rw last (
          ground (
            arith,
            in_entries-delete log q.next_id e q.jobs l a,
            in_jobs-append topic payload q.dead (record e.job { attempt = e.job.attempt + 1 } ∷ []),
          ))
      | inr more ↦ rw more (
          ground (
            arith,
            in_entries-delete log q.next_id e q.jobs l a,
            in_delayed-put_delayed topic payload text_before
                (record {
                  due = now + backoff (e.job.attempt + 1);
                  job = record e.job { attempt = e.job.attempt + 1 };
                })
                q.delayed,
          ))
    ]

    at-Logged :
        (log : ℕ → Job) (next n : ℕ) (es : List Entry) (e : Entry)
        → Logs log next es
        → at n es ≡ some e
        → Logged log next e
    at-Logged log next n [] e a h = absurd (ground arith)
    at-Logged log next zero (x ∷ es) e a h = subst (Logged log next) (ground arith) a.0
    at-Logged log next (suc n) (x ∷ es) e a h = at-Logged log next n es e a.1 h

    process_hand-held :
        (now : ℕ) (answer : Handled) (committed : Bool) (n : ℕ) (s : System)
        → Sound s
        → is_held topic payload s.queue ≡ true
        → (is_held topic payload
              (process_hand text_before max_retries now answer committed (at n s.hands) s.queue)
            || is_done topic payload committed answer (at n s.hands))
          ≡ true
    unfolding process_job
    process_hand-held now answer false n s v h = elim (Option-cases (at n s.hands)) [
      | inl e ↦ rw (e, process_hand) (rw h refl)
      | inr (x, e) ↦ rw (e, process_hand) (rw h refl)
    ]
    process_hand-held now answer true n s (by_log log (a, b)) h =
        elim (Option-cases (at n s.hands)) [
          | inl e ↦ rw (e, process_hand) (rw h refl)
          | inr (x, e) ↦
              rw (e, process_hand)
                (settled now answer x s.queue log (at-Logged log s.queue.next_id n s.hands x b e) a
                  h)
        ]

    act-held :
        (a : Act) (s : System)
        → Sound s
        → is_held topic payload s.queue ≡ true
        → (is_held topic payload (act text_before max_retries a s).queue || ends topic payload a s)
          ≡ true
    unfolding is_held act ends publish add move_due
    act-held (publishing t p) s v h = ground (
      arith,
      in_entries-append topic payload s.queue.jobs (
          record { id = s.queue.next_id; job = record { topic = t; payload = p; attempt = 0 } }
          ∷ []),
    )
    act-held (reading n) s v h = rw h refl
    act-held (processing now answer committed n) s v h =
        process_hand-held now answer committed n s v h
    act-held (moving now) s v h =
        let q : Queue = record s.queue { delayed = not_due 100 now s.queue.delayed } in
        let (x, y, z) = held-add_all topic payload (due_jobs 100 now s.queue.delayed) q in
        rw (x, y, z)
          (regrouped (in_entries topic payload s.queue.jobs)
            (in_jobs topic payload (due_jobs 100 now s.queue.delayed))
            (in_delayed topic payload (not_due 100 now s.queue.delayed))
            (in_delayed topic payload s.queue.delayed) (in_jobs topic payload s.queue.dead)
            (in_delayed-due topic payload 100 now s.queue.delayed) h)
    act-held (trimming n) s v h = ground (arith, in_entries-take_out topic payload n s.queue.jobs)
    act-held trimming_dead s v h = ground (arith, in_jobs-take_out topic payload s.queue.dead)
    act-held (crashing n) s v h = rw h refl

    asks-held :
        (a : Act) (s : System)
        → asks topic payload a ≡ true
        → is_held topic payload (act text_before max_retries a s).queue ≡ true
    unfolding is_held act publish add
    asks-held (publishing t p) s h = ground (
      arith,
      in_entries-append topic payload s.queue.jobs (
          record { id = s.queue.next_id; job = record { topic = t; payload = p; attempt = 0 } }
          ∷ []),
    )
    asks-held (reading n) s h = absurd (cc)
    asks-held (processing now answer committed n) s h = absurd (cc)
    asks-held (moving now) s h = absurd (cc)
    asks-held (trimming n) s h = absurd (cc)
    asks-held trimming_dead s h = absurd (cc)
    asks-held (crashing n) s h = absurd (cc)

    -- Some step of a run ends one.
    unfoldable pub is_ended : List Act → System → Bool
    unfolding ends act
    is_ended [] s = false
    is_ended (a ∷ as') s = ends topic payload a s || is_ended as' (act text_before max_retries a s)

    kept :
        (acts : List Act) (s : System)
        → Sound s
        → (is_held topic payload s.queue || is_asked topic payload acts) ≡ true
        → (is_held topic payload (act_all text_before max_retries acts s).queue || is_ended acts s)
          ≡ true
    unfolding act_all is_ended
    kept [] s v h = ground arith
    kept (a ∷ as') s v h =
        let next = act text_before max_retries a s in
        let rest = kept as' next (act-Sound text_before max_retries a s v) in
        elim (Bool-cases (is_held topic payload next.queue)) [
          | inl y ↦ ground (arith, rest)
          | inr n ↦ ground (arith, rest, act-held a s v, asks-held a s)
        ]

    -- No topic and payload that is published from an empty queue is forgotten, whatever the
    -- workers read, reclaim, handle and give up in whatever order, each transaction made or not:
    -- in the end a job with them waits in a stream, is to be retried or is dead, or else a handler
    -- has done one in a transaction that was made, or one was trimmed off a stream.
    pub is_asked-act_all :
        (acts : List Act)
        → is_asked topic payload acts ≡ true
        → (is_held topic payload (act_all text_before max_retries acts new_system).queue
            || is_ended acts new_system)
          ≡ true
    is_asked-act_all acts h =
        kept acts new_system
          (by_log (λ id. record { topic = 0; payload = 0; attempt = 0 }) (tt, tt))
          (rw h (ground arith))
