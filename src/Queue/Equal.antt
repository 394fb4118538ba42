-- ===== src/Queue/Equal.antt =====
-- Jobs with the same topic and payload that have failed as often.
use chirpy.Prelude.{
  ℕ, suc, ◌+◌, ◌≡◌, refl, sym, ◌∙◌, ap, Bool, true, false, List, [], ◌∷◌, leb, arith, length,
  Bool-cases, inl, inr,
}
use chirpy.Queue.Jobs.{
  failed, Job, next_step, Delayed, Entry, Queue, delete_entry, same_job, without_job, put_in,
  put_delayed, comes_before, settle, process_job, backoff,
}

same_self : (j : Job) → same_job j j ≡ true
same_self j = ground arith

module _ (text_before : Job → Job → Bool) where
  length-put_in :
      (d : Delayed) (ds : List Delayed) → length (put_in text_before d ds) ≡ suc (length ds)
  length-put_in d [] = refl
  length-put_in d (e ∷ ds) = elim (Bool-cases (comes_before text_before d e)) [
    | inl y ↦ rw y refl
    | inr n ↦ rw n (ap suc (length-put_in d ds))
  ]

  -- The job that is put in goes again, and only it.
  without_job-put_in :
      (j : Job) (d : Delayed) (ds : List Delayed)
      → same_job j d.job ≡ true
      → without_job j (put_in text_before d ds) ≡ without_job j ds
  without_job-put_in j d [] h = rw h refl
  without_job-put_in j d (e ∷ ds) h = elim (Bool-cases (comes_before text_before d e)) [
    | inl y ↦ rw y (rw h refl)
    | inr n ↦ rw n (ground (arith, without_job-put_in j d ds h))
  ]

  without_job-twice :
      (j : Job) (ds : List Delayed) → without_job j (without_job j ds) ≡ without_job j ds
  without_job-twice j [] = refl
  without_job-twice j (d ∷ ds) = ground (arith, without_job-twice j ds)

  length-put_delayed :
      (c d : Delayed) (ds : List Delayed)
      → c.job ≡ d.job
      → length (put_delayed text_before d (put_delayed text_before c ds))
        ≡ length (put_delayed text_before c ds)
  unfolding put_delayed
  length-put_delayed c d ds same =
      length-put_in d (without_job d.job (put_in text_before c (without_job c.job ds)))
      ∙ (ap (λ (xs : List Delayed). suc (length xs))
            (ap (λ (j : Job). without_job j (put_in text_before c (without_job c.job ds)))
                (sym same)
              ∙ (without_job-put_in c.job c (without_job c.job ds) (same_self c.job)
                  ∙ without_job-twice c.job ds))
          ∙ sym (length-put_in c (without_job c.job ds)))

  -- A job that has failed and has attempts left.
  retried :
      (max_retries now : ℕ) (e : Entry) (q : Queue)
      → leb max_retries (e.job.attempt + 1) ≡ false
      → process_job text_before max_retries now failed true e q ≡ record q {
        jobs = delete_entry e.id q.jobs;
        delayed =
            put_delayed text_before
              (record {
                due = now + backoff (e.job.attempt + 1);
                job = record e.job { attempt = e.job.attempt + 1 };
              })
              q.delayed;
      }
  unfolding process_job settle next_step
  retried max_retries now e q more = rw more refl

  -- When two entries with the same topic, payload and attempt fail with attempts left, both are taken
  -- off their stream and neither is dead, but the second adds nothing to the retries that the first left.
  pub equal_retries :
      (max_retries now later : ℕ) (a b : Entry) (q : Queue)
      → a.job ≡ b.job
      → leb max_retries (a.job.attempt + 1) ≡ false
      → let one : Queue = process_job text_before max_retries now failed true a q in
        let both : Queue = process_job text_before max_retries later failed true b one in
        (both.jobs ≡ delete_entry b.id (delete_entry a.id q.jobs))
        × (both.dead ≡ q.dead)
        × (length both.delayed ≡ length one.delayed)
  equal_retries max_retries now later a b q same more =
      let more' : leb max_retries (b.job.attempt + 1) ≡ false =
        ap (λ (j : Job). leb max_retries (j.attempt + 1)) (sym same) ∙ more in
      rw (retried max_retries now a q more) (
        rw
          (retried max_retries later b
            (record q {
              jobs = delete_entry a.id q.jobs;
              delayed =
                  put_delayed text_before
                    (record {
                      due = now + backoff (a.job.attempt + 1);
                      job = record a.job { attempt = a.job.attempt + 1 };
                    })
                    q.delayed;
            })
            more')
          (
            refl,
            refl,
            length-put_delayed
                (record {
                  due = now + backoff (a.job.attempt + 1);
                  job = record a.job { attempt = a.job.attempt + 1 };
                })
                (record {
                  due = later + backoff (b.job.attempt + 1);
                  job = record b.job { attempt = b.job.attempt + 1 };
                })
                q.delayed (ap (λ (j : Job). record j { attempt = j.attempt + 1 }) same),
          ))
