-- ===== src/Queue/Order.antt =====
-- jobs:delayed is by score, so what moveDueScript takes are the lowest scores.
use chirpy.Prelude.{
  ℕ, zero, suc, ◌+◌, ◌≤◌, ◌≡◌, refl, Bool, true, false, not, Option, none, some, List, [], ◌∷◌, leb,
  keep, arith, All, Bool-cases, inl, inr,
}
use chirpy.Queue.Jobs.{
  Handled, handled, failed, permanent, Job, next_step, Delayed, Entry, Queue, add, publish,
  same_job, due_jobs, not_due, add_all, move_due, put_in, put_delayed, settle, process_job,
  comes_before,
}
use chirpy.Queue.Steps.{
  System, Act, publishing, reading, processing, moving, trimming, trimming_dead, crashing, at,
  process_hand, act, act_all,
}

abbrev From : ℕ → List Delayed → Type 0
From n ds = All (λ (d : Delayed). n ≤ d.due) ds

abbrev pub ByScore : List Delayed → Type 0
ByScore [] = Unit
ByScore (d ∷ ds) = From d.due ds × ByScore ds

From-keep : (n : ℕ) (p : Delayed → Bool) (ds : List Delayed) → From n ds → From n (keep p ds)
From-keep n p [] a = tt
From-keep n p (d ∷ ds) a = elim (Bool-cases (p d)) [
  | inl y ↦ rw y (a.0, From-keep n p ds a.1)
  | inr z ↦ rw z (From-keep n p ds a.1)
]

ByScore-keep : (p : Delayed → Bool) (ds : List Delayed) → ByScore ds → ByScore (keep p ds)
ByScore-keep p [] a = tt
ByScore-keep p (d ∷ ds) a = elim (Bool-cases (p d)) [
  | inl y ↦ rw y (From-keep d.due p ds a.0, ByScore-keep p ds a.1)
  | inr z ↦ rw z (ByScore-keep p ds a.1)
]

From-le : (n k : ℕ) (ds : List Delayed) → n ≤ k → From k ds → From n ds
From-le n k [] h a = tt
From-le n k (d ∷ ds) h a = (omega (arith, a.0), From-le n k ds h a.1)

ByScore-not_due : (n now : ℕ) (ds : List Delayed) → ByScore ds → ByScore (not_due n now ds)
ByScore-not_due zero now ds a = a
ByScore-not_due (suc n) now [] a = tt
ByScore-not_due (suc n) now (d ∷ ds) a = elim (Bool-cases (leb d.due now)) [
  | inl y ↦ rw y (ByScore-not_due n now ds a.1)
  | inr z ↦ rw z a
]

add_all-delayed : (js : List Job) (q : Queue) → (add_all js q).delayed ≡ q.delayed
unfolding add_all add
add_all-delayed [] q = refl
add_all-delayed (j ∷ js) q = add_all-delayed js (add j q)

module _ (text_before : Job → Job → Bool) (max_retries : ℕ) where
  From-put_in :
      (n : ℕ) (d : Delayed) (ds : List Delayed)
      → n ≤ d.due
      → From n ds
      → From n (put_in text_before d ds)
  From-put_in n d [] h a = (h, tt)
  From-put_in n d (e ∷ ds) h a = elim (Bool-cases (comes_before text_before d e)) [
    | inl y ↦ rw y (h, a)
    | inr z ↦ rw z (a.0, From-put_in n d ds h a.1)
  ]

  ByScore-put_in :
      (d : Delayed) (ds : List Delayed) → ByScore ds → ByScore (put_in text_before d ds)
  ByScore-put_in d [] a = (tt, tt)
  ByScore-put_in d (e ∷ ds) a = elim (Bool-cases (comes_before text_before d e)) [
    | inl y ↦ let le : d.due ≤ e.due = ground arith in rw y ((le, From-le d.due e.due ds le a.0), a)
    | inr z ↦
        let le : e.due ≤ d.due = ground arith in
        rw z (From-put_in e.due d ds le a.0, ByScore-put_in d ds a.1)
  ]

  process_hand-ByScore :
      (now : ℕ) (answer : Handled) (committed : Bool) (o : Option Entry) (q : Queue)
      → ByScore q.delayed
      → ByScore (process_hand text_before max_retries now answer committed o q).delayed
  unfolding process_job settle next_step put_delayed
  process_hand-ByScore now answer committed none q a = a
  process_hand-ByScore now answer false (some e) q a = a
  process_hand-ByScore now handled true (some e) q a = a
  process_hand-ByScore now permanent true (some e) q a = a
  process_hand-ByScore now failed true (some e) q a =
      elim (Bool-cases (leb max_retries (e.job.attempt + 1))) [
        | inl last ↦ rw last a
        | inr more ↦ rw more (
            ByScore-put_in _ _ (
              ByScore-keep
                (λ (d : Delayed).
                  not (same_job (record e.job { attempt = e.job.attempt + 1 }) d.job))
                q.delayed a))
      ]

  act-ByScore :
      (a : Act) (s : System)
      → ByScore s.queue.delayed
      → ByScore (act text_before max_retries a s).queue.delayed
  unfolding act publish add move_due
  act-ByScore (publishing t p) s v = v
  act-ByScore (reading n) s v = v
  act-ByScore (processing now answer committed n) s v =
      process_hand-ByScore now answer committed (at n s.hands) s.queue v
  act-ByScore (moving now) s v =
      rw
        (add_all-delayed (due_jobs 100 now s.queue.delayed)
          (record s.queue { delayed = not_due 100 now s.queue.delayed }))
        (ByScore-not_due 100 now s.queue.delayed v)
  act-ByScore (trimming n) s v = v
  act-ByScore trimming_dead s v = v
  act-ByScore (crashing n) s v = v

  -- If the retries stand by their scores, they do so after any steps.
  pub act_all-ByScore :
      (acts : List Act) (s : System)
      → ByScore s.queue.delayed
      → ByScore (act_all text_before max_retries acts s).queue.delayed
  unfolding act_all
  act_all-ByScore [] s v = v
  act_all-ByScore (a ∷ as') s v =
      act_all-ByScore as' (act text_before max_retries a s) (act-ByScore a s v)
