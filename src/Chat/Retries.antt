-- ===== src/Chat/Retries.antt =====
-- Retried sends: one message for a key within the window.
use chirpy.Prelude.{
  ℕ, ◌-◌, ◌≤◌, ◌<◌, ◌≡◌, ◌⊎◌, refl, Bool, true, false, not, ◌&&◌, none, some, List, [], ◌∷◌, ◌==◌,
  length, keep, arith,
}
use chirpy.Chat.Model.{ChatErr, Result, ok, err}
use chirpy.Chat.Dedupe.{
  DedupeKey, Dedupe, find_key, remove_key, same_key, is_done, expired, sweep, collect, run_send,
  wait_for, start_entry, look_up, enter, forget, finish, resume, still_waiting, same_message,
  dedupe_window,
}

-- What happens to the map: a call comes, or one that ran send is through.
pub data Event : Type 0 where
  entering : DedupeKey → ℕ → Event
  finishing : DedupeKey → ℕ → Result ℕ → Event

unfoldable pub happen : Event → Dedupe → Dedupe
happen (entering k now) d = (enter k now d).0
happen (finishing k e r) d = finish k e r d

unfoldable pub happen_all : List Event → Dedupe → Dedupe
unfolding happen
happen_all [] d = d
happen_all (v ∷ vs) d = happen_all vs (happen v d)

-- Entry `e` has the key, was made at `a`, and runs, or has sent the message `id`.
record Held (k : DedupeKey) (e a id : ℕ) (d : Dedupe) : Type 0 where
  pub found : find_key k d.keys ≡ some e
  pub since : (d.entries e).at ≡ a
  pub good : ((d.entries e).done ≡ none) ⊎ ((d.entries e).done ≡ some (ok id))
  pub old : e < d.made

-- Within the window of `a`, with no more keys than allowed; and entry `e`, if it ends, has sent `id`.
unfoldable pub Quiet : ℕ → ℕ → ℕ → Event → Dedupe → Type 0
Quiet e a id (entering k now) d = (now - a ≤ dedupe_window) × (length d.keys ≤ d.max_keys)
Quiet e a id (finishing k f r) d = f ≡ e → r ≡ ok id

unfoldable pub QuietAll : ℕ → ℕ → ℕ → List Event → Dedupe → Type 0
unfolding Quiet
QuietAll e a id [] d = Unit {0}
QuietAll e a id (v ∷ vs) d = Quiet e a id v d × QuietAll e a id vs (happen v d)

find_key-remove :
    (j k : DedupeKey) (m : List (DedupeKey × ℕ))
    → same_key j k ≡ false
    → find_key k (remove_key j m) ≡ find_key k m
find_key-remove j k [] h = refl
find_key-remove j k ((i, e) ∷ m) h = ground (arith, find_key-remove j k m)

find_key-keep :
    (k : DedupeKey) (e : ℕ) (test : ℕ → Bool) (m : List (DedupeKey × ℕ))
    → find_key k m ≡ some e
    → test e ≡ true
    → find_key k (keep (λ (p : DedupeKey × ℕ). test p.1) m) ≡ some e
find_key-keep k e test [] f h = absurd (cc)
find_key-keep k e test ((i, j) ∷ m) f h = ground (arith, find_key-keep k e test m)

same_key-find :
    (j k : DedupeKey) (m : List (DedupeKey × ℕ)) → same_key j k ≡ true → find_key j m ≡ find_key k m
same_key-find j k [] h = refl
same_key-find j k ((i, e) ∷ m) h = ground (arith, same_key-find j k m)

collect-Held :
    (k : DedupeKey) (e a id now : ℕ) (d : Dedupe)
    → Held k e a id d
    → now - a ≤ dedupe_window
    → length d.keys ≤ d.max_keys
    → Held k e a id (collect now d)
unfolding collect sweep
collect-Held k e a id now d h near few =
    let kept : find_key k (
          keep (λ (p : DedupeKey × ℕ). not (is_done (d.entries p.1) && expired now (d.entries p.1)))
            d.keys)
        ≡ some e =
      find_key-keep k e (λ f. not (is_done (d.entries f) && expired now (d.entries f))) d.keys
        h.found (ground (arith, h.since)) in
    record {
      found = ground (arith, kept, h.found);
      since = ground (arith, h.since);
      good = ground (arith, h.good);
      old = ground (arith, h.old);
    }

-- A call with the key waits, and one with another leaves the entry.
look_up-Held :
    (j k : DedupeKey) (e a id now : ℕ) (d : Dedupe)
    → Held k e a id d
    → now - a ≤ dedupe_window
    → Held k e a id (look_up j now d).0
unfolding look_up start_entry
look_up-Held j k e a id now d h near = record {
  found = ground (arith, h.found, h.since, find_key-remove j k d.keys, same_key-find j k d.keys);
  since = ground (arith, h.found, h.since, h.old);
  good = ground (arith, h.found, h.since, h.old, h.good);
  old = ground (arith, h.old);
}

finish-Held :
    (j k : DedupeKey) (e a id f : ℕ) (r : Result ℕ) (d : Dedupe)
    → Held k e a id d
    → (f ≡ e → r ≡ ok id)
    → Held k e a id (finish j f r d)
unfolding finish forget
finish-Held j k e a id f (ok x) d h own = record {
  found = h.found;
  since = ground (arith, h.since);
  good = ground (arith, h.good, own);
  old = h.old;
}
finish-Held j k e a id f (err x) d h own =
    let other : (f == e) ≡ false = ground (arith, own) in
    record {
      found = ground (arith, h.found, other, find_key-remove j k d.keys, same_key-find j k d.keys);
      since = ground (arith, h.since, other);
      good = ground (arith, h.good, other);
      old = ground (arith, h.old);
    }

happen-Held :
    (v : Event) (k : DedupeKey) (e a id : ℕ) (d : Dedupe)
    → Held k e a id d
    → Quiet e a id v d
    → Held k e a id (happen v d)
unfolding happen Quiet enter
happen-Held (entering j now) k e a id d h (near, few) =
    look_up-Held j k e a id now (collect now d) (collect-Held k e a id now d h near few) near
happen-Held (finishing j f r) k e a id d h own = finish-Held j k e a id f r d h own

happen_all-Held :
    (vs : List Event) (k : DedupeKey) (e a id : ℕ) (d : Dedupe)
    → Held k e a id d
    → QuietAll e a id vs d
    → Held k e a id (happen_all vs d)
unfolding happen_all QuietAll
happen_all-Held [] k e a id d h q = h
happen_all-Held (v ∷ vs) k e a id d h q =
    happen_all-Held vs k e a id (happen v d) (happen-Held v k e a id d h q.0) q.1

-- The call that is told to run has made the entry.
start-Held :
    (k : DedupeKey) (e a id : ℕ) (d : Dedupe)
    → (look_up k a d).1 ≡ run_send e
    → Held k e a id (look_up k a d).0
unfolding look_up start_entry
start-Held k e a id d h = record {
  found = ground arith;
  since = ground arith;
  good = ground arith;
  old = ground arith;
}

look_up-waits :
    (k : DedupeKey) (e a id now : ℕ) (d : Dedupe)
    → Held k e a id d
    → now - a ≤ dedupe_window
    → look_up k now d ≡ (d, wait_for e)
unfolding look_up
look_up-waits k e a id now d h near = ground (arith, h.found, h.since)

resume-Held :
    (k : DedupeKey) (e a id : ℕ) (d : Dedupe)
    → Held k e a id d
    → (resume e d ≡ still_waiting) ⊎ (resume e d ≡ same_message id)
unfolding resume
resume-Held k e a id d h = ground (arith, h.good)

entered-Held :
    (k : DedupeKey) (e a id : ℕ) (d : Dedupe)
    → (enter k a d).1 ≡ run_send e
    → Held k e a id (enter k a d).0
unfolding enter
entered-Held k e a id d h = start-Held k e a id (collect a d) h

entered-waits :
    (k : DedupeKey) (e a id now : ℕ) (d : Dedupe)
    → Held k e a id (collect now d)
    → now - a ≤ dedupe_window
    → ((enter k now d).1 ≡ wait_for e)
      × ((resume e (enter k now d).0 ≡ still_waiting)
          ⊎ (resume e (enter k now d).0 ≡ same_message id))
unfolding enter
entered-waits k e a id now d h near =
    rw (look_up-waits k e a id now (collect now d) h near)
      (refl, resume-Held k e a id (collect now d) h)

find_key-removed : (k : DedupeKey) (m : List (DedupeKey × ℕ)) → find_key k (remove_key k m) ≡ none
find_key-removed k [] = refl
find_key-removed k ((i, e) ∷ m) = ground (arith, find_key-removed k m)

find_key-keep-none :
    (k : DedupeKey) (test : DedupeKey × ℕ → Bool) (m : List (DedupeKey × ℕ))
    → find_key k m ≡ none
    → find_key k (keep test m) ≡ none
find_key-keep-none k test [] f = refl
find_key-keep-none k test ((i, e) ∷ m) f = ground (arith, find_key-keep-none k test m)

collect-none :
    (k : DedupeKey) (now : ℕ) (d : Dedupe)
    → find_key k d.keys ≡ none
    → (find_key k (collect now d).keys ≡ none) × ((collect now d).made ≡ d.made)
unfolding collect sweep
collect-none k now d f = (
  ground (
    arith,
    find_key-keep-none k
        (λ (p : DedupeKey × ℕ). not (is_done (d.entries p.1) && expired now (d.entries p.1)))
        d.keys,
  ),
  ground arith,
)

-- A call for a key was told to send, at a time, as an entry. After any calls and endings in which
-- calls come within ten minutes of that time, the map holds no more keys than allowed at each, and
-- the entry does not fail, another call for the key within the ten minutes does not send: it waits
-- for the entry, and has the message that the entry sent, or has to wait on.
pub enter_once :
    (k : DedupeKey) (e a id now : ℕ) (vs : List Event) (d : Dedupe)
    → (enter k a d).1 ≡ run_send e
    → QuietAll e a id vs (enter k a d).0
    → now - a ≤ dedupe_window
    → length (happen_all vs (enter k a d).0).keys ≤ (happen_all vs (enter k a d).0).max_keys
    → ((enter k now (happen_all vs (enter k a d).0)).1 ≡ wait_for e)
      × ((resume e (enter k now (happen_all vs (enter k a d).0)).0 ≡ still_waiting)
          ⊎ (resume e (enter k now (happen_all vs (enter k a d).0)).0 ≡ same_message id))
enter_once k e a id now vs d start quiet near few =
    let d' : Dedupe = happen_all vs (enter k a d).0 in
    let h : Held k e a id d' =
      happen_all-Held vs k e a id (enter k a d).0 (entered-Held k e a id d start) quiet in
    let c : Held k e a id (collect now d') = collect-Held k e a id now d' h near few in
    entered-waits k e a id now d' c near

-- A send that fails while its entry has the key leaves the key free: the next call for it, at any
-- time, sends.
pub failed-retried :
    (k : DedupeKey) (e now : ℕ) (d : Dedupe) (x : ChatErr)
    → find_key k d.keys ≡ some e
    → (enter k now (finish k e (err x) d)).1 ≡ run_send d.made
unfolding finish forget enter look_up start_entry
failed-retried k e now d x f =
    ground (arith, f, find_key-removed k d.keys, collect-none k now (finish k e (err x) d))
