-- ===== src/Cache/Fresh.antt =====
-- internal/platform/redisx/versioned.go: what is cached, under the interleavings of Cache/Readers.antt.
use chirpy.Prelude.{
  ℕ, ◌≤◌, ◌<◌, ◌≡◌, ◌⊎◌, ◌↔◌, refl, inl, inr, Bool, true, false, Option, none, some, arith, ◌==◌,
  update_cases, Bool-cases, Option-cases, subst,
}
use chirpy.Cache.Versioned.{
  Entry, Reply, got, failed, counter, get, version, put, invalidate, load, load_miss,
}
use chirpy.Cache.Readers.{
  Reading, resting, versioned, loaded, is_resting, System, with_reader, value_gone, counter_gone,
  committed, invalidated, finished, Step, commits, invalidates, value_expires, counter_expires,
  reads_version, loads_row, fails, puts, Run, idle, then_step,
}

module _ {ℓ} {V : Type ℓ} where
  -- The version and the value that a reader holds.
  abbrev pub seen : Reading V → ℕ
  seen resting = 0
  seen (versioned v) = v
  seen (loaded v x) = v

  abbrev pub in_hand : Reading V → Option V
  in_hand resting = none
  in_hand (versioned v) = none
  in_hand (loaded v x) = some x

  -- A value is the row, or a writer has yet to invalidate.
  abbrev pub Fresh : System V → V → Type ℓ
  Fresh s x = (x ≡ s.row) ⊎ (0 < s.owed)

  -- A reader holds no version above the counter; what it holds at the counter's own version is
  -- fresh, and so is what is cached.
  pub record Sound (s : System V) : Type ℓ where
    pub cached : (x : V) → s.entry.value ≡ some x → Fresh s x
    pub bounded : (r : ℕ) → seen (s.readers r) ≤ counter s.entry.ver
    pub held :
        (r : ℕ) (x : V)
        → in_hand (s.readers r) ≡ some x
        → seen (s.readers r) ≡ counter s.entry.ver
        → Fresh s x

  -- Sound after a change of the readers alone.
  with_reader-Sound :
      (s : System V) (r : ℕ) (d : Reading V)
      → Sound s
      → seen d ≤ counter s.entry.ver
      → ((x : V) → in_hand d ≡ some x → Fresh s x)
      → Sound (with_reader s r d)
  with_reader-Sound s r d h b f = record {
    cached = h.cached;
    bounded = λ q.
        update_cases (λ z. seen z ≤ counter s.entry.ver) s.readers r d q (λ e. b)
          (λ e. h.bounded q);
    held = λ q.
        update_cases (λ z. (x : V) → in_hand z ≡ some x → seen z ≡ counter s.entry.ver → Fresh s x)
          s.readers r d q (λ e x p w. f x p) (λ e. h.held q);
  }

  finished-Sound :
      (s : System V) (r v : ℕ) (x : V)
      → Sound s
      → s.readers r ≡ loaded v x
      → Sound (finished s r v x)
  unfolding finished put
  finished-Sound s r v x h e =
      let k = with_reader-Sound s r resting h (omega arith) (λ y p. absurd (cc)) in
      elim (Bool-cases (counter s.entry.ver == v)) [
        | inr n ↦ rw n k
        | inl m ↦ rw m record {
          cached =
              λ y p. subst (λ z. Fresh s z) (cc) (h.held r x (rw e refl) (rw e (ground arith)));
          bounded = k.bounded;
          held = k.held;
        }
      ]

  seen-resting : (d : Reading V) → is_resting d ≡ true → (seen d ≡ 0) × (in_hand d ≡ none)
  seen-resting resting e = (refl, refl)
  seen-resting (versioned v) e = absurd (cc)
  seen-resting (loaded v x) e = absurd (cc)

  Step-Sound : {s t : System V} → Step false s t → Sound s → Sound t
  unfolding value_gone counter_gone committed invalidated invalidate
  Step-Sound (commits s x) h = record {
    cached = λ y p. inr (omega arith);
    bounded = h.bounded;
    held = λ r y p w. inr (omega arith);
  }
  Step-Sound (invalidates s o) h = record {
    cached = λ y p. absurd (cc);
    bounded = λ r. omega (arith, h.bounded r);
    held = λ r y p w. absurd (omega (arith, h.bounded r));
  }
  Step-Sound (value_expires s) h = record {
    cached = λ y p. absurd (cc);
    bounded = h.bounded;
    held = h.held;
  }
  Step-Sound (counter_expires s (inl b)) h = absurd (cc)
  Step-Sound (counter_expires s (inr q)) h = record {
    cached = h.cached;
    bounded = λ r. omega (arith, (seen-resting (s.readers r) (q r)).0);
    held = λ r y p w. absurd (ground (arith, (seen-resting (s.readers r) (q r)).1));
  }
  Step-Sound (reads_version s r e) h = with_reader-Sound s r _ h (omega arith) (λ y p. absurd (cc))
  Step-Sound (loads_row s r v e) h =
      with_reader-Sound s r _ h (let b = h.bounded r in ground arith) (λ y p. inl (cc))
  Step-Sound (fails s r) h = with_reader-Sound s r resting h (omega arith) (λ y p. absurd (cc))
  Step-Sound (puts s r v x e) h = finished-Sound s r v x h e

  Run-Sound : {s t : System V} → Run false s t → Sound s → Sound t
  Run-Sound (idle s) h = h
  Run-Sound (then_step run step) h = Step-Sound step (Run-Sound run h)

  start-Sound :
      (s : System V) → s.entry.value ≡ none → ((r : ℕ) → is_resting (s.readers r) ≡ true) → Sound s
  start-Sound s e q = record {
    cached = λ y p. absurd (cc);
    bounded = λ r. omega (arith, (seen-resting (s.readers r) (q r)).0);
    held = λ r y p w. absurd (ground (arith, (seen-resting (s.readers r) (q r)).1));
  }

  -- However readers and writers of one key interleave from an empty cache, and whatever expires,
  -- the counter only between reads: once every writer has invalidated, Load returns the row
  -- whatever fails in Redis, and leaves no other value cached.
  pub load_fresh :
      (s t : System V) (get_broken ver_broken put_broken : Bool)
      → s.entry.value ≡ none
      → ((r : ℕ) → is_resting (s.readers r) ≡ true)
      → Run false s t
      → t.owed ≡ 0
      → ((load get_broken ver_broken put_broken (got t.row) t.entry).0 ≡ got t.row)
        × ((x : V)
            → (load get_broken ver_broken put_broken (got t.row) t.entry).1.value ≡ some x
            → x ≡ t.row)
  unfolding load load_miss get version put
  load_fresh s t b1 b2 b3 e q run o =
      let h = Run-Sound run (start-Sound s e q) in
      let fresh : (x : V) → t.entry.value ≡ some x → x ≡ t.row =
        λ x p. elim (h.cached x p) [ inl f ↦ f | inr l ↦ absurd (omega (arith, l)) ] in
      elim (Option-cases t.entry.value) [
        | inl n ↦ ground arith
        | inr (x, n) ↦ let f = fresh x n in ground arith
      ]

  -- Load fails exactly when the loader fails and the value was not read from the cache, whatever
  -- becomes of the version and of Put.
  pub load-failed :
      (get_broken ver_broken put_broken : Bool) (loaded : Reply V) (e : Entry V)
      → ((load get_broken ver_broken put_broken loaded e).0 ≡ failed)
        ↔ ((loaded ≡ failed) × ((get_broken ≡ true) ⊎ (e.value ≡ none)))
  unfolding load load_miss get version put
  load-failed b1 b2 b3 l e = ground arith
