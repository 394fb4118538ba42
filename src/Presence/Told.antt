-- ===== src/Presence/Told.antt =====
-- internal/presence/presence.go: what friends were told last, and what the hub says.
use chirpy.Prelude.{
  ℕ, ◌+◌, ◌<◌, ◌≡◌, ◌≢◌, ◌⊎◌, refl, inl, inr, Bool, true, false, none, some, List, [], ◌∷◌,
  contains, arith, Option-cases, Bool-cases,
}
use chirpy.Presence.Views.{World, PresenceRow, shown}
use chirpy.Presence.Changed.{
  Status, stop_timer, changed_on, changed_off, on_changed, run_timer, announce, flips, Calm, Turn,
  turns, delivers, goes_off, runs, announces, Turns, still, then_turn, Settled, Shows,
}

-- What an event of `broadcast` says of the user is what a step takes a friend that it reaches to be told.
announce-shown :
    (w : World) (u : ℕ) (me : PresenceRow) (s : Status)
    → s.is_online ≡ w.is_online u
    → (announce me.hide_last_seen true s).view ≡ (shown w u me me.hide_last_seen).online
unfolding announce shown
announce-shown w u me s same = elim (Bool-cases me.hide_last_seen) [
  | inl e ↦ rw e refl
  | inr e ↦ rw e same
]

-- What holds when the hub waits for each change to be announced.
pub record Prompt (s : Status) : Type 0 where
  pub notice : (s.notices ≡ []) ⊎ (s.notices ≡ s.is_online ∷ [])
  pub timer : (s.armed ≡ []) ⊎ ((t : ℕ) × (s.pending ≡ some t) × (s.armed ≡ t ∷ []) × (s.fired ≡ 0))
  pub waiting : (t : ℕ) → s.pending ≡ some t → (s.view ≡ true) × (s.announcing ≡ 0)
  pub here :
      s.is_online ≡ true
      → (s.view ≡ true) ⊎ (0 < s.announcing) ⊎ ((s.notices ≡ true ∷ []) × (s.pending ≡ none))
  pub gone :
      s.is_online ≡ false
      → (s.view ≡ false)
        ⊎ (0 < s.announcing)
        ⊎ (s.notices ≡ false ∷ [])
        ⊎ (s.armed ≢ [])
        ⊎ (0 < s.fired)
  pub leaving :
      s.notices ≡ false ∷ []
      → (s.pending ≡ none) × (s.armed ≡ []) × (s.fired ≡ 0) × (s.announcing ≡ 0) × (s.view ≡ true)
  pub back : s.is_online ≡ true → s.notices ≡ [] → (s.pending ≡ none) × (s.armed ≡ [])

flips-Prompt : (s : Status) → Prompt s → Calm s → Prompt (flips s)
unfolding flips
flips-Prompt s v (n, f, a) = record {
  notice = inr (ground arith);
  timer = v.timer;
  waiting = v.waiting;
  here =
      let g = v.gone in
      let w = v.waiting in
      elim (Option-cases s.pending) [
        | inl e ↦ λ o. inr (inr (ground arith, e))
        | inr (t, e) ↦ λ o. inl ((w t e).0)
      ];
  gone = λ o. inr (inr (inl (ground arith)));
  leaving =
      λ o. let h = v.here in let b = v.back in (ground arith, ground arith, f, a, ground arith);
  back = λ o e. absurd (ground arith);
}

on_changed-Prompt :
    (s : Status) (on : Bool) (rest : List Bool)
    → Prompt s
    → s.notices ≡ on ∷ rest
    → Prompt (on_changed (record s { notices = rest }) on)
unfolding on_changed changed_on changed_off
on_changed-Prompt s true rest v e =
    let n = v.notice in
    let r : rest ≡ [] = ground arith in
    let o : s.is_online ≡ true = ground arith in
    elim (Option-cases s.pending) [
      | inl p ↦
          let a : s.armed ≡ [] = elim v.timer [
            | inl z ↦ z
            | inr (k, q, z, y) ↦ absurd (ground arith)
          ] in
          rw (p, changed_on, r)
            record {
              notice = inl refl;
              timer = inl a;
              waiting = λ t q. absurd (cc);
              here = λ q. inr (inl (omega arith));
              gone = λ q. absurd (cc);
              leaving = λ q. absurd (cc);
              back = λ q z. (p, a);
            }
      | inr (t, p) ↦
          let w = v.waiting t p in
          let a : stop_timer t s.armed ≡ [] = elim v.timer [
            | inl z ↦ rw z refl
            | inr (k, q, z, y) ↦ ground arith
          ] in
          rw (p, changed_on, r)
            record {
              notice = inl refl;
              timer = inl a;
              waiting = λ u q. absurd (cc);
              here = λ q. inl (w.0);
              gone = λ q. absurd (cc);
              leaving = λ q. absurd (cc);
              back = λ q z. (refl, a);
            }
    ]
on_changed-Prompt s false rest v e =
    let l = v.leaving in
    let n = v.notice in
    let r : rest ≡ [] = ground arith in
    let p : s.pending ≡ none = ground arith in
    let a : s.armed ≡ [] = ground arith in
    rw (p, r)
      record {
        notice = inl refl;
        timer = inr (s.next_timer, refl, rw a refl, ground arith);
        waiting = λ t q. (ground arith, ground arith);
        here = λ q. absurd (ground arith);
        gone = λ q. inr (inr (inr (inl (λ z. absurd (cc)))));
        leaving = λ q. absurd (cc);
        back = λ q z. absurd (ground arith);
      }

goes_off-Prompt :
    (s : Status) (t : ℕ)
    → Prompt s
    → contains s.armed t ≡ true
    → Prompt (record s { armed = stop_timer t s.armed; fired = s.fired + 1 })
goes_off-Prompt s t v e = elim v.timer [
  | inl n ↦ absurd (ground arith)
  | inr (k, p, a, f) ↦
      let l = v.leaving in
      let b = v.back in
      record {
        notice = v.notice;
        timer = inl (ground arith);
        waiting = v.waiting;
        here = v.here;
        gone = λ o. inr (inr (inr (inr (omega arith))));
        leaving = λ o. absurd (ground arith);
        back = λ o q. absurd (ground arith);
      }
]

run_timer-Prompt : (s : Status) → Prompt s → 0 < s.fired → Prompt (run_timer s)
unfolding run_timer
run_timer-Prompt s v f =
    let a : s.armed ≡ [] = elim v.timer [
      | inl n ↦ n
      | inr (k, p, q, z) ↦ absurd (omega (arith, z))
    ] in
    let l = v.leaving in
    record {
      notice = v.notice;
      timer = inl a;
      waiting = λ t e. absurd (cc);
      here = λ o. inr (inl (omega arith));
      gone = λ o. inr (inl (omega arith));
      leaving = λ o. absurd (ground arith);
      back = λ o q. (refl, a);
    }

announce-Prompt :
    (s : Status) (hides reached : Bool)
    → Prompt s
    → 0 < s.announcing
    → Shows hides reached
    → Prompt (announce hides reached s)
unfolding announce
announce-Prompt s true reached v f (shown, there) = absurd (cc)
announce-Prompt s false false v f (shown, there) = absurd (cc)
announce-Prompt s false true v f (shown, there) =
    let l = v.leaving in
    record {
      notice = v.notice;
      timer = v.timer;
      waiting = λ t e. absurd (omega (arith, (v.waiting t e).1));
      here = λ o. inl o;
      gone = λ o. inl o;
      leaving = λ o. absurd (ground arith);
      back = v.back;
    }

Turn-Prompt : {s t : Status} → Turn true s t → Prompt s → Prompt t
Turn-Prompt (turns s (inl p)) v = absurd (cc)
Turn-Prompt (turns s (inr c)) v = flips-Prompt s v c
Turn-Prompt (delivers s on rest e) v = on_changed-Prompt s on rest v e
Turn-Prompt (goes_off s t e) v = goes_off-Prompt s t v e
Turn-Prompt (runs s f) v = run_timer-Prompt s v f
Turn-Prompt (announces s hides reached f (inl p)) v = absurd (cc)
Turn-Prompt (announces s hides reached f (inr c)) v = announce-Prompt s hides reached v f c

Turns-Prompt : {s t : Status} → Turns true s t → Prompt s → Prompt t
Turns-Prompt (still s) v = v
Turns-Prompt (then_turn run turn) v = Turn-Prompt turn (Turns-Prompt run v)

away-Prompt : (s : Status) → Settled s → s.is_online ≡ false → s.view ≡ false → Prompt s
away-Prompt s ((n, f, a), p, m) o w = record {
  notice = inl n;
  timer = inl m;
  waiting = λ t e. absurd (cc);
  here = λ q. absurd (cc);
  gone = λ q. inl w;
  leaving = λ q. absurd (cc);
  back = λ q z. (p, m);
}

-- If the hub changes only when nothing is on its way, the user does not hide the last seen, and
-- each announcement reaches the friend, then from a user whom the friend sees offline: a user who
-- is online with nothing on its way is seen online, and once no timer is left either, what the
-- friend was told last is what the hub says.
pub prompt_view :
    (s t : Status)
    → Settled s
    → s.is_online ≡ false
    → s.view ≡ false
    → Turns true s t
    → (Calm t → t.is_online ≡ true → t.view ≡ true) × (Settled t → t.view ≡ t.is_online)
prompt_view s t h o w run =
    let v = Turns-Prompt run (away-Prompt s h o w) in
    let on = v.here in let off = v.gone in (λ c q. ground arith, λ (c, p, m). ground arith)
