-- ===== src/Limits/Windows.antt =====
-- internal/platform/ratelimit/memory.go: what a request is told, and that the scan is not seen.
use chirpy.Prelude.{
  ℕ, ◌+◌, ◌-◌, ◌≤◌, ◌<◌, ◌≡◌, ◌≢◌, ◌↔◌, refl, sym, ap, ◌∙◌, inl, inr, true, false, Option, none,
  some, List, [], ◌∷◌, if◌then◌else◌, ltb, leb, ◌==◌, update, arith, Bool-cases,
}
use chirpy.Limits.Memory.{
  Window, Memory, Verdict, open_window, scan, window_or_new, use_window, allow, allow_all,
}

-- The uses of a key in its window at a time.
abbrev pub uses_at : Memory → ℕ → ℕ → ℕ
uses_at m key now = (window_or_new now (open_window m.period now (m.windows key))).uses

open_window_twice :
    (p now later : ℕ) (w : Option Window)
    → now ≤ later
    → open_window p later (open_window p now w) ≡ open_window p later w
open_window_twice p now later none l = refl
open_window_twice p now later (some w) l = ground arith

scan_window :
    (m : Memory) (now later k : ℕ)
    → now ≤ later
    → open_window m.period later ((scan m now).windows k) ≡ open_window m.period later (m.windows k)
unfolding scan
scan_window m now later k l = ground (arith, open_window_twice m.period now later (m.windows k) l)

scan_rest :
    (m : Memory) (now : ℕ) → ((scan m now).limit ≡ m.limit) × ((scan m now).period ≡ m.period)
unfolding scan
scan_rest m now = (ground arith, ground arith)

uses_at-scan :
    (m : Memory) (now later k : ℕ) → now ≤ later → uses_at (scan m now) k later ≡ uses_at m k later
uses_at-scan m now later k l =
    let (a, p) = scan_rest m now in
    let e : open_window (scan m now).period later ((scan m now).windows k)
        ≡ open_window m.period later (m.windows k) =
      rw p (scan_window m now later k l) in
    ap (λ o. (window_or_new later o).uses) e

-- The key's window after the request.
abbrev pub used : ℕ → Window → Window
used limit w = if leb limit w.uses then w else record w { uses = w.uses + 1 }

use_window_lem :
    (m : Memory) (key now : ℕ) (w : Window)
    → ((use_window m key now w).0.windows ≡ update m.windows key (some (used m.limit w)))
      × ((use_window m key now w).0.limit ≡ m.limit)
      × ((use_window m key now w).0.period ≡ m.period)
unfolding use_window
use_window_lem m key now w = elim (Bool-cases (leb m.limit w.uses)) [
  | inl e ↦ rw (e) (refl, refl, refl)
  | inr e ↦ rw (e) (refl, refl, refl)
]

-- Allow without the scan.
abbrev pub allow_plain : Memory → ℕ → ℕ → Memory × Verdict
allow_plain m key now =
    use_window m key now (window_or_new now (open_window m.period now (m.windows key)))

-- The window of a request is open at its time.
current_open :
    (p now : ℕ) (o : Option Window)
    → ltb ((window_or_new now (open_window p now o)).start + p) now ≡ false
current_open p now none = ground arith
current_open p now (some w) = ground arith

use_window_counts :
    (m : Memory) (key now : ℕ) (w : Window)
    → (((use_window m key now w).1.allowed ≡ true) ↔ (w.uses < m.limit))
      × ((use_window m key now w).1.remaining ≡ m.limit - (used m.limit w).uses)
      × ((used m.limit w).uses
          ≡ (if (use_window m key now w).1.allowed then w.uses + 1 else w.uses))
unfolding use_window
use_window_counts m key now w = (ground arith, ground arith, ground arith)

uses_after :
    (m : Memory) (key now : ℕ) (w : Window)
    → ltb (w.start + m.period) now ≡ false
    → uses_at (use_window m key now w).0 key now ≡ (used m.limit w).uses
unfolding use_window
uses_after m key now w o = ground arith

uses_other :
    (m : Memory) (key now k later : ℕ) (w : Window)
    → k ≢ key
    → uses_at (use_window m key now w).0 k later ≡ uses_at m k later
unfolding use_window
uses_other m key now k later w ne = ground arith

plain_counts :
    (m : Memory) (key now : ℕ)
    → (((allow_plain m key now).1.allowed ≡ true) ↔ (uses_at m key now < m.limit))
      × ((allow_plain m key now).1.remaining ≡ m.limit - uses_at (allow_plain m key now).0 key now)
      × (uses_at (allow_plain m key now).0 key now ≡ (
          if (allow_plain m key now).1.allowed then uses_at m key now + 1 else uses_at m key now))
plain_counts m key now =
    let w = window_or_new now (open_window m.period now (m.windows key)) in
    let (a, r, u) = use_window_counts m key now w in
    let e = uses_after m key now w (current_open m.period now (m.windows key)) in
    (a, rw e r, rw e u)

-- A request is allowed exactly when its key has been allowed fewer than the limit in its open
-- window; it is told what then remains, is counted if it was allowed, and the counts of the other
-- keys stay, then and later.
pub allow_counts :
    (m : Memory) (key now : ℕ)
    → (((allow m key now).1.allowed ≡ true) ↔ (uses_at m key now < m.limit))
      × ((allow m key now).1.remaining ≡ m.limit - uses_at (allow m key now).0 key now)
      × (uses_at (allow m key now).0 key now
          ≡ (if (allow m key now).1.allowed then uses_at m key now + 1 else uses_at m key now))
      × ((k later : ℕ)
          → k ≢ key
          → now ≤ later
          → uses_at (allow m key now).0 k later ≡ uses_at m k later)
unfolding allow
allow_counts m key now =
    let l = (scan_rest m now).0 in
    let (a, r, u) = plain_counts (scan m now) key now in
    let s = uses_at-scan m now now key (omega arith) in
    (
      (λ q. omega (arith, a.0 q, l, s), λ q. a.1 (omega (arith, q, l, s))),
      omega (arith, r, l),
      u ∙ ap (λ (t : ℕ). if (allow_plain (scan m now) key now).1.allowed then t + 1 else t) s,
      λ k later ne le. uses_other (scan m now) key now k later _ ne ∙ uses_at-scan m now later k le,
    )

-- Two limiters that agree on the windows open from a time on.
abbrev Same : ℕ → Memory → Memory → Type 0
Same now m n =
    (n.limit ≡ m.limit)
    × (n.period ≡ m.period)
    × ((k later : ℕ)
        → now ≤ later
        → open_window m.period later (n.windows k) ≡ open_window m.period later (m.windows k))

unfoldable pub plain_all : Memory → List (ℕ × ℕ) → List Verdict
plain_all m [] = []
plain_all m ((key, now) ∷ rest) =
    (allow_plain m key now).1 ∷ plain_all (allow_plain m key now).0 rest

-- The times do not go back.
abbrev pub Sorted : ℕ → List (ℕ × ℕ) → Type 0
Sorted now [] = Unit
Sorted now ((key, t) ∷ rest) = (now ≤ t) × Sorted t rest

use_window-verdict :
    (m n : Memory) (key now : ℕ) (w : Window)
    → n.limit ≡ m.limit
    → n.period ≡ m.period
    → (use_window n key now w).1 ≡ (use_window m key now w).1
unfolding use_window
use_window-verdict m n key now w l p = ground arith

use_window-Same :
    (m n : Memory) (key now : ℕ) (w : Window)
    → Same now m n
    → Same now (use_window m key now w).0 (use_window n key now w).0
use_window-Same m n key now w (l, p, o) =
    let (f, g, q) = use_window_lem m key now w in
    let (f1, g1, q1) = use_window_lem n key now w in
    (
      cc,
      cc,
      λ k later le.
          rw (f, f1, q, l)
            (elim (Bool-cases (key == k)) [ inl e ↦ rw e refl | inr e ↦ rw e (o k later le) ]),
    )

scan-Same : (m n : Memory) (from now : ℕ) → from ≤ now → Same from m n → Same now (scan m now) n
scan-Same m n from now le (l, p, o) =
    let (a, b) = scan_rest m now in
    (
      cc,
      cc,
      λ k later q. rw b (o k later (omega (arith, le, q)) ∙ sym (scan_window m now later k q)),
    )

-- The scan is not seen: for requests whose times do not go back, two limiters that agree on the
-- limit, the period and the open windows give the same answers, though one of them drops the
-- windows that are over and the other never does.
pub allow_all-plain_all :
    (m n : Memory) (from : ℕ) (requests : List (ℕ × ℕ))
    → Sorted from requests
    → Same from m n
    → allow_all m requests ≡ plain_all n requests
unfolding allow_all plain_all allow
allow_all-plain_all m n from [] h s = refl
allow_all-plain_all m n from ((key, now) ∷ rest) (le, h) s =
    let m1 = scan m now in
    let s1 = scan-Same m n from now le s in
    let w = window_or_new now (open_window m1.period now (m1.windows key)) in
    let o : window_or_new now (open_window n.period now (n.windows key)) ≡ w =
      let e : open_window n.period now (n.windows key)
          ≡ open_window m1.period now (m1.windows key) =
        rw (s1.1) (s1.2 key now (omega arith)) in
      ap (λ z. window_or_new now z) e in
    let v = use_window-verdict m1 n key now w (s1.0) (s1.1) in
    let ih =
      allow_all-plain_all (use_window m1 key now w).0 (use_window n key now w).0 now rest h
        (use_window-Same m1 n key now w s1) in
    rw (o, v, ih) refl
