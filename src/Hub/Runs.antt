-- ===== src/Hub/Runs.antt =====
-- The hub of internal/ws/hub.go under any interleaving of the parts that hold the mutex.
use chirpy.Prelude.{
  ℕ, ◌≤◌, ◌≡◌, refl, Bool, true, false, List, [], ◌∷◌, ◌++◌, arith, if◌then◌else◌, ◌==◌, length,
  length-append, contains, inl, inr, Bool-cases,
}
use chirpy.Hub.State.{Hub, Effect, list_of, send_buffer, try_send, drain, rest_of}
use chirpy.Hub.Ops.{
  register, remove, disconnect, send_list, send_locked, send_except, write_to_user_except,
}
use chirpy.Hub.Invariant.{Live, Few, open_lem}

-- What runs under the mutex: Run's two cases, Disconnect, the loops that send, and WritePump's reads.
-- `send` and SendToConn are a loop or one try, and then `removes` of what was slow.
pub data Op : Type 0 where
  registers : ℕ → ℕ → Op
  removes : ℕ → Op
  disconnects : ℕ → Op
  sends : List ℕ → ℕ → Op
  sends_to : ℕ → ℕ → ℕ → Op
  sends_except : ℕ → ℕ → ℕ → Op
  drains : ℕ → Op

-- SendToConn's try, at a client of the user's list.
abbrev pub try_listed : Hub → ℕ → ℕ → ℕ → Hub
try_listed h u p bytes = if contains (list_of h u) p then (try_send h p bytes).0 else h

unfoldable pub run : Hub → Op → Hub × List Effect
run h (registers u id) = register h u id
run h (removes p) = remove h p
run h (disconnects u) = disconnect h u
run h (sends targets bytes) = ((send_locked h targets bytes).0, [])
run h (sends_to u p bytes) = (try_listed h u p bytes, [])
run h (sends_except u except bytes) = (write_to_user_except h u except bytes, [])
run h (drains p) = (drain h p, [])

unfoldable pub run_all : Hub → List Op → Hub × List Effect
unfolding run
run_all h [] = (h, [])
run_all h (x ∷ xs) = let (h1, fx) = run h x in let (h2, more) = run_all h1 xs in (h2, fx ++ more)

pub record Sound (h : Hub) : Type 0 where
  pub live : Live h
  pub few : Few h
  pub bounded : (p : ℕ) → length (h.queue p) ≤ send_buffer

-- A hub that differs in the queues only.
abbrev pub Requeued : Hub → Hub → Type 0
Requeued h k =
    (k.clients ≡ h.clients)
    × (k.objs ≡ h.objs)
    × (k.closed ≡ h.closed)
    × (k.next_ptr ≡ h.next_ptr)
    × (k.panicked ≡ h.panicked)
    × (((p : ℕ) → length (h.queue p) ≤ send_buffer) → (p : ℕ) → length (k.queue p) ≤ send_buffer)

pub Requeued-Sound : (h k : Hub) → Requeued h k → Sound h → Sound k
Requeued-Sound h k (c, o, s, n, p, q) v = record {
  live = record {
    owned = rw (c, o, n) v.live.owned;
    shut = rw (c, o, s, n) v.live.shut;
    once = rw c v.live.once;
    kept = rw c v.live.kept;
    calm = rw p v.live.calm;
  };
  few = rw c v.few;
  bounded = q v.bounded;
}

try_send-Requeued : (h : Hub) (p bytes : ℕ) → h.closed p ≡ false → Requeued h (try_send h p bytes).0
unfolding try_send
try_send-Requeued h p bytes o = (
  ground arith,
  ground arith,
  ground arith,
  ground arith,
  ground arith,
  λ b q. ground (arith, b q, b p, length-append (h.queue p) (bytes ∷ [])),
)

Requeued-trans : (h k l : Hub) → Requeued h k → Requeued k l → Requeued h l
Requeued-trans h k l (c, o, s, n, p, q) (c1, o1, s1, n1, p1, q1) =
    (cc, cc, cc, cc, cc, λ b. q1 (q b))

send_list-Requeued :
    (h : Hub) (list : List ℕ) (bytes : ℕ)
    → ((q : ℕ) → contains list q ≡ true → h.closed q ≡ false)
    → Requeued h (send_list h list bytes).0
unfolding send_list
send_list-Requeued h [] bytes o = (refl, refl, refl, refl, refl, λ b. b)
send_list-Requeued h (p ∷ list) bytes o =
    let k = (try_send h p bytes).0 in
    let r = try_send-Requeued h p bytes (o p (ground arith)) in
    Requeued-trans h k (send_list k list bytes).0 r
      (send_list-Requeued k list bytes (λ q e. rw (r.2) (o q (ground arith))))

skip_or_send :
    (h : Hub) (p except bytes : ℕ)
    → h.closed p ≡ false
    → Requeued h (if (h.objs p).id == except then h else (try_send h p bytes).0)
skip_or_send h p except bytes o = elim (Bool-cases ((h.objs p).id == except)) [
  | inl e ↦ rw e (refl, refl, refl, refl, refl, λ b. b)
  | inr e ↦ rw e (try_send-Requeued h p bytes o)
]

send_except-Requeued :
    (h : Hub) (list : List ℕ) (except bytes : ℕ)
    → ((q : ℕ) → contains list q ≡ true → h.closed q ≡ false)
    → Requeued h (send_except h list except bytes)
unfolding send_except
send_except-Requeued h [] except bytes o = (refl, refl, refl, refl, refl, λ b. b)
send_except-Requeued h (p ∷ list) except bytes o =
    let k = if (h.objs p).id == except then h else (try_send h p bytes).0 in
    let r = skip_or_send h p except bytes (o p (ground arith)) in
    Requeued-trans h k (send_except k list except bytes) r
      (send_except-Requeued k list except bytes (λ q c. rw (r.2) (o q (ground arith))))

pub send_locked-Requeued :
    (h : Hub) (targets : List ℕ) (bytes : ℕ) → Sound h → Requeued h (send_locked h targets bytes).0
unfolding send_locked
send_locked-Requeued h [] bytes v = (refl, refl, refl, refl, refl, λ b. b)
send_locked-Requeued h (u ∷ targets) bytes v =
    let k = (send_list h (list_of h u) bytes).0 in
    let r = send_list-Requeued h (list_of h u) bytes (λ q e. open_lem h u q v.live e) in
    Requeued-trans h k (send_locked k targets bytes).0 r
      (send_locked-Requeued k targets bytes (Requeued-Sound h k r v))

length-rest : (xs : List ℕ) → length (rest_of xs) ≤ length xs
length-rest [] = omega arith
length-rest (x ∷ xs) = omega arith

drain-Requeued : (h : Hub) (p : ℕ) → Requeued h (drain h p)
unfolding drain
drain-Requeued h p =
    (refl, refl, refl, refl, refl, λ b q. ground (arith, b q, b p, length-rest (h.queue p)))

try_listed-Requeued : (h : Hub) (u p bytes : ℕ) → Sound h → Requeued h (try_listed h u p bytes)
try_listed-Requeued h u p bytes v = elim (Bool-cases (contains (list_of h u) p)) [
  | inl e ↦ rw e (try_send-Requeued h p bytes (open_lem h u p v.live e))
  | inr e ↦ rw e (refl, refl, refl, refl, refl, λ b. b)
]

-- The operations that change queues only.
abbrev pub is_send : Op → Bool
is_send (registers u id) = false
is_send (removes p) = false
is_send (disconnects u) = false
is_send _ = true

pub run-Requeued : (h : Hub) (x : Op) → is_send x ≡ true → Sound h → Requeued h (run h x).0
unfolding run write_to_user_except
run-Requeued h (registers u id) e v = absurd (cc)
run-Requeued h (removes p) e v = absurd (cc)
run-Requeued h (disconnects u) e v = absurd (cc)
run-Requeued h (sends targets bytes) e v = send_locked-Requeued h targets bytes v
run-Requeued h (sends_to u p bytes) e v = try_listed-Requeued h u p bytes v
run-Requeued h (sends_except u except bytes) e v =
    send_except-Requeued h (list_of h u) except bytes (λ q c. open_lem h u q v.live c)
run-Requeued h (drains p) e v = drain-Requeued h p
