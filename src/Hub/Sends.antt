-- ===== src/Hub/Sends.antt =====
-- `send` and SendToConn of internal/ws/hub.go as the parts that hold the mutex.
use chirpy.Prelude.{
  ℕ, ◌≡◌, refl, ap, Bool, true, false, Option, none, some, List, [], ◌∷◌, ◌++◌, arith, contains,
  map, inl, inr, Bool-cases, Option-cases,
}
use chirpy.Hub.State.{Hub, Conn, Effect, list_of, try_send}
use chirpy.Hub.Ops.{remove, remove_all, send, send_locked, send_to_conn, conn_target}
use chirpy.Hub.Runs.{Op, removes, sends, sends_to, run, run_all}

remove_all-run_all : (h : Hub) (slow : List ℕ) → remove_all h slow ≡ run_all h (map removes slow)
unfolding remove_all run_all run
remove_all-run_all h [] = refl
remove_all-run_all h (p ∷ slow) = ground (arith, remove_all-run_all (remove h p).0 slow)

-- A send to users is one run under the mutex followed by the removal of each client whose buffer
-- was full.
pub send-run_all :
    (h : Hub) (targets : List ℕ) (bytes : ℕ)
    → send h targets bytes
      ≡ run_all h (sends targets bytes ∷ map removes (send_locked h targets bytes).1)
unfolding send run_all run
send-run_all h targets bytes =
    ground
      (arith, remove_all-run_all (send_locked h targets bytes).0 (send_locked h targets bytes).1)

conn_target_listed :
    (h : Hub) (id p : ℕ) (list : List ℕ) → conn_target h id list ≡ some p → contains list p ≡ true
unfolding conn_target
conn_target_listed h id p [] e = absurd (cc)
conn_target_listed h id p (q ∷ list) e = ground (arith, conn_target_listed h id p list)

append_nil : (fx : List Effect) → fx ++ [] ≡ fx
append_nil [] = refl
append_nil (e ∷ fx) = ap (λ t. e ∷ t) (append_nil fx)

-- The steps of SendToConn.
abbrev pub conn_ops : Hub → Conn → ℕ → Option ℕ → Bool → List Op
conn_ops h c bytes none sent = []
conn_ops h c bytes (some p) true = sends_to c.user p bytes ∷ []
conn_ops h c bytes (some p) false = sends_to c.user p bytes ∷ removes p ∷ []

-- A send to a connection is nothing if it is gone, else one try at a client of the user's list,
-- and that client's removal if it was not sent.
pub send_to_conn-run_all :
    (h : Hub) (c : Conn) (bytes : ℕ)
    → ((send_to_conn h c bytes).0, (send_to_conn h c bytes).1)
      ≡ run_all h (
          conn_ops h c bytes
            (conn_target h c.conn_id (list_of h c.user))
            (send_to_conn h c bytes).2)
unfolding send_to_conn run_all run
send_to_conn-run_all h c bytes = elim (Option-cases (conn_target h c.conn_id (list_of h c.user))) [
  | inl e ↦ ground arith
  | inr (p, e) ↦
      let l = conn_target_listed h c.conn_id p (list_of h c.user) e in
      elim (Bool-cases (try_send h p bytes).1) [
        | inl s ↦ ground arith
        | inr s ↦ ground (arith, append_nil (remove (try_send h p bytes).0 p).1)
      ]
]
