-- ===== src/Tickets/Tests.antt =====
-- A ticket of internal/ws/ticket.go for user 4, signed by the sum of its fields.
use chirpy.Prelude.{ℕ, ◌+◌, ◌≡◌, refl, none, [], ◌∷◌, arith}
use chirpy.Tickets.Redeem.{Ticket, Tickets, redeem, redeem_all, use_up}
use chirpy.Tickets.Once.{redeem_once}

abbrev sum : ℕ → ℕ → ℕ → ℕ
sum u e n = u + e + n

abbrev unused : Tickets
unused = record { spent = λ n. none }

abbrev pass : Ticket
pass = record { user = 4; expiry_ms = 30005; nonce = 9; sig = 30018 }

redeem_once_example :
    (redeem sum
      (redeem_all sum (redeem sum unused 7000000 pass).1 ((8000000, pass) ∷ []))
      9000000
      pass).0
    ≡ none
unfolding redeem use_up
redeem_once_example =
    redeem_once sum unused 7000000 9000000 pass ((8000000, pass) ∷ []) refl
      (omega arith, omega arith)
