-- ===== src/Tickets/Redeem.antt =====
-- internal/ws/ticket.go. Times are nanoseconds; a ticket carries its expiry in milliseconds. The
-- signature of the fields by HMAC is a parameter, and base64 is left out: a ticket that does not
-- decode to the right length is refused before anything else.
use chirpy.Prelude.{
  ℕ, ◌+◌, ◌-◌, ◌*◌, ◌/◌, not, Option, none, some, List, [], ◌∷◌, if◌then◌else◌, leb, ◌==◌, update,
}

abbrev pub millisecond : ℕ
millisecond = 1000000

abbrev pub ticket_ttl : ℕ
ticket_ttl = 30000000000

pub record Ticket : Type 0 where
  pub user : ℕ
  pub expiry_ms : ℕ
  pub nonce : ℕ
  pub sig : ℕ

-- The nonces used up, with the expiry of their tickets.
pub record Tickets : Type 0 where
  pub spent : ℕ → Option ℕ

-- time.UnixMilli of the expiry.
abbrev pub expiry : Ticket → ℕ
expiry t = t.expiry_ms * millisecond

-- The expired ones are forgotten.
abbrev pub unexpired : ℕ → Option ℕ → Option ℕ
unexpired now none = none
unexpired now (some e) = if leb e now then none else some e

-- Redeem, under the mutex: the user and when the ticket was made.
unfoldable pub use_up : Tickets → ℕ → Ticket → Option (ℕ × ℕ) × Tickets
use_up s now t = elim (s.spent t.nonce) [
  | some e ↦ (none, s)
  | none ↦ (
    some (t.user, expiry t - ticket_ttl),
    record { spent = update (λ n. unexpired now (s.spent n)) t.nonce (some (expiry t)) },
  )
]

module _ (sign : ℕ → ℕ → ℕ → ℕ) where
  unfoldable pub issue : ℕ → ℕ → ℕ → Ticket
  issue now user nonce =
      let ms = (now + ticket_ttl) / millisecond in
      record { user = user; expiry_ms = ms; nonce = nonce; sig = sign user ms nonce }

  unfoldable pub redeem : Tickets → ℕ → Ticket → Option (ℕ × ℕ) × Tickets
  unfolding use_up
  redeem s now t =
      if not (t.sig == sign t.user t.expiry_ms t.nonce)
      then (none, s)
      else if leb (expiry t) now
      then (none, s)
      else use_up s now t

  -- Any redemptions, each with its time.
  unfoldable pub redeem_all : Tickets → List (ℕ × Ticket) → Tickets
  unfolding redeem
  redeem_all s [] = s
  redeem_all s ((now, t) ∷ rest) = redeem_all (redeem s now t).1 rest
