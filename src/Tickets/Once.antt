-- ===== src/Tickets/Once.antt =====
-- internal/ws/ticket.go: a ticket works in its time, and once.
use chirpy.Prelude.{
  ℕ, ◌+◌, ◌*◌, ◌/◌, ◌≤◌, ◌<◌, ◌≡◌, ◌⊎◌, ◌↔◌, refl, inl, inr, Bool, true, false, Option, none, some,
  List, [], ◌∷◌, arith,
}
use chirpy.Tickets.Redeem.{
  Ticket, Tickets, millisecond, ticket_ttl, expiry, use_up, issue, redeem, redeem_all,
}

abbrev pub is_ok : Option (ℕ × ℕ) → Bool
is_ok none = false
is_ok (some r) = true

-- A ticket that is used up, or over.
abbrev Over : ℕ → Tickets → Ticket → Type 0
Over now s t = (expiry t ≤ now) ⊎ (s.spent t.nonce ≡ some (expiry t))

-- The times do not go back.
abbrev pub Sorted : ℕ → List (ℕ × Ticket) → ℕ → Type 0
Sorted from [] last = from ≤ last
Sorted from ((now, t) ∷ rest) last = (from ≤ now) × Sorted now rest last

module _ (sign : ℕ → ℕ → ℕ → ℕ) where
  redeem-Over :
      (s : Tickets) (from now : ℕ) (t u : Ticket)
      → from ≤ now
      → Over from s t
      → Over now (redeem sign s now u).1 t
  unfolding redeem use_up
  redeem-Over s from now t u le (inl e) = inl (omega (arith, e, le))
  redeem-Over s from now t u le (inr e) = ground arith

  redeem_all-Over :
      (s : Tickets) (from last : ℕ) (t : Ticket) (rest : List (ℕ × Ticket))
      → Sorted from rest last
      → Over from s t
      → Over last (redeem_all sign s rest) t
  unfolding redeem_all
  redeem_all-Over s from last t [] h (inl e) = inl (omega (arith, e, h))
  redeem_all-Over s from last t [] h (inr e) = inr e
  redeem_all-Over s from last t ((now, u) ∷ rest) (le, h) o =
      redeem_all-Over (redeem sign s now u).1 now last t rest h (redeem-Over s from now t u le o)

  over_lem : (s : Tickets) (now : ℕ) (t : Ticket) → Over now s t → redeem sign s now t ≡ (none, s)
  unfolding redeem use_up
  over_lem s now t (inl e) = ground arith
  over_lem s now t (inr e) = ground arith

  redeem-spent :
      (s : Tickets) (now : ℕ) (t : Ticket)
      → is_ok (redeem sign s now t).0 ≡ true
      → (redeem sign s now t).1.spent t.nonce ≡ some (expiry t)
  unfolding redeem use_up
  redeem-spent s now t ok = ground arith

  -- A ticket that was redeemed is refused ever after, whatever tickets are redeemed in between at
  -- times that do not go back, also once its nonce is forgotten.
  pub redeem_once :
      (s : Tickets) (now later : ℕ) (t : Ticket) (rest : List (ℕ × Ticket))
      → is_ok (redeem sign s now t).0 ≡ true
      → Sorted now rest later
      → (redeem sign (redeem_all sign (redeem sign s now t).1 rest) later t).0 ≡ none
  redeem_once s now later t rest ok h =
      let after = redeem_all sign (redeem sign s now t).1 rest in
      let first : Over now (redeem sign s now t).1 t = inr (redeem-spent s now t ok) in
      rw (over_lem after later t (redeem_all-Over (redeem sign s now t).1 now later t rest h first))
        refl

  -- An issued ticket whose nonce is not used up is accepted exactly before its expiry, the issue's
  -- time and the ttl cut to milliseconds; it then gives the user, and a time of issue at most a
  -- millisecond too early.
  pub issue-redeem :
      (s : Tickets) (made now user nonce : ℕ)
      → s.spent nonce ≡ none
      → ((is_ok (redeem sign s now (issue sign made user nonce)).0 ≡ true)
          ↔ (now < ((made + ticket_ttl) / millisecond) * millisecond))
        × ((who since : ℕ)
            → (redeem sign s now (issue sign made user nonce)).0 ≡ some (who, since)
            → (who ≡ user) × (since ≤ made) × (made < since + millisecond))
  unfolding redeem use_up issue
  issue-redeem s made now user nonce e =
      (ground arith, λ who since p. (ground arith, ground arith, ground arith))
