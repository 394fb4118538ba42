-- ===== src/Presence/Views.antt =====
-- internal/presence/presence.go: what friends are told (`broadcast`) and what they read (`Friends`).
-- The friends service and the rows of PresenceOf are arguments: `none` is an error, or no such row.
use chirpy.Prelude.{
  ℕ, Bool, true, false, not, ◌||◌, Option, none, some, List, [], ◌∷◌, if◌then◌else◌, keep, update,
}

-- What PresenceOf tells of one account.
pub record PresenceRow : Type 0 where
  pub last_seen_at : Option ℕ
  pub hide_last_seen : Bool

pub record World : Type 0 where
  pub relationships : ℕ → Option (List ℕ)  -- the friends in the snapshot
  pub row : ℕ → Option PresenceRow
  pub is_online : ℕ → Bool

-- OutPresenceEvent and Entry have the same fields.
pub record Entry : Type 0 where
  pub user_id : ℕ
  pub online : Bool
  pub last_seen : Option ℕ
  pub hidden : Bool

pub data Sent : Type 0 where
  load_failed : Sent
  nothing : Sent
  sent : List ℕ → Entry → Sent

abbrev pub last_seen_of : Option ℕ → Bool → Option ℕ
last_seen_of t on = if on then none else t

abbrev pub hides : Option PresenceRow → Bool
hides none = false
hides (some r) = r.hide_last_seen

-- What may be shown of an account that hides its last seen, or does not.
unfoldable pub shown : World → ℕ → PresenceRow → Bool → Entry
shown w u r hidden =
    if hidden
    then record { user_id = u; online = false; last_seen = none; hidden = true }
    else record {
      user_id = u;
      online = w.is_online u;
      last_seen = last_seen_of r.last_seen_at (w.is_online u);
      hidden = false;
    }

abbrev pub sent_to : List ℕ → Entry → Sent
sent_to [] ev = nothing
sent_to (u ∷ us) ev = sent (u ∷ us) ev

-- The rest of `broadcast` for the friends who are online.
unfoldable pub broadcast_to : World → ℕ → List ℕ → Sent
unfolding shown
broadcast_to w u [] = nothing
broadcast_to w u (f ∷ fs) = elim (w.row u) [
  | none ↦ nothing
  | some me ↦ sent_to (keep (λ v. not (hides (w.row v))) (f ∷ fs)) (shown w u me me.hide_last_seen)
]

unfoldable pub broadcast : World → ℕ → Sent
unfolding broadcast_to
broadcast w u = elim (w.relationships u) [
  | none ↦ load_failed
  | some friends ↦ broadcast_to w u (keep w.is_online friends)
]

-- The entries of Friends: an account without a row is passed over.
unfoldable pub entries : World → Bool → List ℕ → List Entry
unfolding shown
entries w hide_mine [] = []
entries w hide_mine (f ∷ fs) =
    let rest = entries w hide_mine fs in
    elim (w.row f) [ none ↦ rest | some r ↦ shown w f r (hide_mine || r.hide_last_seen) ∷ rest ]

unfoldable pub friends_of : World → ℕ → Option (Bool × List Entry)
unfolding entries
friends_of w me = elim (w.relationships me) [
  | none ↦ none
  | some friends ↦ some (hides (w.row me), entries w (hides (w.row me)) friends)
]

-- SetHideLastSeen: an account without a row stays without one.
abbrev pub hidden_row : Option PresenceRow → Bool → Option PresenceRow
hidden_row none hide = none
hidden_row (some r) hide = some (record r { hide_last_seen = hide })

unfoldable pub set_hidden : World → ℕ → Bool → World × Sent
unfolding broadcast
set_hidden w me hide =
    let w1 : World = record w { row = update w.row me (hidden_row (w.row me) hide) } in
    (w1, broadcast w1 me)
