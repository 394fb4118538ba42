-- ===== src/Presence/Tests.antt =====
-- Users 1, 2 and 3 of internal/presence: 2 and 3 are friends of 1, and 3 hides the last seen.
use chirpy.Prelude.{
  ◌≡◌, refl, inr, Bool, true, false, none, some, [], ◌∷◌, arith, if◌then◌else◌, ◌==◌,
}
use chirpy.Presence.Views.{PresenceRow, World, Entry}
use chirpy.Presence.Changed.{
  Status, flips, on_changed, changed_on, announce, turns, delivers, announces, Turns, still,
  then_turn, Calm, Settled,
}
use chirpy.Presence.Told.{prompt_view}

abbrev row_of : Bool → PresenceRow
row_of hide = record { last_seen_at = some 40; hide_last_seen = hide }

abbrev world : World
world = record {
  relationships = λ u. if u == 1 then some (2 ∷ 3 ∷ []) else some (1 ∷ []);
  row = λ u. some (row_of (u == 3));
  is_online = λ u. true;
}

abbrev mine : Entry
mine = record { user_id = 1; online = true; last_seen = none; hidden = false }

abbrev hidden_one : Entry
hidden_one = record { user_id = 1; online = false; last_seen = none; hidden = true }

abbrev out : Status
out = record {
  is_online = false;
  notices = [];
  pending = none;
  armed = [];
  fired = 0;
  announcing = 0;
  next_timer = 0;
  view = false;
}

abbrev coming : Status
coming = on_changed (record (flips out) { notices = [] }) true

arrives : Turns true out (announce false true coming)
unfolding flips on_changed changed_on
arrives =
    then_turn
      (then_turn (then_turn (still out) (turns out (inr (refl, refl, refl))))
        (delivers (flips out) true [] refl))
      (announces coming false true (omega arith) (inr (refl, refl)))

prompt_view_example :
    (Calm (announce false true coming)
      → (announce false true coming).is_online ≡ true
      → (announce false true coming).view ≡ true)
    × (Settled (announce false true coming)
        → (announce false true coming).view ≡ (announce false true coming).is_online)
prompt_view_example =
    prompt_view out (announce false true coming) ((refl, refl, refl), refl, refl) refl refl arrives
