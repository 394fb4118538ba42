-- ===== src/Presence/Late.antt =====
-- internal/presence/presence.go: a slow announcement, and a reconnect within the grace.
use chirpy.Prelude.{ℕ, Bool, false, none, []}
use chirpy.Presence.Changed.{Status}

-- A settled user who is offline.
abbrev away : ℕ → Bool → Status
away k v = record {
  is_online = false;
  notices = [];
  pending = none;
  armed = [];
  fired = 0;
  announcing = 0;
  next_timer = k;
  view = v;
}
