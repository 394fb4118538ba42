-- ===== src/Hub/Presence.antt =====
-- What the hub of internal/ws/hub.go tells presence and the call manager.
use chirpy.Prelude.{
  ℕ, ◌+◌, ◌≡◌, Bool, true, false, ◌&&◌, Option, none, some, List, [], ◌∷◌, if◌then◌else◌, ◌==◌,
}
use chirpy.Hub.State.{Hub, Client, Effect, changed, connected, disconnected, Conn, list_of}
use chirpy.Hub.Ops.{is_nil, online}

-- A notice that changes nothing is not followed: `none`.
abbrev pub flip : Bool → Option Bool → Option Bool
flip on none = none
flip true (some b) = if b then none else some true
flip false (some b) = if b then some false else none

-- What the notices about a user come to.
unfoldable pub follow : ℕ → List Effect → Option Bool → Option Bool
follow u [] s = s
follow u (changed v on ∷ fx) s = follow u fx (if v == u then flip on s else s)
follow u (connected c ∷ fx) s = follow u fx s
follow u (disconnected c ∷ fx) s = follow u fx s

abbrev pub is_conn : ℕ → ℕ → Conn → Bool
is_conn u id c = (c.user == u) && (c.conn_id == id)

-- How often a connection of a user came, and went.
unfoldable pub opened : ℕ → ℕ → List Effect → ℕ
opened u id [] = 0
opened u id (changed v on ∷ fx) = opened u id fx
opened u id (connected c ∷ fx) = (if is_conn u id c then 1 else 0) + opened u id fx
opened u id (disconnected c ∷ fx) = opened u id fx

unfoldable pub gone : ℕ → ℕ → List Effect → ℕ
gone u id [] = 0
gone u id (changed v on ∷ fx) = gone u id fx
gone u id (connected c ∷ fx) = gone u id fx
gone u id (disconnected c ∷ fx) = (if is_conn u id c then 1 else 0) + gone u id fx

-- The clients of a list that have the id of a connection.
abbrev pub with_id : (ℕ → Client) → ℕ → List ℕ → ℕ
with_id objs id [] = 0
with_id objs id (p ∷ list) = (if (objs p).id == id then 1 else 0) + with_id objs id list

abbrev pub registered : Hub → ℕ → ℕ → ℕ
registered h u id = with_id h.objs id (list_of h u)

-- The notices about a user take presence from one hub to the other, and for each id of a connection the
-- notices about it take the registered clients with that id from one to the other.
abbrev pub Told : Hub → List Effect → Hub → ℕ → ℕ → Type 0
Told h fx k u id =
    (follow u fx (some (online h u)) ≡ some (online k u))
    × (registered h u id + opened u id fx ≡ registered k u id + gone u id fx)

-- The notice after the last client of a list went.
abbrev offline : ℕ → List ℕ → List Effect
offline u list = if is_nil list then [] else changed u false ∷ []

-- The notice before the first client of a list comes.
abbrev coming_online : ℕ → List ℕ → List Effect
coming_online u list = if is_nil list then changed u true ∷ [] else []
