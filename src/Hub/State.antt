-- ===== src/Hub/State.antt =====
-- internal/ws/hub.go and client.go: the hub, its clients, and their channels. A client is a pointer;
-- a client's Send is a buffered channel: what is queued in it, and whether it is closed. A close or
-- a send on a closed channel is a panic, which the hub then shows.
use chirpy.Prelude.{
  ℕ, Bool, true, false, ◌||◌, Option, none, some, List, [], ◌∷◌, ◌++◌, if◌then◌else◌, ltb, update,
  length, lookup,
}

abbrev pub max_devices : ℕ
max_devices = 5

-- The buffer that Serve gives Send.
abbrev pub send_buffer : ℕ
send_buffer = 256

pub record Client : Type 0 where
  pub user_id : ℕ
  pub id : ℕ

pub record Conn : Type 0 where
  pub user : ℕ
  pub conn_id : ℕ

pub record Hub : Type 0 where
  pub clients : List (ℕ × List ℕ)  -- oldest first
  pub objs : ℕ → Client
  pub queue : ℕ → List ℕ
  pub closed : ℕ → Bool
  pub next_ptr : ℕ
  pub panicked : Bool

pub data Effect : Type 0 where
  -- presence is told about a user.
  changed : ℕ → Bool → Effect
  -- calls is told about a connection.
  connected : Conn → Effect
  disconnected : Conn → Effect

abbrev pub new_hub : Hub
new_hub = record {
  clients = [];
  objs = λ p. record { user_id = 0; id = 0 };
  queue = λ p. [];
  closed = λ p. false;
  next_ptr = 0;
  panicked = false;
}

abbrev pub or_nil : Option (List ℕ) → List ℕ
or_nil none = []
or_nil (some l) = l

-- h.clients[u]
abbrev pub list_of : Hub → ℕ → List ℕ
list_of h u = or_nil (lookup u h.clients)

abbrev pub conn_of : Hub → ℕ → Conn
conn_of h p = record { user = (h.objs p).user_id; conn_id = (h.objs p).id }

-- close(c.Send)
unfoldable pub close : Hub → ℕ → Hub
close h p = record h { closed = update h.closed p true; panicked = h.panicked || h.closed p }

-- `select { case c.Send <- bytes: … default: … }`, and whether it was sent.
unfoldable pub try_send : Hub → ℕ → ℕ → Hub × Bool
try_send h p bytes =
    if h.closed p
    then (record h { panicked = true }, false)
    else if ltb (length (h.queue p)) send_buffer
    then (record h { queue = update h.queue p (h.queue p ++ (bytes ∷ [])) }, true)
    else (h, false)

abbrev pub rest_of : List ℕ → List ℕ
rest_of [] = []
rest_of (x ∷ xs) = xs

-- WritePump takes one message.
unfoldable pub drain : Hub → ℕ → Hub
drain h p = record h { queue = update h.queue p (rest_of (h.queue p)) }
