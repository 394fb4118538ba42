-- ===== src/Hub/Ops.antt =====
-- internal/ws/hub.go: the hub's operations, each a run of the code that holds the mutex.
use chirpy.Prelude.{
  ℕ, ◌+◌, Bool, true, false, Option, none, some, List, [], ◌∷◌, ◌++◌, if◌then◌else◌, ltb, ◌==◌,
  update, length, insert, delete, contains,
}
use chirpy.Hub.State.{
  Conn, Hub, Effect, changed, connected, disconnected, list_of, conn_of, close, try_send,
  max_devices,
}

abbrev pub is_nil : List ℕ → Bool
is_nil [] = true
is_nil (x ∷ xs) = false

-- Run, on a client that Serve has made: the oldest connection goes if there are too many.
unfoldable pub with_device : Hub → ℕ → List ℕ → Hub × List Effect
unfolding close
with_device h u [] = (h, [])
with_device h u (oldest ∷ list) =
    if ltb max_devices (length (oldest ∷ list))
    then (
      record (close h oldest) { clients = insert u list h.clients },
      disconnected (conn_of h oldest) ∷ [],
    )
    else (record h { clients = insert u (oldest ∷ list) h.clients }, [])

-- NewClient.
unfoldable pub new_client : Hub → ℕ → ℕ → Hub
new_client h u id = record h {
  objs = update h.objs h.next_ptr (record { user_id = u; id = id });
  queue = update h.queue h.next_ptr [];
  next_ptr = h.next_ptr + 1;
}

unfoldable pub register : Hub → ℕ → ℕ → Hub × List Effect
unfolding with_device new_client
register h u id =
    let p = h.next_ptr in
    let (after, gone) = with_device (new_client h u id) u (list_of h u ++ (p ∷ [])) in
    let online : List Effect = if is_nil (list_of h u) then changed u true ∷ [] else [] in
    (after, gone ++ (online ++ (connected (record { user = u; conn_id = id }) ∷ [])))

-- append(list[:i:i], list[i+1:]...) at the index of the client.
abbrev pub take_away : ℕ → List ℕ → List ℕ
take_away p [] = []
take_away p (q ∷ list) = if q == p then list else q ∷ take_away p list

unfoldable pub without_device : Hub → ℕ → List ℕ → Hub × List Effect
without_device h u [] = (record h { clients = delete u h.clients }, changed u false ∷ [])
without_device h u (q ∷ list) = (record h { clients = insert u (q ∷ list) h.clients }, [])

unfoldable pub remove : Hub → ℕ → Hub × List Effect
unfolding close without_device
remove h p =
    let u = (h.objs p).user_id in
    let (after, offline) = without_device (close h p) u (take_away p (list_of h u)) in
    if contains (list_of h u) p then (after, disconnected (conn_of h p) ∷ offline) else (h, [])

unfoldable pub close_all : Hub → List ℕ → Hub
unfolding close
close_all h [] = h
close_all h (p ∷ list) = close_all (close h p) list

abbrev pub all_disconnected : Hub → ℕ → List ℕ → List Effect
all_disconnected h u [] = []
all_disconnected h u (p ∷ list) =
    disconnected (record { user = u; conn_id = (h.objs p).id }) ∷ all_disconnected h u list

unfoldable pub disconnect : Hub → ℕ → Hub × List Effect
unfolding close_all
disconnect h u =
    let list = list_of h u in
    let offline : List Effect = if is_nil list then [] else changed u false ∷ [] in
    (
      record (close_all h list) { clients = delete u h.clients },
      all_disconnected h u list ++ offline,
    )

-- The inner loop of `send`: the clients whose buffers are full come back.
unfoldable pub send_list : Hub → List ℕ → ℕ → Hub × List ℕ
unfolding try_send
send_list h [] bytes = (h, [])
send_list h (p ∷ list) bytes =
    let (h1, sent) = try_send h p bytes in
    let (h2, slow) = send_list h1 list bytes in (h2, if sent then slow else p ∷ slow)

-- The part of `send` under the mutex.
unfoldable pub send_locked : Hub → List ℕ → ℕ → Hub × List ℕ
unfolding send_list
send_locked h [] bytes = (h, [])
send_locked h (u ∷ targets) bytes =
    let (h1, slow) = send_list h (list_of h u) bytes in
    let (h2, more) = send_locked h1 targets bytes in (h2, slow ++ more)

unfoldable pub remove_all : Hub → List ℕ → Hub × List Effect
unfolding remove
remove_all h [] = (h, [])
remove_all h (p ∷ slow) =
    let (h1, fx) = remove h p in let (h2, more) = remove_all h1 slow in (h2, fx ++ more)

unfoldable pub send : Hub → List ℕ → ℕ → Hub × List Effect
unfolding send_locked remove_all
send h targets bytes = let (h1, slow) = send_locked h targets bytes in remove_all h1 slow

-- SendToConn looks for the last client with the connection's id.
unfoldable pub conn_target : Hub → ℕ → List ℕ → Option ℕ
conn_target h id [] = none
conn_target h id (p ∷ list) = elim (conn_target h id list) [
  | some q ↦ some q
  | none ↦ if (h.objs p).id == id then some p else none
]

unfoldable pub send_to_conn : Hub → Conn → ℕ → Hub × List Effect × Bool
unfolding conn_target try_send remove
send_to_conn h c bytes = elim (conn_target h c.conn_id (list_of h c.user)) [
  | none ↦ (h, [], false)
  | some p ↦
      let (h1, sent) = try_send h p bytes in
      let (h2, fx) = remove h1 p in if sent then (h1, [], true) else (h2, fx, false)
]

-- The loop of WriteToUserExcept.
unfoldable pub send_except : Hub → List ℕ → ℕ → ℕ → Hub
unfolding try_send
send_except h [] except bytes = h
send_except h (p ∷ list) except bytes =
    send_except (if (h.objs p).id == except then h else (try_send h p bytes).0) list except bytes

unfoldable pub write_to_user_except : Hub → ℕ → ℕ → ℕ → Hub
unfolding send_except
write_to_user_except h u except bytes = send_except h (list_of h u) except bytes

abbrev pub online : Hub → ℕ → Bool
online h u = ltb 0 (length (list_of h u))

-- Count.
abbrev pub count : Hub → ℕ
count h = length h.clients
