-- ===== src/Chat/History.antt =====
-- internal/chat/service.go: HistoryQuery, privateHistory and groupHistory, with their queries in
-- repo.go. Where a query orders by created_at alone, `tie` says which of two that are equal comes first.
use chirpy.Prelude.{
  ℕ, zero, suc, min, Bool, true, false, not, ◌||◌, ◌&&◌, Option, none, some, List, [], ◌∷◌, ◌++◌,
  if◌then◌else◌, ltb, leb, ◌==◌, keep,
}
use chirpy.Chat.Model.{
  Result, ok, err, ◌>>=◌, require, bad_cursor, since_and_before, since_not_supported,
  not_valid_time, not_authorized,
}
use chirpy.Chat.Tables.{Message, Tables, find_message}
use chirpy.Chat.Authorize.{World, asked}
use chirpy.Chat.Send.{IdText, absent, garbled, id_is, between_two, holds_of}

abbrev pub stream_cap : ℕ
stream_cap = 200

abbrev pub page_size : ℕ
page_size = 30

abbrev pub max_page : ℕ
max_page = 100

-- A time that time.Parse takes; 0 is the zero time.
pub data TimeText : Type 0 where
  no_time : TimeText
  bad_time : TimeText
  time_is : ℕ → TimeText

-- A limit that is not positive is 0.
pub record HistoryQuery : Type 0 where
  pub since : TimeText
  pub before : IdText
  pub limit : ℕ

abbrev pub is_given : TimeText → Bool
is_given no_time = false
is_given other = true

abbrev pub is_cursor : IdText → Bool
is_cursor absent = false
is_cursor other = true

unfoldable pub parse_before : IdText → Result ℕ
parse_before absent = ok 0
parse_before garbled = err bad_cursor
parse_before (id_is id) = ok id

abbrev pub page_limit : ℕ → ℕ
page_limit zero = page_size
page_limit (suc n) = min (suc n) max_page

-- HistoryQuery.parse: the cursor, or 0, and the size of the page.
unfoldable pub parse_query : HistoryQuery → Result (ℕ × ℕ)
unfolding parse_before
parse_query q = do
  single ← require (not (is_given q.since && is_cursor q.before)) since_and_before
  before ← parse_before q.before
  ok (before, page_limit q.limit)

unfoldable pub parse_since : TimeText → Result ℕ
parse_since no_time = ok 0
parse_since bad_time = err not_valid_time
parse_since (time_is n) = ok n

abbrev pub take {ℓ} : {A : Type ℓ} → ℕ → List A → List A
take zero xs = []
take (suc n) [] = []
take (suc n) (x ∷ xs) = x ∷ take n xs

abbrev pub drop {ℓ} : {A : Type ℓ} → ℕ → List A → List A
drop zero xs = xs
drop (suc n) [] = []
drop (suc n) (x ∷ xs) = drop n xs

abbrev pub reverse {ℓ} : {A : Type ℓ} → List A → List A
reverse [] = []
reverse (x ∷ xs) = reverse xs ++ (x ∷ [])

abbrev pub put_in : (Message → Message → Bool) → Message → List Message → List Message
put_in first m [] = m ∷ []
put_in first m (x ∷ xs) = if first m x then m ∷ x ∷ xs else x ∷ put_in first m xs

-- ORDER BY, with the order as a test.
unfoldable pub ordered : (Message → Message → Bool) → List Message → List Message
ordered first [] = []
ordered first (m ∷ ms) = put_in first m (ordered first ms)

-- ORDER BY created_at DESC, and ORDER BY created_at DESC, id DESC.
abbrev pub newer : (Message → Message → Bool) → Message → Message → Bool
newer tie m n = ltb n.created_at m.created_at || ((n.created_at == m.created_at) && tie m n)

abbrev pub by_id : Message → Message → Bool
by_id m n = leb n.id m.id

-- ORDER BY created_at ASC.
abbrev pub older : (Message → Message → Bool) → Message → Message → Bool
older tie m n = ltb m.created_at n.created_at || ((n.created_at == m.created_at) && tie m n)

-- (created_at, id) < (at, id)
abbrev pub before_cursor : ℕ → ℕ → Message → Bool
before_cursor at id m = ltb m.created_at at || ((m.created_at == at) && ltb m.id id)

-- The newest `n`, in chronological order: GetRecent… and Get…Before with the reversal in repo.go.
unfoldable pub newest : (Message → Message → Bool) → ℕ → List Message → List Message
unfolding ordered
newest tie n ms = reverse (take n (ordered (newer tie) ms))

-- PrivateMessageCursor and GroupMessageCursor: when the message was sent, if it is of the chat.
abbrev pub cursor_at : (Message → Bool) → Option Message → Result ℕ
cursor_at ours none = err bad_cursor
cursor_at ours (some m) = if ours m then ok m.created_at else err bad_cursor

unfoldable pub page_before :
    (Message → Bool) → (Message → Bool) → List Message → ℕ → ℕ → Result (List Message)
unfolding newest
page_before ours visible ms before n = do
  at ← cursor_at ours (find_message before ms)
  ok (newest by_id n (keep (λ m. visible m && before_cursor at before m) ms))

unfoldable pub private_since : (Message → Message → Bool) → Tables → ℕ → ℕ → ℕ → List Message
unfolding ordered
private_since tie t me other since = take stream_cap (
    ordered (older tie)
      (keep (λ m. between_two me other m && ltb since m.created_at) t.private_side.messages))

unfoldable pub recent_private : (Message → Message → Bool) → Tables → ℕ → ℕ → ℕ → List Message
unfolding newest
recent_private tie t me other n = newest tie n (keep (between_two me other) t.private_side.messages)

unfoldable pub private_history :
    (Message → Message → Bool) → Tables → ℕ → ℕ → HistoryQuery → Result (List Message)
unfolding parse_query parse_since page_before private_since recent_private
private_history tie t me other q = do
  page ← parse_query q
  if page.0 == 0
      then (parse_since q.since >>= λ since. ok (
          if since == 0
          then recent_private tie t me other page.1
          else private_since tie t me other since))
      else page_before (between_two me other) (between_two me other) t.private_side.messages page.0
          page.1

-- What was sent since the viewer joined: nothing, if the viewer has no row.
abbrev pub since_join : World → ℕ → ℕ → Message → Bool
since_join w group me m =
    (m.to_id == group) && holds_of (λ joined. leb joined m.created_at) (w.joined_at group me)

unfoldable pub recent_group : (Message → Message → Bool) → World → Tables → ℕ → ℕ → ℕ → List Message
unfolding newest
recent_group tie w t group me n = newest tie n (keep (since_join w group me) t.group_side.messages)

unfoldable pub group_history :
    (Message → Message → Bool) → World → Tables → ℕ → ℕ → HistoryQuery → Result (List Message)
unfolding parse_query page_before recent_group
group_history tie w t me group q = do
  unasked ← require (not (is_given q.since)) since_not_supported
  page ← parse_query q
  member ← asked (w.is_member group me)
  inside ← require member not_authorized
  if page.0 == 0
      then ok (recent_group tie w t group me page.1)
      else page_before (λ m. m.to_id == group) (since_join w group me) t.group_side.messages page.0
          page.1
