-- ===== src/Chat/Receipts.antt =====
-- internal/chat/service.go: MarkGroupRead, MarkSeen, HandleSeen, TypingTargets and SeenAllowed, with the
-- tables group_reads and seen_messages. A marker is the id of a message; the key of a private chat is
-- the pair of its sides, the smaller id first.
use chirpy.Prelude.{
  ℕ, min, max, Bool, true, false, not, ◌||◌, ◌&&◌, Option, none, some, List, [], ◌∷◌, if◌then◌else◌,
  ltb, leb, ◌==◌, keep, length, contains,
}
use chirpy.Chat.Model.{
  Result, ok, err, ◌>>=◌, require, read_by_max_members, Effect, push, group_read_event, seen_event,
  publish_seen, without, not_valid_uuid, not_authorized, not_in_chat, lookup_failed,
}
use chirpy.Chat.Tables.{Message, Tables, find_message}
use chirpy.Chat.Authorize.{World, asked, members_of, members_are, no_such_group, members_failed}
use chirpy.Chat.Send.{IdText, absent, garbled, id_is, between_two, holds_of}
use chirpy.Chat.History.{take, ordered, newer, by_id, before_cursor}

-- A marker for a chat (or group) and a user.
pub record Marker : Type 0 where
  pub chat : ℕ
  pub other : ℕ  -- the second side of a private chat, 0 for a group
  pub user : ℕ
  pub message : ℕ

abbrev pub is_marker : ℕ → ℕ → ℕ → Marker → Bool
is_marker chat other user k = (k.chat == chat) && ((k.other == other) && (k.user == user))

abbrev pub find_marker : ℕ → ℕ → ℕ → List Marker → Option ℕ
find_marker chat other user [] = none
find_marker chat other user (k ∷ ks) =
    if is_marker chat other user k then some k.message else find_marker chat other user ks

abbrev pub sent_at : ℕ → List Message → Option ℕ
sent_at id ms = elim (find_message id ms) [ none ↦ none | some m ↦ some m.created_at ]

-- The WHERE of the two upserts: the new message was sent no earlier than the marked one.
abbrev pub not_earlier : Option ℕ → Option ℕ → Bool
not_earlier none old = false
not_earlier (some a) none = false
not_earlier (some a) (some b) = leb b a

-- INSERT … ON CONFLICT DO UPDATE … WHERE: whether a row was written, and the rows.
unfoldable pub upsert_marker : List Message → ℕ → ℕ → ℕ → ℕ → List Marker → Bool × List Marker
upsert_marker ms chat other user msg [] =
    (true, record { chat = chat; other = other; user = user; message = msg } ∷ [])
upsert_marker ms chat other user msg (k ∷ ks) =
    let (wrote, rest) = upsert_marker ms chat other user msg ks in
    if is_marker chat other user k
    then (if not_earlier (sent_at msg ms) (sent_at k.message ms)
        then (true, record k { message = msg } ∷ ks)
        else (false, k ∷ ks))
    else (wrote, k ∷ rest)

abbrev pub parse_id : IdText → Result ℕ
parse_id (id_is id) = ok id
parse_id absent = err not_valid_uuid
parse_id garbled = err not_valid_uuid

abbrev pub distinct_senders : List Message → List ℕ
distinct_senders [] = []
distinct_senders (m ∷ ms) =
    let rest = distinct_senders ms in
    if (m.from_id == 0) || contains rest m.from_id then rest else m.from_id ∷ rest

-- RecentGroupSenders: of the last 50 messages of the group up to one that was sent at `at`.
unfoldable pub recent_senders : List Message → ℕ → ℕ → ℕ → List ℕ
unfolding ordered
recent_senders ms group at msg = distinct_senders (
    take 50 (
      ordered (newer by_id) (
        keep
          (λ m.
            (m.to_id == group)
            && (before_cursor at msg m || ((m.created_at == at) && (m.id == msg))))
          ms)))

pub record Marked : Type 0 where
  pub markers : List Marker
  pub effects : List Effect
  pub answer : Result (Unit {0})

abbrev unmarked : List Marker → Result (Unit {0}) → Marked
unmarked ks r = record { markers = ks; effects = []; answer = r }

-- GroupMessageCursor.
abbrev pub group_sent_at : ℕ → Option Message → Result ℕ
group_sent_at group none = err not_in_chat
group_sent_at group (some m) = if m.to_id == group then ok m.created_at else err not_in_chat

-- The message, the members, and when the message was sent.
unfoldable pub check_group_read : World → Tables → ℕ → ℕ → IdText → Result (ℕ × List ℕ × ℕ)
check_group_read w t me group text = do
  msg ← parse_id text
  members ← members_of w group
  inside ← require (contains members me) not_authorized
  at ← group_sent_at group (find_message msg t.group_side.messages)
  ok (msg, members, at)

abbrev pub read_targets : ℕ → List ℕ → List ℕ → List ℕ
read_targets me members senders = me ∷ keep (λ (u : ℕ). not (u == me) && contains members u) senders

unfoldable pub write_group_read : Tables → List Marker → ℕ → ℕ → ℕ × List ℕ × ℕ → Marked
unfolding recent_senders
write_group_read t ks me group (msg, members, at) =
    let (moved, markers) = upsert_marker t.group_side.messages group 0 me msg ks in
    record {
      markers = markers;
      effects =
          if moved && not (ltb read_by_max_members (length members))
          then push (read_targets me members (recent_senders t.group_side.messages group at msg))
              (group_read_event group me msg)
            ∷ []
          else [];
      answer = ok tt;
    }

unfoldable pub mark_group_read : World → Tables → List Marker → ℕ → ℕ → IdText → Marked
unfolding check_group_read write_group_read
mark_group_read w t ks me group text = elim (check_group_read w t me group text) [
  | err e ↦ unmarked ks (err e)
  | ok found ↦ write_group_read t ks me group found
]

-- SeenAllowed.
unfoldable pub seen_allowed : World → ℕ → ℕ → Option Bool
seen_allowed w from to = if from == to then some false else w.friends from to

abbrev pub is_yes : Option Bool → Bool
is_yes none = false
is_yes (some b) = b

unfoldable pub parse_seen : Tables → ℕ → ℕ → IdText → Result ℕ
parse_seen t me other text = do
  msg ← parse_id text
  inside ←
      require (holds_of (between_two me other) (find_message msg t.private_side.messages))
        not_in_chat
  ok msg

pub record SeenAnswer : Type 0 where
  pub effects : List Effect
  pub answer : Result (Unit {0})

-- MarkSeen, with whether Redis takes the marker and the queue the job.
unfoldable pub mark_seen : World → Bool → Bool → Tables → ℕ → ℕ → IdText → SeenAnswer
unfolding parse_seen seen_allowed
mark_seen w cached queued t me other text = elim (parse_seen t me other text) [
  | err e ↦ record { effects = []; answer = err e }
  | ok msg ↦
      if not cached
      then record { effects = []; answer = err lookup_failed }
      else if not queued
      then record { effects = []; answer = err lookup_failed }
      else record {
        effects =
            publish_seen (min me other) (max me other) me msg
            ∷ (if is_yes (seen_allowed w me other)
                then push (other ∷ []) (seen_event msg me) ∷ []
                else []);
        answer = ok tt;
      }
]

-- HandleSeen: the job's marker is upserted as one of a group is.
unfoldable pub handle_seen : Tables → ℕ → ℕ → ℕ → ℕ → List Marker → List Marker
unfolding upsert_marker
handle_seen t low high user msg ks = (upsert_marker t.private_side.messages low high user msg ks).1

-- TypingTargets: an unknown group is nobody.
unfoldable pub typing_targets : World → ℕ → ℕ → Bool → Result (List ℕ)
typing_targets w from to false =
    asked (w.friends from to) >>= λ friends. ok (if friends then to ∷ [] else [])
typing_targets w from to true = elim (w.members to) [
  | members_are us ↦ ok (if contains us from then without from us else [])
  | no_such_group ↦ ok []
  | members_failed ↦ err lookup_failed
]
