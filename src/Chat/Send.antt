-- ===== src/Chat/Send.antt =====
-- internal/chat/service.go: SendMessage without client_msg_id, and Forward. Media is an argument:
-- whether it is on, and what Attach, ForMessages and Duplicate answer. A text id is as uuid.Parse sees it.
use chirpy.Prelude.{
  ℕ, Bool, false, not, ◌||◌, ◌&&◌, Option, none, some, List, [], ◌∷◌, if◌then◌else◌, ltb, ◌==◌,
  length, contains,
}
use chirpy.Chat.Model.{
  Kind, private, public, Result, ok, err, ◌>>=◌, require, max_message_len, trim_space,
  empty_message, media_disabled, not_valid_to_id, not_valid_parent, not_friends, not_authorized,
  not_supported_type, lookup_failed, Effect, push, notify_message, message_event, with_me, without,
}
use chirpy.Chat.Tables.{Message, Tables, side, with_side, find_message, is_some, add_message}
use chirpy.Chat.Authorize.{World, asked, members_of}
use chirpy.Chat.Change.{Outcome, refused, and_then}

pub data IdText : Type 0 where
  absent : IdText
  garbled : IdText
  id_is : ℕ → IdText

pub record Incoming : Type 0 where
  pub content : List ℕ
  pub parent_id : IdText
  pub to_id : IdText
  pub kind : Option Kind  -- `none` is any other text
  pub media : List ℕ
  pub forwarded : Bool

pub record Media : Type 0 where
  pub attach : ℕ → List ℕ → Kind → ℕ → ℕ → Result (List ℕ)
  pub for_message : ℕ → Result (List ℕ)
  pub duplicate : ℕ → ℕ → Result ℕ

pub record Services : Type 0 where
  pub world : World
  pub media : Option Media
  pub notifier : Bool
  pub saves : Message → Bool  -- whether the insert succeeds
  pub suspended : ℕ → Option Bool

-- `n` characters, with media or without.
abbrev pub length_fits : List ℕ → List ℕ → Bool
length_fits content media =
    not (((length content == 0) && (length media == 0)) || ltb max_message_len (length content))

-- The receiver's or the group's id: one that parses, and not the sender's.
unfoldable pub parse_to : ℕ → IdText → Result ℕ
parse_to from (id_is to) = if to == from then err not_valid_to_id else ok to
parse_to from absent = err not_valid_to_id
parse_to from garbled = err not_valid_to_id

-- uuid.Nil is no parent.
unfoldable pub parse_parent : IdText → Result ℕ
parse_parent absent = ok 0
parse_parent garbled = err not_valid_parent
parse_parent (id_is parent) = ok parent

unfoldable pub targets_of : World → ℕ → ℕ → Option Kind → Result (Kind × List ℕ)
targets_of w from to none = err not_supported_type
targets_of w from to (some private) = do
  friends ← asked (w.friends from to)
  checked ← require friends not_friends
  ok (private, to ∷ [])
targets_of w from to (some public) = do
  members ← members_of w to
  checked ← require (contains members from) not_authorized
  ok (public, without from members)

abbrev pub between_two : ℕ → ℕ → Message → Bool
between_two a b m = ((m.from_id == a) && (m.to_id == b)) || ((m.from_id == b) && (m.to_id == a))

-- PrivateMessageInChat and GroupMessageInGroup.
abbrev pub in_chat : Kind → ℕ → ℕ → Message → Bool
in_chat private from to m = between_two from to m
in_chat public from to m = m.to_id == to

abbrev pub holds_of {ℓ} : {A : Type ℓ} → (A → Bool) → Option A → Bool
holds_of test none = false
holds_of test (some a) = test a

unfoldable pub parent_in_chat : Tables → Kind → ℕ → ℕ → ℕ → Bool
parent_in_chat t kind parent from to =
    holds_of (in_chat kind from to) (find_message parent (side kind t).messages)

-- What send has found out when it comes to the media.
pub record Checked : Type 0 where
  pub text : List ℕ
  pub to : ℕ
  pub kind : Kind
  pub targets : List ℕ
  pub parent : ℕ

unfoldable pub check_send : Services → Tables → ℕ → Incoming → Result Checked
unfolding parse_to parse_parent targets_of parent_in_chat
check_send s t from m = do
  let text = trim_space m.content
  sized ← require (length_fits text m.media) empty_message
  enabled ← require ((length m.media == 0) || is_some s.media) media_disabled
  to ← parse_to from m.to_id
  parent ← parse_parent m.parent_id
  found ← targets_of s.world from to m.kind
  here ← require ((parent == 0) || parent_in_chat t found.0 parent from to) not_valid_parent
  ok (record { text = text; to = to; kind = found.0; targets = found.1; parent = parent })

unfoldable pub attach_media : Services → ℕ → List ℕ → Checked → ℕ → Result (List ℕ)
attach_media s from [] c id = ok []
attach_media s from (x ∷ xs) c id = elim s.media [
  | none ↦ err media_disabled
  | some media ↦ media.attach from (x ∷ xs) c.kind c.to id
]

abbrev pub parent_row : IdText → Option ℕ
parent_row (id_is parent) = some parent
parent_row other = none

unfoldable pub new_message : ℕ → Incoming → Checked → ℕ → ℕ → Message
new_message from m c id now = record {
  id = id;
  from_id = from;
  to_id = c.to;
  parent_id = parent_row m.parent_id;
  content = c.text;
  created_at = now;
  edited_at = none;
  deleted_at = none;
  forwarded = m.forwarded;
}

abbrev pub group_if : Kind → ℕ → ℕ
group_if private to = 0
group_if public to = to

abbrev pub job_group : Kind → ℕ → Option ℕ
job_group private to = none
job_group public to = some to

unfoldable pub deliver : Services → ℕ → ℕ → Checked → List Effect
deliver s from id c =
    push (with_me c.targets from) (message_event id from c.kind (group_if c.kind c.to) c.text)
    ∷ (if s.notifier then notify_message c.targets from (job_group c.kind c.to) id ∷ [] else [])

unfoldable pub save : Services → ℕ → Incoming → Checked → ℕ → ℕ → Tables → Outcome ℕ
unfolding new_message deliver
save s from m c id now t =
    let row : Message = new_message from m c id now in
    if s.saves row
    then record {
      tables = with_side c.kind (add_message row (side c.kind t)) t;
      effects = deliver s from id c;
      answer = ok id;
    }
    else refused t (err lookup_failed)

-- send: `id` is the new message's.
unfoldable pub send : Services → ℕ → Incoming → ℕ → ℕ → Tables → Outcome ℕ
unfolding check_send attach_media save
send s from m id now t =
    and_then t (check_send s t from m)
      (λ c. and_then t (attach_media s from m.media c id) (λ attached. save s from m c id now t))
