-- ===== src/Chat/Tables.antt =====
-- The tables message and GroupMessage with their reactions, and the queries of sql/queries/chat.sql and
-- reactions.sql. The two tables have the same columns and queries but for their names, so one Table
-- stands for each; a row that has lost its sender has 0 there.
use chirpy.Prelude.{
  ℕ, Bool, true, false, not, ◌&&◌, Option, none, some, List, [], ◌∷◌, ◌++◌, if◌then◌else◌, ◌==◌,
  keep, map,
}
use chirpy.Chat.Model.{Kind, private, public}

-- `to_id` is the receiver, or the group; a deleted row has no content: [].
pub record Message : Type 0 where
  pub id : ℕ
  pub from_id : ℕ
  pub to_id : ℕ
  pub parent_id : Option ℕ
  pub content : List ℕ
  pub created_at : ℕ
  pub edited_at : Option ℕ
  pub deleted_at : Option ℕ
  pub forwarded : Bool

pub record Reaction : Type 0 where
  pub message_id : ℕ
  pub user_id : ℕ
  pub emoji : List ℕ

pub record Table : Type 0 where
  pub messages : List Message
  pub reactions : List Reaction

pub record Tables : Type 0 where
  pub private_side : Table
  pub group_side : Table

abbrev pub side : Kind → Tables → Table
side private t = t.private_side
side public t = t.group_side

abbrev pub with_side : Kind → Table → Tables → Tables
with_side private s t = record t { private_side = s }
with_side public s t = record t { group_side = s }

abbrev pub is_some {ℓ} : {A : Type ℓ} → Option A → Bool
is_some none = false
is_some (some a) = true

abbrev pub find_message : ℕ → List Message → Option Message
find_message id [] = none
find_message id (m ∷ ms) = if m.id == id then some m else find_message id ms

abbrev pub if_live : Option Message → Option Message
if_live none = none
if_live (some m) = if is_some m.deleted_at then none else some m

-- PrivateMessageParticipants and GroupMessageGroup: a message that is not deleted.
abbrev pub find_live : ℕ → Table → Option Message
find_live id t = if_live (find_message id t.messages)

-- AddMessagePrivate and AddMessagePublic.
unfoldable pub add_message : Message → Table → Table
add_message m t = record t { messages = t.messages ++ (m ∷ []) }

abbrev pub is_live_row : ℕ → Message → Bool
is_live_row id m = (m.id == id) && not (is_some m.deleted_at)

-- EditPrivateMessage and EditGroupMessage.
abbrev pub edit_row : ℕ → List ℕ → ℕ → Message → Message
edit_row id content at m =
    if is_live_row id m then record m { content = content; edited_at = some at } else m

unfoldable pub edit_message_row : ℕ → List ℕ → ℕ → Table → Bool × Table
edit_message_row id content at t =
    (is_some (find_live id t), record t { messages = map (edit_row id content at) t.messages })

-- DeletePrivateMessage and DeleteGroupMessage.
abbrev pub delete_row : ℕ → ℕ → Message → Message
delete_row id at m = if is_live_row id m then record m { content = []; deleted_at = some at } else m

unfoldable pub delete_message_row : ℕ → ℕ → Table → Bool × Table
delete_message_row id at t =
    if is_some (find_live id t)
    then (
      true,
      record {
        messages = map (delete_row id at) t.messages;
        reactions = keep (λ r. not (r.message_id == id)) t.reactions;
      },
    )
    else (false, t)

abbrev pub is_reaction : ℕ → ℕ → Reaction → Bool
is_reaction msg user r = (r.message_id == msg) && (r.user_id == user)

-- SetPrivateReaction and SetGroupReaction: one row for a message and a user.
unfoldable pub set_reaction_row : ℕ → ℕ → List ℕ → List Reaction → List Reaction
set_reaction_row msg user emoji [] = record { message_id = msg; user_id = user; emoji = emoji } ∷ []
set_reaction_row msg user emoji (r ∷ rs) =
    if is_reaction msg user r
    then record r { emoji = emoji } ∷ rs
    else r ∷ set_reaction_row msg user emoji rs

abbrev pub find_reaction : ℕ → ℕ → List Reaction → Option Reaction
find_reaction msg user [] = none
find_reaction msg user (r ∷ rs) =
    if is_reaction msg user r then some r else find_reaction msg user rs

-- DeletePrivateReaction and DeleteGroupReaction.
unfoldable pub delete_reaction_row : ℕ → ℕ → Table → Bool × Table
delete_reaction_row msg user t = (
  is_some (find_reaction msg user t.reactions),
  record t { reactions = keep (λ r. not (is_reaction msg user r)) t.reactions },
)
