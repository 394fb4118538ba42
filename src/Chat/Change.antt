-- ===== src/Chat/Change.antt =====
-- internal/chat/service.go: what changes or asks about a message that is there: EditMessage,
-- DeleteMessage, React, Unreact, ReadBy. A call first asks whether the user may (on the tables as they
-- are then, `seen`) and then writes (on the tables as they are then, `t`). The database answers.
use chirpy.Prelude.{
  ℕ, ◌+◌, ◌-◌, Bool, true, false, not, ◌||◌, ◌&&◌, Option, none, some, List, [], ◌∷◌, ◌++◌,
  if◌then◌else◌, ltb, ◌==◌, length,
}
use chirpy.Chat.Model.{
  private, public, is_private, Result, ok, err, ◌>>=◌, require, edit_window, max_message_len,
  read_by_max_members, MessageRef, trim_space, empty_message, not_your_message, edit_window_closed,
  message_not_found, not_an_emoji, not_group_message, group_too_big, Effect, push, notify_reaction,
  expire_media, edited_event, deleted_event, reaction_event, with_me,
}
use chirpy.Chat.Tables.{
  Tables, side, with_side, edit_message_row, delete_message_row, set_reaction_row,
  delete_reaction_row,
}
use chirpy.Chat.Authorize.{World, asked, authorize_message}
use chirpy.Chat.Emoji.{validate_emoji}

-- What a call leaves: the tables, what it sent, and its answer.
pub record Outcome {ℓ} (A : Type ℓ) : Type ℓ where
  pub tables : Tables
  pub effects : List Effect
  pub answer : Result A

abbrev pub refused {ℓ} : {A : Type ℓ} → Tables → Result A → Outcome A
refused t r = record { tables = t; effects = []; answer = r }

-- Of the length that a text may have, trimmed.
abbrev pub fits : List ℕ → Bool
fits content = not ((length content == 0) || ltb max_message_len (length content))

-- EditMessage up to the write.
unfoldable pub may_edit : World → Tables → ℕ → ℕ → List ℕ → ℕ → Result (MessageRef × List ℕ)
may_edit w seen me id content now = do
  sized ← require (fits content) empty_message
  found ← authorize_message w seen me id true
  mine ← require (found.0.sender == me) not_your_message
  soon ← require (not (ltb edit_window (now - found.0.created_at))) edit_window_closed
  ok found

unfoldable pub write_edit : ℕ → ℕ → List ℕ → ℕ → Tables → MessageRef × List ℕ → Outcome (Unit {0})
write_edit me id content now t (ref, others) =
    let (edited, rows) = edit_message_row id content now (side ref.kind t) in
    if edited
    then record {
      tables = with_side ref.kind rows t;
      effects = push (with_me others me) (edited_event id me ref.kind ref.group content now) ∷ [];
      answer = ok tt;
    }
    else refused t (err message_not_found)

-- The answer of a check, and then the write.
abbrev pub and_then {ℓ κ} :
    {A : Type ℓ} {B : Type κ} → Tables → Result A → (A → Outcome B) → Outcome B
and_then t (ok a) write = write a
and_then t (err e) write = refused t (err e)

unfoldable pub edit_message : World → Tables → ℕ → ℕ → List ℕ → ℕ → Tables → Outcome (Unit {0})
unfolding may_edit write_edit
edit_message w seen me id content now t =
    let text = trim_space content in
    and_then t (may_edit w seen me id text now) (write_edit me id text now t)

-- One's own messages; in a group also others', where the groups service says so.
unfoldable pub may_delete_ref : World → ℕ → MessageRef → Result (Unit {0})
may_delete_ref w me ref = if ref.sender == me then ok tt else elim ref.kind [
  | private ↦ err not_your_message
  | public ↦
      asked (w.can_delete ref.group me ref.sender) >>= λ allowed. require allowed not_your_message
]

unfoldable pub may_delete : World → Tables → ℕ → ℕ → Result (MessageRef × List ℕ)
may_delete w seen me id = do
  found ← authorize_message w seen me id false
  allowed ← may_delete_ref w me found.0
  ok found

unfoldable pub write_delete : Bool → ℕ → ℕ → ℕ → Tables → MessageRef × List ℕ → Outcome (Unit {0})
write_delete media me id now t (ref, others) =
    let (deleted, rows) = delete_message_row id now (side ref.kind t) in
    if deleted
    then record {
      tables = with_side ref.kind rows t;
      effects =
          (if media then expire_media id ∷ [] else [])
          ++ (push (with_me others me) (
                deleted_event id ref.sender ref.kind ref.group
                  (if ref.sender == me then none else some me))
              ∷ []);
      answer = ok tt;
    }
    else refused t (err message_not_found)

unfoldable pub delete_message : World → Bool → Tables → ℕ → ℕ → ℕ → Tables → Outcome (Unit {0})
unfolding may_delete write_delete
delete_message w media seen me id now t =
    and_then t (may_delete w seen me id) (write_delete media me id now t)

-- pushReaction: the emoji is [] when it is taken back.
abbrev pub push_reaction : MessageRef → List ℕ → ℕ → ℕ → List ℕ → Effect
push_reaction ref to from id emoji = push to (reaction_event id from ref.kind ref.group emoji)

abbrev pub group_of : MessageRef → Option ℕ
group_of ref = if is_private ref.kind then none else some ref.group

unfoldable pub may_react : World → Tables → ℕ → ℕ → List ℕ → Result (MessageRef × List ℕ)
may_react w seen me id emoji = do
  one ← require (validate_emoji emoji) not_an_emoji
  authorize_message w seen me id true

unfoldable pub write_react :
    Bool → ℕ → ℕ → List ℕ → Tables → MessageRef × List ℕ → Outcome (Unit {0})
write_react notifier me id emoji t (ref, others) =
    let rows = side ref.kind t in
    record {
      tables =
          with_side ref.kind
            (record rows { reactions = set_reaction_row id me emoji rows.reactions }) t;
      effects =
          push_reaction ref (with_me others me) me id emoji
          ∷ (if notifier && (not (ref.sender == me) && not (ref.sender == 0))
              then notify_reaction (ref.sender ∷ []) me (group_of ref) id emoji ∷ []
              else []);
      answer = ok tt;
    }

unfoldable pub react : World → Bool → Tables → ℕ → ℕ → List ℕ → Tables → Outcome (Unit {0})
unfolding may_react write_react
react w notifier seen me id emoji t =
    and_then t (may_react w seen me id emoji) (write_react notifier me id emoji t)

unfoldable pub write_unreact : ℕ → ℕ → Tables → MessageRef × List ℕ → Outcome (Unit {0})
write_unreact me id t (ref, others) =
    let (removed, rows) = delete_reaction_row id me (side ref.kind t) in
    record {
      tables = with_side ref.kind rows t;
      effects = if removed then push_reaction ref (with_me others me) me id [] ∷ [] else [];
      answer = ok tt;
    }

unfoldable pub unreact : World → Tables → ℕ → ℕ → Tables → Outcome (Unit {0})
unfolding write_unreact
unreact w seen me id t = and_then t (authorize_message w seen me id false) (write_unreact me id t)

-- ReadBy up to its query, which goes to the members whose marker has passed the message.
unfoldable pub may_read_by : World → Tables → ℕ → ℕ → Result (MessageRef × List ℕ)
may_read_by w seen me id = do
  found ← authorize_message w seen me id false
  grouped ← require (not (is_private found.0.kind)) not_group_message
  mine ← require (found.0.sender == me) not_your_message
  small ← require (not (ltb read_by_max_members (length found.1 + 1))) group_too_big
  ok found
