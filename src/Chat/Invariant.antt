-- ===== src/Chat/Invariant.antt =====
-- Whatever the calls, in whatever order, and however late their writes, both tables stay sound.
use chirpy.Prelude.{ℕ, ◌+◌, refl, Bool, List, [], ◌∷◌, length, arith, Bool-cases, inl, inr}
use chirpy.Chat.Model.{Result, ok, err, ◌>>=◌, MessageRef}
use chirpy.Chat.Tables.{Tables, side, edit_message_row, delete_message_row, add_message}
use chirpy.Chat.Change.{
  Outcome, and_then, edit_message, delete_message, react, unreact, write_edit, write_delete,
  write_react, write_unreact,
}
use chirpy.Chat.Send.{
  Incoming, Services, Checked, send, save, new_message, check_send, attach_media,
}
use chirpy.Chat.Forward.{
  ForwardTarget, forward, forward_all, forward_one, check_forward, duplicate_all, copy_of,
}
use chirpy.Chat.Calls.{
  Call, send_call, edit_call, delete_call, react_call, unreact_call, forward_call, perform,
  perform_all, drawn, forwarded_tables,
}
use chirpy.Chat.Sides.{
  SoundSide, SoundTables, SoundTables-mono, side-SoundSide, with_side-SoundTables, edit-SoundSide,
  delete-SoundSide, set_reaction-SoundSide, delete_reaction-SoundSide, add_message-SoundSide,
}

-- A refused call leaves the tables.
and_then-SoundTables {ℓ κ} :
    {A : Type ℓ} {B : Type κ} (n : ℕ) (t : Tables) (r : Result A) (write : A → Outcome B)
    → SoundTables n t
    → ((a : A) → SoundTables n (write a).tables)
    → SoundTables n (and_then t r write).tables
and_then-SoundTables n t (ok a) write s w = w a
and_then-SoundTables n t (err e) write s w = s

write_edit-SoundTables :
    (n me id : ℕ) (content : List ℕ) (now : ℕ) (t : Tables) (found : MessageRef × List ℕ)
    → SoundTables n t
    → SoundTables n (write_edit me id content now t found).tables
unfolding write_edit
write_edit-SoundTables n me id content now t (ref, others) s =
    let row : SoundSide n (edit_message_row id content now (side ref.kind t)).1 =
      edit-SoundSide n id content now (side ref.kind t) (side-SoundSide n ref.kind t s) in
    elim (Bool-cases (edit_message_row id content now (side ref.kind t)).0) [
      | inl e ↦ rw (e, write_edit) (with_side-SoundTables n ref.kind _ t s row)
      | inr e ↦ rw (e, write_edit) s
    ]

write_delete-SoundTables :
    (n : ℕ) (media : Bool) (me id now : ℕ) (t : Tables) (found : MessageRef × List ℕ)
    → SoundTables n t
    → SoundTables n (write_delete media me id now t found).tables
unfolding write_delete
write_delete-SoundTables n media me id now t (ref, others) s =
    let row : SoundSide n (delete_message_row id now (side ref.kind t)).1 =
      delete-SoundSide n id now (side ref.kind t) (side-SoundSide n ref.kind t s) in
    elim (Bool-cases (delete_message_row id now (side ref.kind t)).0) [
      | inl e ↦ rw (e, write_delete) (with_side-SoundTables n ref.kind _ t s row)
      | inr e ↦ rw (e, write_delete) s
    ]

write_react-SoundTables :
    (n : ℕ) (notifier : Bool) (me id : ℕ) (emoji : List ℕ) (t : Tables)
    (found : MessageRef × List ℕ)
    → SoundTables n t
    → SoundTables n (write_react notifier me id emoji t found).tables
unfolding write_react
write_react-SoundTables n notifier me id emoji t (ref, others) s =
    with_side-SoundTables n ref.kind _ t s
      (set_reaction-SoundSide n id me emoji (side ref.kind t) (side-SoundSide n ref.kind t s))

write_unreact-SoundTables :
    (n me id : ℕ) (t : Tables) (found : MessageRef × List ℕ)
    → SoundTables n t
    → SoundTables n (write_unreact me id t found).tables
unfolding write_unreact
write_unreact-SoundTables n me id t (ref, others) s =
    with_side-SoundTables n ref.kind _ t s
      (delete_reaction-SoundSide n id me (side ref.kind t) (side-SoundSide n ref.kind t s))

save-SoundTables :
    (s : Services) (from : ℕ) (m : Incoming) (c : Checked) (n now : ℕ) (t : Tables)
    → SoundTables n t
    → SoundTables (n + 1) (save s from m c n now t).tables
unfolding save
save-SoundTables s from m c n now t h =
    let old : SoundTables (n + 1) t = SoundTables-mono n (n + 1) t (omega arith) h in
    let row : SoundSide (n + 1) (add_message (new_message from m c n now) (side c.kind t)) =
      unfold new_message in
      add_message-SoundSide n (new_message from m c n now) (side c.kind t)
        (side-SoundSide n c.kind t h) refl refl in
    elim (Bool-cases (s.saves (new_message from m c n now))) [
      | inl e ↦ rw (e, save) (with_side-SoundTables (n + 1) c.kind _ t old row)
      | inr e ↦ rw (e, save) old
    ]

send-SoundTables :
    (s : Services) (from : ℕ) (m : Incoming) (n now : ℕ) (t : Tables)
    → SoundTables n t
    → SoundTables (n + 1) (send s from m n now t).tables
unfolding send
send-SoundTables s from m n now t h =
    let old : SoundTables (n + 1) t = SoundTables-mono n (n + 1) t (omega arith) h in
    and_then-SoundTables (n + 1) t (check_send s t from m) _ old (λ c.
      and_then-SoundTables (n + 1) t (attach_media s from m.media c n) _ old
        (λ a. save-SoundTables s from m c n now t h))

forward_one-SoundTables :
    (s : Services) (me : ℕ) (text sources : List ℕ) (to : ForwardTarget) (n now : ℕ) (t : Tables)
    → SoundTables n t
    → SoundTables (n + 1) (forward_one s me text sources to n now t).tables
unfolding forward_one
forward_one-SoundTables s me text sources to n now t h =
    and_then-SoundTables (n + 1) t (duplicate_all s.media me sources) _
      (SoundTables-mono n (n + 1) t (omega arith) h)
      (λ copies. send-SoundTables s me (copy_of text to copies) n now t h)

forward_all-SoundTables :
    (s : Services) (me : ℕ) (text sources : List ℕ) (to : List ForwardTarget) (n now : ℕ)
    (t : Tables)
    → SoundTables n t
    → SoundTables (n + length to) (forward_all s me text sources to n now t).tables
unfolding forward_all
forward_all-SoundTables s me text sources [] n now t h =
    SoundTables-mono n (n + 0) t (omega arith) h
forward_all-SoundTables s me text sources (to ∷ rest) n now t h =
    let one : SoundTables (n + 1) (forward_one s me text sources to n now t).tables =
      forward_one-SoundTables s me text sources to n now t h in
    SoundTables-mono _ _ _ (omega arith) (
      forward_all-SoundTables s me text sources rest (n + 1) now
        (forward_one s me text sources to n now t).tables one)

forwarded-SoundTables :
    (s : Services) (me : ℕ) (to : List ForwardTarget) (n now : ℕ) (t : Tables)
    (found : Result (List ℕ × List ℕ))
    → SoundTables n t
    → SoundTables
        (n + length to)
        (forwarded_tables t (found >>= λ f. ok (forward_all s me f.0 f.1 to n now t)))
forwarded-SoundTables s me to n now t (ok f) h = forward_all-SoundTables s me f.0 f.1 to n now t h
forwarded-SoundTables s me to n now t (err e) h =
    SoundTables-mono n (n + length to) t (omega arith) h

perform-SoundTables :
    (c : Call) (n : ℕ) (t : Tables) → SoundTables n t → SoundTables (n + drawn c) (perform c n t)
unfolding perform edit_message delete_message react unreact forward
perform-SoundTables (send_call s from m now) n t h = send-SoundTables s from m n now t h
perform-SoundTables (edit_call s seen me id content now) n t h =
    SoundTables-mono n (n + 0) _ (omega arith)
      (and_then-SoundTables n t _ _ h (λ f. write_edit-SoundTables n me id _ now t f h))
perform-SoundTables (delete_call s media seen me id now) n t h =
    SoundTables-mono n (n + 0) _ (omega arith)
      (and_then-SoundTables n t _ _ h (λ f. write_delete-SoundTables n media me id now t f h))
perform-SoundTables (react_call s seen me id emoji) n t h =
    SoundTables-mono n (n + 0) _ (omega arith)
      (and_then-SoundTables n t _ _ h (λ f. write_react-SoundTables n s.notifier me id emoji t f h))
perform-SoundTables (unreact_call s seen me id) n t h =
    SoundTables-mono n (n + 0) _ (omega arith)
      (and_then-SoundTables n t _ _ h (λ f. write_unreact-SoundTables n me id t f h))
perform-SoundTables (forward_call s me id to now) n t h =
    forwarded-SoundTables s me to n now t (check_forward s t me id to) h

-- From sound tables, after any sends, edits, deletions, reactions, their removals and forwards,
-- whatever the other services answer and however old the tables are that a call asked about: ids
-- are unique, a deleted message has no text, and a user has at most one reaction to a message. New
-- ids are taken to be new.
pub perform_all-SoundTables :
    (cs : List Call) (n : ℕ) (t : Tables)
    → SoundTables n t
    → (k : ℕ) × SoundTables k (perform_all cs n t)
unfolding perform_all
perform_all-SoundTables [] n t h = (n, h)
perform_all-SoundTables (c ∷ cs) n t h =
    perform_all-SoundTables cs (n + drawn c) (perform c n t) (perform-SoundTables c n t h)
