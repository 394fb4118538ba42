-- ===== src/Chat/Forever.antt =====
-- A deleted message stays deleted: what holds of the tables and is kept by each query is kept by each call.
use chirpy.Prelude.{
  ℕ, ◌+◌, ◌≡◌, Bool, true, some, List, [], ◌∷◌, ◌++◌, arith, Bool-cases, inl, inr, map,
}
use chirpy.Chat.Model.{Kind, private, public, Result, ok, err, ◌>>=◌, MessageRef}
use chirpy.Chat.Tables.{
  Message, Table, Tables, side, with_side, find_message, find_live, is_some, add_message, edit_row,
  edit_message_row, delete_row, delete_message_row, delete_reaction_row,
}
use chirpy.Chat.Change.{
  Outcome, and_then, edit_message, delete_message, react, unreact, write_edit, write_delete,
  write_react, write_unreact,
}
use chirpy.Chat.Send.{
  Incoming, Services, Checked, send, save, new_message, check_send, attach_media,
}
use chirpy.Chat.Forward.{
  ForwardTarget, forward, forward_all, forward_one, check_forward, duplicate_all, copy_of,
}
use chirpy.Chat.Calls.{
  Call, send_call, edit_call, delete_call, react_call, unreact_call, forward_call, perform,
  perform_all, drawn, forwarded_tables,
}

-- The rows of messages that a query may leave, from those it found.
data Rewrites : List Message → List Message → Type 0 where
  same_rows : (ms : List Message) → Rewrites ms ms
  one_more : (ms : List Message) (m : Message) → Rewrites ms (ms ++ (m ∷ []))
  edited_rows :
      (ms : List Message) (id : ℕ) (text : List ℕ) (now : ℕ)
      → Rewrites ms (map (edit_row id text now) ms)
  deleted_rows : (ms : List Message) (id now : ℕ) → Rewrites ms (map (delete_row id now) ms)

delete_Rewrites :
    (j now : ℕ) (t : Table) → Rewrites t.messages (delete_message_row j now t).1.messages
unfolding delete_message_row
delete_Rewrites j now t = elim (Bool-cases (is_some (find_live j t))) [
  | inl e ↦ rw (e, delete_message_row) (deleted_rows t.messages j now)
  | inr e ↦ rw (e, delete_message_row) (same_rows t.messages)
]

module _ (id : ℕ) (m : Message) (deleted : is_some m.deleted_at ≡ true) where
  kept_by_edit :
      (j : ℕ) (text : List ℕ) (now : ℕ) (ms : List Message)
      → find_message id ms ≡ some m
      → find_message id (map (edit_row j text now) ms) ≡ some m
  kept_by_edit j text now [] e = e
  kept_by_edit j text now (x ∷ ms) e = ground (arith, deleted, kept_by_edit j text now ms)

  kept_by_delete :
      (j now : ℕ) (ms : List Message)
      → find_message id ms ≡ some m
      → find_message id (map (delete_row j now) ms) ≡ some m
  kept_by_delete j now [] e = e
  kept_by_delete j now (x ∷ ms) e = ground (arith, deleted, kept_by_delete j now ms)

  kept_by_append :
      (x : Message) (ms : List Message)
      → find_message id ms ≡ some m
      → find_message id (ms ++ (x ∷ [])) ≡ some m
  kept_by_append x [] e = absurd (cc)
  kept_by_append x (y ∷ ms) e = ground (arith, kept_by_append x ms)

  kept_by :
      {ms ns : List Message}
      → Rewrites ms ns
      → find_message id ms ≡ some m
      → find_message id ns ≡ some m
  kept_by (same_rows ms) e = e
  kept_by (one_more ms x) e = kept_by_append x ms e
  kept_by (edited_rows ms j text now) e = kept_by_edit j text now ms e
  kept_by (deleted_rows ms j now) e = kept_by_delete j now ms e

module _ (id : ℕ) (m : Message) (deleted : is_some m.deleted_at ≡ true) (k : Kind) where
  abbrev Kept : Tables → Type 0
  Kept t = find_message id (side k t).messages ≡ some m

  with_side-Kept :
      (j : Kind) (rows : Table) (t : Tables)
      → Rewrites (side j t).messages rows.messages
      → Kept t
      → Kept (with_side j rows t)
  with_side-Kept j rows t r e = same_side k j rows t r e
    where
      same_side :
          (k j : Kind) (rows : Table) (t : Tables)
          → Rewrites (side j t).messages rows.messages
          → find_message id (side k t).messages ≡ some m
          → find_message id (side k (with_side j rows t)).messages ≡ some m
      same_side private private rows t r e = kept_by id m deleted r e
      same_side private public rows t r e = e
      same_side public private rows t r e = e
      same_side public public rows t r e = kept_by id m deleted r e

  and_then-Kept {ℓ κ} :
      {A : Type ℓ} {B : Type κ} (t : Tables) (r : Result A) (write : A → Outcome B)
      → Kept t
      → ((a : A) → Kept (write a).tables)
      → Kept (and_then t r write).tables
  and_then-Kept t (ok a) write e w = w a
  and_then-Kept t (err x) write e w = e

  write_edit-Kept :
      (me j : ℕ) (text : List ℕ) (now : ℕ) (t : Tables) (found : MessageRef × List ℕ)
      → Kept t
      → Kept (write_edit me j text now t found).tables
  unfolding write_edit edit_message_row
  write_edit-Kept me j text now t (ref, others) e =
      let rows : Table = (edit_message_row j text now (side ref.kind t)).1 in
      let kept : Kept (with_side ref.kind rows t) =
        with_side-Kept ref.kind rows t (edited_rows (side ref.kind t).messages j text now) e in
      ground (arith, kept)

  write_delete-Kept :
      (media : Bool) (me j now : ℕ) (t : Tables) (found : MessageRef × List ℕ)
      → Kept t
      → Kept (write_delete media me j now t found).tables
  unfolding write_delete delete_message_row
  write_delete-Kept media me j now t (ref, others) e =
      elim (Bool-cases (delete_message_row j now (side ref.kind t)).0) [
        | inl d ↦
            rw (d, write_delete)
              (with_side-Kept ref.kind _ t (delete_Rewrites j now (side ref.kind t)) e)
        | inr d ↦ rw (d, write_delete) e
      ]

  write_react-Kept :
      (notifier : Bool) (me j : ℕ) (emoji : List ℕ) (t : Tables) (found : MessageRef × List ℕ)
      → Kept t
      → Kept (write_react notifier me j emoji t found).tables
  unfolding write_react
  write_react-Kept notifier me j emoji t (ref, others) e =
      with_side-Kept ref.kind _ t (same_rows (side ref.kind t).messages) e

  write_unreact-Kept :
      (me j : ℕ) (t : Tables) (found : MessageRef × List ℕ)
      → Kept t
      → Kept (write_unreact me j t found).tables
  unfolding write_unreact delete_reaction_row
  write_unreact-Kept me j t (ref, others) e =
      with_side-Kept ref.kind _ t (same_rows (side ref.kind t).messages) e

  save-Kept :
      (s : Services) (from : ℕ) (x : Incoming) (c : Checked) (n now : ℕ) (t : Tables)
      → Kept t
      → Kept (save s from x c n now t).tables
  unfolding save add_message
  save-Kept s from x c n now t e =
      let row : Message = new_message from x c n now in
      let kept : Kept (with_side c.kind (add_message row (side c.kind t)) t) =
        with_side-Kept c.kind _ t (one_more (side c.kind t).messages row) e in
      ground (arith, kept)

  send-Kept :
      (s : Services) (from : ℕ) (x : Incoming) (n now : ℕ) (t : Tables)
      → Kept t
      → Kept (send s from x n now t).tables
  unfolding send
  send-Kept s from x n now t e = and_then-Kept t (check_send s t from x) _ e (λ c.
      and_then-Kept t (attach_media s from x.media c n) _ e (λ a. save-Kept s from x c n now t e))

  forward_all-Kept :
      (s : Services) (me : ℕ) (text sources : List ℕ) (to : List ForwardTarget) (n now : ℕ)
      (t : Tables)
      → Kept t
      → Kept (forward_all s me text sources to n now t).tables
  unfolding forward_all forward_one
  forward_all-Kept s me text sources [] n now t e = e
  forward_all-Kept s me text sources (to ∷ rest) n now t e =
      forward_all-Kept s me text sources rest (n + 1) now
        (forward_one s me text sources to n now t).tables
        (and_then-Kept t (duplicate_all s.media me sources) _ e
          (λ copies. send-Kept s me (copy_of text to copies) n now t e))

  forwarded-Kept :
      (s : Services) (me : ℕ) (to : List ForwardTarget) (n now : ℕ) (t : Tables)
      (found : Result (List ℕ × List ℕ))
      → Kept t
      → Kept (forwarded_tables t (found >>= λ f. ok (forward_all s me f.0 f.1 to n now t)))
  forwarded-Kept s me to n now t (ok f) e = forward_all-Kept s me f.0 f.1 to n now t e
  forwarded-Kept s me to n now t (err x) e = e

  perform-Kept : (c : Call) (n : ℕ) (t : Tables) → Kept t → Kept (perform c n t)
  unfolding perform edit_message delete_message react unreact forward
  perform-Kept (send_call s from x now) n t e = send-Kept s from x n now t e
  perform-Kept (edit_call s seen me j content now) n t e =
      and_then-Kept t _ _ e (λ f. write_edit-Kept me j _ now t f e)
  perform-Kept (delete_call s media seen me j now) n t e =
      and_then-Kept t _ _ e (λ f. write_delete-Kept media me j now t f e)
  perform-Kept (react_call s seen me j emoji) n t e =
      and_then-Kept t _ _ e (λ f. write_react-Kept s.notifier me j emoji t f e)
  perform-Kept (unreact_call s seen me j) n t e =
      and_then-Kept t _ _ e (λ f. write_unreact-Kept me j t f e)
  perform-Kept (forward_call s me j to now) n t e =
      forwarded-Kept s me to n now t (check_forward s t me j to) e

-- Once a message is deleted its row never changes again, whatever calls follow in whatever order,
-- also those that asked before the deletion.
pub perform_all-deleted :
    (cs : List Call) (n id : ℕ) (k : Kind) (m : Message) (t : Tables)
    → is_some m.deleted_at ≡ true
    → find_message id (side k t).messages ≡ some m
    → find_message id (side k (perform_all cs n t)).messages ≡ some m
unfolding perform_all
perform_all-deleted [] n id k m t d e = e
perform_all-deleted (c ∷ cs) n id k m t d e =
    perform_all-deleted cs (n + drawn c) id k m (perform c n t) d (perform-Kept id m d k c n t e)
