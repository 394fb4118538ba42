-- ===== src/Chat/Audience.antt =====
-- Who hears about a change to a message.
use chirpy.Prelude.{
  ℕ, ◌≡◌, refl, ap, Bool, true, false, not, ◌&&◌, none, some, List, [], ◌∷◌, ◌==◌, contains, All,
  arith, Bool-cases, inl, inr,
}
use chirpy.Chat.Model.{
  Result, ok, err, MessageRef, Effect, push, notify_message, notify_reaction, expire_media,
  publish_seen, with_me, without, trim_space, private, public, Kind,
}
use chirpy.Chat.Rows.{find_reaction-set_reaction_row}
use chirpy.Chat.Tables.{
  Message, find_message, is_some, with_side, set_reaction_row, find_reaction, Tables, side,
  find_live, edit_message_row, delete_message_row, delete_reaction_row,
}
use chirpy.Chat.Authorize.{World, members_are, authorize_message}
use chirpy.Chat.Change.{
  Outcome, and_then, edit_message, delete_message, react, unreact, may_edit, may_delete, may_react,
  write_edit, write_delete, write_react, write_unreact,
}
use chirpy.Chat.Secrecy.{Sees, sees_authorized, as_side, as_member}
use chirpy.Chat.Changes.{may_edit-MayEdit}
use chirpy.Chat.Deleting.{may_delete-MayDelete}

-- A side of the conversation, or a member of the group, that the message is in.
pub data Hears (w : World) (t : Tables) (id user : ℕ) : Type 0 where
  of_conversation :
      (m : Message)
      → find_live id t.private_side ≡ some m
      → contains (m.from_id ∷ m.to_id ∷ []) user ≡ true
      → Hears w t id user
  of_group :
      (m : Message) (us : List ℕ)
      → find_live id t.private_side ≡ none
      → find_live id t.group_side ≡ some m
      → w.members m.to_id ≡ members_are us
      → contains us user ≡ true
      → Hears w t id user

-- The author of the message.
pub data Wrote (t : Tables) (id user : ℕ) : Type 0 where
  in_conversation :
      (m : Message) → find_live id t.private_side ≡ some m → user ≡ m.from_id → Wrote t id user
  in_group :
      (m : Message)
      → find_live id t.private_side ≡ none
      → find_live id t.group_side ≡ some m
      → user ≡ m.from_id
      → Wrote t id user

-- Everybody who is sent an event, over the socket or by a push job for a message, is in P; those who
-- get a push job for a reaction are in A.
abbrev pub Heard : (ℕ → Type 0) → (ℕ → Type 0) → Effect → Type 0
Heard P A (push us event) = All P us
Heard P A (notify_message us from group id) = All P us
Heard P A (notify_reaction us from group id emoji) = All A us
Heard P A (expire_media id) = Unit {0}
Heard P A (publish_seen low high user id) = Unit {0}

contains-all : (P : ℕ → Type 0) (us : List ℕ) → ((u : ℕ) → contains us u ≡ true → P u) → All P us
contains-all P [] all = tt
contains-all P (u ∷ us) all =
    (all u (ground arith), contains-all P us (λ v h. all v (ground arith)))

contains-without :
    (me v : ℕ) (us : List ℕ) → contains (without me us) v ≡ true → contains us v ≡ true
contains-without me v [] h = h
contains-without me v (u ∷ us) h = ground (arith, contains-without me v us)

All-with_me : (P : ℕ → Type 0) (me : ℕ) (us : List ℕ) → All P us → P me → All P (with_me us me)
All-with_me P me [] a p = (p, tt)
All-with_me P me (u ∷ us) a p = (a.0, All-with_me P me us a.1 p)

-- Who sees a message tells those who may hear of it.
sees_tells :
    (w : World) (t : Tables) (me id : ℕ) (rf : Bool) (ref : MessageRef) (others : List ℕ)
    → Sees w t me id rf ref others
    → All (Hears w t id) (with_me others me)
sees_tells w t me id rf ref others (as_side m other e r o c f s) =
    let there : contains (m.from_id ∷ m.to_id ∷ []) other ≡ true = ground arith in
    rw s (of_conversation m e there, (of_conversation m e c, tt))
sees_tells w t me id rf ref others (as_member m us joined e f r g c j b s) = rw s (
    All-with_me (Hears w t id) me (without me us)
      (contains-all (Hears w t id) (without me us)
        (λ v h. of_group m us e f g (contains-without me v us h)))
      (of_group m us e f g c))

sees_author :
    (w : World) (t : Tables) (me id : ℕ) (rf : Bool) (ref : MessageRef) (others : List ℕ)
    → Sees w t me id rf ref others
    → Wrote t id ref.sender
sees_author w t me id rf ref others (as_side m other e r o c f s) =
    in_conversation m e (ap (λ (x : MessageRef). x.sender) r)
sees_author w t me id rf ref others (as_member m us joined e f r g c j b s) =
    in_group m e f (ap (λ (x : MessageRef). x.sender) r)

-- The effects of each write go to those who were found.
write_edit-Heard :
    (P A : ℕ → Type 0) (me id : ℕ) (text : List ℕ) (now : ℕ) (t : Tables) (ref : MessageRef)
    (others : List ℕ)
    → All P (with_me others me)
    → All (Heard P A) (write_edit me id text now t (ref, others)).effects
unfolding write_edit
write_edit-Heard P A me id text now t ref others a =
    elim (Bool-cases (edit_message_row id text now (side ref.kind t)).0) [
      | inl e ↦ rw (e, write_edit) (a, tt)
      | inr e ↦ rw (e, write_edit) tt
    ]

write_delete-Heard :
    (P A : ℕ → Type 0) (media : Bool) (me id now : ℕ) (t : Tables) (ref : MessageRef)
    (others : List ℕ)
    → All P (with_me others me)
    → All (Heard P A) (write_delete media me id now t (ref, others)).effects
unfolding write_delete
write_delete-Heard P A true me id now t ref others a =
    elim (Bool-cases (delete_message_row id now (side ref.kind t)).0) [
      | inl e ↦ rw (e, write_delete) (tt, (a, tt))
      | inr e ↦ rw (e, write_delete) tt
    ]
write_delete-Heard P A false me id now t ref others a =
    elim (Bool-cases (delete_message_row id now (side ref.kind t)).0) [
      | inl e ↦ rw (e, write_delete) (a, tt)
      | inr e ↦ rw (e, write_delete) tt
    ]

write_react-Heard :
    (P A : ℕ → Type 0) (notifier : Bool) (me id : ℕ) (emoji : List ℕ) (t : Tables)
    (ref : MessageRef) (others : List ℕ)
    → All P (with_me others me)
    → A ref.sender
    → All (Heard P A) (write_react notifier me id emoji t (ref, others)).effects
unfolding write_react
write_react-Heard P A notifier me id emoji t ref others a b =
    elim (Bool-cases (notifier && (not (ref.sender == me) && not (ref.sender == 0)))) [
      | inl e ↦ rw e (a, ((b, tt), tt))
      | inr e ↦ rw e (a, tt)
    ]

write_unreact-Heard :
    (P A : ℕ → Type 0) (me id : ℕ) (t : Tables) (ref : MessageRef) (others : List ℕ)
    → All P (with_me others me)
    → All (Heard P A) (write_unreact me id t (ref, others)).effects
unfolding write_unreact
write_unreact-Heard P A me id t ref others a =
    elim (Bool-cases (delete_reaction_row id me (side ref.kind t)).0) [
      | inl e ↦ rw (e, write_unreact) (a, tt)
      | inr e ↦ rw (e, write_unreact) tt
    ]

-- What a call sends, if its check finds a message that the user sees.
and_then-Heard :
    (w : World) (t seen : Tables) (me id : ℕ) (r : Result (MessageRef × List ℕ))
    (write : MessageRef × List ℕ → Outcome (Unit {0}))
    → ((ref : MessageRef) (others : List ℕ)
        → r ≡ ok (ref, others)
        → All (Hears w seen id) (with_me others me) × Wrote seen id ref.sender)
    → ((ref : MessageRef) (others : List ℕ)
        → All (Hears w seen id) (with_me others me)
        → Wrote seen id ref.sender
        → All (Heard (Hears w seen id) (Wrote seen id)) (write (ref, others)).effects)
    → All (Heard (Hears w seen id) (Wrote seen id)) (and_then t r write).effects
and_then-Heard w t seen me id (ok (ref, others)) write s h =
    let (a, b) = s ref others refl in h ref others a b
and_then-Heard w t seen me id (err e) write s h = tt

may_react-sees :
    (w : World) (t : Tables) (me id : ℕ) (emoji : List ℕ) (ref : MessageRef) (others : List ℕ)
    → may_react w t me id emoji ≡ ok (ref, others)
    → authorize_message w t me id true ≡ ok (ref, others)
unfolding may_react
may_react-sees w t me id emoji ref others h = ground arith

sees_both :
    (w : World) (t : Tables) (me id : ℕ) (rf : Bool) (ref : MessageRef) (others : List ℕ)
    → Sees w t me id rf ref others
    → All (Hears w t id) (with_me others me) × Wrote t id ref.sender
sees_both w t me id rf ref others s =
    (sees_tells w t me id rf ref others s, sees_author w t me id rf ref others s)

-- What an edit, a deletion, a reaction or its removal sends over the socket goes to nobody but the
-- two sides of the conversation, or the members of the group, that the message is in when the call
-- asks; a push job for a reaction goes to nobody but the author of the message.
pub changes-Heard :
    (w : World) (seen t : Tables) (me id now : ℕ) (content emoji : List ℕ) (media notifier : Bool)
    → All
        (Heard (Hears w seen id) (Wrote seen id))
        (edit_message w seen me id content now t).effects
      × All
          (Heard (Hears w seen id) (Wrote seen id))
          (delete_message w media seen me id now t).effects
      × All (Heard (Hears w seen id) (Wrote seen id)) (react w notifier seen me id emoji t).effects
      × All (Heard (Hears w seen id) (Wrote seen id)) (unreact w seen me id t).effects
unfolding edit_message delete_message react unreact
changes-Heard w seen t me id now content emoji media notifier = (
  and_then-Heard w t seen me id (may_edit w seen me id (trim_space content) now)
      (write_edit me id (trim_space content) now t)
      (λ ref others e.
        sees_both w seen me id true ref others
          (may_edit-MayEdit w seen me id (trim_space content) now ref others e).1.sees)
      (λ ref others a b.
        write_edit-Heard (Hears w seen id) (Wrote seen id) me id (trim_space content) now t ref
          others a),
  and_then-Heard w t seen me id (may_delete w seen me id) (write_delete media me id now t)
      (λ ref others e.
        sees_both w seen me id false ref others
          (may_delete-MayDelete w seen me id ref others e).sees)
      (λ ref others a b.
        write_delete-Heard (Hears w seen id) (Wrote seen id) media me id now t ref others a),
  and_then-Heard w t seen me id (may_react w seen me id emoji) (write_react notifier me id emoji t)
      (λ ref others e.
        sees_both w seen me id true ref others
          (sees_authorized w seen me id true (may_react-sees w seen me id emoji ref others e)))
      (λ ref others a b.
        write_react-Heard (Hears w seen id) (Wrote seen id) notifier me id emoji t ref others a b),
  and_then-Heard w t seen me id (authorize_message w seen me id false) (write_unreact me id t)
      (λ ref others e.
        sees_both w seen me id false ref others (sees_authorized w seen me id false e))
      (λ ref others a b.
        write_unreact-Heard (Hears w seen id) (Wrote seen id) me id t ref others a),
)

message_there :
    (id : ℕ) (emoji : List ℕ) (me : ℕ) (k : Kind) (t : Tables) (m : Message)
    → find_message id (side k t).messages ≡ some m
    → find_message id
        (side k (
          with_side k
            (record (side k t) { reactions = set_reaction_row id me emoji (side k t).reactions })
            t)).messages
      ≡ some m
message_there id emoji me private t m e = e
message_there id emoji me public t m e = e

reaction_there :
    (id me : ℕ) (emoji : List ℕ) (k : Kind) (t : Tables)
    → find_reaction id me
        (side k (
          with_side k
            (record (side k t) { reactions = set_reaction_row id me emoji (side k t).reactions })
            t)).reactions
      ≡ some (record { message_id = id; user_id = me; emoji = emoji })
reaction_there id me emoji private t =
    ground (arith, find_reaction-set_reaction_row id me id me emoji t.private_side.reactions)
reaction_there id me emoji public t =
    ground (arith, find_reaction-set_reaction_row id me id me emoji t.group_side.reactions)

-- A reaction that was allowed before its message was deleted, and is written after that, is
-- stored: the message is still deleted, and has the reaction.
pub late_reaction-stays :
    (w : World) (notifier : Bool) (seen t : Tables) (me id : ℕ) (emoji : List ℕ) (ref : MessageRef)
    (others : List ℕ) (m : Message)
    → may_react w seen me id emoji ≡ ok (ref, others)
    → find_message id (side ref.kind t).messages ≡ some m
    → is_some m.deleted_at ≡ true
    → (find_message id (side ref.kind (react w notifier seen me id emoji t).tables).messages
        ≡ some m)
      × (find_reaction id me (side ref.kind (react w notifier seen me id emoji t).tables).reactions
          ≡ some (record { message_id = id; user_id = me; emoji = emoji }))
unfolding react write_react
late_reaction-stays w notifier seen t me id emoji ref others m h there gone =
    rw h (message_there id emoji me ref.kind t m there, reaction_there id me emoji ref.kind t)
