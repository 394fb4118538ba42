-- ===== src/Chat/Secrecy.antt =====
-- Who sees a message, said without the code's order of questions, and what everybody else is told.
use chirpy.Prelude.{
  ℕ, ◌<◌, ◌≤◌, ◌≡◌, ◌≢◌, ◌⊎◌, ◌↔◌, refl, sym, ◌∙◌, Bool, true, false, none, some, List, [], ◌∷◌,
  contains, arith, Option-cases, inl, inr, if◌then◌else◌, ◌==◌,
}
use chirpy.Chat.Model.{ok, err, MessageRef, message_not_found, without, trim_space}
use chirpy.Chat.Tables.{Message, Tables, find_live}
use chirpy.Chat.Authorize.{
  World, Members, members_are, no_such_group, members_failed, authorize_message, private_ref,
  group_ref, locate_message, authorize_private, authorize_group,
}
use chirpy.Chat.Change.{
  refused, edit_message, delete_message, react, unreact, may_read_by, fits, may_edit, may_delete,
  may_react,
}
use chirpy.Chat.Emoji.{validate_emoji}

-- A message that is not there, or is somebody else's conversation, or a group's that the user is not
-- in, or older than the user's joining of it.
pub data IsHidden (w : World) (t : Tables) (me id : ℕ) : Type 0 where
  nowhere :
      find_live id t.private_side ≡ none → find_live id t.group_side ≡ none → IsHidden w t me id
  between_others :
      (m : Message)
      → find_live id t.private_side ≡ some m
      → me ≢ m.from_id
      → me ≢ m.to_id
      → IsHidden w t me id
  of_other_group :
      (m : Message) (us : List ℕ)
      → find_live id t.private_side ≡ none
      → find_live id t.group_side ≡ some m
      → w.members m.to_id ≡ members_are us
      → contains us me ≡ false
      → IsHidden w t me id
  before_joining :
      (m : Message) (us : List ℕ) (joined : ℕ)
      → find_live id t.private_side ≡ none
      → find_live id t.group_side ≡ some m
      → w.members m.to_id ≡ members_are us
      → contains us me ≡ true
      → w.joined_at m.to_id me ≡ some joined
      → m.created_at < joined
      → IsHidden w t me id

pub authorize_message-private :
    (w : World) (t : Tables) (me id : ℕ) (rf : Bool) (m : Message)
    → find_live id t.private_side ≡ some m
    → authorize_message w t me id rf ≡ authorize_private w me rf (private_ref m)
unfolding authorize_message
authorize_message-private w t me id rf m e = rw (e, locate_message) refl

pub authorize_message-group :
    (w : World) (t : Tables) (me id : ℕ) (rf : Bool) (m : Message)
    → find_live id t.private_side ≡ none
    → find_live id t.group_side ≡ some m
    → authorize_message w t me id rf ≡ authorize_group w me (group_ref m)
unfolding authorize_message
authorize_message-group w t me id rf m e f = rw (e, locate_message) (rw f refl)

pub authorize_message-nowhere :
    (w : World) (t : Tables) (me id : ℕ) (rf : Bool)
    → find_live id t.private_side ≡ none
    → find_live id t.group_side ≡ none
    → authorize_message w t me id rf ≡ err message_not_found
unfolding authorize_message
authorize_message-nowhere w t me id rf e f = rw (e, locate_message) (rw f refl)

pub authorize_message-hidden :
    (w : World) (t : Tables) (me id : ℕ) (require_friends : Bool)
    → IsHidden w t me id
    → authorize_message w t me id require_friends ≡ err message_not_found
unfolding authorize_private authorize_group
authorize_message-hidden w t me id rf (nowhere e f) = authorize_message-nowhere w t me id rf e f
authorize_message-hidden w t me id rf (between_others m e p q) =
    ground (arith, authorize_message-private w t me id rf m)
authorize_message-hidden w t me id rf (of_other_group m us e f g c) =
    ground (arith, authorize_message-group w t me id rf m)
authorize_message-hidden w t me id rf (before_joining m us joined e f g c j b) =
    ground (arith, authorize_message-group w t me id rf m)

-- A message that is hidden from a user, as it does not exist, is between others, or is a group's
-- that the user is not in or was sent before they joined: whoever asks to edit it (with a text
-- that fits), delete it, react to it (with an emoji), take a reaction back or see who read it gets
-- the error of a message that does not exist, and nothing is written or sent.
pub hidden_alike :
    (w : World) (seen t : Tables) (me id now : ℕ) (content emoji : List ℕ) (media notifier : Bool)
    → IsHidden w seen me id
    → fits (trim_space content) ≡ true
    → validate_emoji emoji ≡ true
    → (edit_message w seen me id content now t ≡ refused t (err message_not_found))
      × (delete_message w media seen me id now t ≡ refused t (err message_not_found))
      × (react w notifier seen me id emoji t ≡ refused t (err message_not_found))
      × (unreact w seen me id t ≡ refused t (err message_not_found))
      × (may_read_by w seen me id ≡ err message_not_found)
unfolding edit_message delete_message react unreact may_read_by may_edit may_delete may_react
hidden_alike w seen t me id now content emoji media notifier h fit emo =
    let strict : authorize_message w seen me id true ≡ err message_not_found =
      authorize_message-hidden w seen me id true h in
    let loose : authorize_message w seen me id false ≡ err message_not_found =
      authorize_message-hidden w seen me id false h in
    (rw fit (rw strict refl), rw loose refl, rw emo (rw strict refl), rw loose refl, rw loose refl)

-- A user who may see a message, as a side of the conversation or as a member since before it.
pub data Sees (w : World) (t : Tables) (me id : ℕ) (require_friends : Bool) (ref : MessageRef)
    (others : List ℕ) : Type 0 where
  as_side :
      (m : Message) (other : ℕ)
      → find_live id t.private_side ≡ some m
      → ref ≡ private_ref m
      → other ≡ (if me == m.from_id then m.to_id else m.from_id)
      → contains (m.from_id ∷ m.to_id ∷ []) me ≡ true
      → (require_friends ≡ true → w.friends me other ≡ some true)
      → others ≡ other ∷ []
      → Sees w t me id require_friends ref others
  as_member :
      (m : Message) (us : List ℕ) (joined : ℕ)
      → find_live id t.private_side ≡ none
      → find_live id t.group_side ≡ some m
      → ref ≡ group_ref m
      → w.members m.to_id ≡ members_are us
      → contains us me ≡ true
      → w.joined_at m.to_id me ≡ some joined
      → joined ≤ m.created_at
      → others ≡ without me us
      → Sees w t me id require_friends ref others

pub authorize_message-Sees :
    (w : World) (t : Tables) (me id : ℕ) (rf : Bool) (ref : MessageRef) (others : List ℕ)
    → Sees w t me id rf ref others
    → authorize_message w t me id rf ≡ ok (ref, others)
unfolding authorize_private authorize_group
authorize_message-Sees w t me id true ref others (as_side m other e r o c f s) =
    ground (arith, authorize_message-private w t me id true m, f refl)
authorize_message-Sees w t me id false ref others (as_side m other e r o c f s) =
    ground (arith, authorize_message-private w t me id false m)
authorize_message-Sees w t me id rf ref others (as_member m us joined e f r g c j b s) =
    ground (arith, authorize_message-group w t me id rf m)

Members-cases :
    (r : Members)
    → ((us : List ℕ) × (r ≡ members_are us)) ⊎ ((r ≡ no_such_group) ⊎ (r ≡ members_failed))
Members-cases (members_are us) = inl (us, refl)
Members-cases no_such_group = inr (inl refl)
Members-cases members_failed = inr (inr refl)

private_sees :
    (w : World) (t : Tables) (me id : ℕ) (rf : Bool) (m : Message) {ref : MessageRef}
    {others : List ℕ}
    → find_live id t.private_side ≡ some m
    → authorize_private w me rf (private_ref m) ≡ ok (ref, others)
    → Sees w t me id rf ref others
unfolding authorize_private
private_sees w t me id rf m e h =
    let other : ℕ = if me == m.from_id then m.to_id else m.from_id in
    as_side m other e (ground arith) refl (ground arith) (λ f. ground arith) (ground arith)

group_sees :
    (w : World) (t : Tables) (me id : ℕ) (rf : Bool) (m : Message) {ref : MessageRef}
    {others : List ℕ}
    → find_live id t.private_side ≡ none
    → find_live id t.group_side ≡ some m
    → authorize_group w me (group_ref m) ≡ ok (ref, others)
    → Sees w t me id rf ref others
unfolding authorize_group
group_sees w t me id rf m {ref} {others} e f h = elim (Option-cases (w.joined_at m.to_id me)) [
  | inl j ↦ ground (arith, j)
  | inr (joined, j) ↦ elim (Members-cases (w.members m.to_id)) [
    | inl (us, g) ↦
        as_member m us joined e f (ground arith) g (ground arith) j (ground arith) (ground arith)
    | inr bad ↦ absurd (ground (arith, bad))
  ]
]

pub sees_authorized :
    (w : World) (t : Tables) (me id : ℕ) (rf : Bool) {ref : MessageRef} {others : List ℕ}
    → authorize_message w t me id rf ≡ ok (ref, others)
    → Sees w t me id rf ref others
sees_authorized w t me id rf h = elim (Option-cases (find_live id t.private_side)) [
  | inr (m, e) ↦
      private_sees w t me id rf m e (sym (authorize_message-private w t me id rf m e) ∙ h)
  | inl e ↦ elim (Option-cases (find_live id t.group_side)) [
    | inr (m, f) ↦
        group_sees w t me id rf m e f (sym (authorize_message-group w t me id rf m e f) ∙ h)
    | inl f ↦ absurd (ground (arith, authorize_message-nowhere w t me id rf e f))
  ]
]

-- The check of a call succeeds, with a reference to the message and the others of its chat,
-- exactly when the user is a side of the private conversation (and a friend of the other side,
-- where that is asked for) or a member of the group who joined no later than the message; the
-- others are the other side, or the other members.
pub authorize_message_iff :
    (w : World) (t : Tables) (me id : ℕ) (require_friends : Bool) (ref : MessageRef)
    (others : List ℕ)
    → (authorize_message w t me id require_friends ≡ ok (ref, others))
      ↔ Sees w t me id require_friends ref others
authorize_message_iff w t me id rf ref others =
    (λ h. sees_authorized w t me id rf h, authorize_message-Sees w t me id rf ref others)
