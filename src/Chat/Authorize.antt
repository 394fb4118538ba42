-- ===== src/Chat/Authorize.antt =====
-- internal/chat/service.go and repo.go: LocateMessage and authorizeMessage. The friends and groups
-- services are arguments (`World`): `none` is an error of theirs.
use chirpy.Prelude.{
  ℕ, Bool, true, not, Option, none, some, List, [], ◌∷◌, if◌then◌else◌, ltb, ◌==◌, contains,
}
use chirpy.Chat.Model.{
  private, public, Result, ok, err, ◌>>=◌, require, MessageRef, not_friends, message_not_found,
  unknown_group, lookup_failed, without,
}
use chirpy.Chat.Tables.{Message, Tables, find_live}

pub data Members : Type 0 where
  members_are : List ℕ → Members
  no_such_group : Members
  members_failed : Members

pub record World : Type 0 where
  pub friends : ℕ → ℕ → Option Bool
  pub members : ℕ → Members
  pub is_member : ℕ → ℕ → Option Bool
  pub can_delete : ℕ → ℕ → ℕ → Option Bool
  pub joined_at : ℕ → ℕ → Option ℕ  -- GroupJoinedAt: `none` is no such row

-- A service's answer, or its error.
abbrev pub asked {ℓ} : {A : Type ℓ} → Option A → Result A
asked none = err lookup_failed
asked (some a) = ok a

abbrev pub members_of : World → ℕ → Result (List ℕ)
members_of w g = elim (w.members g) [
  | members_are us ↦ ok us
  | no_such_group ↦ err unknown_group
  | members_failed ↦ err lookup_failed
]

abbrev pub private_ref : Message → MessageRef
private_ref m = record {
  kind = private;
  sender = m.from_id;
  receiver = m.to_id;
  group = 0;
  created_at = m.created_at;
}

abbrev pub group_ref : Message → MessageRef
group_ref m = record {
  kind = public;
  sender = m.from_id;
  receiver = 0;
  group = m.to_id;
  created_at = m.created_at;
}

unfoldable pub locate_message : Tables → ℕ → Result MessageRef
locate_message t id = elim (find_live id t.private_side) [
  | some m ↦ ok (private_ref m)
  | none ↦ elim (find_live id t.group_side) [
    | some m ↦ ok (group_ref m)
    | none ↦ err message_not_found
  ]
]

-- The other side of a private message, seen by one of the two.
unfoldable pub other_side : ℕ → MessageRef → Result ℕ
other_side me ref =
    if me == ref.sender
    then ok ref.receiver
    else if me == ref.receiver
    then ok ref.sender
    else err message_not_found

unfoldable pub authorize_private : World → ℕ → Bool → MessageRef → Result (MessageRef × List ℕ)
unfolding other_side
authorize_private w me require_friends ref = do
  other ← other_side me ref
  friends ← if require_friends then asked (w.friends me other) else ok true
  checked ← require friends not_friends
  ok (ref, other ∷ [])

-- Messages from before the member joined are not theirs to see.
unfoldable pub since_joining : World → ℕ → MessageRef → Result (Unit {0})
since_joining w me ref = elim (w.joined_at ref.group me) [
  | none ↦ err message_not_found
  | some joined ↦ require (not (ltb ref.created_at joined)) message_not_found
]

unfoldable pub authorize_group : World → ℕ → MessageRef → Result (MessageRef × List ℕ)
unfolding since_joining
authorize_group w me ref = do
  members ← members_of w ref.group
  inside ← require (contains members me) message_not_found
  seen ← since_joining w me ref
  ok (ref, without me members)

unfoldable pub authorize_ref : World → ℕ → Bool → MessageRef → Result (MessageRef × List ℕ)
unfolding authorize_private authorize_group
authorize_ref w me require_friends ref = elim ref.kind [
  | private ↦ authorize_private w me require_friends ref
  | public ↦ authorize_group w me ref
]

unfoldable pub authorize_message : World → Tables → ℕ → ℕ → Bool → Result (MessageRef × List ℕ)
unfolding locate_message authorize_ref
authorize_message w t me id require_friends = do
  ref ← locate_message t id
  authorize_ref w me require_friends ref
