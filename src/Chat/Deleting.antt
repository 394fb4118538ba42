-- ===== src/Chat/Deleting.antt =====
-- When a message may be deleted, what that leaves, and that it is for good.
use chirpy.Prelude.{
  ℕ, ◌≡◌, ◌≢◌, ◌⊎◌, ◌↔◌, refl, sym, ◌∙◌, ap, Bool, true, false, not, none, some, List, [], ◌∷◌,
  if◌then◌else◌, ◌==◌, keep, map, arith, inl, inr,
}
use chirpy.Chat.Model.{public, Result, ok, MessageRef}
use chirpy.Chat.Tables.{
  Message, Reaction, Table, Tables, side, find_message, find_live, if_live, is_some, delete_row,
  delete_message_row, find_reaction,
}
use chirpy.Chat.Authorize.{World, authorize_message}
use chirpy.Chat.Change.{delete_message, may_delete, may_delete_ref, write_delete}
use chirpy.Chat.Secrecy.{Sees, authorize_message-Sees, sees_authorized}
use chirpy.Chat.Changes.{Result-cases}

-- The sender; in a group also whom the groups service lets delete the sender's messages.
pub record MayDelete (w : World) (t : Tables) (me id : ℕ) (ref : MessageRef) (others : List ℕ)
    : Type 0 where
  pub sees : Sees w t me id false ref others
  pub entitled :
      (ref.sender ≡ me) ⊎ ((ref.kind ≡ public) × (w.can_delete ref.group me ref.sender ≡ some true))

may_delete_ref_iff :
    (w : World) (me : ℕ) (ref : MessageRef)
    → (may_delete_ref w me ref ≡ ok tt) ↔ (
        (ref.sender ≡ me)
        ⊎ ((ref.kind ≡ public) × (w.can_delete ref.group me ref.sender ≡ some true)))
unfolding may_delete_ref
may_delete_ref_iff w me ref = ground arith

pub may_delete-MayDelete :
    (w : World) (t : Tables) (me id : ℕ) (ref : MessageRef) (others : List ℕ)
    → may_delete w t me id ≡ ok (ref, others)
    → MayDelete w t me id ref others
unfolding may_delete
may_delete-MayDelete w t me id ref others h =
    elim (Result-cases (authorize_message w t me id false)) [
      | inl ((r, us), e) ↦ elim (Result-cases (may_delete_ref w me r)) [
        | inl (u, f) ↦
            let same : ◌≡◌ {A = Result (MessageRef × List ℕ)} (ok (r, us)) (ok (ref, others)) =
              ground arith in
            let here : r ≡ ref = ground arith in
            record {
              sees = sees_authorized w t me id false (e ∙ same);
              entitled = (may_delete_ref_iff w me ref).0 (ap (may_delete_ref w me) (sym here) ∙ f);
            }
        | inr (x, f) ↦ absurd (ground arith)
      ]
      | inr (x, f) ↦ absurd (ground arith)
    ]

MayDelete-may_delete :
    (w : World) (t : Tables) (me id : ℕ) (ref : MessageRef) (others : List ℕ)
    → MayDelete w t me id ref others
    → may_delete w t me id ≡ ok (ref, others)
unfolding may_delete
MayDelete-may_delete w t me id ref others m =
    rw (authorize_message-Sees w t me id false ref others m.sees)
      (rw ((may_delete_ref_iff w me ref).1 m.entitled) refl)

delete_row_there :
    (id now : ℕ) (t : Table) → (delete_message_row id now t).0 ≡ is_some (find_live id t)
unfolding delete_message_row
delete_row_there id now t = ground arith

-- A deletion succeeds exactly when the user sees the message, has sent it or, in a group, is let
-- to delete it by the groups service, and nobody has deleted it when the deletion is written.
pub delete_message_iff :
    (w : World) (media : Bool) (seen t : Tables) (me id now : ℕ)
    → ((delete_message w media seen me id now t).answer ≡ ok tt) ↔ (
        (ref : MessageRef) × (others : List ℕ) × MayDelete w seen me id ref others
        × (is_some (find_live id (side ref.kind t)) ≡ true))
unfolding delete_message write_delete
delete_message_iff w media seen t me id now = (
  λ h. elim (Result-cases (may_delete w seen me id)) [
    | inl ((ref, others), e) ↦ (
      ref,
      others,
      may_delete-MayDelete w seen me id ref others e,
      ground (arith, delete_row_there id now (side ref.kind t)),
    )
    | inr (e, f) ↦ absurd (ground arith)
  ],
  λ (ref, others, m, live). ground (
    arith,
    MayDelete-may_delete w seen me id ref others m,
    delete_row_there id now (side ref.kind t),
  ),
)

-- The rows after a deletion.
abbrev wiped : ℕ → Message → Message
wiped now m = record m { content = []; deleted_at = some now }

find_message-delete_other :
    (id now j : ℕ) (ms : List Message)
    → j ≢ id
    → find_message j (map (delete_row id now) ms) ≡ find_message j ms
find_message-delete_other id now j [] h = refl
find_message-delete_other id now j (m ∷ ms) h =
    ground (arith, find_message-delete_other id now j ms)

find_message-delete_self :
    (id now : ℕ) (ms : List Message) (m : Message)
    → if_live (find_message id ms) ≡ some m
    → find_message id (map (delete_row id now) ms) ≡ some (wiped now m)
find_message-delete_self id now [] m e = absurd (cc)
find_message-delete_self id now (x ∷ ms) m e = ground (arith, find_message-delete_self id now ms m)

find_reaction-other :
    (id j u : ℕ) (rs : List Reaction)
    → find_reaction j u (keep (λ r. not (r.message_id == id)) rs)
      ≡ (if j == id then none else find_reaction j u rs)
find_reaction-other id j u [] = ground arith
find_reaction-other id j u (r ∷ rs) = ground (arith, find_reaction-other id j u rs)

-- What a deletion of a live message leaves: the row with no text and the time, no reaction to it, and
-- every other message and reaction as it was.
pub delete_message_row-leaves :
    (id now : ℕ) (t : Table) (m : Message)
    → find_live id t ≡ some m
    → (find_message id (delete_message_row id now t).1.messages ≡ some (wiped now m))
      × ((u : ℕ) → find_reaction id u (delete_message_row id now t).1.reactions ≡ none)
      × ((j : ℕ)
          → j ≢ id
          → find_message j (delete_message_row id now t).1.messages ≡ find_message j t.messages)
      × ((j u : ℕ)
          → j ≢ id
          → find_reaction j u (delete_message_row id now t).1.reactions
            ≡ find_reaction j u t.reactions)
unfolding delete_message_row
delete_message_row-leaves id now t m e = rw e (
  find_message-delete_self id now t.messages m e,
  λ u. ground (arith, find_reaction-other id id u t.reactions),
  λ j h. find_message-delete_other id now j t.messages h,
  λ j u h. ground (arith, find_reaction-other id j u t.reactions),
)
