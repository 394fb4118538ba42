-- ===== src/Chat/Changes.antt =====
-- When a change is made, and what it leaves.
use chirpy.Prelude.{ℕ, ◌-◌, ◌≤◌, ◌≡◌, ◌⊎◌, ◌↔◌, refl, true, List, arith, inl, inr}
use chirpy.Chat.Model.{ChatErr, Result, ok, err, MessageRef, edit_window, trim_space}
use chirpy.Chat.Tables.{
  Table, Tables, side, find_live, is_some, edit_message_row, delete_message_row,
}
use chirpy.Chat.Authorize.{World, authorize_message}
use chirpy.Chat.Change.{edit_message, may_edit, write_edit, fits}
use chirpy.Chat.Secrecy.{Sees, authorize_message-Sees, sees_authorized}

pub Result-cases {ℓ} :
    {A : Type ℓ} (r : Result A) → ((a : A) × (r ≡ ok a)) ⊎ ((e : ChatErr) × (r ≡ err e))
Result-cases (ok a) = inl (a, refl)
Result-cases (err e) = inr (e, refl)

-- What a user must be for an edit of a message with a text.
pub record MayEdit (w : World) (t : Tables) (me id now : ℕ) (ref : MessageRef) (others : List ℕ)
    : Type 0 where
  pub sees : Sees w t me id true ref others
  pub own : ref.sender ≡ me
  pub soon : now - ref.created_at ≤ edit_window

pub may_edit-MayEdit :
    (w : World) (t : Tables) (me id : ℕ) (text : List ℕ) (now : ℕ) (ref : MessageRef)
    (others : List ℕ)
    → may_edit w t me id text now ≡ ok (ref, others)
    → (fits text ≡ true) × MayEdit w t me id now ref others
unfolding may_edit
may_edit-MayEdit w t me id text now ref others h =
    elim (Result-cases (authorize_message w t me id true)) [
      | inl ((r, us), e) ↦ (
        ground arith,
        record {
          sees = sees_authorized w t me id true (ground arith);
          own = ground arith;
          soon = ground arith;
        },
      )
      | inr (e, f) ↦ absurd (ground arith)
    ]

MayEdit-may_edit :
    (w : World) (t : Tables) (me id : ℕ) (text : List ℕ) (now : ℕ) (ref : MessageRef)
    (others : List ℕ)
    → fits text ≡ true
    → MayEdit w t me id now ref others
    → may_edit w t me id text now ≡ ok (ref, others)
unfolding may_edit
MayEdit-may_edit w t me id text now ref others f m =
    rw f
      (rw (authorize_message-Sees w t me id true ref others m.sees) (ground (arith, m.own, m.soon)))

edit_row_there :
    (id : ℕ) (text : List ℕ) (now : ℕ) (t : Table)
    → (edit_message_row id text now t).0 ≡ is_some (find_live id t)
unfolding edit_message_row
edit_row_there id text now t = refl

delete_row_there :
    (id now : ℕ) (t : Table) → (delete_message_row id now t).0 ≡ is_some (find_live id t)
unfolding delete_message_row
delete_row_there id now t = ground arith

-- An edit succeeds exactly when the trimmed text has 1 to 500 characters, the user sees the
-- message (and is the other side's friend, in a private conversation), has sent it at most 15
-- minutes ago, and nobody has deleted it when the edit is written.
pub edit_message_iff :
    (w : World) (seen t : Tables) (me id : ℕ) (content : List ℕ) (now : ℕ)
    → ((edit_message w seen me id content now t).answer ≡ ok tt) ↔ (
        (fits (trim_space content) ≡ true)
        × ((ref : MessageRef) × (others : List ℕ) × MayEdit w seen me id now ref others
            × (is_some (find_live id (side ref.kind t)) ≡ true)))
unfolding edit_message write_edit
edit_message_iff w seen t me id content now = (
  λ h. elim (Result-cases (may_edit w seen me id (trim_space content) now)) [
    | inl ((ref, others), e) ↦
        let (f, m) = may_edit-MayEdit w seen me id (trim_space content) now ref others e in
        (
          f,
          (
            ref,
            others,
            m,
            ground (arith, edit_row_there id (trim_space content) now (side ref.kind t)),
          ),
        )
    | inr (e, f) ↦ absurd (ground arith)
  ],
  λ (f, (ref, others, m, live)). ground (
    arith,
    MayEdit-may_edit w seen me id (trim_space content) now ref others f m,
    edit_row_there id (trim_space content) now (side ref.kind t),
  ),
)
