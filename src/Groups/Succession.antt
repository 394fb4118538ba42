-- ===== src/Groups/Succession.antt =====
-- Who takes a group over when its admin leaves: NextAdmin of sql/queries/groups.sql and Leave of
-- internal/groups/repo.go.
use chirpy.Prelude.{
  ℕ, ◌+◌, ◌≤◌, ◌≡◌, ◌≢◌, ◌⊎◌, refl, inl, inr, true, false, Option, none, some, List, [], ◌∷◌, arith,
  length, Option-cases, Bool-cases, ◌==◌, if◌then◌else◌,
}
use chirpy.Groups.Model.{admin, ok}
use chirpy.Groups.Rows.{
  MemberRow, Group, find, is_admin, set_role_row, next_admin, precedes, first_of_two,
}
use chirpy.Groups.Repo.{
  leave, leave_locked, leave_admin, hand_over, with_role, without_member, Leaving,
}
use chirpy.Groups.Tables.{Distinct, find-delete_row, length-delete_row}
use chirpy.Groups.Invariant.{Sound}

precedes_asym : (a b : MemberRow) → precedes a b ≡ true → precedes b a ≡ false
unfolding precedes
precedes_asym a b h = ground arith

precedes_negtrans :
    (a b c : MemberRow) → precedes a b ≡ false → precedes b c ≡ false → precedes a c ≡ false
unfolding precedes
precedes_negtrans a b c h k = ground arith

precedes_irrefl : (a : MemberRow) → precedes a a ≡ false
unfolding precedes
precedes_irrefl a = ground arith

-- No member precedes the best of two, if none precedes the second.
first_best :
    (x s r w : MemberRow)
    → first_of_two x (some s) ≡ some r
    → precedes w s ≡ false
    → (precedes x r ≡ false) × (precedes w r ≡ false)
unfolding first_of_two
first_best x s r w e h = elim (Bool-cases (precedes s x)) [
  | inl b ↦
      let same : some s ≡ some r = rw b at e in (ground (arith, precedes_asym s x b), ground arith)
  | inr b ↦
      let same : some x ≡ some r = rw b at e in
      (ground (arith, precedes_irrefl x), ground (arith, precedes_negtrans w s x h b))
]

next_admin-none :
    (leaving w : ℕ) (rows : List MemberRow)
    → next_admin leaving rows ≡ none
    → leaving ≢ w
    → find w rows ≡ none
unfolding next_admin find
next_admin-none leaving w [] e ne = refl
next_admin-none leaving w (x ∷ rows) e ne = elim (Option-cases (next_admin leaving rows)) [
  | inl n ↦ ground (arith, next_admin-none leaving w rows n ne)
  | inr (s, n) ↦ ground arith
]

next_admin_step :
    (leaving : ℕ) (x : MemberRow) (rows : List MemberRow) (o : Option MemberRow)
    → next_admin leaving rows ≡ o
    → next_admin leaving (x ∷ rows) ≡ (if x.id == leaving then o else first_of_two x o)
unfolding next_admin
next_admin_step leaving x rows o e = rw e

-- Whoever takes over comes first among the members who stay: no other member precedes them, in the
-- order of moderators before members, then of time served, then of ids.
pub next_admin_best :
    (leaving w : ℕ) (rows : List MemberRow) (r s : MemberRow)
    → next_admin leaving rows ≡ some r
    → find w rows ≡ some s
    → w ≢ leaving
    → precedes s r ≡ false
unfolding find
next_admin_best leaving w [] r s e f ne = ground arith
next_admin_best leaving w (x ∷ rows) r s e f ne = elim (Option-cases (next_admin leaving rows)) [
  | inl n ↦ ground (
    arith,
    next_admin_step leaving x rows none n,
    first_of_two_none x,
    precedes_irrefl x,
    next_admin-none leaving w rows n,
  )
  | inr (b, n) ↦ ground (
    arith,
    next_admin_step leaving x rows (some b) n,
    first_best x b r s,
    first_best x b r b,
    precedes_irrefl b,
    next_admin_best leaving w rows b s n,
  )
]
  where
    first_of_two_none : (y : MemberRow) → first_of_two y none ≡ some y
    first_of_two_none y = unfold first_of_two in refl

all_leaving :
    (u : ℕ) (rows : List MemberRow) → Distinct rows → next_admin u rows ≡ none → length rows ≤ 1
unfolding next_admin find
all_leaving u [] d e = omega arith
all_leaving u (x ∷ []) d e = omega arith
all_leaving u (x ∷ y ∷ rows) d e =
    ground (arith, next_admin-none u x.id (x ∷ y ∷ rows) e, next_admin-none u y.id (y ∷ rows))

-- What a leave that succeeds may leave behind.
abbrev pub Left : Group → ℕ → Option Group → Type 0
Left g u db =
    ((db ≡ none) × (g.current_member ≡ 1))
    ⊎ ((h : Group) × (db ≡ some h)
        × (find u h.members ≡ none)
        × (h.current_member + 1 ≡ g.current_member))

without_member-Left :
    (g : Group) (rows : List MemberRow) (u : ℕ) (m : MemberRow)
    → Sound g
    → find u g.members ≡ some m
    → Left g u (some (without_member (record g { members = rows }) u))
unfolding without_member
without_member-Left g rows u m v e = inr (
  without_member (record g { members = rows }) u,
  refl,
  ground (arith, find-delete_row u u rows),
  omega (arith, length-delete_row u g.members m v.distinct e, v.counted),
)

hand_over-Left :
    (g : Group) (u next : ℕ) (m : MemberRow) (l : Leaving) (db : Option Group)
    → Sound g
    → find u g.members ≡ some m
    → hand_over g u next ≡ ok (l, db)
    → Left g u db
unfolding hand_over with_role
hand_over-Left g u next m l db v e o =
    let same : db ≡ some (without_member (with_role g next admin []) u) = cc in
    rw same (without_member-Left g (set_role_row next admin [] g.members) u m v e)

leave_admin-Left :
    (g : Group) (u successor : ℕ) (m : MemberRow) (l : Leaving) (db : Option Group)
    → Sound g
    → find u g.members ≡ some m
    → leave_admin g u successor ≡ ok (l, db)
    → Left g u db
unfolding leave_admin
leave_admin-Left g u successor m l db v e o = elim (Bool-cases (successor == 0)) [
  | inl b ↦ elim (Option-cases (next_admin u g.members)) [
    | inl n ↦
        let h = rw (b, n, leave_admin) at o in
        inl (
          cc,
          ground (
            arith,
            all_leaving u g.members v.distinct n,
            v.counted,
            length-delete_row u g.members m v.distinct e,
          ),
        )
    | inr (s, n) ↦ hand_over-Left g u s.id m l db v e (rw (b, n, leave_admin) at o)
  ]
  | inr b ↦ elim (Option-cases (find successor g.members)) [
    | inl n ↦ let h = rw (b, n, leave_admin) at o in cc
    | inr (s, n) ↦ elim (Bool-cases (successor == u)) [
      | inl c ↦ let h = rw (b, n, leave_admin, c) at o in cc
      | inr c ↦ hand_over-Left g u successor m l db v e (rw (b, n, leave_admin, c) at o)
    ]
  ]
]

-- A leave of a sound group that succeeds either deletes the group, whose only member was the
-- leaver, or takes the leaver's row away and counts one member less.
pub leave_outcome :
    (g : Group) (u successor : ℕ) (l : Leaving) (db : Option Group)
    → Sound g
    → leave (some g) u successor ≡ ok (l, db)
    → Left g u db
unfolding leave
leave_outcome g u successor l db v o = elim (Option-cases (find u g.members)) [
  | inl n ↦ let h = rw (n, leave_locked) at o in cc
  | inr (m, e) ↦ elim (Bool-cases (is_admin m.role)) [
    | inl b ↦ leave_admin-Left g u successor m l db v e (rw (e, leave_locked, b) at o)
    | inr b ↦
        let h = rw (e, leave_locked, b) at o in
        let same : db ≡ some (without_member g u) = cc in
        rw same (without_member-Left g g.members u m v e)
  ]
]
