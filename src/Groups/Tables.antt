-- ===== src/Groups/Tables.antt =====
-- How the queries of sql/queries/groups.sql act on the member rows of a group.
use chirpy.Prelude.{
  ℕ, ◌+◌, ◌≤◌, ◌≡◌, ◌≢◌, ◌⊎◌, refl, inl, inr, Bool, true, false, Option, none, some, List, [], ◌∷◌,
  if◌then◌else◌, ◌==◌, arith, length, Bool-cases,
}
use chirpy.Groups.Model.{Role, member, Perm}
use chirpy.Groups.Rows.{
  MemberRow, find, add_row, delete_row, set_role_row, is_admin, next_admin, first_of_two, precedes,
}

-- No user has two rows: UNIQUE(group_id, member_id).
abbrev pub Distinct : List MemberRow → Type 0
Distinct [] = Unit {0}
Distinct (r ∷ rows) = (find r.id rows ≡ none) × Distinct rows

abbrev pub count_if : Bool → ℕ
count_if true = 1
count_if false = 0

unfoldable pub admins : List MemberRow → ℕ
admins [] = 0
admins (r ∷ rows) = count_if (is_admin r.role) + admins rows

pub find-id : (u : ℕ) (rows : List MemberRow) (r : MemberRow) → find u rows ≡ some r → r.id ≡ u
unfolding find
find-id u [] r e = ground arith
find-id u (x ∷ rows) r e = ground (arith, find-id u rows r)

pub find-add_row :
    (u now j : ℕ) (rows : List MemberRow)
    → find u rows ≡ none
    → find j (add_row u now rows) ≡ (
        if u == j
        then some (record { id = u; role = member; permissions = []; joined_at = now })
        else find j rows)
unfolding find add_row
find-add_row u now j [] e = refl
find-add_row u now j (x ∷ rows) e = ground (arith, find-add_row u now j rows)

pub find-delete_row :
    (u j : ℕ) (rows : List MemberRow)
    → find j (delete_row u rows) ≡ (if u == j then none else find j rows)
unfolding find delete_row
find-delete_row u j [] = ground arith
find-delete_row u j (x ∷ rows) = ground (arith, find-delete_row u j rows)

abbrev pub new_role : Role → List Perm → Option MemberRow → Option MemberRow
new_role role perms none = none
new_role role perms (some r) = some (record r { role = role; permissions = perms })

pub find-set_role_row :
    (u j : ℕ) (role : Role) (perms : List Perm) (rows : List MemberRow)
    → find j (set_role_row u role perms rows)
      ≡ (if u == j then new_role role perms (find j rows) else find j rows)
unfolding find set_role_row
find-set_role_row u j role perms [] = ground arith
find-set_role_row u j role perms (x ∷ rows) = ground (arith, find-set_role_row u j role perms rows)

pub add_row-Distinct :
    (u now : ℕ) (rows : List MemberRow)
    → find u rows ≡ none
    → Distinct rows
    → Distinct (add_row u now rows)
unfolding find add_row
add_row-Distinct u now [] e d = (refl, tt)
add_row-Distinct u now (x ∷ rows) e d =
    ground (arith, add_row-Distinct u now rows, find-add_row u now x.id rows)

pub delete_row-Distinct :
    (u : ℕ) (rows : List MemberRow) → Distinct rows → Distinct (delete_row u rows)
unfolding delete_row
delete_row-Distinct u [] d = tt
delete_row-Distinct u (x ∷ rows) d =
    ground (arith, delete_row-Distinct u rows d.1, find-delete_row u x.id rows)

pub set_role_row-Distinct :
    (u : ℕ) (role : Role) (perms : List Perm) (rows : List MemberRow)
    → Distinct rows
    → Distinct (set_role_row u role perms rows)
unfolding set_role_row
set_role_row-Distinct u role perms [] d = tt
set_role_row-Distinct u role perms (x ∷ rows) d =
    ground
      (arith, set_role_row-Distinct u role perms rows d.1, find-set_role_row u x.id role perms rows)

delete_row_absent : (u : ℕ) (rows : List MemberRow) → find u rows ≡ none → delete_row u rows ≡ rows
unfolding find delete_row
delete_row_absent u [] e = refl
delete_row_absent u (x ∷ rows) e = ground (arith, delete_row_absent u rows)

pub length-delete_row :
    (u : ℕ) (rows : List MemberRow) (r : MemberRow)
    → Distinct rows
    → find u rows ≡ some r
    → length (delete_row u rows) + 1 ≡ length rows
unfolding find delete_row
length-delete_row u [] r d e = ground arith
length-delete_row u (x ∷ rows) r d e =
    ground (arith, length-delete_row u rows r d.1, delete_row_absent u rows)

pub length-set_role_row :
    (u : ℕ) (role : Role) (perms : List Perm) (rows : List MemberRow)
    → length (set_role_row u role perms rows) ≡ length rows
unfolding set_role_row
length-set_role_row u role perms [] = refl
length-set_role_row u role perms (x ∷ rows) = ground (arith, length-set_role_row u role perms rows)

pub length-add_row :
    (u now : ℕ) (rows : List MemberRow) → length (add_row u now rows) ≡ length rows + 1
unfolding add_row
length-add_row u now [] = refl
length-add_row u now (x ∷ rows) = omega (arith, length-add_row u now rows)

pub admins-add_row : (u now : ℕ) (rows : List MemberRow) → admins (add_row u now rows) ≡ admins rows
unfolding admins add_row
admins-add_row u now [] = refl
admins-add_row u now (x ∷ rows) = ground (arith, admins-add_row u now rows)

pub admins-delete_row :
    (u : ℕ) (rows : List MemberRow) (r : MemberRow)
    → Distinct rows
    → find u rows ≡ some r
    → admins (delete_row u rows) + count_if (is_admin r.role) ≡ admins rows
unfolding admins find delete_row
admins-delete_row u [] r d e = ground arith
admins-delete_row u (x ∷ rows) r d e =
    ground (arith, admins-delete_row u rows r d.1, delete_row_absent u rows)

set_role_row_absent :
    (u : ℕ) (role : Role) (perms : List Perm) (rows : List MemberRow)
    → find u rows ≡ none
    → set_role_row u role perms rows ≡ rows
unfolding find set_role_row
set_role_row_absent u role perms [] e = refl
set_role_row_absent u role perms (x ∷ rows) e =
    ground (arith, set_role_row_absent u role perms rows)

pub admins-set_role_row :
    (u : ℕ) (role : Role) (perms : List Perm) (rows : List MemberRow) (r : MemberRow)
    → Distinct rows
    → find u rows ≡ some r
    → admins (set_role_row u role perms rows) + count_if (is_admin r.role)
      ≡ admins rows + count_if (is_admin role)
unfolding admins find set_role_row
admins-set_role_row u role perms [] r d e = ground arith
admins-set_role_row u role perms (x ∷ rows) r d e =
    ground
      (arith, admins-set_role_row u role perms rows r d.1, set_role_row_absent u role perms rows)

-- An admin's row counts.
pub admins_pos :
    (u : ℕ) (rows : List MemberRow) (r : MemberRow)
    → find u rows ≡ some r
    → count_if (is_admin r.role) ≤ admins rows
unfolding admins find
admins_pos u [] r e = ground arith
admins_pos u (x ∷ rows) r e = ground (arith, admins_pos u rows r)

first_of_two_cases :
    (x r : MemberRow) (o : Option MemberRow) → first_of_two x o ≡ some r → (x ≡ r) ⊎ (o ≡ some r)
unfolding first_of_two
first_of_two_cases x r none e = ground arith
first_of_two_cases x r (some s) e = elim (Bool-cases (precedes s x)) [
  | inl b ↦ inr (rw b at e)
  | inr b ↦ (let h : some x ≡ some r = rw b at e in inl (cc))
]

next_admin_cases :
    (leaving : ℕ) (x r : MemberRow) (rows : List MemberRow)
    → next_admin leaving (x ∷ rows) ≡ some r
    → ((x ≡ r) × (x.id ≢ leaving)) ⊎ (next_admin leaving rows ≡ some r)
unfolding next_admin
next_admin_cases leaving x r rows e =
    ground (arith, first_of_two_cases x r (next_admin leaving rows))

-- Who takes over is another member of the group.
pub next_admin-find :
    (leaving : ℕ) (rows : List MemberRow) (r : MemberRow)
    → Distinct rows
    → next_admin leaving rows ≡ some r
    → (find r.id rows ≡ some r) × (r.id ≢ leaving)
unfolding find
next_admin-find leaving [] r d e = unfold next_admin in cc
next_admin-find leaving (x ∷ rows) r d e = elim (next_admin_cases leaving x r rows e) [
  | inl h ↦ ground (arith, h)
  | inr h ↦ ground (arith, next_admin-find leaving rows r d.1 h)
]
