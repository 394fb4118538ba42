-- ===== src/Groups/Repo.antt =====
-- internal/groups/repo.go: the transactions that change a group. The state is the group's rows, or
-- `none` if there is no such group. pgx.BeginFunc commits when its function returns no error and
-- rolls back otherwise: `commit`. A query that the database itself refuses is rolled back in the
-- same way and is not told apart here. Member counts are int16 columns that stay below the group's
-- capacity.
use chirpy.Prelude.{
  ℕ, ◌+◌, ◌-◌, Bool, true, false, not, ◌&&◌, Option, none, some, List, [], ◌∷◌, if◌then◌else◌, leb,
  ◌==◌, map,
}
use chirpy.Groups.Model.{
  Role, admin, member, Perm, admin_only, add_members, remove_members, edit_info, not_found_group,
  group_full, already_member, not_member, no_permission, kick_self, cant_remove_admin,
  already_admin, self_role, Result, ok, err, allowed, CreateRequest,
}
use chirpy.Groups.Rows.{
  MemberRow, Group, find, add_row, delete_row, set_role_row, is_admin, is_moderator, next_admin,
}

-- The result of a transaction's function: a value with the rows that it leaves.
abbrev pub Outcome : Type 0 → Type 0
Outcome A = Result (A × Option Group)

-- What is in the tables afterwards.
abbrev pub commit : {A : Type 0} → Option Group → Outcome A → Option Group
commit before (ok (a, after)) = after
commit before (err e) = before

abbrev pub with_locked_group : {A : Type 0} → Option Group → (Group → Outcome A) → Outcome A
with_locked_group none fn = err not_found_group
with_locked_group (some g) fn = fn g

-- Create, once an invite code is found that is not in use.
unfoldable pub create : CreateRequest → List ℕ → ℕ → ℕ → Group
create req code creator now = record {
  name = req.group_name;
  description = req.description;
  invite_code = code;
  max_member = req.max_mems;
  current_member = 1;
  public = req.public;
  members = record { id = creator; role = admin; permissions = []; joined_at = now } ∷ [];
}

unfoldable pub with_member : Group → ℕ → ℕ → Group
unfolding add_row
with_member g u now = record g {
  members = add_row u now g.members;
  current_member = g.current_member + 1;
}

unfoldable pub without_member : Group → ℕ → Group
without_member g u = record g {
  members = delete_row u g.members;
  current_member = g.current_member - 1;
}

unfoldable pub with_role : Group → ℕ → Role → List Perm → Group
with_role g u role perms = record g { members = set_role_row u role perms g.members }

unfoldable pub add_locked : Group → ℕ → ℕ → Outcome (Unit {0})
unfolding with_member
add_locked g u now = elim (find u g.members) [
  | some m ↦ err already_member
  | none ↦
      if leb g.max_member g.current_member
      then err group_full
      else ok (tt, some (with_member g u now))
]

unfoldable pub join : Option Group → ℕ → ℕ → Outcome (Unit {0})
unfolding add_locked
join db u now = with_locked_group db λ g. add_locked g u now

pub record Leaving : Type 0 where
  pub new_admin : ℕ  -- uuid.Nil: no hand-over
  pub deleted : Bool
  pub members : List ℕ

-- The admin hands over to `next`, if it is one, and the user goes.
unfoldable pub hand_over : Group → ℕ → ℕ → Outcome Leaving
unfolding with_role without_member
hand_over g u next = ok (
  record { new_admin = next; deleted = false; members = [] },
  some (without_member (with_role g next admin []) u),
)

unfoldable pub leave_admin : Group → ℕ → ℕ → Outcome Leaving
unfolding hand_over
leave_admin g u successor =
    if successor == 0
    then elim (next_admin u g.members) [
      | none ↦ ok (record { new_admin = 0; deleted = true; members = u ∷ [] }, none)
      | some next ↦ hand_over g u next.id
    ]
    else elim (find successor g.members) [
      | none ↦ err not_member
      | some next ↦ if successor == u then err not_member else hand_over g u successor
    ]

unfoldable pub leave_locked : Group → ℕ → ℕ → Outcome Leaving
unfolding leave_admin without_member
leave_locked g u successor = elim (find u g.members) [
  | none ↦ err not_member
  | some m ↦
      if is_admin m.role
      then leave_admin g u successor
      else ok (record { new_admin = 0; deleted = false; members = [] }, some (without_member g u))
]

unfoldable pub leave : Option Group → ℕ → ℕ → Outcome Leaving
unfolding leave_locked
leave db u successor = with_locked_group db λ g. leave_locked g u successor

-- Runs `fn` with the actor's role if the actor may do `perm`.
unfoldable pub acting_in : {A : Type 0} → Group → ℕ → Perm → (Group → Role → Outcome A) → Outcome A
acting_in g actor perm fn = elim (find actor g.members) [
  | none ↦ err not_found_group
  | some m ↦ if allowed m.role m.permissions perm then fn g m.role else err no_permission
]

unfoldable pub acting_as :
    {A : Type 0} → Option Group → ℕ → Perm → (Group → Role → Outcome A) → Outcome A
unfolding acting_in
acting_as db actor perm fn = with_locked_group db λ g. acting_in g actor perm fn

unfoldable pub kick_target : Group → Role → ℕ → ℕ → Outcome (Unit {0})
unfolding without_member
kick_target g role actor target =
    if target == actor then err kick_self else elim (find target g.members) [
      | none ↦ err not_member
      | some t ↦
          if is_admin t.role
          then err cant_remove_admin
          else if is_moderator t.role && not (is_admin role)
          then err no_permission
          else ok (tt, some (without_member g target))
    ]

unfoldable pub kick : Option Group → ℕ → ℕ → Outcome (Unit {0})
unfolding acting_as kick_target
kick db actor target = acting_as db actor remove_members λ g role. kick_target g role actor target

unfoldable pub transfer_target : Group → ℕ → ℕ → Outcome (Unit {0})
unfolding with_role
transfer_target g actor target =
    if target == actor then err already_admin else elim (find target g.members) [
      | none ↦ err not_member
      | some t ↦ ok (tt, some (with_role (with_role g actor member []) target admin []))
    ]

unfoldable pub transfer_admin : Option Group → ℕ → ℕ → Outcome (Unit {0})
unfolding acting_as transfer_target
transfer_admin db actor target =
    acting_as db actor admin_only λ g role. transfer_target g actor target

abbrev pub is_member : Role → Bool
is_member member = true
is_member _ = false

unfoldable pub set_role_target : Group → ℕ → ℕ → Role → List Perm → Outcome (Unit {0})
unfolding with_role
set_role_target g actor target role perms =
    if target == actor then err self_role else elim (find target g.members) [
      | none ↦ err not_member
      | some t ↦ ok (tt, some (with_role g target role (if is_member role then [] else perms)))
    ]

unfoldable pub set_role : Option Group → ℕ → ℕ → Role → List Perm → Outcome (Unit {0})
unfolding acting_as set_role_target
set_role db actor target role perms =
    acting_as db actor admin_only λ g r. set_role_target g actor target role perms

-- Returns who was in the group.
unfoldable pub delete_group : Option Group → ℕ → Outcome (List ℕ)
unfolding acting_as
delete_group db actor =
    acting_as db actor admin_only λ g role. ok (map (λ (r : MemberRow). r.id) g.members, none)

unfoldable pub add_member : Option Group → ℕ → ℕ → ℕ → Outcome (Unit {0})
unfolding acting_as add_locked
add_member db actor target now = acting_as db actor add_members λ g role. add_locked g target now

abbrev or_old {ℓ} : {A : Type ℓ} → Option A → A → A
or_old none old = old
or_old (some a) old = a

-- UpdateGroupInfo: an absent value leaves the column as it is.
unfoldable pub with_info : Group → Option (List ℕ) → Option (List ℕ) → Option Bool → Group
with_info g name desc public = record g {
  name = or_old name g.name;
  description = or_old desc g.description;
  public = or_old public g.public;
}

abbrev pub is_given {ℓ} : {A : Type ℓ} → Option A → Bool
is_given none = false
is_given (some a) = true

-- The visibility is for the admin only.
unfoldable pub update :
    Option Group → ℕ → Option (List ℕ) → Option (List ℕ) → Option Bool → Outcome (Unit {0})
unfolding acting_as with_info
update db actor name desc public = acting_as db actor edit_info λ g role.
    if is_given public && not (is_admin role)
    then err no_permission
    else ok (tt, some (with_info g name desc public))
