-- ===== src/Groups/Rows.antt =====
-- The tables behind internal/groups/repo.go, for one group: its chat_groups row with its
-- member_table rows, in the order of insertion. The queries are those of sql/queries/groups.sql.
-- The group's rows are reached under its row lock only, so each group is a state of its own;
-- member_table refers to chat_groups with ON DELETE CASCADE, so deleting the group deletes them.
use chirpy.Prelude.{
  ℕ, Bool, true, false, not, ◌&&◌, ◌||◌, Option, none, some, List, [], ◌∷◌, ◌++◌, if◌then◌else◌,
  ltb, ◌==◌,
}
use chirpy.Groups.Model.{Role, admin, moderator, member, Perm}

pub record MemberRow : Type 0 where
  pub id : ℕ
  pub role : Role
  pub permissions : List Perm
  pub joined_at : ℕ

pub record Group : Type 0 where
  pub name : List ℕ
  pub description : List ℕ
  pub invite_code : List ℕ
  pub max_member : ℕ
  pub current_member : ℕ
  pub public : Bool
  pub members : List MemberRow

-- GetMember.
unfoldable pub find : ℕ → List MemberRow → Option MemberRow
find u [] = none
find u (r ∷ rows) = if r.id == u then some r else find u rows

-- AddMember: role and permissions take the table's defaults.
unfoldable pub add_row : ℕ → ℕ → List MemberRow → List MemberRow
add_row u now rows =
    rows ++ record { id = u; role = member; permissions = []; joined_at = now } ∷ []

-- DeleteMemFromGroup.
unfoldable pub delete_row : ℕ → List MemberRow → List MemberRow
delete_row u [] = []
delete_row u (r ∷ rows) = if r.id == u then delete_row u rows else r ∷ delete_row u rows

-- SetMemberRole.
unfoldable pub set_role_row : ℕ → Role → List Perm → List MemberRow → List MemberRow
set_role_row u role perms [] = []
set_role_row u role perms (r ∷ rows) =
    (if r.id == u then record r { role = role; permissions = perms } else r)
    ∷ set_role_row u role perms rows

abbrev pub is_admin : Role → Bool
is_admin admin = true
is_admin _ = false

abbrev pub is_moderator : Role → Bool
is_moderator moderator = true
is_moderator _ = false

-- GetGroupLeader.
unfoldable pub leader : List MemberRow → Option ℕ
leader [] = none
leader (r ∷ rows) = if is_admin r.role then some r.id else leader rows

-- The ORDER BY of NextAdmin: moderators first, then by joined_at, then by member_id.
unfoldable pub precedes : MemberRow → MemberRow → Bool
precedes a b =
    if is_moderator a.role && not (is_moderator b.role)
    then true
    else if not (is_moderator a.role) && is_moderator b.role
    then false
    else ltb a.joined_at b.joined_at || (a.joined_at == b.joined_at && ltb a.id b.id)

unfoldable pub first_of_two : MemberRow → Option MemberRow → Option MemberRow
unfolding precedes
first_of_two r none = some r
first_of_two r (some s) = some (if precedes s r then s else r)

-- NextAdmin.
unfoldable pub next_admin : ℕ → List MemberRow → Option MemberRow
unfolding first_of_two
next_admin leaving [] = none
next_admin leaving (r ∷ rows) =
    let rest = next_admin leaving rows in if r.id == leaving then rest else first_of_two r rest
