-- ===== src/Groups/Service.antt =====
-- internal/groups/service.go and the cached snapshot of internal/groups/repo.go: who may do what.
use chirpy.Prelude.{
  ℕ, Bool, true, false, not, Option, none, some, List, [], ◌∷◌, if◌then◌else◌, ◌==◌, contains,
  lookup,
}
use chirpy.Groups.Model.{
  Role, admin, moderator, member, Perm, delete_messages, not_found_group, no_permission, bad_role,
  already_member, not_friend, add_members, Result, ok, err, allowed, clean_permissions,
}
use chirpy.Groups.Rows.{MemberRow, Group, leader, is_admin, is_moderator}
use chirpy.Groups.Repo.{Outcome, set_role, join, add_member}

-- What the cache keeps about one group. `mods` has a key for each moderator, also one without
-- permissions; AdminID is uuid.Nil when no row is the admin's.
pub record GroupSnapshot : Type 0 where
  pub max_mem : ℕ
  pub admin_id : ℕ
  pub public : Bool
  pub members : List ℕ
  pub mods : List (ℕ × List Perm)

-- ModeratorsOf, as the loop puts it into the map.
unfoldable pub moderators_of : List MemberRow → List (ℕ × List Perm)
moderators_of [] = []
moderators_of (r ∷ rows) =
    if is_moderator r.role then (r.id, r.permissions) ∷ moderators_of rows else moderators_of rows

unfoldable pub member_ids : List MemberRow → List ℕ
member_ids [] = []
member_ids (r ∷ rows) = r.id ∷ member_ids rows

unfoldable pub snapshot : Group → GroupSnapshot
unfolding moderators_of member_ids
snapshot g = record {
  max_mem = g.max_member;
  admin_id = elim (leader g.members) [ none ↦ 0 | some u ↦ u ];
  public = g.public;
  members = member_ids g.members;
  mods = moderators_of g.members;
}

-- GroupSnapshot.Role: `none` is "", no member.
unfoldable pub role_of : GroupSnapshot → ℕ → Option (Role × List Perm)
role_of snap u = if u == snap.admin_id then some (admin, []) else elim (lookup u snap.mods) [
  | some perms ↦ some (moderator, perms)
  | none ↦ if contains snap.members u then some (member, []) else none
]

-- groupService.check.
unfoldable pub check : GroupSnapshot → ℕ → Perm → Result (Unit {0})
unfolding role_of
check snap u perm = elim (role_of snap u) [
  | none ↦ err not_found_group
  | some (role, perms) ↦ if allowed role perms perm then ok tt else err no_permission
]

abbrev pub is_senior : Option (Role × List Perm) → Bool
is_senior none = false
is_senior (some (admin, perms)) = true
is_senior (some (moderator, perms)) = true
is_senior (some (member, perms)) = false

abbrev pub role_is_admin : Option (Role × List Perm) → Bool
role_is_admin none = false
role_is_admin (some (role, perms)) = is_admin role

abbrev pub role_allows : Option (Role × List Perm) → Perm → Bool
role_allows none perm = false
role_allows (some (role, perms)) perm = allowed role perms perm

unfoldable pub can_delete_message : GroupSnapshot → ℕ → ℕ → Bool
unfolding role_of
can_delete_message snap actor sender =
    let role = role_of snap actor in
    if role_is_admin role
    then true
    else if not (role_allows role delete_messages)
    then false
    else not (is_senior (role_of snap sender))

-- groupService.SetRole: the requested role is `none` when it is no role that the code knows.
unfoldable pub service_set_role :
    Option Group → ℕ → ℕ → Option Role → List Perm → Outcome (Unit {0})
service_set_role db actor target none perms = err bad_role
service_set_role db actor target (some admin) perms = err bad_role
service_set_role db actor target (some role) perms = elim (clean_permissions perms) [
  | err e ↦ err e
  | ok clean ↦ set_role db actor target role clean
]

-- groupService.JoinPublic, on the snapshot that the cache returns.
unfoldable pub join_public : Option Group → GroupSnapshot → ℕ → ℕ → Outcome (Unit {0})
join_public db snap u now = if snap.public then join db u now else err not_found_group

-- groupService.AddFriend; `friends` is the answer of the friends service about actor and target.
unfoldable pub add_friend : Option Group → GroupSnapshot → Bool → ℕ → ℕ → ℕ → Outcome (Unit {0})
unfolding check
add_friend db snap friends actor target now = elim (check snap actor add_members) [
  | err e ↦ err e
  | ok done ↦
      if contains snap.members target
      then err already_member
      else if not friends
      then err not_friend
      else add_member db actor target now
]
