-- ===== src/Groups/Authority.antt =====
-- Who may do what in a group: internal/groups/model.go, repo.go and service.go.
use chirpy.Prelude.{
  ℕ, ◌+◌, ◌≤◌, ◌<◌, ◌≡◌, ◌≢◌, ◌↔◌, ◌⊎◌, refl, inl, inr, Bool, true, false, Option, none, some, List,
  [], ◌∷◌, arith, lookup, contains, Option-cases, Bool-cases, ◌==◌, if◌then◌else◌,
}
use chirpy.Groups.Model.{
  Role, admin, moderator, member, Perm, has_perm, Result, ok, err, allowed, remove_members,
  delete_messages, not_found_group, no_permission, group_full,
}
use chirpy.Groups.Rows.{MemberRow, Group, find, leader, is_admin, is_moderator}
use chirpy.Groups.Repo.{with_member, without_member, acting_in, kick, join}
use chirpy.Groups.Service.{snapshot, moderators_of, member_ids, role_of, check, can_delete_message}
use chirpy.Groups.Tables.{Distinct, admins, find-add_row, find-delete_row}
use chirpy.Groups.Invariant.{Sound, other_not_admin}

-- Between two members of a sound group, a removal succeeds exactly when the actor is the admin, or
-- a moderator with that permission facing an ordinary member; it then takes the target's row away,
-- and no other.
pub kick_ok :
    (g : Group) (actor target : ℕ) (a t : MemberRow)
    → Sound g
    → actor ≢ target
    → find actor g.members ≡ some a
    → find target g.members ≡ some t
    → ((kick (some g) actor target ≡ ok (tt, some (without_member g target))) ↔ (
        (a.role ≡ admin)
        ⊎ ((a.role ≡ moderator)
            × (has_perm a.permissions remove_members ≡ true)
            × (t.role ≡ member))))
      × ((w : ℕ)
          → find w (without_member g target).members
            ≡ (if target == w then none else find w g.members))
unfolding kick allowed
kick_ok g actor target a t v ne e f = (
  ground (arith, other_not_admin g actor target a t v e),
  λ w. find-delete_row target w g.members,
)

-- A user who is no member joins exactly when the group has room, and is told that it is full
-- otherwise; the count then grows by one, the new row has no rights, and the other rows stay.
pub join_ok :
    (g : Group) (u now : ℕ)
    → find u g.members ≡ none
    → ((join (some g) u now ≡ ok (tt, some (with_member g u now)))
        ↔ (g.current_member < g.max_member))
      × ((join (some g) u now ≡ err group_full) ↔ (g.max_member ≤ g.current_member))
      × ((with_member g u now).current_member ≡ g.current_member + 1)
      × ((w : ℕ)
          → find w (with_member g u now).members ≡ (
              if u == w
              then some (record { id = u; role = member; permissions = []; joined_at = now })
              else find w g.members))
unfolding join
join_ok g u now e = (ground arith, ground arith, omega arith, λ w. find-add_row u now w g.members e)

mod_perms : Option MemberRow → Option (List Perm)
mod_perms none = none
mod_perms (some r) = if is_moderator r.role then some r.permissions else none

lookup-moderators_of :
    (u : ℕ) (rows : List MemberRow)
    → Distinct rows
    → lookup u (moderators_of rows) ≡ mod_perms (find u rows)
unfolding moderators_of find mod_perms
lookup-moderators_of u [] d = refl
lookup-moderators_of u (x ∷ rows) d = ground (arith, lookup-moderators_of u rows d.1)

is_found : Option MemberRow → Bool
is_found none = false
is_found (some r) = true

contains-member_ids :
    (u : ℕ) (rows : List MemberRow) → contains (member_ids rows) u ≡ is_found (find u rows)
unfolding member_ids find is_found
contains-member_ids u [] = refl
contains-member_ids u (x ∷ rows) = ground (arith, contains-member_ids u rows)

leader-none : (rows : List MemberRow) → leader rows ≡ none → admins rows ≡ 0
unfolding leader admins
leader-none [] e = refl
leader-none (x ∷ rows) e = ground (arith, leader-none rows)

leader-find :
    (rows : List MemberRow) (a : ℕ)
    → Distinct rows
    → leader rows ≡ some a
    → (r : MemberRow) × (find a rows ≡ some r) × (is_admin r.role ≡ true)
unfolding leader find
leader-find [] a d e = cc
leader-find (x ∷ rows) a d e = elim (Bool-cases (is_admin x.role)) [
  | inl b ↦ (x, ground arith, b)
  | inr b ↦ let (r, f, top) = leader-find rows a d.1 (ground arith) in (r, ground arith, top)
]

-- What a permission check answers for a member row.
abbrev row_check : Option MemberRow → Perm → Result (Unit {0})
row_check none perm = err not_found_group
row_check (some r) perm = if allowed r.role r.permissions perm then ok tt else err no_permission

-- A member's role and permissions, as the snapshot tells them.
abbrev row_role : Option MemberRow → Option (Role × List Perm)
row_role none = none
row_role (some r) =
    if is_admin r.role
    then some (admin, [])
    else if is_moderator r.role
    then some (moderator, r.permissions)
    else some (member, [])

role_of-row_role :
    (g : Group) (u : ℕ) → Sound g → role_of (snapshot g) u ≡ row_role (find u g.members)
unfolding role_of snapshot mod_perms is_found
role_of-row_role g u v = elim (Option-cases (leader g.members)) [
  | inl n ↦ absurd (ground (arith, leader-none g.members n, v.one_admin))
  | inr (a, e) ↦
      let (r, f, top) = leader-find g.members a v.distinct e in
      let mods = lookup-moderators_of u g.members v.distinct in
      let ids = contains-member_ids u g.members in
      elim (Option-cases (find u g.members)) [
        | inl h ↦ ground (arith, mods, ids, f)
        | inr (s, h) ↦ ground (arith, mods, ids, f, top, other_not_admin g a u r s v f top h)
      ]
]

check-row_check :
    (g : Group) (u : ℕ) (perm : Perm)
    → Sound g
    → check (snapshot g) u perm ≡ row_check (find u g.members) perm
unfolding check allowed
check-row_check g u perm v = ground (arith, role_of-row_role g u v)

-- The check on the cached snapshot of a sound group and the check inside the transaction give the
-- same answer: the transaction goes on exactly when the snapshot permits, and refuses with the
-- same error.
pub check-acting_in :
    (g : Group) (u : ℕ) (perm : Perm)
    → Sound g
    → acting_in g u perm (λ h role. ok (tt {0}, some h))
      ≡ (elim (check (snapshot g) u perm) [ ok done ↦ ok (done, some g) | err e ↦ err e ])
unfolding acting_in
check-acting_in g u perm v = rw (check-row_check g u perm v) (ground arith)

-- A member of a sound group may delete another member's message exactly when they are the admin,
-- or a moderator with that permission and the sender an ordinary member.
pub can_delete_message_iff :
    (g : Group) (actor sender : ℕ) (a s : MemberRow)
    → Sound g
    → find actor g.members ≡ some a
    → find sender g.members ≡ some s
    → (can_delete_message (snapshot g) actor sender ≡ true) ↔ (
        (a.role ≡ admin)
        ⊎ ((a.role ≡ moderator)
            × (has_perm a.permissions delete_messages ≡ true)
            × (s.role ≡ member)))
unfolding can_delete_message allowed
can_delete_message_iff g actor sender a s v e f =
    ground (arith, role_of-row_role g actor v, role_of-row_role g sender v)
