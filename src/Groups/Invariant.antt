-- ===== src/Groups/Invariant.antt =====
-- Soundness of the rows of a group (internal/groups/repo.go), and each transition.
use chirpy.Prelude.{
  ℕ, ◌≤◌, ◌<◌, ◌≡◌, ◌≢◌, refl, true, false, Option, none, some, List, [], arith, length,
}
use chirpy.Groups.Model.{Role, admin, member, Perm, CreateRequest}
use chirpy.Groups.Rows.{MemberRow, Group, find, delete_row, set_role_row, is_admin}
use chirpy.Groups.Repo.{create, with_member, without_member, with_role}
use chirpy.Groups.Tables.{
  Distinct, admins, find-delete_row, find-set_role_row, add_row-Distinct, delete_row-Distinct,
  set_role_row-Distinct, length-add_row, length-delete_row, length-set_role_row, admins-add_row,
  admins-delete_row, admins-set_role_row, admins_pos,
}

-- The group's count is the number of its rows and within its capacity, nobody has two rows, and
-- one row is the admin's.
pub record Sound (g : Group) : Type 0 where
  pub distinct : Distinct g.members
  pub counted : g.current_member ≡ length g.members
  pub capacity : g.current_member ≤ g.max_member
  pub one_admin : admins g.members ≡ 1

abbrev pub DbSound : Option Group → Type 0
DbSound none = Unit {0}
DbSound (some g) = Sound g

pub create-Sound :
    (req : CreateRequest) (code : List ℕ) (u now : ℕ)
    → 1 ≤ req.max_mems
    → Sound (create req code u now)
unfolding create admins find
create-Sound req code u now h = record {
  distinct = (refl, tt);
  counted = refl;
  capacity = h;
  one_admin = refl;
}

pub with_member-Sound :
    (g : Group) (u now : ℕ)
    → Sound g
    → find u g.members ≡ none
    → g.current_member < g.max_member
    → Sound (with_member g u now)
unfolding with_member
with_member-Sound g u now v e room = record {
  distinct = add_row-Distinct u now g.members e v.distinct;
  counted = omega (arith, length-add_row u now g.members, v.counted);
  capacity = omega arith;
  one_admin = omega (arith, admins-add_row u now g.members, v.one_admin);
}

pub without_member-Sound :
    (g : Group) (u : ℕ) (r : MemberRow)
    → Sound g
    → find u g.members ≡ some r
    → is_admin r.role ≡ false
    → Sound (without_member g u)
unfolding without_member
without_member-Sound g u r v e plain = record {
  distinct = delete_row-Distinct u g.members v.distinct;
  counted = omega (arith, length-delete_row u g.members r v.distinct e, v.counted);
  capacity = omega (arith, v.capacity);
  one_admin = ground (arith, admins-delete_row u g.members r v.distinct e, v.one_admin);
}

pub with_role-Sound :
    (g : Group) (u : ℕ) (role : Role) (perms : List Perm) (r : MemberRow)
    → Sound g
    → find u g.members ≡ some r
    → is_admin r.role ≡ is_admin role
    → Sound (with_role g u role perms)
unfolding with_role
with_role-Sound g u role perms r v e same = record {
  distinct = set_role_row-Distinct u role perms g.members v.distinct;
  counted = omega (arith, length-set_role_row u role perms g.members, v.counted);
  capacity = v.capacity;
  one_admin =
      ground (arith, admins-set_role_row u role perms g.members r v.distinct e, v.one_admin);
}

-- There is no second admin.
pub other_not_admin :
    (g : Group) (u w : ℕ) (r s : MemberRow)
    → Sound g
    → find u g.members ≡ some r
    → is_admin r.role ≡ true
    → find w g.members ≡ some s
    → w ≢ u
    → is_admin s.role ≡ false
other_not_admin g u w r s v e top f ne = ground (
  arith,
  v.one_admin,
  admins-delete_row u g.members r v.distinct e,
  find-delete_row u w g.members,
  admins_pos w (delete_row u g.members) s,
)

pub hand_over-Sound :
    (g : Group) (u w : ℕ) (r s : MemberRow)
    → Sound g
    → find u g.members ≡ some r
    → is_admin r.role ≡ true
    → find w g.members ≡ some s
    → w ≢ u
    → Sound (without_member (with_role g w admin []) u)
unfolding with_role without_member
hand_over-Sound g u w r s v e top f ne =
    let rows = set_role_row w admin [] g.members in
    let d : Distinct rows = set_role_row-Distinct w admin [] g.members v.distinct in
    let stays : find u rows ≡ some r = ground (arith, find-set_role_row w u admin [] g.members) in
    record {
      distinct = delete_row-Distinct u rows d;
      counted = omega (
        arith,
        length-delete_row u rows r d stays,
        length-set_role_row w admin [] g.members,
        v.counted,
      );
      capacity = omega (arith, v.capacity);
      one_admin = ground (
        arith,
        other_not_admin g u w r s v e top f ne,
        admins-set_role_row w admin [] g.members s v.distinct f,
        admins-delete_row u rows r d stays,
        v.one_admin,
      );
    }

pub transfer-Sound :
    (g : Group) (u w : ℕ) (r s : MemberRow)
    → Sound g
    → find u g.members ≡ some r
    → is_admin r.role ≡ true
    → find w g.members ≡ some s
    → w ≢ u
    → Sound (with_role (with_role g u member []) w admin [])
unfolding with_role
transfer-Sound g u w r s v e top f ne =
    let rows = set_role_row u member [] g.members in
    let d : Distinct rows = set_role_row-Distinct u member [] g.members v.distinct in
    let same : find w rows ≡ some s = ground (arith, find-set_role_row u w member [] g.members) in
    record {
      distinct = set_role_row-Distinct w admin [] rows d;
      counted = omega (
        arith,
        length-set_role_row w admin [] rows,
        length-set_role_row u member [] g.members,
        v.counted,
      );
      capacity = v.capacity;
      one_admin = ground (
        arith,
        other_not_admin g u w r s v e top f ne,
        admins-set_role_row u member [] g.members r v.distinct e,
        admins-set_role_row w admin [] rows s d same,
        v.one_admin,
      );
    }
