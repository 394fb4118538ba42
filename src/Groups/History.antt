-- ===== src/Groups/History.antt =====
-- Histories of the requests of internal/groups.
use chirpy.Prelude.{
  ℕ, ◌≡◌, refl, inl, inr, Bool, true, false, not, ◌&&◌, Option, none, some, List, [], ◌∷◌, arith,
  Option-cases, Bool-cases, ◌==◌, leb,
}
use chirpy.Groups.Model.{
  Role, admin, moderator, member, Perm, admin_only, Result, ok, err, allowed, clean_permissions,
  remove_members, add_members, edit_info,
}
use chirpy.Groups.Rows.{MemberRow, Group, find, is_admin, next_admin}
use chirpy.Groups.Repo.{
  Outcome, commit, add_locked, join, leave, leave_admin, leave_locked, acting_in, acting_as, kick,
  kick_target, transfer_admin, transfer_target, set_role, is_given, set_role_target, delete_group,
  add_member, update,
}
use chirpy.Groups.Service.{service_set_role}
use chirpy.Groups.Tables.{next_admin-find}
use chirpy.Groups.Invariant.{
  Sound, DbSound, with_member-Sound, without_member-Sound, with_role-Sound, hand_over-Sound,
  other_not_admin, transfer-Sound,
}

abbrev Keeps : {A : Type 0} → Option Group → Outcome A → Type 0
Keeps before outcome = DbSound (commit before outcome)

add_locked-Keeps : (g : Group) (u now : ℕ) → Sound g → Keeps (some g) (add_locked g u now)
unfolding add_locked
add_locked-Keeps g u now v = elim (Option-cases (find u g.members)) [
  | inr (m, e) ↦ rw (e, add_locked) v
  | inl e ↦ elim (Bool-cases (leb g.max_member g.current_member)) [
    | inl b ↦ rw (e, add_locked, b) v
    | inr b ↦ rw (e, add_locked, b) (with_member-Sound g u now v e (ground arith))
  ]
]

-- The actor is a member who may do `perm`.
acting_as-Keeps :
    {A : Type 0} (db : Option Group) (actor : ℕ) (perm : Perm) (fn : Group → Role → Outcome A)
    → DbSound db
    → ((g : Group) (m : MemberRow)
        → Sound g
        → find actor g.members ≡ some m
        → allowed m.role m.permissions perm ≡ true
        → Keeps (some g) (fn g m.role))
    → Keeps db (acting_as db actor perm fn)
unfolding acting_as
acting_as-Keeps none actor perm fn v keep = tt
acting_as-Keeps (some g) actor perm fn v keep = elim (Option-cases (find actor g.members)) [
  | inl e ↦ rw (e, acting_in) v
  | inr (m, e) ↦ elim (Bool-cases (allowed m.role m.permissions perm)) [
    | inl b ↦ rw (e, acting_in, b) (keep g m v e b)
    | inr b ↦ rw (e, acting_in, b) v
  ]
]

-- What is for the admin only is done by the admin.
admin_only-is_admin :
    (m : MemberRow) → allowed m.role m.permissions admin_only ≡ true → is_admin m.role ≡ true
unfolding allowed
admin_only-is_admin m h = ground arith

leave_admin-Keeps :
    (g : Group) (u successor : ℕ) (m : MemberRow)
    → Sound g
    → find u g.members ≡ some m
    → is_admin m.role ≡ true
    → Keeps (some g) (leave_admin g u successor)
unfolding leave_admin
leave_admin-Keeps g u successor m v e top = elim (Bool-cases (successor == 0)) [
  | inl b ↦ elim (Option-cases (next_admin u g.members)) [
    | inl n ↦ rw (b, n, leave_admin) tt
    | inr (s, n) ↦
        let (f, ne) = next_admin-find u g.members s v.distinct n in
        rw (b, n, leave_admin) (hand_over-Sound g u s.id m s v e top f ne)
  ]
  | inr b ↦ elim (Option-cases (find successor g.members)) [
    | inl n ↦ rw (b, n, leave_admin) v
    | inr (s, n) ↦ elim (Bool-cases (successor == u)) [
      | inl c ↦ rw (b, n, leave_admin, c) v
      | inr c ↦
          rw (b, n, leave_admin, c) (hand_over-Sound g u successor m s v e top n (ground arith))
    ]
  ]
]

leave-Keeps : (db : Option Group) (u successor : ℕ) → DbSound db → Keeps db (leave db u successor)
unfolding leave
leave-Keeps none u successor v = tt
leave-Keeps (some g) u successor v = elim (Option-cases (find u g.members)) [
  | inl e ↦ rw (e, leave_locked) v
  | inr (m, e) ↦ elim (Bool-cases (is_admin m.role)) [
    | inl b ↦ rw (e, leave_locked, b) (leave_admin-Keeps g u successor m v e b)
    | inr b ↦ rw (e, leave_locked, b) (without_member-Sound g u m v e b)
  ]
]

kick_target-Keeps :
    (g : Group) (role : Role) (actor target : ℕ)
    → Sound g
    → Keeps (some g) (kick_target g role actor target)
unfolding kick_target
kick_target-Keeps g role actor target v = elim (Option-cases (find target g.members)) [
  | inl e ↦ ground arith
  | inr (t, e) ↦ ground (arith, without_member-Sound g target t v e)
]

transfer_target-Keeps :
    (g : Group) (actor target : ℕ) (m : MemberRow)
    → Sound g
    → find actor g.members ≡ some m
    → is_admin m.role ≡ true
    → Keeps (some g) (transfer_target g actor target)
unfolding transfer_target
transfer_target-Keeps g actor target m v e top = elim (Bool-cases (target == actor)) [
  | inl b ↦ rw b v
  | inr b ↦ elim (Option-cases (find target g.members)) [
    | inl n ↦ rw (b, n, transfer_target) v
    | inr (t, n) ↦
        rw (b, n, transfer_target) (transfer-Sound g actor target m t v e top n (ground arith))
  ]
]

set_role_target-Keeps :
    (g : Group) (actor target : ℕ) (role : Role) (perms : List Perm) (m : MemberRow)
    → Sound g
    → find actor g.members ≡ some m
    → is_admin m.role ≡ true
    → is_admin role ≡ false
    → Keeps (some g) (set_role_target g actor target role perms)
unfolding set_role_target
set_role_target-Keeps g actor target role perms m v e top plain =
    elim (Bool-cases (target == actor)) [
      | inl b ↦ rw b v
      | inr b ↦ elim (Option-cases (find target g.members)) [
        | inl n ↦ rw (b, n, set_role_target) v
        | inr (t, n) ↦
            let junior = other_not_admin g actor target m t v e top n (ground arith) in
            rw (b, n, set_role_target)
              (with_role-Sound g target role _ t v n (rw (junior, plain) refl))
      ]
    ]

set_role-Keeps :
    (db : Option Group) (actor target : ℕ) (role : Role) (perms : List Perm)
    → is_admin role ≡ false
    → DbSound db
    → Keeps db (set_role db actor target role perms)
unfolding set_role
set_role-Keeps db actor target role perms plain v =
    acting_as-Keeps db actor admin_only _ v λ g m s e may.
      set_role_target-Keeps g actor target role perms m s e (admin_only-is_admin m may) plain

clean-Keeps :
    (db : Option Group) (actor target : ℕ) (role : Role) (clean : Result (List Perm))
    → is_admin role ≡ false
    → DbSound db
    → Keeps db (elim clean [ err e ↦ err e | ok perms ↦ set_role db actor target role perms ])
clean-Keeps db actor target role (err e) plain v = v
clean-Keeps db actor target role (ok perms) plain v =
    set_role-Keeps db actor target role perms plain v

service_set_role-Keeps :
    (db : Option Group) (actor target : ℕ) (role : Option Role) (perms : List Perm)
    → DbSound db
    → Keeps db (service_set_role db actor target role perms)
unfolding service_set_role
service_set_role-Keeps db actor target none perms v = v
service_set_role-Keeps db actor target (some admin) perms v = v
service_set_role-Keeps db actor target (some moderator) perms v =
    clean-Keeps db actor target moderator (clean_permissions perms) refl v
service_set_role-Keeps db actor target (some member) perms v =
    clean-Keeps db actor target member (clean_permissions perms) refl v

update-Keeps :
    (db : Option Group) (actor : ℕ) (name desc : Option (List ℕ)) (public : Option Bool)
    → DbSound db
    → Keeps db (update db actor name desc public)
unfolding update
update-Keeps db actor name desc public v = acting_as-Keeps db actor edit_info _ v λ g m s e may.
    elim (Bool-cases (is_given public && not (is_admin m.role))) [
      | inl b ↦ rw b s
      | inr b ↦ rw b (record {
        distinct = s.distinct;
        counted = s.counted;
        capacity = s.capacity;
        one_admin = s.one_admin;
      })
    ]

-- A request that changes a group, with the user who sends it.
pub data Request : Type 0 where
  joins : ℕ → ℕ → Request  -- user, now
  leaves : ℕ → ℕ → Request  -- user, successor
  kicks : ℕ → ℕ → Request  -- actor, target
  transfers : ℕ → ℕ → Request  -- actor, target
  sets_role : ℕ → ℕ → Option Role → List Perm → Request  -- actor, target, role, permissions
  adds : ℕ → ℕ → ℕ → Request  -- actor, target, now
  updates : ℕ → Option (List ℕ) → Option (List ℕ) → Option Bool → Request
  deletes : ℕ → Request

pub serve : Option Group → Request → Option Group
serve db (joins u now) = commit db (join db u now)
serve db (leaves u successor) = commit db (leave db u successor)
serve db (kicks actor target) = commit db (kick db actor target)
serve db (transfers actor target) = commit db (transfer_admin db actor target)
serve db (sets_role actor target role perms) =
    commit db (service_set_role db actor target role perms)
serve db (adds actor target now) = commit db (add_member db actor target now)
serve db (updates actor name desc public) = commit db (update db actor name desc public)
serve db (deletes actor) = commit db (delete_group db actor)

pub serve_all : Option Group → List Request → Option Group
serve_all db [] = db
serve_all db (r ∷ rs) = serve_all (serve db r) rs

pub serve-DbSound : (db : Option Group) (r : Request) → DbSound db → DbSound (serve db r)
unfolding serve join kick transfer_admin add_member delete_group
serve-DbSound none (joins u now) v = tt
serve-DbSound (some g) (joins u now) v = add_locked-Keeps g u now v
serve-DbSound db (leaves u successor) v = leave-Keeps db u successor v
serve-DbSound db (kicks actor target) v =
    acting_as-Keeps db actor remove_members _ v
      λ g m s e may. kick_target-Keeps g m.role actor target s
serve-DbSound db (transfers actor target) v =
    acting_as-Keeps db actor admin_only _ v
      λ g m s e may. transfer_target-Keeps g actor target m s e (admin_only-is_admin m may)
serve-DbSound db (sets_role actor target role perms) v =
    service_set_role-Keeps db actor target role perms v
serve-DbSound db (adds actor target now) v =
    acting_as-Keeps db actor add_members _ v λ g m s e may. add_locked-Keeps g target now s
serve-DbSound db (updates actor name desc public) v = update-Keeps db actor name desc public v
serve-DbSound db (deletes actor) v = acting_as-Keeps db actor admin_only _ v λ g m s e may. tt

-- From a sound group, or none, and after any requests whatever: a group that is still there has
-- one admin, a member count that is the number of its members and within its capacity, and no user
-- twice.
pub serve_all-DbSound :
    (db : Option Group) (rs : List Request) → DbSound db → DbSound (serve_all db rs)
unfolding serve_all
serve_all-DbSound db [] v = v
serve_all-DbSound db (r ∷ rs) v = serve_all-DbSound (serve db r) rs (serve-DbSound db r v)
