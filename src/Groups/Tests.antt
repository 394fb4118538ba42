-- ===== src/Groups/Tests.antt =====
-- A group of three of internal/groups, and the theorems at it: user 1 is the admin, user 2 a
-- moderator who may remove members, user 3 a member.
use chirpy.Prelude.{
  ℕ, ◌≡◌, ◌↔◌, ◌⊎◌, refl, true, false, none, some, [], ◌∷◌, arith, if◌then◌else◌, ◌==◌,
}
use chirpy.Prelude.{List}
use chirpy.Groups.Invite.{
  new_code_of, normalize_invite_code, format_invite_code, Typed, nothing, same, small, separated,
  new_code-normalize,
}
use chirpy.Groups.Model.{admin, moderator, member, remove_members, edit_info, has_perm, ok, err}
use chirpy.Groups.Rows.{MemberRow, Group, find}
use chirpy.Groups.Repo.{kick, acting_in, without_member}
use chirpy.Groups.Service.{snapshot, check}
use chirpy.Groups.Tables.{admins}
use chirpy.Groups.Invariant.{Sound, DbSound}
use chirpy.Groups.History.{joins, kicks, leaves, transfers, serve_all, serve_all-DbSound}
use chirpy.Groups.Authority.{kick_ok, check-acting_in}

abbrev boss : MemberRow
boss = record { id = 1; role = admin; permissions = []; joined_at = 10 }

abbrev helper : MemberRow
helper = record { id = 2; role = moderator; permissions = remove_members ∷ []; joined_at = 30 }

abbrev guest : MemberRow
guest = record { id = 3; role = member; permissions = []; joined_at = 20 }

abbrev trio : Group
trio = record {
  name = [];
  description = [];
  invite_code = [];
  max_member = 4;
  current_member = 3;
  public = false;
  members = boss ∷ helper ∷ guest ∷ [];
}

trio-Sound : Sound trio
unfolding find admins
trio-Sound = record {
  distinct = (refl, (refl, (refl, tt)));
  counted = refl;
  capacity = omega arith;
  one_admin = refl;
}

serve_all-DbSound_example :
    DbSound (serve_all (some trio) (joins 4 50 ∷ kicks 2 3 ∷ transfers 1 2 ∷ leaves 2 0 ∷ []))
serve_all-DbSound_example =
    serve_all-DbSound (some trio) (joins 4 50 ∷ kicks 2 3 ∷ transfers 1 2 ∷ leaves 2 0 ∷ [])
      trio-Sound

kick_ok_example :
    ((kick (some trio) 2 3 ≡ ok (tt, some (without_member trio 3))) ↔ (
      (helper.role ≡ admin)
      ⊎ ((helper.role ≡ moderator)
          × (has_perm helper.permissions remove_members ≡ true)
          × (guest.role ≡ member))))
    × ((w : ℕ)
        → find w (without_member trio 3).members ≡ (if 3 == w then none else find w trio.members))
unfolding find
kick_ok_example = kick_ok trio 2 3 helper guest trio-Sound (omega arith) refl refl

check-acting_in_example :
    acting_in trio 2 edit_info (λ h role. ok (tt {0}, some h))
    ≡ (elim (check (snapshot trio) 2 edit_info) [ ok done ↦ ok (done, some trio) | err e ↦ err e ])
check-acting_in_example = check-acting_in trio 2 edit_info trio-Sound

abbrev random : List ℕ
random = 0 ∷ 33 ∷ 31 ∷ 8 ∷ 255 ∷ 13 ∷ 2 ∷ 3 ∷ []

-- The first letter small, and a space after the second.
typed : Typed (new_code_of random) (97 ∷ 66 ∷ 32 ∷ 57 ∷ 74 ∷ 57 ∷ 80 ∷ 67 ∷ 68 ∷ [])
unfolding new_code_of
typed = small 65 (omega arith) (omega arith) (
    same 66 (separated 32 refl (same 57 (same 74 (same 57 (same 80 (same 67 (same 68 nothing))))))))

new_code-normalize_example :
    (normalize_invite_code (format_invite_code (new_code_of random)) ≡ some (new_code_of random))
    × (normalize_invite_code (97 ∷ 66 ∷ 32 ∷ 57 ∷ 74 ∷ 57 ∷ 80 ∷ 67 ∷ 68 ∷ [])
        ≡ some (new_code_of random))
new_code-normalize_example =
    new_code-normalize random (97 ∷ 66 ∷ 32 ∷ 57 ∷ 74 ∷ 57 ∷ 80 ∷ 67 ∷ 68 ∷ []) refl typed
