-- ===== src/Groups/Model.antt =====
-- internal/groups/model.go: roles, permissions, errors. A permission is a string that the code only
-- compares: the five known ones, the empty string (`admin_only`), and any other.
use chirpy.Prelude.{ℕ, Bool, true, false, not, ◌&&◌, ◌||◌, List, [], ◌∷◌, if◌then◌else◌, ◌==◌, keep}

pub data Role : Type 0 where
  admin moderator member : Role

pub data Perm : Type 0 where
  admin_only add_members remove_members delete_messages edit_info manage_invite : Perm
  other_perm : ℕ → Perm

abbrev pub perm_eq : Perm → Perm → Bool
perm_eq admin_only admin_only = true
perm_eq add_members add_members = true
perm_eq remove_members remove_members = true
perm_eq delete_messages delete_messages = true
perm_eq edit_info edit_info = true
perm_eq manage_invite manage_invite = true
perm_eq (other_perm a) (other_perm b) = a == b
perm_eq _ _ = false

-- slices.Contains.
abbrev pub has_perm : List Perm → Perm → Bool
has_perm [] p = false
has_perm (q ∷ qs) p = perm_eq q p || has_perm qs p

abbrev pub all_permissions : List Perm
all_permissions = add_members ∷ remove_members ∷ delete_messages ∷ edit_info ∷ manage_invite ∷ []

pub data GroupErr : Type 0 where
  not_found_group group_full already_member not_member invalid_group_req : GroupErr
  no_permission kick_self cant_remove_admin already_admin nothing_to_update : GroupErr
  invalid_group_info not_friend no_avatar bad_role self_role bad_search : GroupErr

pub data Result {ℓ} (A : Type ℓ) : Type ℓ where
  ok : A → Result A
  err : GroupErr → Result A

-- May someone with this role and these permissions do `perm`? The empty string is admin only.
unfoldable pub allowed : Role → List Perm → Perm → Bool
allowed admin perms perm = true
allowed moderator perms perm = not (perm_eq perm admin_only) && has_perm perms perm
allowed member perms perm = false

unfoldable pub all_known : List Perm → Bool
all_known [] = true
all_known (p ∷ ps) = if has_perm all_permissions p then all_known ps else false

-- Validates and de-duplicates a permission list, in the order of AllPermissions.
unfoldable pub clean_permissions : List Perm → Result (List Perm)
unfolding all_known
clean_permissions given =
    if all_known given then ok (keep (λ p. has_perm given p) all_permissions) else err bad_role

abbrev pub max_group_name_len : ℕ
max_group_name_len = 30

abbrev pub max_desc_len : ℕ
max_desc_len = 1000

abbrev pub max_group_size : ℕ
max_group_size = 1000

-- A validated createGroupRequest; texts are lists of code points.
pub record CreateRequest : Type 0 where
  pub group_name : List ℕ
  pub description : List ℕ
  pub max_mems : ℕ
  pub public : Bool
