-- ===== src/Groups/Permissions.antt =====
-- cleanPermissions of internal/groups/model.go.
use chirpy.Prelude.{
  ◌≡◌, refl, inl, inr, Bool, true, false, not, ◌&&◌, List, [], ◌∷◌, arith, keep, Bool-cases,
  if◌then◌else◌,
}
use mathlib.Core.Path.{sym, ap₂, fun_ext}
use chirpy.Groups.Model.{
  Perm, perm_eq, has_perm, all_permissions, all_known, Result, ok, err, clean_permissions, bad_role,
}

perm_eq-eq : (p q : Perm) → perm_eq p q ≡ true → p ≡ q
perm_eq-eq p q h = ground arith

perm_eq_refl : (p : Perm) → perm_eq p p ≡ true
perm_eq_refl p = ground arith

all_known_lem :
    (given : List Perm) (p : Perm)
    → all_known given ≡ true
    → has_perm given p ≡ true
    → has_perm all_permissions p ≡ true
unfolding all_known
all_known_lem [] p h k = cc
all_known_lem (q ∷ qs) p h k = ground (arith, all_known_lem qs p, perm_eq-eq q p)

has_perm-keep :
    (test : Perm → Bool) (l : List Perm) (p : Perm)
    → has_perm (keep test l) p ≡ (has_perm l p && test p)
has_perm-keep test [] p = refl
has_perm-keep test (q ∷ qs) p = ground (arith, has_perm-keep test qs p, perm_eq-eq q p)

unknown_perm :
    (given : List Perm)
    → all_known given ≡ false
    → (p : Perm) × (has_perm given p ≡ true) × (has_perm all_permissions p ≡ false)
unfolding all_known
unknown_perm [] h = cc
unknown_perm (q ∷ qs) h = elim (Bool-cases (has_perm all_permissions q)) [
  | inl b ↦ let (p, here, bad) = unknown_perm qs (ground arith) in (p, ground arith, bad)
  | inr b ↦ (q, ground (arith, perm_eq_refl q), b)
]

abbrev pub Cleaned : List Perm → Result (List Perm) → Type 0
Cleaned given (ok out) =
    (p : Perm)
    → (has_perm out p ≡ has_perm given p)
      × ((has_perm given p && not (has_perm all_permissions p)) ≡ false)
Cleaned given (err e) =
    (e ≡ bad_role) × ((p : Perm) × (has_perm given p ≡ true) × (has_perm all_permissions p ≡ false))

-- A permission list is accepted exactly when every permission in it is a known one; the cleaned
-- list then grants what the given one grants, and otherwise the error is ErrBadRole.
pub clean_permissions-Cleaned : (given : List Perm) → Cleaned given (clean_permissions given)
unfolding clean_permissions
clean_permissions-Cleaned given = elim (Bool-cases (all_known given)) [
  | inl b ↦
      rw (b, clean_permissions)
        λ p. (
          ground (arith, has_perm-keep (has_perm given) all_permissions p, all_known_lem given p b),
          ground (arith, all_known_lem given p b),
        )
  | inr b ↦ rw (b, clean_permissions) (refl, unknown_perm given b)
]

known_mono :
    (a b : List Perm)
    → ((p : Perm) → has_perm a p ≡ has_perm b p)
    → all_known a ≡ true
    → all_known b ≡ true
known_mono a b h k = elim (Bool-cases (all_known b)) [
  | inl e ↦ e
  | inr e ↦
      let (p, given, bad) = unknown_perm b e in absurd (ground (arith, all_known_lem a p k, h p))
]

known_same :
    (a b : List Perm) → ((p : Perm) → has_perm a p ≡ has_perm b p) → all_known a ≡ all_known b
known_same a b h = ground (arith, known_mono a b h, known_mono b a (λ p. sym (h p)))

-- Order and repetition are forgotten: two permission lists that grant the same clean to the same
-- list.
pub clean_permissions_canonical :
    (a b : List Perm)
    → ((p : Perm) → has_perm a p ≡ has_perm b p)
    → clean_permissions a ≡ clean_permissions b
unfolding clean_permissions
clean_permissions_canonical a b h =
    ap₂ (λ known test. if known then ok (keep test all_permissions) else err bad_role)
      (known_same a b h) (fun_ext h)
