-- ===== src/Auth/Chains.antt =====
-- Chains of operations that have succeeded, and accounts under a change.
use chirpy.Prelude.{
  ℕ, ◌≡◌, refl, Bool, true, false, Option, none, some, List, [], ◌∷◌, if◌then◌else◌, ◌==◌, map,
  arith,
}
use chirpy.Auth.Model.{
  AuthErr, Mail, Account, Db, Result, ok, err, M, continue, ◌>>=◌, found, by_email, by_id, require,
}

continued {ℓ κ} :
    {A : Type ℓ} {B : Type κ} (d : Db) (sent : List Mail) (r : Result A) (f : A → M B) {b : B}
    → (continue d sent r f).answer ≡ ok b
    → (a : A) × (r ≡ ok a) × ((f a d).answer ≡ ok b) × ((continue d sent r f).db ≡ (f a d).db)
continued d sent (ok a) f h = (a, refl, h, refl)
continued d sent (err e) f h = absurd (cc)

-- The first operation of a chain that has succeeded did so, and the second went on from there.
pub >>=-ok {ℓ κ} :
    {A : Type ℓ} {B : Type κ} (m : M A) (f : A → M B) (d : Db) {b : B}
    → ((m >>= f) d).answer ≡ ok b
    → (a : A) × ((m d).answer ≡ ok a)
      × ((f a (m d).db).answer ≡ ok b)
      × (((m >>= f) d).db ≡ (f a (m d).db).db)
>>=-ok m f d {b} h = continued (m d).db (m d).mails (m d).answer f h

pub found-ok {ℓ} :
    {A : Type ℓ} (o : Option A) (e : AuthErr) (d : Db) {a : A}
    → (found o e d).answer ≡ ok a
    → (o ≡ some a) × ((found o e d).db ≡ d)
found-ok none e d h = absurd (cc)
found-ok (some a) e d h = (cc, refl)

pub require-ok :
    (b : Bool) (e : AuthErr) (d : Db)
    → (require b e d).answer ≡ ok tt
    → (b ≡ true) × ((require b e d).db ≡ d)
require-ok true e d h = (refl, refl)
require-ok false e d h = absurd (cc)

-- A change that leaves ids and addresses.
module _ (f : Account → Account) (id : ℕ) where
  pub by_id-change :
      (j : ℕ) (us : List Account) (u : Account)
      → ((x : Account) → (f x).id ≡ x.id)
      → by_id j us ≡ some u
      → by_id j (map (λ (x : Account). if x.id == id then f x else x) us)
        ≡ some (if j == id then f u else u)
  by_id-change j [] u same h = absurd (cc)
  by_id-change j (x ∷ us) u same h = ground (arith, same x, by_id-change j us u same)

  pub by_email-change :
      (email : ℕ) (us : List Account) (u : Account)
      → ((x : Account) → (f x).email ≡ x.email)
      → by_email email us ≡ some u
      → by_email email (map (λ (x : Account). if x.id == id then f x else x) us)
        ≡ some (if u.id == id then f u else u)
  by_email-change email [] u same h = absurd (cc)
  by_email-change email (x ∷ us) u same h = ground (arith, same x, by_email-change email us u same)
