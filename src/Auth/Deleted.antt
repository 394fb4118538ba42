-- ===== src/Auth/Deleted.antt =====
-- internal/auth: the deletion of an account keeps the rows sound.
use chirpy.Prelude.{
  ℕ, ◌≡◌, Bool, true, not, some, List, [], ◌∷◌, ◌==◌, keep, All, arith, Bool-cases, inl, inr,
}
use chirpy.Auth.Model.{Account, Identity, RefreshToken, Db, Env, by_email, by_id, write}
use chirpy.Auth.Change.{reauth, delete_user, delete_account}
use chirpy.Auth.Rows.{Sound, is_verified}
use chirpy.Auth.Runs.{Anything, >>=-Keeps}
use chirpy.Auth.Chained.{On}
use chirpy.Auth.SignIn.{Like}
use chirpy.Auth.ChangeRows.{reauth-Keeps}

All-keep :
    {A : Type 0} (P Q : A → Type 0) (p : A → Bool) (xs : List A)
    → ((x : A) → p x ≡ true → P x → Q x)
    → All P xs
    → All Q (keep p xs)
All-keep P Q p [] h a = tt
All-keep P Q p (x ∷ xs) h a = elim (Bool-cases (p x)) [
  | inl y ↦ rw y (h x y a.0, All-keep P Q p xs h a.1)
  | inr n ↦ rw n (All-keep P Q p xs h a.1)
]

module _ (id : ℕ) where
  abbrev stays : Account → Bool
  stays u = not (u.id == id)

  by_id-keep :
      (j : ℕ) (us : List Account) (u : Account)
      → not (j == id) ≡ true
      → by_id j us ≡ some u
      → by_id j (keep stays us) ≡ some u
  by_id-keep j [] u other h = absurd (cc)
  by_id-keep j (x ∷ us) u other h = ground (arith, by_id-keep j us u)

  is_verified-keep :
      (j : ℕ) (us : List Account)
      → not (j == id) ≡ true
      → is_verified j us ≡ true
      → is_verified j (keep stays us) ≡ true
  is_verified-keep j [] other h = absurd (cc)
  is_verified-keep j (x ∷ us) other h = ground (arith, is_verified-keep j us)

  by_email-keep :
      (email : ℕ) (us : List Account) (u : Account)
      → stays u ≡ true
      → by_email email us ≡ some u
      → by_email email (keep stays us) ≡ some u
  by_email-keep email [] u other h = absurd (cc)
  by_email-keep email (x ∷ us) u other h = ground (arith, by_email-keep email us u)

  delete_user-Sound : (d : Db) → Sound d → Sound (delete_user id d)
  unfolding delete_user
  delete_user-Sound d s = record {
    ids =
        All-keep (λ (u : Account). by_id u.id d.accounts ≡ some u) _ stays d.accounts
          (λ u y h. by_id-keep u.id d.accounts u y h) s.ids;
    emails =
        All-keep (λ (u : Account). by_email u.email d.accounts ≡ some u) _ stays d.accounts
          (λ u y h. by_email-keep u.email d.accounts u y h) s.emails;
    held =
        All-keep (λ (k : RefreshToken). is_verified k.holder d.accounts ≡ true) _
          (λ (k : RefreshToken). not (k.holder == id)) d.tokens
          (λ k y h. is_verified-keep k.holder d.accounts y h) s.held;
    owned =
        All-keep (λ (i : Identity). is_verified i.owner d.accounts ≡ true) _
          (λ (i : Identity). not (i.owner == id)) d.identities
          (λ i y h. is_verified-keep i.owner d.accounts y h) s.owned;
  }

pub delete_account-Sound :
    (e : Env) (id password token : ℕ) (d : Db)
    → Sound d
    → Sound (delete_account e id password token d).db
unfolding delete_account
delete_account-Sound e id password token d s =
    (>>=-Keeps (On (Like d)) (λ a d'. On (Like d) d') Anything (reauth e id password token)
      (λ confirmed. write (delete_user id)) (reauth-Keeps e id password token d)
      (λ a d' s' same. (delete_user-Sound id d' s', λ b h. tt)) d s (λ i. d.accounts)).0
