-- ===== src/Auth/Chained.antt =====
-- internal/auth: chains of operations that keep the rows sound, by their first operation.
use chirpy.Prelude.{ℕ, ◌≡◌, refl, Bool, true, false, if◌then◌else◌, Option, none, some, List}
use chirpy.Auth.Model.{
  AuthErr, Purpose, Account, StoredCode, Db, Result, ok, M, ◌>>=◌, require, write, found, answers,
  Env,
}
use chirpy.Auth.Codes.{check_code, put_code}
use chirpy.Auth.Sessions.{password_of, revoke_all}
use chirpy.Auth.Rows.{Sound}
use chirpy.Auth.Writes.{revoke_all-Sound}
use chirpy.Auth.Runs.{
  Keeps, >>=-Keeps, found-Keeps, require-Keeps, write-Keeps, answers-Keeps, check_code-Keeps,
  put_code-Keeps,
}

abbrev pub On : (List Account → Type 0) → Db → Type 0
On R d = R d.accounts

-- A test between two operations.
pub either_way :
    {B : Type 0} (P : Db → Type 0) (Q : B → Db → Type 0) (b : Bool) (m n : M B)
    → (b ≡ true → Keeps P m Q)
    → (b ≡ false → Keeps P n Q)
    → Keeps P (if b then m else n) Q
either_way P Q true m n x y = x refl
either_way P Q false m n x y = y refl

module _ (R : List Account → Type 0) {B : Type 0} (Q : B → Db → Type 0) where
  pub after_found :
      {A : Type 0} (o : Option A) (e : AuthErr) (f : A → M B)
      → ((a : A) → o ≡ some a → Keeps (On R) (f a) Q)
      → Keeps (On R) (found o e >>= f) Q
  after_found o e f k =
      >>=-Keeps (On R) (λ a d. (o ≡ some a) × On R d) Q (found o e) f (found-Keeps (On R) o e)
        (λ a d s p. k a p.0 d s p.1)

  pub after_answer :
      {A : Type 0} (r : Result A) (f : A → M B)
      → ((a : A) → r ≡ ok a → Keeps (On R) (f a) Q)
      → Keeps (On R) (answers r >>= f) Q
  after_answer r f k =
      >>=-Keeps (On R) (λ a d. (r ≡ ok a) × On R d) Q (answers r) f (answers-Keeps (On R) r)
        (λ a d s p. k a p.0 d s p.1)

  pub after_require :
      (b : Bool) (e : AuthErr) (f : Unit {0} → M B)
      → (b ≡ true → (a : Unit {0}) → Keeps (On R) (f a) Q)
      → Keeps (On R) (require b e >>= f) Q
  after_require b e f k =
      >>=-Keeps (On R) (λ a d. (b ≡ true) × On R d) Q (require b e) f (require-Keeps (On R) b e)
        (λ a d s p. k p.0 a d s p.1)

  pub after_write :
      (R' : List Account → Type 0) (g : Db → Db) (f : Unit {0} → M B)
      → ((d : Db) → Sound d → On R d → Sound (g d) × On R' (g d))
      → ((a : Unit {0}) → Keeps (On R') (f a) Q)
      → Keeps (On R) (write g >>= f) Q
  after_write R' g f h k =
      >>=-Keeps (On R) (λ a d. On R' d) Q (write g) f (write-Keeps (On R) (On R') g h) k

  pub after_revoke_all :
      (user : ℕ) (f : Unit {0} → M B)
      → ((a : Unit {0}) → Keeps (On R) (f a) Q)
      → Keeps (On R) (write (revoke_all user) >>= f) Q
  unfolding revoke_all
  after_revoke_all user f k =
      after_write R (revoke_all user) f (λ d s r. (revoke_all-Sound user d s, r)) k

  pub after_check_code :
      (e : Env) (user : ℕ) (purpose : Purpose) (guess : ℕ) (f : StoredCode → M B)
      → ((c : StoredCode) → Keeps (On R) (f c) Q)
      → Keeps (On R) (check_code e user purpose guess >>= f) Q
  after_check_code e user purpose guess f k =
      >>=-Keeps (On R) (λ c d. On R d) Q (check_code e user purpose guess) f
        (check_code-Keeps R e user purpose guess) k

  pub after_put_code :
      (c : StoredCode) (f : Unit {0} → M B)
      → ((a : Unit {0}) → Keeps (On R) (f a) Q)
      → Keeps (On R) (write (put_code c) >>= f) Q
  after_put_code c f k =
      >>=-Keeps (On R) (λ a d. On R d) Q (write (put_code c)) f (put_code-Keeps R c) k

  pub after_password :
      (o : Option ℕ) (f : ℕ → M B)
      → ((h : ℕ) → Keeps (On R) (f h) Q)
      → Keeps (On R) (password_of o >>= f) Q
  after_password none f k d s r = (s, λ a h. absurd (cc))
  after_password (some h) f k d s r = k h d s r
