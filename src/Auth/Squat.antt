-- ===== src/Auth/Squat.antt =====
-- An address that somebody else has registered first.
use chirpy.Prelude.{
  ℕ, ◌≡◌, refl, ap, ◌∙◌, true, false, Option, none, some, if◌then◌else◌, ◌==◌, map, arith,
  Bool-cases, inl, inr,
}
use chirpy.Auth.Model.{
  Purpose, verify_email, Account, StoredCode, Db, ok, err, ◌>>=◌, Env, by_email, by_id, post, write,
  already_registered, invalid_credentials,
}
use chirpy.Auth.Codes.{
  get_code, send_code, check_code, try_code, count_guess, bump_attempts, delete_code,
}
use chirpy.Auth.Sessions.{Session, issue, login, store_token}
use chirpy.Auth.Accounts.{register, create_account, verify_account, mark_verified}
use chirpy.Auth.Rotation.{issued}
use chirpy.Auth.Chains.{>>=-ok, by_id-change, by_email-change}

-- Codes do not touch the accounts.
send_code-accounts :
    (e : Env) (u : Account) (p : Purpose) (d : Db) → (send_code e u p d).db.accounts ≡ d.accounts
unfolding send_code
send_code-accounts e u p d = ground arith

count_guess-accounts :
    (user : ℕ) (p : Purpose) (d : Db) → (count_guess user p d).accounts ≡ d.accounts
unfolding count_guess bump_attempts delete_code
count_guess-accounts user p d = ground arith

try_code-accounts :
    (e : Env) (user : ℕ) (p : Purpose) (g : ℕ) (o : Option StoredCode) (d : Db)
    → (try_code e user p g o d).db.accounts ≡ d.accounts
unfolding try_code delete_code
try_code-accounts e user p g none d = refl
try_code-accounts e user p g (some c) d = ground (arith, count_guess-accounts user p d)

pub check_code-accounts :
    (e : Env) (user : ℕ) (p : Purpose) (g : ℕ) (d : Db)
    → (check_code e user p g d).db.accounts ≡ d.accounts
unfolding check_code
check_code-accounts e user p g d = try_code-accounts e user p g (get_code user p d.codes) d

-- Registering an address that an unverified account has leaves every account as it is.
register-accounts :
    (e : Env) (email password : ℕ) (d : Db) (u : Account)
    → by_email email d.accounts ≡ some u
    → (register e email password d).db.accounts ≡ d.accounts
unfolding register create_account
register-accounts e email password d u h = elim (Bool-cases (e.valid_registration email password)) [
  | inr bad ↦ rw bad refl
  | inl good ↦ rw good (rw h (rw h (by_state u e d)))
]
  where
    by_state :
        (u : Account) (e : Env) (d : Db)
        → ((if u.verified then post e (already_registered u.email) else send_code e u verify_email)
            d).db.accounts
          ≡ d.accounts
    by_state u e d = elim (Bool-cases u.verified) [
      | inl v ↦ ground (arith, v)
      | inr v ↦ ground (arith, v, send_code-accounts e u verify_email d)
    ]

abbrev proven : Account → Account
proven u = record u { verified = true }

-- What the accounts are after a verification that has succeeded.
issue-accounts : (e : Env) (id : ℕ) (d : Db) → (issue e id d).db.accounts ≡ d.accounts
unfolding issue store_token
issue-accounts e id d = ground arith

verify_account-accounts :
    (e : Env) (email code : ℕ) (d : Db) (u : Account) (s : Session)
    → by_email email d.accounts ≡ some u
    → (verify_account e email code d).answer ≡ ok s
    → (verify_account e email code d).db.accounts
      ≡ map (λ (x : Account). if x.id == u.id then proven x else x) d.accounts
unfolding verify_account
verify_account-accounts e email code d u s h = rw h (λ passed.
    let (c, checked, rest, same) =
      >>=-ok (check_code e u.id verify_email code)
        (λ used. write (mark_verified u.id) >>= λ marked. issue e u.id) d passed in
    ap (λ (x : Db). x.accounts) same
    ∙ (issue-accounts e u.id (mark_verified u.id (check_code e u.id verify_email code d).db)
        ∙ ap (map (λ (x : Account). if x.id == u.id then proven x else x))
            (check_code-accounts e u.id verify_email code d)))

-- Whoever first registered an address that they do not own keeps their way in: if the account that
-- has the address has a password and is not suspended, then after the owner registers the address
-- with a password of their own and verifies it with any code that is accepted, the first password
-- signs in to the account, and the owner's does not, as the hash of the first accepts it and
-- refuses the owner's.
pub squatter-login :
    (e f g : Env) (email mine theirs hash code : ℕ) (d : Db) (u : Account) (s : Session)
    → by_email email d.accounts ≡ some u
    → by_id u.id d.accounts ≡ some u
    → u.password ≡ some hash
    → u.banned ≡ false
    → g.check_password theirs hash ≡ true
    → g.check_password mine hash ≡ false
    → (verify_account f email code (register e email mine d).db).answer ≡ ok s
    → ((login g email theirs (verify_account f email code (register e email mine d).db).db).answer
        ≡ ok (record { user = u.id; refresh = g.fresh_token }))
      × ((login g email mine (verify_account f email code (register e email mine d).db).db).answer
          ≡ err invalid_credentials)
unfolding login
squatter-login e f g email mine theirs hash code d u s h i pw free right wrong passed =
    let old : (register e email mine d).db.accounts ≡ d.accounts =
      register-accounts e email mine d u h in
    let now : (verify_account f email code (register e email mine d).db).db.accounts
        ≡ map (λ (x : Account). if x.id == u.id then proven x else x)
            (register e email mine d).db.accounts =
      verify_account-accounts f email code (register e email mine d).db u s
        (ap (by_email email) old ∙ h) passed in
    let rows : (verify_account f email code (register e email mine d).db).db.accounts
        ≡ map (λ (x : Account). if x.id == u.id then proven x else x) d.accounts =
      now ∙ ap (map (λ (x : Account). if x.id == u.id then proven x else x)) old in
    let mail : by_email email (verify_account f email code (register e email mine d).db).db.accounts
        ≡ some (proven u) =
      ap (by_email email) rows
      ∙ (by_email-change proven u.id email d.accounts u (λ x. refl) h ∙ ground arith) in
    let row : by_id u.id (verify_account f email code (register e email mine d).db).db.accounts
        ≡ some (proven u) =
      ap (by_id u.id) rows
      ∙ (by_id-change proven u.id u.id d.accounts u (λ x. refl) i ∙ ground arith) in
    let session : (issue g u.id
          (verify_account f email code (register e email mine d).db).db).answer
        ≡ ok (record { user = u.id; refresh = g.fresh_token }) =
      (issued g u.id (verify_account f email code (register e email mine d).db).db (proven u) row
        free).0 in
    (ground (arith, mail, session, pw, right), ground (arith, mail, pw, wrong))
