-- ===== src/Auth/Accounts.antt =====
-- internal/auth/accounts.go: registration, verification and password reset, with the writes of
-- account_repo.go.
use chirpy.Prelude.{ℕ, Bool, true, false, not, ◌++◌, Option, none, some, [], ◌∷◌, if◌then◌else◌}
use chirpy.Auth.Model.{
  verify_email, reset_password, Account, Db, already_registered, Result, ok, err, M, ◌>>=◌, done,
  fails, require, write, Env, post, by_email, by_id, found, change_account, invalid_code,
  user_not_found, duplicate_email, bad_input,
}
use chirpy.Auth.Codes.{send_code, check_code}
use chirpy.Auth.Sessions.{Session, issue, revoke_all}

-- MarkEmailVerified and SetPasswordHash.
abbrev pub mark_verified : ℕ → Db → Db
mark_verified id d = change_account id (λ u. record u { verified = true }) d

abbrev pub set_password : ℕ → Option ℕ → Db → Db
set_password id p d = change_account id (λ u. record u { password = p }) d

-- users.Register: a new account, unverified, unless the address has one. The name's key is left to
-- `valid_registration`.
abbrev pub new_account : Env → ℕ → ℕ → Account
new_account e email password = record {
  id = e.fresh_id;
  email = email;
  password = some (e.hash_password password);
  verified = false;
  is_admin = false;
  banned = false;
}

abbrev pub has_account : Option Account → Bool
has_account none = false
has_account (some u) = true

unfoldable pub create_account : Env → ℕ → ℕ → M Account
create_account e email password d =
    if not (e.valid_registration email password)
    then fails bad_input d
    else if has_account (by_email email d.accounts)
    then fails duplicate_email d
    else if has_account (by_id e.fresh_id d.accounts)
    then fails bad_input d
    else (write (λ d'. record d' { accounts = d'.accounts ++ (new_account e email password ∷ []) })
          >>= λ made. done (new_account e email password))
        d

-- Register, by what users.Register has answered.
abbrev pub after_create : Env → ℕ → Result Account → M (Unit {0})
after_create e email (ok u) d = send_code e u verify_email d
after_create e email (err duplicate_email) d =
    (found (by_email email d.accounts) user_not_found >>= λ u.
    if u.verified then post e (already_registered u.email) else send_code e u verify_email)
      d
after_create e email (err other) d = fails other d

unfoldable pub register : Env → ℕ → ℕ → M (Unit {0})
unfolding create_account
register e email password d =
    after_create e email (create_account e email password d).answer
      (create_account e email password d).db

unfoldable pub resend_verification : Env → ℕ → M (Unit {0})
resend_verification e email d = elim (by_email email d.accounts) [
  | none ↦ done tt d
  | some u ↦ if u.verified then done tt d else send_code e u verify_email d
]

unfoldable pub verify_account : Env → ℕ → ℕ → M Session
verify_account e email code d =
    (do
      u ← found (by_email email d.accounts) invalid_code
      used ← check_code e u.id verify_email code
      marked ← write (mark_verified u.id)
      issue e u.id)
      d

unfoldable pub request_reset : Env → ℕ → M (Unit {0})
request_reset e email d = elim (by_email email d.accounts) [
  | none ↦ done tt d
  | some u ↦ send_code e u reset_password d
]

unfoldable pub finish_reset : Env → ℕ → ℕ → M (Unit {0})
finish_reset e id password = write (set_password id (some (e.hash_password password))) >>= λ set.
    write (mark_verified id) >>= λ marked. write (revoke_all id)

unfoldable pub reset : Env → ℕ → ℕ → ℕ → M (Unit {0})
unfolding finish_reset
reset e email code password d =
    (do
      strong ← require (e.valid_password password) bad_input
      u ← found (by_email email d.accounts) invalid_code
      used ← check_code e u.id reset_password code
      finish_reset e u.id password)
      d
