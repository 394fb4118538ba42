-- ===== src/Auth/Change.antt =====
-- internal/auth/accounts.go: reauth, deletion, the change of the address, and the admin sign-in.
use chirpy.Prelude.{
  keep, ℕ, Bool, true, false, not, ◌&&◌, Option, none, some, List, [], ◌∷◌, if◌then◌else◌, ◌==◌,
}
use chirpy.Auth.Model.{
  Db, RefreshToken, Identity, admin_login, change_email, Account, StoredCode, Identity, code_mail,
  email_in_use, email_changed, Result, ok, err, M, ◌>>=◌, answers, done, fails, require, write, Env,
  post, by_email, by_id, found, change_account, invalid_credentials, invalid_code,
  google_unavailable, reauth_required, same_email, code_too_soon, email_taken, user_not_found,
  bad_input,
}
use chirpy.Auth.Codes.{get_code, put_code, is_recent, new_code, send_code, check_code}
use chirpy.Auth.Sessions.{Session, issue, revoke_all}
use chirpy.Auth.Google.{owner_of}

-- reauth: the password, or a Google token of the same account. 0 is none given.
unfoldable pub reauth_google : Env → ℕ → ℕ → List Identity → Result (Unit {0})
reauth_google e id token is = if token == 0 then err reauth_required else elim e.google [
  | none ↦ err google_unavailable
  | some verify ↦ elim (verify token) [
    | none ↦ err reauth_required
    | some c ↦ elim (owner_of c.subject is) [
      | none ↦ err reauth_required
      | some owner ↦ if owner == id then ok tt else err reauth_required
    ]
  ]
]

unfoldable pub reauth_password : Env → Account → ℕ → ℕ → List Identity → Result (Unit {0})
unfolding reauth_google
reauth_password e u password token is = elim u.password [
  | none ↦ reauth_google e u.id token is
  | some hash ↦
      if password == 0
      then reauth_google e u.id token is
      else if e.check_password password hash
      then ok tt
      else err reauth_required
]

unfoldable pub reauth : Env → ℕ → ℕ → ℕ → M (Unit {0})
unfolding reauth_password
reauth e id password token d =
    (found (by_id id d.accounts) user_not_found >>= λ u.
    answers (reauth_password e u password token d.identities))
      d

-- DeleteUserByID, with the rows that go with the account by their foreign keys.
unfoldable pub delete_user : ℕ → Db → Db
delete_user id d = record {
  accounts = keep (λ (u : Account). not (u.id == id)) d.accounts;
  codes = keep (λ (c : StoredCode). not (c.user == id)) d.codes;
  identities = keep (λ (i : Identity). not (i.owner == id)) d.identities;
  tokens = keep (λ (k : RefreshToken). not (k.holder == id)) d.tokens;
}

-- What becomes of the groups and the friends is left out.
unfoldable pub delete_account : Env → ℕ → ℕ → ℕ → M (Unit {0})
unfolding reauth delete_user
delete_account e id password token d =
    (reauth e id password token >>= λ confirmed. write (delete_user id)) d

-- The row that keeps the gap where the address is another's: no code matches it.
abbrev pub blank_code : Env → ℕ → ℕ → StoredCode
blank_code e id email = record (new_code e id change_email (some email)) {
  hash = none;
  expires_at = e.now;
}

unfoldable pub mail_change : Env → ℕ → ℕ → M (Unit {0})
mail_change e id email d = elim (by_email email d.accounts) [
  | some other ↦
      (write (put_code (blank_code e id email)) >>= λ kept. post e (email_in_use other.email)) d
  | none ↦
      (write (put_code (new_code e id change_email (some email))) >>= λ stored.
      post e (code_mail email id change_email e.fresh_code))
        d
]

unfoldable pub start_email_change : Env → ℕ → ℕ → ℕ → ℕ → M (Unit {0})
unfolding reauth mail_change
start_email_change e id email password token d =
    (do
      valid ← require (e.valid_email email) bad_input
      confirmed ← reauth e id password token
      u ← found (by_id id d.accounts) user_not_found
      other ← require (not (email == u.email)) same_email
      rested ← require (not (is_recent e.now (get_code id change_email d.codes))) code_too_soon
      mail_change e id email)
      d

abbrev pub is_other : ℕ → Option Account → Bool
is_other id none = false
is_other id (some u) = not (u.id == id)

-- ChangeEmail: the address is another's by now, or it is set and verified.
unfoldable pub change_address : ℕ → ℕ → M (Unit {0})
change_address id email d =
    if is_other id (by_email email d.accounts)
    then fails email_taken d
    else write (change_account id (λ u. record u { email = email; verified = true })) d

-- The notice to the old address may fail.
abbrev pub notify_old : Env → ℕ → M (Unit {0})
notify_old e email d = record {
  db = d;
  mails = if e.sends (email_changed email) then email_changed email ∷ [] else [];
  answer = ok tt;
}

abbrev pub target_of : Option ℕ → M ℕ
target_of none = fails invalid_code
target_of (some email) = done email

unfoldable pub confirm_email_change : Env → ℕ → ℕ → M Session
unfolding change_address
confirm_email_change e id code d =
    (do
      c ← check_code e id change_email code
      email ← target_of c.new_email
      u ← found (by_id id d.accounts) user_not_found
      changed ← change_address id email
      ended ← write (revoke_all id)
      told ← notify_old e u.email
      issue e id)
      d

unfoldable pub admin_start : Env → ℕ → ℕ → M (Unit {0})
admin_start e email password d = elim (by_email email d.accounts) [
  | none ↦ fails invalid_credentials d
  | some u ↦ elim u.password [
    | none ↦ fails invalid_credentials d
    | some hash ↦
        if e.check_password password hash && u.is_admin
        then send_code e u admin_login d
        else fails invalid_credentials d
  ]
]

unfoldable pub admin_verify : Env → ℕ → ℕ → M ℕ
admin_verify e email code d =
    (do
      u ← found (by_email email d.accounts) invalid_code
      admin ← require u.is_admin invalid_code
      used ← check_code e u.id admin_login code
      done u.id)
      d
