-- ===== src/Auth/Google.antt =====
-- internal/auth/accounts.go: sign-in and sign-up with Google, with the writes of account_repo.go.
use chirpy.Prelude.{
  ℕ, true, not, ◌&&◌, ◌||◌, ◌++◌, Option, none, some, List, [], ◌∷◌, if◌then◌else◌, ◌==◌,
}
use chirpy.Auth.Model.{
  Account, Identity, Db, Result, ok, err, M, ◌>>=◌, answers, done, fails, write, GoogleClaims, Env,
  by_email, by_id, found, invalid_google, google_unavailable, user_not_found, bad_input,
}
use chirpy.Auth.Sessions.{Session, issue, revoke_all}
use chirpy.Auth.Accounts.{mark_verified, set_password, new_account, has_account}

abbrev pub owner_of : ℕ → List Identity → Option ℕ
owner_of subject [] = none
owner_of subject (i ∷ is) = if i.subject == subject then some i.owner else owner_of subject is

-- An unverified account with the address loses its password and sessions.
unfoldable pub take_over : Account → M (Unit {0})
take_over u =
    if u.verified
    then done tt
    else write (set_password u.id none) >>= λ cleared.
        write (revoke_all u.id) >>= λ ended. write (mark_verified u.id)

-- CreateIdentity.
abbrev pub link_identity : ℕ → ℕ → Db → Db
link_identity subject owner d = record d {
  identities = record { subject = subject; owner = owner } ∷ d.identities;
}

-- A session, or a sign-up token for a subject and an address.
pub data GoogleResult : Type 0 where
  signed_in : Session → GoogleResult
  sign_up : ℕ → ℕ → GoogleResult

unfoldable pub link_account : Env → GoogleClaims → Account → M GoogleResult
unfolding take_over
link_account e c u = take_over u >>= λ taken.
    write (link_identity c.subject u.id) >>= λ linked. issue e u.id >>= λ s. done (signed_in s)

unfoldable pub google_account : Env → GoogleClaims → M GoogleResult
unfolding link_account
google_account e c d = elim (owner_of c.subject d.identities) [
  | some owner ↦
      (found (by_id owner d.accounts) user_not_found >>= λ u.
      issue e u.id >>= λ s. done (signed_in s))
        d
  | none ↦ elim (by_email c.email d.accounts) [
    | some u ↦ link_account e c u d
    | none ↦ done (sign_up c.subject c.email) d
  ]
]

abbrev pub verify_google : (ℕ → Option GoogleClaims) → ℕ → Result GoogleClaims
verify_google verify token = elim (verify token) [
  | none ↦ err invalid_google
  | some c ↦
      if c.email_verified && (not (c.subject == 0) && not (c.email == 0))
      then ok c
      else err invalid_google
]

unfoldable pub google_sign_in : Env → ℕ → M GoogleResult
unfolding google_account
google_sign_in e token d = elim e.google [
  | none ↦ fails google_unavailable d
  | some verify ↦ (answers (verify_google verify token) >>= λ c. google_account e c) d
]

-- CreateGoogleUser, for a token of ours that is still good.
unfoldable pub complete_signup : Env → ℕ → ℕ → ℕ → M Session
complete_signup e subject email name d =
    if not (e.valid_name name)
    then fails bad_input d
    else if has_account (by_email email d.accounts) || has_account (by_id e.fresh_id d.accounts)
    then fails invalid_google d
    else elim (owner_of subject d.identities) [
      | some owner ↦ fails invalid_google d
      | none ↦
          (write (λ d'. record d' {
            accounts =
                d'.accounts
                ++ (record (new_account e email 0) { password = none; verified = true } ∷ []);
          })
              >>= λ made. write (link_identity subject e.fresh_id) >>= λ linked. issue e e.fresh_id)
            d
    ]
