-- ===== src/Auth/SignIn.antt =====
-- internal/auth: Login, Refresh, VerifyEmail and ResetPassword keep the rows sound.
use chirpy.Prelude.{
  ℕ, ◌≡◌, refl, ap, ◌∙◌, true, not, Option, some, List, [], ◌∷◌, if◌then◌else◌, ◌==◌, map, arith,
  ltb, Option-cases, inl, inr,
}
use chirpy.Auth.Model.{
  Account, Db, by_email, by_id, Env, verify_email, reset_password, invalid_credentials,
  email_not_verified, invalid_code, bad_input, not_authorized,
}
use chirpy.Auth.Sessions.{login, issue, refresh, rotate, live_token, revoke_token}
use chirpy.Auth.Accounts.{verify_account, reset, finish_reset, mark_verified, set_password}
use chirpy.Auth.Rows.{Sound, is_verified, by_email-All, live_token-All}
use chirpy.Auth.Writes.{change_account-Sound, revoke_token-Sound, revoke_all-Sound}
use chirpy.Auth.Runs.{Keeps, Anything, issue-Keeps, strengthen}
use chirpy.Auth.Chained.{
  On, after_found, after_require, after_write, after_check_code, after_password,
}

-- The accounts are those of d.
abbrev pub Like : Db → List Account → Type 0
Like d us = us ≡ d.accounts

pub email_verified :
    (email : ℕ) (d : Db) (u : Account)
    → Sound d
    → by_email email d.accounts ≡ some u
    → u.verified ≡ true
    → is_verified u.id d.accounts ≡ true
email_verified email d u s h v =
    let row : by_id u.id d.accounts ≡ some u =
      by_email-All (λ (x : Account). by_id x.id d.accounts ≡ some x) email d.accounts s.ids h in
    rw row v

pub issue-Like :
    (e : Env) (id : ℕ) (d : Db)
    → is_verified id d.accounts ≡ true
    → Keeps (On (Like d)) (issue e id) Anything
issue-Like e id d v =
    strengthen (On (Like d)) (λ d'. is_verified id d'.accounts ≡ true) Anything (issue e id)
      (λ d' same. ap (is_verified id) same ∙ v) (issue-Keeps e id)

pub login-Sound :
    (e : Env) (email password : ℕ) (d : Db) → Sound d → Sound (login e email password d).db
unfolding login
login-Sound e email password d s =
    (after_found (Like d) Anything (by_email email d.accounts) invalid_credentials _
      (λ u here. after_password (Like d) Anything u.password _ (λ hash.
        after_require (Like d) Anything (e.check_password password hash) invalid_credentials _
          (λ right a.
            after_require (Like d) Anything u.verified email_not_verified _
              (λ v b. issue-Like e u.id d (email_verified email d u s here v)))))
      d s refl).0

pub marked :
    (id : ℕ) (us : List Account) (u : Account)
    → by_id id us ≡ some u
    → is_verified id
        (map (λ (x : Account). if x.id == id then record x { verified = true } else x) us)
      ≡ true
marked id [] u h = absurd (cc)
marked id (x ∷ us) u h = ground (arith, marked id us u)

pub mark_verified-Sound : (id : ℕ) (d : Db) → Sound d → Sound (mark_verified id d)
mark_verified-Sound id d s =
    change_account-Sound id (λ u. record u { verified = true }) d (λ x. refl) (λ x. refl)
      (λ x v. refl) s

pub set_password-Sound : (id : ℕ) (p : Option ℕ) (d : Db) → Sound d → Sound (set_password id p d)
set_password-Sound id p d s =
    change_account-Sound id (λ u. record u { password = p }) d (λ x. refl) (λ x. refl) (λ x v. v) s

pub verify_account-Sound :
    (e : Env) (email code : ℕ) (d : Db) → Sound d → Sound (verify_account e email code d).db
unfolding verify_account
verify_account-Sound e email code d s =
    (after_found (Like d) Anything (by_email email d.accounts) invalid_code _
      (λ u here. after_check_code (Like d) Anything e u.id verify_email code _ (λ c.
        after_write (Like d) Anything (λ us. is_verified u.id us ≡ true) (mark_verified u.id)
          (λ marked. issue e u.id)
          (λ d' s' same. (
            mark_verified-Sound u.id d' s',
            marked u.id d'.accounts u (
                ap (by_id u.id) same
                ∙ by_email-All (λ (x : Account). by_id x.id d.accounts ≡ some x) email d.accounts
                    s.ids here),
          ))
          (λ a. issue-Keeps e u.id)))
      d s refl).0

pub reset-Sound :
    (e : Env) (email code password : ℕ) (d : Db)
    → Sound d
    → Sound (reset e email code password d).db
unfolding reset finish_reset
reset-Sound e email code password d s =
    (after_require (Like d) Anything (e.valid_password password) bad_input _
      (λ strong a.
        after_found (Like d) Anything (by_email email d.accounts) invalid_code _ (λ u here.
          after_check_code (Like d) Anything e u.id reset_password code _ (λ c. finished u.id)))
      d s refl).0
  where
    finished : (id : ℕ) → Keeps (On (Like d)) (finish_reset e id password) Anything
    finished id d' s' same = (
      revoke_all-Sound id _ (
          mark_verified-Sound id _ (set_password-Sound id (some (e.hash_password password)) d' s')),
      λ a h. tt,
    )

pub refresh-Sound : (e : Env) (token : ℕ) (d : Db) → Sound d → Sound (refresh e token d).db
unfolding refresh rotate revoke_token
refresh-Sound e token d s = elim (Option-cases (live_token token d.tokens)) [
  | inl gone ↦ rw gone s
  | inr (k, live) ↦
      rw live
        (after_require (Like d) Anything (not (ltb k.expires_at e.now)) not_authorized _
          (λ early a.
            after_write (Like d) Anything (Like d) (revoke_token token)
              (λ revoked. issue e k.holder) (λ d' s' same. (revoke_token-Sound token d' s', same))
              (λ b.
                issue-Like e k.holder d (
                  live_token-All (λ n. is_verified n d.accounts ≡ true) token d.tokens s.held
                    live)))
          d s refl).0
]
