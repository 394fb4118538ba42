-- ===== src/Auth/ChangeRows.antt =====
-- internal/auth: the change of the address and the admin sign-in keep the rows sound.
use chirpy.Prelude.{
  ℕ, ◌≡◌, refl, ap, ◌∙◌, true, not, ◌&&◌, Option, none, some, List, [], ◌∷◌, if◌then◌else◌, ◌==◌,
  map, arith, Bool-cases, Option-cases, inl, inr,
}
use chirpy.Auth.Model.{
  Account, Db, M, answers, ◌>>=◌, by_email, by_id, Env, change_email, admin_login, bad_input,
  invalid_code, user_not_found, same_email, code_too_soon, email_in_use, code_mail, post, done,
}
use chirpy.Auth.Codes.{new_code, get_code, is_recent}
use chirpy.Auth.Sessions.{Session, issue}
use chirpy.Auth.Change.{
  mail_change, blank_code, start_email_change, change_address, confirm_email_change, is_other,
  target_of, notify_old, admin_start, admin_verify, reauth, reauth_password,
}
use chirpy.Auth.Rows.{Sound, is_verified}
use chirpy.Auth.Address.{change_address-Sound}
use chirpy.Auth.Runs.{Keeps, Anything, issue-Keeps, >>=-Keeps}
use chirpy.Auth.Chained.{
  On, after_found, after_require, after_check_code, after_put_code, after_revoke_all,
}
use chirpy.Auth.SignIn.{Like}
use chirpy.Auth.SignUp.{send_code-Sound, post-Sound}

mail_change-Keeps :
    (e : Env) (id email : ℕ) (d : Db) → Keeps (On (Like d)) (mail_change e id email) Anything
unfolding mail_change
mail_change-Keeps e id email d d' s same = elim (Option-cases (by_email email d'.accounts)) [
  | inl free ↦
      rw (free, mail_change)
        (after_put_code (Like d) Anything (new_code e id change_email (some email))
          (λ a. post e (code_mail email id change_email e.fresh_code))
          (λ a d'' s' r.
            (post-Sound e (code_mail email id change_email e.fresh_code) d'' s', λ b h. tt))
          d' s same)
  | inr (other, taken) ↦
      rw (taken, mail_change)
        (after_put_code (Like d) Anything (blank_code e id email)
          (λ a. post e (email_in_use other.email))
          (λ a d'' s' r. (post-Sound e (email_in_use other.email) d'' s', λ b h. tt)) d' s same)
]

pub reauth-Keeps :
    (e : Env) (id password token : ℕ) (d : Db)
    → Keeps (On (Like d)) (reauth e id password token) (λ a d'. On (Like d) d')
unfolding reauth
reauth-Keeps e id password token d d' s same =
    after_found (Like d) (λ a d''. On (Like d) d'') (by_id id d'.accounts) user_not_found
      (λ u. answers (reauth_password e u password token d'.identities))
      (λ u here d'' s' r. (s', λ a h. r)) d' s same

pub start_email_change-Sound :
    (e : Env) (id email password token : ℕ) (d : Db)
    → Sound d
    → Sound (start_email_change e id email password token d).db
unfolding start_email_change
start_email_change-Sound e id email password token d s =
    (after_require (Like d) Anything (e.valid_email email) bad_input _
      (λ valid a.
        >>=-Keeps (On (Like d)) (λ a d'. On (Like d) d') Anything (reauth e id password token) _
          (reauth-Keeps e id password token d)
          (λ b. after_found (Like d) Anything (by_id id d.accounts) user_not_found _ (λ u here.
            after_require (Like d) Anything (not (email == u.email)) same_email _ (λ other c.
              after_require (Like d) Anything
                (not (is_recent e.now (get_code id change_email d.codes))) code_too_soon
                (λ x. mail_change e id email) (λ rested x. mail_change-Keeps e id email d)))))
      d s refl).0

changed-Keeps :
    (id email : ℕ) (d : Db) (u : Account)
    → by_id id d.accounts ≡ some u
    → Keeps (On (Like d)) (change_address id email) (λ a d'. is_verified id d'.accounts ≡ true)
unfolding change_address
changed-Keeps id email d u here d' s same =
    elim (Bool-cases (is_other id (by_email email d'.accounts))) [
      | inl other ↦ rw other (s, λ a h. absurd (cc))
      | inr free ↦ rw free (
        change_address-Sound id email d' free s,
        λ a h. now_verified d'.accounts (ap (by_id id) same ∙ here),
      )
    ]
  where
    now_verified :
        (us : List Account)
        → by_id id us ≡ some u
        → is_verified id (
            map
              (λ (x : Account).
                if x.id == id then record x { email = email; verified = true } else x)
              us)
          ≡ true
    now_verified [] h = absurd (cc)
    now_verified (x ∷ us) h = ground (arith, now_verified us)

pub confirm_email_change-Sound :
    (e : Env) (id code : ℕ) (d : Db) → Sound d → Sound (confirm_email_change e id code d).db
unfolding confirm_email_change
confirm_email_change-Sound e id code d s =
    (after_check_code (Like d) Anything e id change_email code _
      (λ c. after_target c.new_email _ (λ email.
        after_found (Like d) Anything (by_id id d.accounts) user_not_found _ (λ u here.
          >>=-Keeps (On (Like d)) (λ a d'. is_verified id d'.accounts ≡ true) Anything
            (change_address id email) _ (changed-Keeps id email d u here)
            (λ a.
              after_revoke_all (λ us. is_verified id us ≡ true) Anything id
                (λ x. notify_old e u.email >>= λ told. issue e id) (λ x. issue-Keeps e id)))))
      d s refl).0
  where
    after_target :
        (o : Option ℕ) (f : ℕ → M Session)
        → ((n : ℕ) → Keeps (On (Like d)) (f n) Anything)
        → Keeps (On (Like d)) (target_of o >>= f) Anything
    after_target none f k d' s' r = (s', λ a h. tt)
    after_target (some n) f k d' s' r = k n d' s' r

pub admin_start-Sound :
    (e : Env) (email password : ℕ) (d : Db) → Sound d → Sound (admin_start e email password d).db
unfolding admin_start
admin_start-Sound e email password d s = elim (Option-cases (by_email email d.accounts)) [
  | inl none' ↦ rw (none', admin_start) s
  | inr (u, here) ↦ elim (Option-cases u.password) [
    | inl no_password ↦ rw (here, admin_start) (rw no_password s)
    | inr (hash, set) ↦ elim (Bool-cases (e.check_password password hash && u.is_admin)) [
      | inl y ↦ rw (here, admin_start) (rw set (rw y (send_code-Sound e u admin_login d s)))
      | inr y ↦ rw (here, admin_start) (rw set (rw y s))
    ]
  ]
]

pub admin_verify-Sound :
    (e : Env) (email code : ℕ) (d : Db) → Sound d → Sound (admin_verify e email code d).db
unfolding admin_verify
admin_verify-Sound e email code d s =
    (after_found (Like d) Anything (by_email email d.accounts) invalid_code _
      (λ u here. after_require (Like d) Anything u.is_admin invalid_code _ (λ admin a.
        after_check_code (Like d) Anything e u.id admin_login code (λ c. done u.id)
          (λ c d' s' r. (s', λ b h. tt))))
      d s refl).0
