-- ===== src/Auth/SignUp.antt =====
-- internal/auth: registration and the codes keep the rows sound.
use chirpy.Prelude.{
  ℕ, ◌≡◌, refl, Bool, true, false, if◌then◌else◌, Bool-cases, Option-cases, inl, inr, ◌⊎◌,
}
use chirpy.Auth.Model.{
  Purpose, Mail, Account, Db, ok, err, by_email, by_id, Env, verify_email, reset_password,
  already_registered, duplicate_email, bad_input, user_not_found, post, done,
}
use chirpy.Auth.Codes.{send_code}
use chirpy.Auth.Accounts.{
  create_account, after_create, register, resend_verification, request_reset, has_account,
  new_account,
}
use chirpy.Auth.Rows.{Sound}
use chirpy.Auth.Writes.{added-Sound}
use chirpy.Auth.Runs.{Anything, post-Keeps, send_code-Keeps}
use chirpy.Auth.Chained.{On, after_found, either_way}
use chirpy.Auth.SignIn.{Like}

pub send_code-Sound :
    (e : Env) (u : Account) (purpose : Purpose) (d : Db)
    → Sound d
    → Sound (send_code e u purpose d).db
send_code-Sound e u purpose d s = (send_code-Keeps (Like d) e u purpose d s refl).0

pub post-Sound : (e : Env) (m : Mail) (d : Db) → Sound d → Sound (post e m d).db
post-Sound e m d s = (post-Keeps (On (Like d)) e m d s refl).0

create_account-Sound :
    (e : Env) (email password : ℕ) (d : Db) → Sound d → Sound (create_account e email password d).db
unfolding create_account
create_account-Sound e email password d s =
    elim (Bool-cases (e.valid_registration email password)) [
      | inr bad ↦ rw bad s
      | inl good ↦ elim (Bool-cases (has_account (by_email email d.accounts))) [
        | inl taken ↦ rw good (rw taken s)
        | inr free ↦ elim (Bool-cases (has_account (by_id e.fresh_id d.accounts))) [
          | inl used ↦ rw good (rw free (rw used s))
          | inr fresh ↦
              rw good
                (rw free (rw fresh (added-Sound (new_account e email password) d fresh free s)))
        ]
      ]
    ]

create_account-answer :
    (e : Env) (email password : ℕ) (d : Db)
    → ((create_account e email password d).answer ≡ ok (new_account e email password))
      ⊎ (((create_account e email password d).answer ≡ err duplicate_email)
          ⊎ ((create_account e email password d).answer ≡ err bad_input))
unfolding create_account
create_account-answer e email password d = elim (Bool-cases (e.valid_registration email password)) [
  | inr bad ↦ rw bad (inr (inr refl))
  | inl good ↦ elim (Bool-cases (has_account (by_email email d.accounts))) [
    | inl taken ↦ rw good (rw taken (inr (inl refl)))
    | inr free ↦ elim (Bool-cases (has_account (by_id e.fresh_id d.accounts))) [
      | inl used ↦ rw good (rw free (rw used (inr (inr refl))))
      | inr fresh ↦ rw good (rw free (rw fresh (inl refl)))
    ]
  ]
]

duplicate-Sound :
    (e : Env) (email : ℕ) (d : Db)
    → Sound d
    → Sound (after_create e email (err duplicate_email) d).db
duplicate-Sound e email d s =
    (after_found (Like d) Anything (by_email email d.accounts) user_not_found
      (λ u. if u.verified then post e (already_registered u.email) else send_code e u verify_email)
      (λ u here.
        either_way (On (Like d)) Anything u.verified (post e (already_registered u.email))
          (send_code e u verify_email)
          (λ v d' s' same. (post-Sound e (already_registered u.email) d' s', λ a h. tt))
          (λ v d' s' same. (send_code-Sound e u verify_email d' s', λ a h. tt)))
      d s refl).0

pub register-Sound :
    (e : Env) (email password : ℕ) (d : Db) → Sound d → Sound (register e email password d).db
unfolding register
register-Sound e email password d s =
    let made : Sound (create_account e email password d).db =
      create_account-Sound e email password d s in
    elim (create_account-answer e email password d) [
      | inl new ↦ rw new (send_code-Sound e (new_account e email password) verify_email _ made)
      | inr old ↦ elim old [
        | inl taken ↦ rw taken (duplicate-Sound e email _ made)
        | inr bad ↦ rw bad made
      ]
    ]

pub resend_verification-Sound :
    (e : Env) (email : ℕ) (d : Db) → Sound d → Sound (resend_verification e email d).db
unfolding resend_verification
resend_verification-Sound e email d s = elim (Option-cases (by_email email d.accounts)) [
  | inl none' ↦ rw (none', resend_verification) s
  | inr (u, here) ↦ rw (here, resend_verification) (unless_verified u u.verified)
]
  where
    unless_verified :
        (u : Account) (b : Bool) → Sound (if b then done tt d else send_code e u verify_email d).db
    unless_verified u true = s
    unless_verified u false = send_code-Sound e u verify_email d s

pub request_reset-Sound :
    (e : Env) (email : ℕ) (d : Db) → Sound d → Sound (request_reset e email d).db
unfolding request_reset
request_reset-Sound e email d s = elim (Option-cases (by_email email d.accounts)) [
  | inl none' ↦ rw (none', request_reset) s
  | inr (u, here) ↦ rw (here, request_reset) (send_code-Sound e u reset_password d s)
]
