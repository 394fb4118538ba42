-- ===== src/Auth/GoogleRows.antt =====
-- internal/auth: sign-in and sign-up with Google keep the rows sound.
use chirpy.Prelude.{
  ℕ, ◌≡◌, refl, ap, ◌∙◌, true, false, ◌||◌, none, some, List, [], ◌∷◌, if◌then◌else◌, ◌==◌, ◌++◌,
  map, arith, Bool-cases, Option-cases, inl, inr,
}
use chirpy.Auth.Model.{
  Account, Db, ◌>>=◌, Result, ok, err, by_email, by_id, Env, GoogleClaims, answers, done, write,
  user_not_found,
}
use chirpy.Auth.Sessions.{issue, revoke_all}
use chirpy.Auth.Accounts.{has_account, new_account, set_password, mark_verified}
use chirpy.Auth.Google.{
  signed_in, google_account, google_sign_in, verify_google, link_account, take_over, link_identity,
  owner_of, complete_signup,
}
use chirpy.Auth.Rows.{Sound, is_verified, verified_of, by_id-id, by_email-All, owner_of-All}
use chirpy.Auth.Writes.{added, added-Sound, by_id-new, link_identity-Sound, revoke_all-Sound}
use chirpy.Auth.Runs.{Keeps, Anything, issue-Keeps, >>=-Keeps}
use chirpy.Auth.Chained.{On, after_found, after_write, either_way}
use chirpy.Auth.SignIn.{Like, mark_verified-Sound, set_password-Sound}

signed_in-Keeps :
    (e : Env) (id : ℕ)
    → Keeps
        (λ d. is_verified id d.accounts ≡ true)
        (issue e id >>= λ s. done (signed_in s))
        Anything
signed_in-Keeps e id =
    >>=-Keeps (λ d. is_verified id d.accounts ≡ true) Anything Anything (issue e id)
      (λ s. done (signed_in s)) (issue-Keeps e id) (λ x d s p. (s, λ a h. tt))

take_over-Keeps :
    (u : Account) (d : Db)
    → by_id u.id d.accounts ≡ some u
    → Sound d
    → Keeps (On (Like d)) (take_over u) (λ a d'. is_verified u.id d'.accounts ≡ true)
unfolding take_over revoke_all
take_over-Keeps u d here sound =
    either_way (On (Like d)) (λ a d'. is_verified u.id d'.accounts ≡ true) u.verified (done tt)
      (write (set_password u.id none) >>= λ cleared.
        write (revoke_all u.id) >>= λ ended. write (mark_verified u.id))
      (λ v d' s same. (s, λ a h. ap (is_verified u.id) same ∙ rw here v))
      (λ v d' s same. (
        mark_verified-Sound u.id _ (revoke_all-Sound u.id _ (set_password-Sound u.id none d' s)),
        λ a h. cleared d'.accounts (ap (by_id u.id) same ∙ here),
      ))
  where
    cleared :
        (us : List Account)
        → by_id u.id us ≡ some u
        → is_verified u.id (
            map
              (λ (x : Account). if x.id == u.id then record x { verified = true } else x)
              (map (λ (x : Account). if x.id == u.id then record x { password = none } else x) us))
          ≡ true
    cleared [] h = absurd (cc)
    cleared (x ∷ us) h = ground (arith, cleared us)

link_account-Keeps :
    (e : Env) (c : GoogleClaims) (u : Account) (d : Db)
    → by_id u.id d.accounts ≡ some u
    → Sound d
    → Keeps (On (Like d)) (link_account e c u) Anything
unfolding link_account
link_account-Keeps e c u d here sound =
    >>=-Keeps (On (Like d)) (λ a d'. is_verified u.id d'.accounts ≡ true) Anything (take_over u)
      (λ taken.
        write (link_identity c.subject u.id) >>= λ linked. issue e u.id >>= λ s. done (signed_in s))
      (take_over-Keeps u d here sound)
      (λ a.
        after_write (λ us. is_verified u.id us ≡ true) Anything (λ us. is_verified u.id us ≡ true)
          (link_identity c.subject u.id) (λ linked. issue e u.id >>= λ s. done (signed_in s))
          (λ d' s v. (link_identity-Sound c.subject u.id d' v s, v)) (λ b. signed_in-Keeps e u.id))

google_account-Sound :
    (e : Env) (c : GoogleClaims) (d : Db) → Sound d → Sound (google_account e c d).db
unfolding google_account
google_account-Sound e c d s = elim (Option-cases (owner_of c.subject d.identities)) [
  | inr (owner, known) ↦
      let v : is_verified owner d.accounts ≡ true =
        owner_of-All (λ n. is_verified n d.accounts ≡ true) c.subject d.identities s.owned known in
      rw (known, google_account)
        (after_found (Like d) Anything (by_id owner d.accounts) user_not_found
          (λ u. issue e u.id >>= λ s'. done (signed_in s'))
          (λ u here d' s' same. signed_in-Keeps e u.id d' s' (
            ap (is_verified u.id) same
            ∙ (ap (λ n. is_verified n d.accounts) (by_id-id owner d.accounts u here) ∙ v)))
          d s refl).0
  | inl new ↦ elim (Option-cases (by_email c.email d.accounts)) [
    | inl free ↦ rw (new, google_account) (rw free s)
    | inr (u, taken) ↦
        rw (new, google_account)
          (rw taken
            (link_account-Keeps e c u d
              (by_email-All (λ (x : Account). by_id x.id d.accounts ≡ some x) c.email d.accounts
                s.ids taken)
              s d s refl).0)
  ]
]

pub google_sign_in-Sound :
    (e : Env) (token : ℕ) (d : Db) → Sound d → Sound (google_sign_in e token d).db
unfolding google_sign_in
google_sign_in-Sound e token d s = elim (Option-cases e.google) [
  | inl off ↦ rw off s
  | inr (verify, on) ↦ rw (on, google_sign_in) (by_claims (verify_google verify token))
]
  where
    by_claims : (r : Result GoogleClaims) → Sound ((answers r >>= λ c. google_account e c) d).db
    by_claims (ok c) = google_account-Sound e c d s
    by_claims (err x) = s

pub complete_signup-Sound :
    (e : Env) (subject email name : ℕ) (d : Db)
    → Sound d
    → Sound (complete_signup e subject email name d).db
unfolding complete_signup
complete_signup-Sound e subject email name d s = elim (Bool-cases (e.valid_name name)) [
  | inr bad ↦ rw bad s
  | inl good ↦
      elim (Bool-cases
        (has_account (by_email email d.accounts) || has_account (by_id e.fresh_id d.accounts))) [
          | inl taken ↦ rw good (rw taken s)
          | inr free ↦ elim (Option-cases (owner_of subject d.identities)) [
            | inr (owner, known) ↦ rw (known, complete_signup) (rw good (rw free s))
            | inl new ↦ rw (new, complete_signup) (rw good (rw free (added_and_linked free)))
          ]
        ]
]
  where
    row : Account
    row = record (new_account e email 0) { password = none; verified = true }

    free_email :
        (has_account (by_email email d.accounts) || has_account (by_id e.fresh_id d.accounts))
          ≡ false
        → has_account (by_email email d.accounts) ≡ false
    free_email f = ground arith

    free_id :
        (has_account (by_email email d.accounts) || has_account (by_id e.fresh_id d.accounts))
          ≡ false
        → has_account (by_id e.fresh_id d.accounts) ≡ false
    free_id f = ground arith

    added_and_linked :
        (has_account (by_email email d.accounts) || has_account (by_id e.fresh_id d.accounts))
          ≡ false
        → Sound
            ((write (λ d'. record d' { accounts = d'.accounts ++ (row ∷ []) }) >>= λ made.
                write (link_identity subject e.fresh_id) >>= λ linked. issue e e.fresh_id)
              d).db
    added_and_linked f =
        let v : is_verified e.fresh_id (added row d).accounts ≡ true =
          ap verified_of (by_id-new d.accounts row (free_id f)) in
        (issue-Keeps e e.fresh_id (link_identity subject e.fresh_id (added row d))
          (link_identity-Sound subject e.fresh_id (added row d) v
            (added-Sound row d (free_id f) (free_email f) s))
          v).0
