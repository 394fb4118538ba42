-- ===== src/Auth/Reset.antt =====
-- A password reset: the new password signs in, and no session that was there goes on.
use chirpy.Prelude.{
  ℕ, ◌≡◌, ◌≢◌, refl, sym, ap, ◌∙◌, true, false, Option, none, some, List, [], ◌∷◌, if◌then◌else◌,
  ◌==◌, map, arith, Bool-cases, inl, inr,
}
use chirpy.Auth.Model.{reset_password, Account, RefreshToken, Db, ok, Env, by_email, by_id}
use chirpy.Auth.Codes.{check_code}
use chirpy.Auth.Sessions.{Session, issue, login, live_token, revoke_all, rotate, refresh}
use chirpy.Auth.Accounts.{reset, finish_reset, mark_verified, set_password}
use chirpy.Auth.Rotation.{issued, not_rotated}
use chirpy.Auth.Chains.{>>=-ok, by_id-change, by_email-change}
use chirpy.Auth.Squat.{check_code-accounts}

-- What a reset that succeeds leaves: the writes of finish_reset on what the check of the code left.
reset-db :
    (e : Env) (email code password : ℕ) (d : Db) (u : Account)
    → by_email email d.accounts ≡ some u
    → (reset e email code password d).answer ≡ ok tt
    → (reset e email code password d).db
      ≡ revoke_all u.id (
          mark_verified u.id (
            set_password u.id
              (some (e.hash_password password))
              (check_code e u.id reset_password code d).db))
unfolding reset
reset-db e email code password d u h = elim (Bool-cases (e.valid_password password)) [
  | inr weak ↦ rw weak (λ passed. absurd (cc))
  | inl strong ↦ rw strong (
      rw h (λ passed.
        let (c, checked, rest, same) =
          >>=-ok (check_code e u.id reset_password code) (λ used. finish_reset e u.id password) d
            passed in
        same))
]

-- The account after the reset.
abbrev with_password : ℕ → Account → Account
with_password h u = record u { password = some h; verified = true }

by_email-reset :
    (e : Env) (email code password : ℕ) (d : Db) (u : Account)
    → by_email email d.accounts ≡ some u
    → (reset e email code password d).answer ≡ ok tt
    → by_email email (reset e email code password d).db.accounts
      ≡ some (with_password (e.hash_password password) u)
unfolding revoke_all
by_email-reset e email code password d u h passed =
    let clear : Account → Account = λ x. record x { password = some (e.hash_password password) } in
    let prove : Account → Account = λ x. record x { verified = true } in
    let same : by_email email (check_code e u.id reset_password code d).db.accounts ≡ some u =
      ap (by_email email) (check_code-accounts e u.id reset_password code d) ∙ h in
    let first : by_email email
          (set_password u.id (some (e.hash_password password))
            (check_code e u.id reset_password code d).db).accounts
        ≡ some (clear u) =
      by_email-change clear u.id email (check_code e u.id reset_password code d).db.accounts u
        (λ x. refl) same
      ∙ ground arith in
    ap (λ (x : Db). by_email email x.accounts) (reset-db e email code password d u h passed)
    ∙ (by_email-change prove u.id email
          (set_password u.id (some (e.hash_password password))
            (check_code e u.id reset_password code d).db).accounts
          (clear u) (λ x. refl) first
        ∙ ground arith)

by_id-reset :
    (e : Env) (email code password : ℕ) (d : Db) (u : Account)
    → by_email email d.accounts ≡ some u
    → by_id u.id d.accounts ≡ some u
    → (reset e email code password d).answer ≡ ok tt
    → by_id u.id (reset e email code password d).db.accounts
      ≡ some (with_password (e.hash_password password) u)
unfolding revoke_all
by_id-reset e email code password d u h i passed =
    let clear : Account → Account = λ x. record x { password = some (e.hash_password password) } in
    let prove : Account → Account = λ x. record x { verified = true } in
    let same : by_id u.id (check_code e u.id reset_password code d).db.accounts ≡ some u =
      ap (by_id u.id) (check_code-accounts e u.id reset_password code d) ∙ i in
    let first : by_id u.id
          (set_password u.id (some (e.hash_password password))
            (check_code e u.id reset_password code d).db).accounts
        ≡ some (clear u) =
      by_id-change clear u.id u.id (check_code e u.id reset_password code d).db.accounts u
        (λ x. refl) same
      ∙ ground arith in
    ap (λ (x : Db). by_id u.id x.accounts) (reset-db e email code password d u h passed)
    ∙ (by_id-change prove u.id u.id
          (set_password u.id (some (e.hash_password password))
            (check_code e u.id reset_password code d).db).accounts
          (clear u) (λ x. refl) first
        ∙ ground arith)

-- Nobody who was signed in stays so.
live_token-revoke_all :
    (user token : ℕ) (ks : List RefreshToken) (k : RefreshToken)
    → live_token token
        (map (λ (x : RefreshToken). if x.holder == user then record x { revoked = true } else x) ks)
      ≡ some k
    → k.holder ≢ user
live_token-revoke_all user token [] k h = absurd (cc)
live_token-revoke_all user token (x ∷ ks) k h =
    ground (arith, live_token-revoke_all user token ks k)

rotate-user :
    (e : Env) (token : ℕ) (k : RefreshToken) (d : Db) {s : Session}
    → (rotate e token (some k) d).answer ≡ ok s
    → s.user ≡ k.holder
unfolding rotate issue
rotate-user e token k d h = ground arith

-- After a reset that has succeeded the new password signs in (where its own hash accepts it, and the
-- account is not suspended), also if the account was not verified before.
pub reset-login :
    (e g : Env) (email code password : ℕ) (d : Db) (u : Account)
    → by_email email d.accounts ≡ some u
    → by_id u.id d.accounts ≡ some u
    → u.banned ≡ false
    → g.check_password password (e.hash_password password) ≡ true
    → (reset e email code password d).answer ≡ ok tt
    → (login g email password (reset e email code password d).db).answer
      ≡ ok (record { user = u.id; refresh = g.fresh_token })
unfolding login
reset-login e g email code password d u h i free right passed =
    let mail : by_email email (reset e email code password d).db.accounts
        ≡ some (with_password (e.hash_password password) u) =
      by_email-reset e email code password d u h passed in
    let session : (issue g u.id (reset e email code password d).db).answer
        ≡ ok (record { user = u.id; refresh = g.fresh_token }) =
      (issued g u.id (reset e email code password d).db (with_password (e.hash_password password) u)
        (by_id-reset e email code password d u h i passed) free).0 in
    ground (arith, mail, session, right)

-- After a password reset that has succeeded, for the account that the address has, no refresh
-- token that is in the table gives a session of the account any more.
pub reset-refresh :
    (e f : Env) (email code password token : ℕ) (d : Db) (u : Account) (s : Session)
    → by_email email d.accounts ≡ some u
    → (reset e email code password d).answer ≡ ok tt
    → (refresh f token (reset e email code password d).db).answer ≡ ok s
    → s.user ≢ u.id
unfolding refresh revoke_all
reset-refresh e f email code password token d u s h passed again =
    by_read (live_token token (reset e email code password d).db.tokens) refl again
  where
    by_read :
        (o : Option RefreshToken)
        → live_token token (reset e email code password d).db.tokens ≡ o
        → (rotate f token o (reset e email code password d).db).answer ≡ ok s
        → s.user ≢ u.id
    by_read none e' again = absurd (not_rotated f token (reset e email code password d).db again)
    by_read (some k) read again =
        let old : live_token token (
              map
                (λ (x : RefreshToken). if x.holder == u.id then record x { revoked = true } else x)
                (check_code e u.id reset_password code d).db.tokens)
            ≡ some k =
          ap (λ (x : Db). live_token token x.tokens)
            (sym (reset-db e email code password d u h passed))
          ∙ read in
        let other : k.holder ≢ u.id =
          live_token-revoke_all u.id token (check_code e u.id reset_password code d).db.tokens k
            old in
        ground (arith, rotate-user f token k (reset e email code password d).db again, other)
