-- ===== src/Auth/Verified.antt =====
-- internal/auth: any sequence of requests, from empty tables.
use chirpy.Prelude.{ℕ, List, [], ◌∷◌}
use chirpy.Auth.Model.{Db, Env}
use chirpy.Auth.Sessions.{login, refresh, revoke_token}
use chirpy.Auth.Accounts.{register, resend_verification, verify_account, request_reset, reset}
use chirpy.Auth.Google.{google_sign_in, complete_signup}
use chirpy.Auth.Change.{
  delete_account, start_email_change, confirm_email_change, admin_start, admin_verify,
}
use chirpy.Auth.Rows.{Sound}
use chirpy.Auth.Writes.{revoke_token-Sound}
use chirpy.Auth.SignIn.{login-Sound, refresh-Sound, verify_account-Sound, reset-Sound}
use chirpy.Auth.SignUp.{register-Sound, resend_verification-Sound, request_reset-Sound}
use chirpy.Auth.Deleted.{delete_account-Sound}
use chirpy.Auth.ChangeRows.{
  start_email_change-Sound, confirm_email_change-Sound, admin_start-Sound, admin_verify-Sound,
}
use chirpy.Auth.GoogleRows.{google_sign_in-Sound, complete_signup-Sound}

-- The requests of the account and session handlers; an account's id in one is that of the access token.
pub data Request : Type 0 where
  registering : ℕ → ℕ → Request
  resending : ℕ → Request
  verifying : ℕ → ℕ → Request
  forgetting : ℕ → Request
  resetting : ℕ → ℕ → ℕ → Request
  with_google : ℕ → Request
  completing : ℕ → ℕ → ℕ → Request
  starting_change : ℕ → ℕ → ℕ → ℕ → Request
  confirming_change : ℕ → ℕ → Request
  logging_in : ℕ → ℕ → Request
  refreshing : ℕ → Request
  revoking : ℕ → Request
  deleting : ℕ → ℕ → ℕ → Request
  starting_admin : ℕ → ℕ → Request
  verifying_admin : ℕ → ℕ → Request

unfoldable pub serve : Env → Request → Db → Db
serve e (registering email password) d = (register e email password d).db
serve e (resending email) d = (resend_verification e email d).db
serve e (verifying email code) d = (verify_account e email code d).db
serve e (forgetting email) d = (request_reset e email d).db
serve e (resetting email code password) d = (reset e email code password d).db
serve e (with_google token) d = (google_sign_in e token d).db
serve e (completing subject email name) d = (complete_signup e subject email name d).db
serve e (starting_change id email password token) d =
    (start_email_change e id email password token d).db
serve e (confirming_change id code) d = (confirm_email_change e id code d).db
serve e (logging_in email password) d = (login e email password d).db
serve e (refreshing token) d = (refresh e token d).db
serve e (revoking token) d = revoke_token token d
serve e (deleting id password token) d = (delete_account e id password token d).db
serve e (starting_admin email password) d = (admin_start e email password d).db
serve e (verifying_admin email code) d = (admin_verify e email code d).db

-- Each request with the server as it is then.
abbrev pub serve_all : List (Env × Request) → Db → Db
serve_all [] d = d
serve_all ((e, r) ∷ rs) d = serve_all rs (serve e r d)

serve-Sound : (e : Env) (r : Request) (d : Db) → Sound d → Sound (serve e r d)
unfolding serve
serve-Sound e (registering email password) d s = register-Sound e email password d s
serve-Sound e (resending email) d s = resend_verification-Sound e email d s
serve-Sound e (verifying email code) d s = verify_account-Sound e email code d s
serve-Sound e (forgetting email) d s = request_reset-Sound e email d s
serve-Sound e (resetting email code password) d s = reset-Sound e email code password d s
serve-Sound e (with_google token) d s = google_sign_in-Sound e token d s
serve-Sound e (completing subject email name) d s = complete_signup-Sound e subject email name d s
serve-Sound e (starting_change id email password token) d s =
    start_email_change-Sound e id email password token d s
serve-Sound e (confirming_change id code) d s = confirm_email_change-Sound e id code d s
serve-Sound e (logging_in email password) d s = login-Sound e email password d s
serve-Sound e (refreshing token) d s = refresh-Sound e token d s
serve-Sound e (revoking token) d s = revoke_token-Sound token d s
serve-Sound e (deleting id password token) d s = delete_account-Sound e id password token d s
serve-Sound e (starting_admin email password) d s = admin_start-Sound e email password d s
serve-Sound e (verifying_admin email code) d s = admin_verify-Sound e email code d s

rows-Sound : (rs : List (Env × Request)) (d : Db) → Sound d → Sound (serve_all rs d)
rows-Sound [] d s = s
rows-Sound ((e, r) ∷ rs) d s = rows-Sound rs (serve e r d) (serve-Sound e r d s)

-- From empty tables, after any requests, one after another, with whatever clocks, random numbers,
-- mail server and Google: no two accounts have an id or an address in common, and every refresh
-- token and every Google identity belongs to an account whose address is verified.
pub serve_all-Sound :
    (rs : List (Env × Request))
    → Sound (serve_all rs (record { accounts = []; codes = []; identities = []; tokens = [] }))
serve_all-Sound rs =
    rows-Sound rs (record { accounts = []; codes = []; identities = []; tokens = [] })
      (record { ids = tt; emails = tt; held = tt; owned = tt })
