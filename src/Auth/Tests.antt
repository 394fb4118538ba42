-- ===== src/Auth/Tests.antt =====
-- An account that is not verified, with a code and a refresh token, and a squatter's password.
use chirpy.Prelude.{
  ℕ, ◌≡◌, ◌≢◌, refl, true, false, none, some, List, [], ◌∷◌, ◌==◌, arith, All, map, ◌++◌,
}
use chirpy.Auth.Model.{
  Purpose, verify_email, reset_password, Account, StoredCode, RefreshToken, Db, ok, err, Env,
  invalid_code, invalid_credentials,
}
use chirpy.Auth.Codes.{delete_code, put_code, check_code, send_code, try_code}
use chirpy.Auth.Sessions.{
  login, refresh, rotate, issue, live_token, revoke_all, store_token, revoke_token,
}
use chirpy.Auth.Accounts.{register, verify_account, reset, create_account, finish_reset}
use chirpy.Auth.Guesses.{guess_all, Misses, five_guesses, guess_at_once, guess_at_once-accepted}
use chirpy.Auth.Rotation.{rotate-twice}
use chirpy.Auth.Squat.{squatter-login}
use chirpy.Auth.Reset.{reset-refresh}
use chirpy.Auth.Rows.{Sound}
use chirpy.Auth.Change.{delete_account, delete_user, reauth, reauth_password}
use chirpy.Auth.Verified.{
  Request, registering, verifying, logging_in, refreshing, deleting, serve, serve_all,
  serve_all-Sound,
}

-- At a time, with a fresh code and a fresh token. A password is its own hash, and so is a code.
abbrev server : ℕ → ℕ → ℕ → Env
server now code token = record {
  now = now;
  fresh_code = code;
  fresh_token = token;
  fresh_id = 50;
  refresh_ttl = 1000;
  hash_code = λ user p email c. c;
  hash_password = λ p. p;
  check_password = λ p h. p == h;
  sends = λ m. true;
  google = none;
  valid_registration = λ email p. true;
  valid_name = λ n. true;
  valid_password = λ p. true;
  valid_email = λ email. true;
}

abbrev ann : Account
ann = record {
  id = 1;
  email = 11;
  password = some 666;
  verified = false;
  is_admin = false;
  banned = false;
}

abbrev code_for : Purpose → StoredCode
code_for p = record {
  user = 1;
  purpose = p;
  hash = some 123456;
  new_email = none;
  attempts = 0;
  expires_at = 900;
  created_at = 100;
}

abbrev kept : RefreshToken
kept = record { token = 70; holder = 1; expires_at = 5000; revoked = false }

abbrev db : Db
db = record {
  accounts = ann ∷ [];
  codes = code_for verify_email ∷ code_for reset_password ∷ [];
  identities = [];
  tokens = kept ∷ [];
}

abbrev wrong : List (Env × ℕ)
wrong =
    (server 110 0 0, 1)
    ∷ (server 111 0 0, 2)
    ∷ (server 112 0 0, 3)
    ∷ (server 113 0 0, 4)
    ∷ (server 114 0 0, 5)
    ∷ []

wrong-Misses : All (Misses 1 reset_password (code_for reset_password)) wrong
wrong-Misses = ((refl, refl), ((refl, refl), ((refl, refl), ((refl, refl), ((refl, refl), tt)))))

five_guesses_example :
    (check_code
      (server 120 0 0)
      1
      reset_password
      123456
      (guess_all 1 reset_password wrong db)).answer
    ≡ err invalid_code
five_guesses_example =
    five_guesses 1 reset_password wrong db (code_for reset_password) (server 120 0 0) 123456 refl
      refl wrong-Misses (omega arith)

rotate-twice_example :
    ((rotate (server 200 0 71) 70 (live_token 70 db.tokens) db).answer
      ≡ ok (record { user = 1; refresh = 71 }))
    × ((rotate
          (server 201 0 72)
          70
          (live_token 70 db.tokens)
          (rotate (server 200 0 71) 70 (live_token 70 db.tokens) db).db).answer
        ≡ ok (record { user = 1; refresh = 72 }))
rotate-twice_example =
    rotate-twice (server 200 0 71) (server 201 0 72) 70 db kept ann refl refl refl refl refl

verified_by_owner :
    (verify_account (server 210 0 71) 11 123456 (register (server 150 888 0) 11 42 db).db).answer
    ≡ ok (record { user = 1; refresh = 71 })
unfolding verify_account register create_account send_code check_code try_code issue
verified_by_owner = refl

squatter-login_example :
    ((login
        (server 300 0 72)
        11
        666
        (verify_account
          (server 210 0 71)
          11
          123456
          (register (server 150 888 0) 11 42 db).db).db).answer
      ≡ ok (record { user = 1; refresh = 72 }))
    × ((login
          (server 300 0 72)
          11
          42
          (verify_account
            (server 210 0 71)
            11
            123456
            (register (server 150 888 0) 11 42 db).db).db).answer
        ≡ err invalid_credentials)
squatter-login_example =
    squatter-login (server 150 888 0) (server 210 0 71) (server 300 0 72) 11 42 666 666 123456 db
      ann (record { user = 1; refresh = 71 }) refl refl refl refl refl refl verified_by_owner

-- Another user's token, which the reset leaves.
abbrev both : Db
both = record db {
  accounts = ann ∷ record ann { id = 2; email = 22 } ∷ [];
  tokens = kept ∷ record kept { token = 80; holder = 2 } ∷ [];
}

both_done : (reset (server 220 0 0) 11 123456 99 both).answer ≡ ok tt
unfolding reset check_code try_code finish_reset
both_done = refl

other_goes_on :
    (refresh (server 300 0 72) 80 (reset (server 220 0 0) 11 123456 99 both).db).answer
    ≡ ok (record { user = 2; refresh = 72 })
unfolding refresh rotate issue reset check_code try_code finish_reset revoke_all
other_goes_on = refl

reset-refresh_example : ◌≢◌ {A = ℕ} 2 1
reset-refresh_example =
    reset-refresh (server 220 0 0) (server 300 0 72) 11 123456 99 80 both ann
      (record { user = 2; refresh = 72 }) refl both_done other_goes_on

abbrev many : List (Env × ℕ)
many = (server 115 0 0, 6) ∷ (server 115 0 0, 7) ∷ wrong

guess_at_once-accepted_example :
    guess_at_once 1 reset_password
      (some (code_for reset_password))
      (many ++ ((server 130 0 0, 123456) ∷ []))
      db
    ≡ map (λ (x : Env × ℕ). err invalid_code) many ++ (ok (code_for reset_password) ∷ [])
guess_at_once-accepted_example =
    guess_at_once-accepted 1 reset_password many db (code_for reset_password) (server 130 0 0)
      123456 ((refl, refl), ((refl, refl), wrong-Misses)) refl refl

-- Someone registers, cannot sign in before the address is verified, verifies it and refreshes twice.
abbrev first_day : List (Env × Request)
first_day =
    (server 10 5 0, registering 11 7)
    ∷ (server 20 0 1, logging_in 11 7)
    ∷ (server 30 0 2, verifying 11 5)
    ∷ (server 40 0 3, refreshing 2)
    ∷ (server 50 0 4, refreshing 2)
    ∷ []

abbrev empty : Db
empty = record { accounts = []; codes = []; identities = []; tokens = [] }

two_tokens :
    (serve_all first_day empty).tokens
    ≡ record { token = 3; holder = 50; expires_at = 1040; revoked = false }
      ∷ record { token = 2; holder = 50; expires_at = 1030; revoked = true }
      ∷ []
unfolding serve register create_account login verify_account check_code try_code send_code refresh
    rotate issue store_token delete_code revoke_token put_code
two_tokens = refl

serve_all-Sound_example : Sound (serve_all first_day empty)
serve_all-Sound_example = serve_all-Sound first_day

-- The password is asked for, and what goes with the account goes too.
all_gone : serve_all ((server 60 0 0, deleting 50 7 0) ∷ []) (serve_all first_day empty) ≡ empty
unfolding serve register create_account login verify_account check_code try_code send_code refresh
    rotate issue store_token delete_code revoke_token put_code delete_account delete_user reauth
    reauth_password
all_gone = refl
