-- ===== src/Auth/Model.antt =====
-- internal/auth: errors, the rows that accounts.go and auth_service.go work on, and what they are given.
-- Emails, passwords, hashes, codes and tokens are numbers; an email is taken as normEmail leaves it, and
-- a code as TrimSpace does. Times are nanoseconds.
use chirpy.Prelude.{
  ℕ, Bool, true, false, Option, none, some, List, [], ◌∷◌, ◌++◌, if◌then◌else◌, ◌==◌, map,
}

pub data AuthErr : Type 0 where
  invalid_credentials : AuthErr
  email_not_verified : AuthErr
  invalid_code : AuthErr
  mail_unavailable : AuthErr
  invalid_google : AuthErr
  google_unavailable : AuthErr
  reauth_required : AuthErr
  same_email : AuthErr
  code_too_soon : AuthErr
  email_taken : AuthErr
  not_authorized : AuthErr
  account_suspended : AuthErr
  -- Errors of the users service and its repository.
  user_not_found : AuthErr
  duplicate_email : AuthErr
  bad_input : AuthErr

pub data Purpose : Type 0 where
  verify_email : Purpose
  reset_password : Purpose
  admin_login : Purpose
  change_email : Purpose

abbrev pub same_purpose : Purpose → Purpose → Bool
same_purpose verify_email verify_email = true
same_purpose reset_password reset_password = true
same_purpose admin_login admin_login = true
same_purpose change_email change_email = true
same_purpose _ _ = false

-- The columns of users that are used; no password is `none`.
pub record Account : Type 0 where
  pub id : ℕ
  pub email : ℕ
  pub password : Option ℕ
  pub verified : Bool
  pub is_admin : Bool
  pub banned : Bool

-- A row of email_codes. `new_email` is set for a change of the address.
pub record StoredCode : Type 0 where
  pub user : ℕ
  pub purpose : Purpose
  pub hash : Option ℕ  -- `none` is "", which no code has
  pub new_email : Option ℕ
  pub attempts : ℕ
  pub expires_at : ℕ
  pub created_at : ℕ

pub record Identity : Type 0 where
  pub subject : ℕ
  pub owner : ℕ

-- A row of refresh_tokens, by the token itself in place of its hash.
pub record RefreshToken : Type 0 where
  pub token : ℕ
  pub holder : ℕ
  pub expires_at : ℕ
  pub revoked : Bool

pub record Db : Type 0 where
  pub accounts : List Account
  pub codes : List StoredCode
  pub identities : List Identity
  pub tokens : List RefreshToken

pub data Mail : Type 0 where
  -- To an address, for an account, the code.
  code_mail : ℕ → ℕ → Purpose → ℕ → Mail
  already_registered : ℕ → Mail
  email_in_use : ℕ → Mail
  email_changed : ℕ → Mail

pub data Result {ℓ} (A : Type ℓ) : Type ℓ where
  ok : A → Result A
  err : AuthErr → Result A

-- What an operation leaves, what it mailed, and its answer.
pub record Outcome {ℓ} (A : Type ℓ) : Type ℓ where
  pub db : Db
  pub mails : List Mail
  pub answer : Result A

-- Operations in the order in which the code makes them; an error ends the chain, and what was written
-- before it stays.
abbrev pub M {ℓ} : Type ℓ → Type ℓ
M A = Db → Outcome A

abbrev pub continue {ℓ κ} :
    {A : Type ℓ} {B : Type κ} → Db → List Mail → Result A → (A → M B) → Outcome B
continue d sent (err e) f = record { db = d; mails = sent; answer = err e }
continue d sent (ok a) f = record {
  db = (f a d).db;
  mails = sent ++ (f a d).mails;
  answer = (f a d).answer;
}

infixl 10 ◌>>=◌
abbrev pub ◌>>=◌ {ℓ κ} : {A : Type ℓ} {B : Type κ} → M A → (A → M B) → M B
◌>>=◌ m f d = continue (m d).db (m d).mails (m d).answer f

abbrev pub answers {ℓ} : {A : Type ℓ} → Result A → M A
answers r d = record { db = d; mails = []; answer = r }

abbrev pub done {ℓ} : {A : Type ℓ} → A → M A
done a = answers (ok a)

abbrev pub fails {ℓ} : {A : Type ℓ} → AuthErr → M A
fails e = answers (err e)

abbrev pub require : Bool → AuthErr → M (Unit {0})
require true e = done tt
require false e = fails e

abbrev pub write : (Db → Db) → M (Unit {0})
write f d = record { db = f d; mails = []; answer = ok tt }

-- A Google ID token's claims.
pub record GoogleClaims : Type 0 where
  pub subject : ℕ
  pub email : ℕ
  pub email_verified : Bool

-- The clock, the random source, the hashes, the mail server, Google, and the checks of the users service.
pub record Env : Type 0 where
  pub now : ℕ
  pub fresh_code : ℕ
  pub fresh_token : ℕ
  pub fresh_id : ℕ
  pub refresh_ttl : ℕ
  pub hash_code : ℕ → Purpose → Option ℕ → ℕ → ℕ
  pub hash_password : ℕ → ℕ
  pub check_password : ℕ → ℕ → Bool
  pub sends : Mail → Bool
  pub google : Option (ℕ → Option GoogleClaims)
  pub valid_registration : ℕ → ℕ → Bool  -- the email and the password, with a name that is well formed and free
  pub valid_name : ℕ → Bool  -- a name that is well formed and free
  pub valid_password : ℕ → Bool
  pub valid_email : ℕ → Bool

-- send: a mail that the server does not take is an error.
abbrev pub post : Env → Mail → M (Unit {0})
post e m d =
    if e.sends m
    then record { db = d; mails = m ∷ []; answer = ok tt }
    else record { db = d; mails = []; answer = err mail_unavailable }

abbrev pub by_email : ℕ → List Account → Option Account
by_email email [] = none
by_email email (u ∷ us) = if u.email == email then some u else by_email email us

abbrev pub by_id : ℕ → List Account → Option Account
by_id id [] = none
by_id id (u ∷ us) = if u.id == id then some u else by_id id us

-- GetUserByID.
abbrev pub found {ℓ} : {A : Type ℓ} → Option A → AuthErr → M A
found none e = fails e
found (some a) e = done a

abbrev pub change_account : ℕ → (Account → Account) → Db → Db
change_account id f d = record d {
  accounts = map (λ (u : Account). if u.id == id then f u else u) d.accounts;
}
