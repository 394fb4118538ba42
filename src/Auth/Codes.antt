-- ===== src/Auth/Codes.antt =====
-- internal/auth/accounts.go: sendCode, checkCode and checkCodeFor, with the queries on email_codes.
use chirpy.Prelude.{
  ℕ, ◌+◌, ◌-◌, ◌*◌, Bool, false, not, ◌&&◌, Option, none, some, List, [], ◌∷◌, if◌then◌else◌, ltb,
  leb, ◌==◌, keep, map,
}
use chirpy.Auth.Model.{
  Purpose, same_purpose, StoredCode, Db, Account, code_mail, M, ◌>>=◌, done, fails, write, Env,
  post, invalid_code,
}

abbrev pub code_ttl : ℕ
code_ttl = 2 * 60 * 1000000000

abbrev pub code_max_attempts : ℕ
code_max_attempts = 5

abbrev pub code_resend_gap : ℕ
code_resend_gap = 60 * 1000000000

abbrev pub is_code : ℕ → Purpose → StoredCode → Bool
is_code user purpose c = (c.user == user) && same_purpose c.purpose purpose

-- GetEmailCode.
abbrev pub get_code : ℕ → Purpose → List StoredCode → Option StoredCode
get_code user purpose [] = none
get_code user purpose (c ∷ cs) = if is_code user purpose c then some c else get_code user purpose cs

-- DeleteEmailCode.
abbrev pub drop_code : ℕ → Purpose → List StoredCode → List StoredCode
drop_code user purpose cs = keep (λ (c : StoredCode). not (is_code user purpose c)) cs

unfoldable pub delete_code : ℕ → Purpose → Db → Db
delete_code user purpose d = record d { codes = drop_code user purpose d.codes }

-- UpsertEmailCode and UpsertEmailChangeCode: the attempts start again.
unfoldable pub put_code : StoredCode → Db → Db
put_code c d = record d { codes = c ∷ drop_code c.user c.purpose d.codes }

-- BumpEmailCodeAttempts.
unfoldable pub bump_attempts : ℕ → Purpose → Db → Db
bump_attempts user purpose d = record d {
  codes =
      map
        (λ (c : StoredCode).
          if is_code user purpose c then record c { attempts = c.attempts + 1 } else c)
        d.codes;
}

abbrev pub is_recent : ℕ → Option StoredCode → Bool
is_recent now none = false
is_recent now (some c) = ltb (now - c.created_at) code_resend_gap

abbrev pub new_code : Env → ℕ → Purpose → Option ℕ → StoredCode
new_code e user purpose new_email = record {
  user = user;
  purpose = purpose;
  hash = some (e.hash_code user purpose new_email e.fresh_code);
  new_email = new_email;
  attempts = 0;
  expires_at = e.now + code_ttl;
  created_at = e.now;
}

unfoldable pub send_code : Env → Account → Purpose → M (Unit {0})
unfolding put_code
send_code e u purpose d =
    if is_recent e.now (get_code u.id purpose d.codes)
    then done tt d
    else (write (put_code (new_code e u.id purpose none)) >>= λ stored.
          post e (code_mail u.email u.id purpose e.fresh_code))
        d

abbrev pub has_hash : Option ℕ → ℕ → Bool
has_hash none h = false
has_hash (some k) h = k == h

abbrev pub attempts_of : Option StoredCode → ℕ
attempts_of none = 0
attempts_of (some c) = c.attempts

-- A wrong guess counts, and the last one that is allowed takes the code away.
unfoldable pub count_guess : ℕ → Purpose → Db → Db
unfolding bump_attempts delete_code
count_guess user purpose d =
    let bumped : Db = bump_attempts user purpose d in
    if leb code_max_attempts (attempts_of (get_code user purpose bumped.codes))
    then delete_code user purpose bumped
    else bumped

-- What follows once the code is read.
unfoldable pub try_code : Env → ℕ → Purpose → ℕ → Option StoredCode → M StoredCode
unfolding count_guess delete_code
try_code e user purpose guess none = fails invalid_code
try_code e user purpose guess (some c) =
    if ltb c.expires_at e.now
    then fails invalid_code
    else if has_hash c.hash (e.hash_code user purpose c.new_email guess)
    then (write (delete_code user purpose) >>= λ used. done c)
    else (write (count_guess user purpose) >>= λ counted. fails invalid_code)

-- checkCodeFor: it reads, and then writes to what the table is by then; both at once here.
unfoldable pub check_code : Env → ℕ → Purpose → ℕ → M StoredCode
unfolding try_code
check_code e user purpose guess d = try_code e user purpose guess (get_code user purpose d.codes) d
