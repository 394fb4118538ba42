-- ===== src/Auth/Runs.antt =====
-- internal/auth: operations that keep the rows sound, by what holds before them and after a success.
use chirpy.Prelude.{
  ℕ, ◌≡◌, refl, Bool, true, false, Option, none, some, List, ltb, leb, Bool-cases, Option-cases,
  inl, inr,
}
use chirpy.Auth.Model.{
  AuthErr, Purpose, Mail, Account, StoredCode, Db, Result, ok, err, M, continue, ◌>>=◌, answers,
  require, write, found, post, Env, by_id, code_mail,
}
use chirpy.Auth.Codes.{
  get_code, check_code, try_code, count_guess, delete_code, bump_attempts, put_code, send_code,
  is_recent, has_hash, attempts_of, code_max_attempts, new_code,
}
use chirpy.Auth.Sessions.{issue}
use chirpy.Auth.Rows.{Sound, is_verified}
use chirpy.Auth.Writes.{recoded, store_token-Sound}

abbrev pub Anything {ℓ} : {A : Type ℓ} → A → Db → Type 0
Anything a d = Unit

-- From sound rows of which P holds the operation leaves sound rows, and those of which Q holds with
-- its answer if it succeeds.
abbrev pub Keeps : {A : Type 0} → (Db → Type 0) → M A → (A → Db → Type 0) → Type 0
Keeps {A} P m Q =
    (d : Db) → Sound d → P d → Sound (m d).db × ((a : A) → (m d).answer ≡ ok a → Q a (m d).db)

continued-Keeps :
    {A B : Type 0} (Q : A → Db → Type 0) (R : B → Db → Type 0) (d : Db) (sent : List Mail)
    (r : Result A) (f : A → M B)
    → Sound d
    → ((a : A) → r ≡ ok a → Q a d)
    → ((a : A) → Keeps (Q a) (f a) R)
    → Sound (continue d sent r f).db
      × ((b : B) → (continue d sent r f).answer ≡ ok b → R b (continue d sent r f).db)
continued-Keeps Q R d sent (ok a) f s q k = k a d s (q a refl)
continued-Keeps Q R d sent (err e) f s q k = (s, λ b h. absurd (cc))

-- One operation after another.
pub >>=-Keeps :
    {A B : Type 0} (P : Db → Type 0) (Q : A → Db → Type 0) (R : B → Db → Type 0) (m : M A)
    (f : A → M B)
    → Keeps P m Q
    → ((a : A) → Keeps (Q a) (f a) R)
    → Keeps P (m >>= f) R
>>=-Keeps Q' Q R m f first next d s p =
    let (s', q) = first d s p in continued-Keeps Q R (m d).db (m d).mails (m d).answer f s' q next

pub answers-Keeps :
    {A : Type 0} (P : Db → Type 0) (r : Result A) → Keeps P (answers r) (λ a d. (r ≡ ok a) × P d)
answers-Keeps P r d s p = (s, λ a h. (h, p))

pub found-Keeps :
    {A : Type 0} (P : Db → Type 0) (o : Option A) (e : AuthErr)
    → Keeps P (found o e) (λ a d. (o ≡ some a) × P d)
found-Keeps P none e d s p = (s, λ a h. absurd (cc))
found-Keeps P (some x) e d s p = (s, λ a h. (cc, p))

pub require-Keeps :
    (P : Db → Type 0) (b : Bool) (e : AuthErr) → Keeps P (require b e) (λ a d. (b ≡ true) × P d)
require-Keeps P true e d s p = (s, λ a h. (refl, p))
require-Keeps P false e d s p = (s, λ a h. absurd (cc))

pub write-Keeps :
    (P Q : Db → Type 0) (f : Db → Db)
    → ((d : Db) → Sound d → P d → Sound (f d) × Q (f d))
    → Keeps P (write f) (λ a d. Q d)
write-Keeps P Q f h d s p = ((h d s p).0, λ a e. (h d s p).1)

pub post-Keeps : (P : Db → Type 0) (e : Env) (m : Mail) → Keeps P (post e m) (λ a d. P d)
post-Keeps P e m d s p = elim (Bool-cases (e.sends m)) [
  | inl y ↦ rw y (s, λ a h. p)
  | inr y ↦ rw y (s, λ a h. absurd (cc))
]

-- The codes have no part in it.
module _ (R : List Account → Type 0) where
  pub check_code-Keeps :
      (e : Env) (user : ℕ) (purpose : Purpose) (guess : ℕ)
      → Keeps (λ d. R d.accounts) (check_code e user purpose guess) (λ c d. R d.accounts)
  unfolding check_code try_code count_guess delete_code bump_attempts
  check_code-Keeps e user purpose guess d s r = by_read (get_code user purpose d.codes)
    where
      counted : Sound (count_guess user purpose d) × R (count_guess user purpose d).accounts
      counted =
          elim (Bool-cases (
            leb code_max_attempts
              (attempts_of (get_code user purpose (bump_attempts user purpose d).codes)))) [
                | inl e ↦ rw e (recoded d _ s, r)
                | inr e ↦ rw e (recoded d _ s, r)
              ]

      by_read :
          (o : Option StoredCode)
          → Sound (try_code e user purpose guess o d).db
            × ((c : StoredCode)
                → (try_code e user purpose guess o d).answer ≡ ok c
                → R (try_code e user purpose guess o d).db.accounts)
      by_read none = (s, λ c h. r)
      by_read (some c) = elim (Bool-cases (ltb c.expires_at e.now)) [
        | inl late ↦ rw late (s, λ c h. r)
        | inr live ↦
            rw live
              (elim (Bool-cases (has_hash c.hash (e.hash_code user purpose c.new_email guess))) [
                | inl right ↦ rw right (recoded d _ s, λ c h. r)
                | inr wrong ↦ rw wrong (counted.0, λ c h. counted.1)
              ])
      ]

  pub put_code-Keeps :
      (c : StoredCode) → Keeps (λ d. R d.accounts) (write (put_code c)) (λ a d. R d.accounts)
  unfolding put_code
  put_code-Keeps c d s r = (recoded d _ s, λ a h. r)

  pub send_code-Keeps :
      (e : Env) (u : Account) (purpose : Purpose)
      → Keeps (λ d. R d.accounts) (send_code e u purpose) (λ a d. R d.accounts)
  unfolding send_code
  send_code-Keeps e u purpose d s r =
      elim (Bool-cases (is_recent e.now (get_code u.id purpose d.codes))) [
        | inl recent ↦ rw recent (s, λ a h. r)
        | inr rested ↦ rw rested (
            >>=-Keeps (λ d. R d.accounts) (λ a d. R d.accounts) (λ a d. R d.accounts)
              (write (put_code (new_code e u.id purpose none)))
              (λ stored. post e (code_mail u.email u.id purpose e.fresh_code))
              (put_code-Keeps (new_code e u.id purpose none))
              (λ a. post-Keeps (λ d. R d.accounts) e (code_mail u.email u.id purpose e.fresh_code))
              d s r)
      ]

-- A session is for an account with a verified address.
pub issue-Keeps :
    (e : Env) (id : ℕ) → Keeps (λ d. is_verified id d.accounts ≡ true) (issue e id) Anything
unfolding issue
issue-Keeps e id d s v = elim (Option-cases (by_id id d.accounts)) [
  | inl gone ↦ rw gone (s, λ a h. tt)
  | inr (u, here) ↦ elim (Bool-cases u.banned) [
    | inl banned ↦ rw here (rw banned (s, λ a h. tt))
    | inr free ↦ rw here (rw free (store_token-Sound e id d v s, λ a h. tt))
  ]
]

-- Nothing is asked of the answer.
pub weaken :
    {A : Type 0} (P : Db → Type 0) (Q : A → Db → Type 0) (m : M A)
    → Keeps P m Q
    → Keeps P m Anything
weaken P Q m k d s p = ((k d s p).0, λ a h. tt)

pub strengthen :
    {A : Type 0} (P P' : Db → Type 0) (Q : A → Db → Type 0) (m : M A)
    → ((d : Db) → P d → P' d)
    → Keeps P' m Q
    → Keeps P m Q
strengthen P P' Q m imp k d s p = k d s (imp d p)
