-- ===== src/Auth/Guesses.antt =====
-- Codes: how often one may be guessed, and that it is used once.
use chirpy.Prelude.{
  ℕ, ◌+◌, ◌≤◌, ◌≡◌, ◌<◌, refl, ap, ◌∙◌, true, false, Option, none, some, List, [], ◌∷◌,
  if◌then◌else◌, ltb, leb, map, length, All, ◌++◌, arith, Bool-cases, inl, inr,
}
use chirpy.Auth.Model.{
  Purpose, same_purpose, StoredCode, Db, Account, ok, err, Outcome, Result, Env, invalid_code,
  code_mail,
}
use chirpy.Auth.Codes.{
  code_max_attempts, is_code, get_code, drop_code, delete_code, bump_attempts, has_hash,
  count_guess, try_code, check_code, send_code, new_code,
}

get_code-drop :
    (user : ℕ) (p : Purpose) (cs : List StoredCode) → get_code user p (drop_code user p cs) ≡ none
get_code-drop user p [] = refl
get_code-drop user p (c ∷ cs) = ground (arith, get_code-drop user p cs)

abbrev bumped : StoredCode → StoredCode
bumped c = record c { attempts = c.attempts + 1 }

get_code-bump :
    (user : ℕ) (p : Purpose) (d : Db) {c : StoredCode}
    → get_code user p d.codes ≡ some c
    → get_code user p (bump_attempts user p d).codes ≡ some (bumped c)
unfolding bump_attempts
get_code-bump user p d {c} e = in_rows d.codes e
  where
    in_rows :
        (cs : List StoredCode)
        → get_code user p cs ≡ some c
        → get_code user p (
            map
              (λ (x : StoredCode).
                if is_code user p x then record x { attempts = x.attempts + 1 } else x)
              cs)
          ≡ some (bumped c)
    in_rows [] e = absurd (cc)
    in_rows (x ∷ cs) e = ground (arith, in_rows cs)

same_purpose_self : (p : Purpose) → same_purpose p p ≡ true
same_purpose_self p = ground arith

-- A guess, with the server as it is then.
abbrev Guess : Type 0
Guess = Env × ℕ

-- A guess at a code that is not expired, with another hash.
abbrev pub Misses : ℕ → Purpose → StoredCode → Guess → Type 0
Misses user p c (e, g) =
    (ltb c.expires_at e.now ≡ false) × (has_hash c.hash (e.hash_code user p c.new_email g) ≡ false)

unfoldable pub guess_all : ℕ → Purpose → List Guess → Db → Db
guess_all user p [] d = d
guess_all user p ((e, g) ∷ gs) d = guess_all user p gs (check_code e user p g d).db

count_guess-get_code :
    (user : ℕ) (p : Purpose) (d : Db) (c : StoredCode)
    → get_code user p d.codes ≡ some c
    → get_code user p (count_guess user p d).codes
      ≡ (if leb code_max_attempts (c.attempts + 1) then none else some (bumped c))
unfolding count_guess delete_code
count_guess-get_code user p d c h =
    ground (arith, get_code-bump user p d h, get_code-drop user p (bump_attempts user p d).codes)

missed :
    (e : Env) (user : ℕ) (p : Purpose) (g : ℕ) (d : Db) (c : StoredCode)
    → get_code user p d.codes ≡ some c
    → Misses user p c (e, g)
    → check_code e user p g d
      ≡ record { db = count_guess user p d; mails = []; answer = err invalid_code }
unfolding check_code try_code
missed e user p g d c h (live, wrong) = rw h (rw live (rw wrong refl))

nothing_stored :
    (e : Env) (user : ℕ) (p : Purpose) (g : ℕ) (d : Db)
    → get_code user p d.codes ≡ none
    → check_code e user p g d ≡ record { db = d; mails = []; answer = err invalid_code }
unfolding check_code try_code
nothing_stored e user p g d h = rw h refl

guess_all-none :
    (user : ℕ) (p : Purpose) (gs : List Guess) (d : Db)
    → get_code user p d.codes ≡ none
    → get_code user p (guess_all user p gs d).codes ≡ none
unfolding guess_all
guess_all-none user p [] d h = h
guess_all-none user p ((e, g) ∷ gs) d h = guess_all-none user p gs (check_code e user p g d).db (
    ap (λ (o : Outcome StoredCode). get_code user p o.db.codes) (nothing_stored e user p g d h) ∙ h)

guess_all-used_up :
    (user : ℕ) (p : Purpose) (gs : List Guess) (d : Db) (c : StoredCode)
    → get_code user p d.codes ≡ some c
    → All (Misses user p c) gs
    → code_max_attempts ≤ c.attempts + length gs
    → c.attempts < code_max_attempts
    → get_code user p (guess_all user p gs d).codes ≡ none
unfolding guess_all
guess_all-used_up user p [] d c h m n k = absurd (omega arith)
guess_all-used_up user p ((e, g) ∷ gs) d c h m n k =
    let after : Db = (check_code e user p g d).db in
    let here : get_code user p after.codes
        ≡ (if leb code_max_attempts (c.attempts + 1) then none else some (bumped c)) =
      ap (λ (o : Outcome StoredCode). get_code user p o.db.codes) (missed e user p g d c h m.0)
      ∙ count_guess-get_code user p d c h in
    elim (Bool-cases (leb code_max_attempts (c.attempts + 1))) [
      | inl last ↦ guess_all-none user p gs after (here ∙ rw last refl)
      | inr more ↦
          guess_all-used_up user p gs after (bumped c) (here ∙ rw more refl) m.1 (omega arith)
            (ground arith)
    ]

-- After five wrong guesses or more at a code with no wrong guess so far, one after another and
-- before it expires, no guess is right any more: the code that was mailed is refused like any
-- other.
pub five_guesses :
    (user : ℕ) (p : Purpose) (gs : List Guess) (d : Db) (c : StoredCode) (e : Env) (g : ℕ)
    → get_code user p d.codes ≡ some c
    → c.attempts ≡ 0
    → All (Misses user p c) gs
    → code_max_attempts ≤ length gs
    → (check_code e user p g (guess_all user p gs d)).answer ≡ err invalid_code
five_guesses user p gs d c e g h zero' m n =
    ap (λ (o : Outcome StoredCode). o.answer)
      (nothing_stored e user p g (guess_all user p gs d)
        (guess_all-used_up user p gs d c h m (omega arith) (omega arith)))

-- Five wrong guesses or more, one after another at a fresh code and before it expires, also end
-- the wait between two codes: asked for a code right after them, however soon after the last one
-- was mailed, the server mails a new one, with guesses of its own, if the mail server takes it.
pub exhausted-send_code :
    (p : Purpose) (gs : List Guess) (d : Db) (c : StoredCode) (e : Env) (u : Account)
    → get_code u.id p d.codes ≡ some c
    → c.attempts ≡ 0
    → All (Misses u.id p c) gs
    → code_max_attempts ≤ length gs
    → e.sends (code_mail u.email u.id p e.fresh_code) ≡ true
    → ((send_code e u p (guess_all u.id p gs d)).mails ≡ code_mail u.email u.id p e.fresh_code ∷ [])
      × (get_code u.id p (send_code e u p (guess_all u.id p gs d)).db.codes
          ≡ some (new_code e u.id p none))
unfolding send_code
exhausted-send_code p gs d c e u h zero' m n sent =
    let gone : get_code u.id p (guess_all u.id p gs d).codes ≡ none =
      guess_all-used_up u.id p gs d c h m (omega arith) (omega arith) in
    (rw gone (rw sent refl), rw gone (rw sent (ground (arith, same_purpose_self p))))

-- The answers to guesses that have all read the code before any of them was counted.
unfoldable pub guess_at_once :
    ℕ → Purpose → Option StoredCode → List Guess → Db → List (Result StoredCode)
guess_at_once user p read [] d = []
guess_at_once user p read ((e, g) ∷ gs) d =
    let o : Outcome StoredCode = try_code e user p g read d in
    o.answer ∷ guess_at_once user p read gs o.db

-- Guesses that come together are not limited to five: of any number of wrong ones and then one
-- that has the hash, all in time and all with the code read before any was counted, the wrong ones
-- are refused and the last one is accepted.
pub guess_at_once-accepted :
    (user : ℕ) (p : Purpose) (gs : List Guess) (d : Db) (c : StoredCode) (e : Env) (g : ℕ)
    → All (Misses user p c) gs
    → ltb c.expires_at e.now ≡ false
    → has_hash c.hash (e.hash_code user p c.new_email g) ≡ true
    → guess_at_once user p (some c) (gs ++ ((e, g) ∷ [])) d
      ≡ map (λ (x : Guess). err invalid_code) gs ++ (ok c ∷ [])
unfolding guess_at_once try_code
guess_at_once-accepted user p [] d c e g m live right = rw live (rw right refl)
guess_at_once-accepted user p ((f, w) ∷ gs) d c e g ((early, wrong), m) live right = rw early (
    rw wrong (
      ap (λ (as' : List (Result StoredCode)). err invalid_code ∷ as')
        (guess_at_once-accepted user p gs (count_guess user p d) c e g m live right)))
