-- ===== src/Auth/Rows.antt =====
-- internal/auth: what holds of the rows of users, refresh_tokens and user_identities together.
use chirpy.Prelude.{
  ℕ, ◌≡◌, refl, sym, ◌∙◌, Bool, true, false, Option, none, some, List, [], ◌∷◌, ◌++◌, ◌==◌, map,
  All, arith, Bool-cases, inl, inr, subst, not, ◌&&◌,
}
use chirpy.Auth.Model.{Account, Identity, RefreshToken, Db, by_email, by_id}
use chirpy.Auth.Sessions.{live_token}
use chirpy.Auth.Google.{owner_of}

abbrev pub verified_of : Option Account → Bool
verified_of none = false
verified_of (some u) = u.verified

-- The account with the id is there and has a verified address.
abbrev pub is_verified : ℕ → List Account → Bool
is_verified id us = verified_of (by_id id us)

-- No two accounts have an id or an address in common; refresh tokens and Google identities belong
-- to accounts with a verified address.
pub record Sound (d : Db) : Type 0 where
  pub ids : All (λ (u : Account). by_id u.id d.accounts ≡ some u) d.accounts
  pub emails : All (λ (u : Account). by_email u.email d.accounts ≡ some u) d.accounts
  pub held : All (λ (k : RefreshToken). is_verified k.holder d.accounts ≡ true) d.tokens
  pub owned : All (λ (i : Identity). is_verified i.owner d.accounts ≡ true) d.identities

-- A property of the row that a search returns.
pub by_email-All :
    (P : Account → Type 0) (email : ℕ) (us : List Account) {u : Account}
    → All P us
    → by_email email us ≡ some u
    → P u
by_email-All P email [] a h = absurd (cc)
by_email-All P email (x ∷ us) {u} a h = elim (Bool-cases (x.email == email)) [
  | inl e ↦ subst P (ground arith) a.0
  | inr e ↦ by_email-All P email us a.1 (sym (rw e refl) ∙ h)
]

pub owner_of-All :
    (P : ℕ → Type 0) (subject : ℕ) (is : List Identity) {owner : ℕ}
    → All (λ (i : Identity). P i.owner) is
    → owner_of subject is ≡ some owner
    → P owner
owner_of-All P subject [] a h = absurd (cc)
owner_of-All P subject (i ∷ is) {owner} a h = elim (Bool-cases (i.subject == subject)) [
  | inl e ↦ subst P (ground arith) a.0
  | inr e ↦ owner_of-All P subject is a.1 (sym (rw e refl) ∙ h)
]

pub live_token-All :
    (P : ℕ → Type 0) (token : ℕ) (ks : List RefreshToken) {k : RefreshToken}
    → All (λ (x : RefreshToken). P x.holder) ks
    → live_token token ks ≡ some k
    → P k.holder
live_token-All P token [] a h = absurd (cc)
live_token-All P token (x ∷ ks) {k} a h = elim (Bool-cases ((x.token == token) && not x.revoked)) [
  | inl e ↦ subst (λ (y : RefreshToken). P y.holder) {x = x} {y = k} (ground arith) a.0
  | inr e ↦ live_token-All P token ks a.1 (sym (rw e refl) ∙ h)
]

pub by_id-id : (id : ℕ) (us : List Account) (u : Account) → by_id id us ≡ some u → u.id ≡ id
by_id-id id [] u h = absurd (cc)
by_id-id id (x ∷ us) u h = ground (arith, by_id-id id us u)

pub All-map :
    {A B : Type 0} (P : A → Type 0) (Q : B → Type 0) (g : A → B) (xs : List A)
    → ((x : A) → P x → Q (g x))
    → All P xs
    → All Q (map g xs)
All-map P Q g [] h a = tt
All-map P Q g (x ∷ xs) h a = (h x a.0, All-map P Q g xs h a.1)

pub All-imp :
    {A : Type 0} (P Q : A → Type 0) (xs : List A) → ((x : A) → P x → Q x) → All P xs → All Q xs
All-imp P Q [] h a = tt
All-imp P Q (x ∷ xs) h a = (h x a.0, All-imp P Q xs h a.1)

pub All-append :
    {A : Type 0} (P : A → Type 0) (xs ys : List A) → All P xs → All P ys → All P (xs ++ ys)
All-append P [] ys a b = b
All-append P (x ∷ xs) ys a b = (a.0, All-append P xs ys a.1 b)

-- A change of the accounts that keeps ids, and verified addresses.
module _ (g : Account → Account) (same : (x : Account) → (g x).id ≡ x.id) where
  pub by_id-map :
      (id : ℕ) (us : List Account) (u : Account)
      → by_id id us ≡ some u
      → by_id id (map g us) ≡ some (g u)
  by_id-map id [] u h = absurd (cc)
  by_id-map id (x ∷ us) u h = ground (arith, same x, by_id-map id us u)

  pub is_verified-map :
      (id : ℕ) (us : List Account)
      → ((x : Account) → x.verified ≡ true → (g x).verified ≡ true)
      → is_verified id us ≡ true
      → is_verified id (map g us) ≡ true
  is_verified-map id [] keeps h = absurd (cc)
  is_verified-map id (x ∷ us) keeps h = ground (arith, same x, keeps x, is_verified-map id us keeps)

  pub by_email-map :
      (email : ℕ) (us : List Account) (u : Account)
      → ((x : Account) → (g x).email ≡ x.email)
      → by_email email us ≡ some u
      → by_email email (map g us) ≡ some (g u)
  by_email-map email [] u kept h = absurd (cc)
  by_email-map email (x ∷ us) u kept h = ground (arith, kept x, by_email-map email us u kept)
