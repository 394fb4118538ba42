-- ===== src/Auth/Writes.antt =====
-- internal/auth: the writes keep the rows sound.
use chirpy.Prelude.{
  ℕ, ◌≡◌, refl, ap, ◌∙◌, true, false, some, List, [], ◌∷◌, ◌++◌, if◌then◌else◌, ◌==◌, map, arith,
  Bool-cases, inl, inr,
}
use chirpy.Auth.Model.{
  Account, StoredCode, Identity, RefreshToken, Db, by_email, by_id, change_account, Env,
}
use chirpy.Auth.Sessions.{store_token, revoke_token, revoke_all}
use chirpy.Auth.Accounts.{has_account}
use chirpy.Auth.Google.{link_identity}
use chirpy.Auth.Rows.{
  Sound, is_verified, All-map, All-imp, All-append, by_id-map, by_email-map, is_verified-map,
}

pub recoded : (d : Db) (cs : List StoredCode) → Sound d → Sound (record d { codes = cs })
recoded d cs s = record { ids = s.ids; emails = s.emails; held = s.held; owned = s.owned }

pub change_account-Sound :
    (id : ℕ) (f : Account → Account) (d : Db)
    → ((x : Account) → (f x).id ≡ x.id)
    → ((x : Account) → (f x).email ≡ x.email)
    → ((x : Account) → x.verified ≡ true → (f x).verified ≡ true)
    → Sound d
    → Sound (change_account id f d)
change_account-Sound id f d same kept keeps s = record {
  ids =
      All-map (λ (u : Account). by_id u.id d.accounts ≡ some u) _ g d.accounts
        (λ x h.
          ap (λ n. by_id n (map g d.accounts)) (same' x) ∙ by_id-map g same' x.id d.accounts x h)
        s.ids;
  emails =
      All-map (λ (u : Account). by_email u.email d.accounts ≡ some u) _ g d.accounts
        (λ x h.
          ap (λ n. by_email n (map g d.accounts)) (kept' x)
          ∙ by_email-map g same' x.email d.accounts x kept' h)
        s.emails;
  held =
      All-imp (λ (k : RefreshToken). is_verified k.holder d.accounts ≡ true) _ d.tokens
        (λ k h. is_verified-map g same' k.holder d.accounts keeps' h) s.held;
  owned =
      All-imp (λ (i : Identity). is_verified i.owner d.accounts ≡ true) _ d.identities
        (λ i h. is_verified-map g same' i.owner d.accounts keeps' h) s.owned;
}
  where
    g : Account → Account
    g u = if u.id == id then f u else u

    same' : (x : Account) → (g x).id ≡ x.id
    same' x = elim (Bool-cases (x.id == id)) [ inl e ↦ rw e (same x) | inr e ↦ rw e refl ]

    kept' : (x : Account) → (g x).email ≡ x.email
    kept' x = elim (Bool-cases (x.id == id)) [ inl e ↦ rw e (kept x) | inr e ↦ rw e refl ]

    keeps' : (x : Account) → x.verified ≡ true → (g x).verified ≡ true
    keeps' x h = elim (Bool-cases (x.id == id)) [ inl e ↦ rw e (keeps x h) | inr e ↦ rw e h ]

pub store_token-Sound :
    (e : Env) (user : ℕ) (d : Db)
    → is_verified user d.accounts ≡ true
    → Sound d
    → Sound (store_token e user d)
unfolding store_token
store_token-Sound e user d v s = record {
  ids = s.ids;
  emails = s.emails;
  held = (v, s.held);
  owned = s.owned;
}

pub link_identity-Sound :
    (subject owner : ℕ) (d : Db)
    → is_verified owner d.accounts ≡ true
    → Sound d
    → Sound (link_identity subject owner d)
link_identity-Sound subject owner d v s = record {
  ids = s.ids;
  emails = s.emails;
  held = s.held;
  owned = (v, s.owned);
}

pub revoke_all-Sound : (user : ℕ) (d : Db) → Sound d → Sound (revoke_all user d)
unfolding revoke_all
revoke_all-Sound user d s = record {
  ids = s.ids;
  emails = s.emails;
  held =
      All-map (λ (k : RefreshToken). is_verified k.holder d.accounts ≡ true) _ _ d.tokens
        (λ k h. ground arith) s.held;
  owned = s.owned;
}

pub revoke_token-Sound : (token : ℕ) (d : Db) → Sound d → Sound (revoke_token token d)
unfolding revoke_token
revoke_token-Sound token d s = record {
  ids = s.ids;
  emails = s.emails;
  held =
      All-map (λ (k : RefreshToken). is_verified k.holder d.accounts ≡ true) _ _ d.tokens
        (λ k h. ground arith) s.held;
  owned = s.owned;
}

by_id-append :
    (id : ℕ) (us : List Account) (n u : Account)
    → by_id id us ≡ some u
    → by_id id (us ++ (n ∷ [])) ≡ some u
by_id-append id [] n u h = absurd (cc)
by_id-append id (x ∷ us) n u h = ground (arith, by_id-append id us n u)

by_email-append :
    (email : ℕ) (us : List Account) (n u : Account)
    → by_email email us ≡ some u
    → by_email email (us ++ (n ∷ [])) ≡ some u
by_email-append email [] n u h = absurd (cc)
by_email-append email (x ∷ us) n u h = ground (arith, by_email-append email us n u)

pub by_id-new :
    (us : List Account) (n : Account)
    → has_account (by_id n.id us) ≡ false
    → by_id n.id (us ++ (n ∷ [])) ≡ some n
by_id-new [] n h = ground arith
by_id-new (x ∷ us) n h = ground (arith, by_id-new us n)

by_email-new :
    (us : List Account) (n : Account)
    → has_account (by_email n.email us) ≡ false
    → by_email n.email (us ++ (n ∷ [])) ≡ some n
by_email-new [] n h = ground arith
by_email-new (x ∷ us) n h = ground (arith, by_email-new us n)

is_verified-append :
    (id : ℕ) (us : List Account) (n : Account)
    → is_verified id us ≡ true
    → is_verified id (us ++ (n ∷ [])) ≡ true
is_verified-append id [] n h = absurd (cc)
is_verified-append id (x ∷ us) n h = ground (arith, is_verified-append id us n)

abbrev pub added : Account → Db → Db
added n d = record d { accounts = d.accounts ++ (n ∷ []) }

pub added-Sound :
    (n : Account) (d : Db)
    → has_account (by_id n.id d.accounts) ≡ false
    → has_account (by_email n.email d.accounts) ≡ false
    → Sound d
    → Sound (added n d)
added-Sound n d free_id free_email s = record {
  ids =
      All-append (λ (u : Account). by_id u.id (d.accounts ++ (n ∷ [])) ≡ some u) d.accounts _
        (All-imp (λ (u : Account). by_id u.id d.accounts ≡ some u) _ d.accounts
          (λ u h. by_id-append u.id d.accounts n u h) s.ids)
        (by_id-new d.accounts n free_id, tt);
  emails =
      All-append (λ (u : Account). by_email u.email (d.accounts ++ (n ∷ [])) ≡ some u) d.accounts _
        (All-imp (λ (u : Account). by_email u.email d.accounts ≡ some u) _ d.accounts
          (λ u h. by_email-append u.email d.accounts n u h) s.emails)
        (by_email-new d.accounts n free_email, tt);
  held =
      All-imp (λ (k : RefreshToken). is_verified k.holder d.accounts ≡ true) _ d.tokens
        (λ k h. is_verified-append k.holder d.accounts n h) s.held;
  owned =
      All-imp (λ (i : Identity). is_verified i.owner d.accounts ≡ true) _ d.identities
        (λ i h. is_verified-append i.owner d.accounts n h) s.owned;
}
