-- ===== src/Auth/Address.antt =====
-- internal/auth: a change of the address keeps the rows sound.
use chirpy.Prelude.{
  ℕ, ◌≡◌, ◌≢◌, ap, ◌∙◌, true, false, some, List, [], ◌∷◌, if◌then◌else◌, ◌==◌, map, All, arith,
  Bool-cases, inl, inr,
}
use chirpy.Auth.Model.{Account, Identity, RefreshToken, Db, by_email, by_id, change_account}
use chirpy.Auth.Change.{is_other}
use chirpy.Auth.Rows.{Sound, is_verified, All-map, All-imp, by_id-map, is_verified-map}

abbrev moved_to : ℕ → Account → Account
moved_to email u = record u { email = email; verified = true }

module _ (id email : ℕ) where
  abbrev moved : Account → Account
  moved u = if u.id == id then moved_to email u else u

  moved_id : (x : Account) → (moved x).id ≡ x.id
  moved_id x = ground arith

  by_email-stays :
      (k : ℕ) (us : List Account) (u : Account)
      → by_email k us ≡ some u
      → (u.id == id) ≡ false
      → k ≢ email
      → by_email k (map moved us) ≡ some u
  by_email-stays k [] u h other new = absurd (cc)
  by_email-stays k (x ∷ us) u h other new = ground (arith, by_email-stays k us u)

  by_email-moved :
      (us : List Account) (u : Account)
      → by_id id us ≡ some u
      → is_other id (by_email email us) ≡ false
      → by_email email (map moved us) ≡ some (moved_to email u)
  by_email-moved [] u h free = absurd (cc)
  by_email-moved (x ∷ us) u h free = ground (arith, by_email-moved us u)

  pub change_address-Sound :
      (d : Db)
      → is_other id (by_email email d.accounts) ≡ false
      → Sound d
      → Sound (change_account id (λ u. record u { email = email; verified = true }) d)
  change_address-Sound d free s = record {
    ids =
        All-map (λ (u : Account). by_id u.id d.accounts ≡ some u) _ moved d.accounts
          (λ x h.
            ap (λ n. by_id n (map moved d.accounts)) (moved_id x)
            ∙ by_id-map moved moved_id x.id d.accounts x h)
          s.ids;
    emails =
        All-map
          (λ (u : Account).
            (by_id u.id d.accounts ≡ some u) × (by_email u.email d.accounts ≡ some u))
          _ moved d.accounts here (both d.accounts s.ids s.emails);
    held =
        All-imp (λ (k : RefreshToken). is_verified k.holder d.accounts ≡ true) _ d.tokens
          (λ k h. is_verified-map moved moved_id k.holder d.accounts (λ x v. ground arith) h)
          s.held;
    owned =
        All-imp (λ (i : Identity). is_verified i.owner d.accounts ≡ true) _ d.identities
          (λ i h. is_verified-map moved moved_id i.owner d.accounts (λ x v. ground arith) h)
          s.owned;
  }
    where
      both :
          (us : List Account)
          → All (λ (u : Account). by_id u.id d.accounts ≡ some u) us
          → All (λ (u : Account). by_email u.email d.accounts ≡ some u) us
          → All
              (λ (u : Account).
                (by_id u.id d.accounts ≡ some u) × (by_email u.email d.accounts ≡ some u))
              us
      both [] a b = tt
      both (x ∷ us) a b = ((a.0, b.0), both us a.1 b.1)

      here :
          (x : Account)
          → (by_id x.id d.accounts ≡ some x) × (by_email x.email d.accounts ≡ some x)
          → by_email (moved x).email (map moved d.accounts) ≡ some (moved x)
      here x (i, m) = elim (Bool-cases (x.id == id)) [
        | inl e ↦ rw e (by_email-moved d.accounts x (ground arith) free)
        | inr e ↦ rw e (by_email-stays x.email d.accounts x m e (λ same. ground arith))
      ]
