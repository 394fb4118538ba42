-- ===== src/Auth/Rotation.antt =====
-- Refresh tokens: each is used once, unless two uses come together.
use chirpy.Prelude.{ℕ, ◌≡◌, refl, ap, ◌∙◌, false, none, some, ltb}
use chirpy.Auth.Model.{Account, RefreshToken, Db, ok, Env, by_id}
use chirpy.Auth.Sessions.{Session, store_token, issue, live_token, revoke_token, rotate, refresh}

pub not_rotated :
    (e : Env) (token : ℕ) (d : Db) {s : Session} → (rotate e token none d).answer ≡ ok s → ⊥
unfolding rotate
not_rotated e token d h = cc

pub issued :
    (e : Env) (id : ℕ) (d : Db) (u : Account)
    → by_id id d.accounts ≡ some u
    → u.banned ≡ false
    → ((issue e id d).answer ≡ ok (record { user = id; refresh = e.fresh_token }))
      × ((issue e id d).db.accounts ≡ d.accounts)
unfolding issue store_token
issued e id d u h free = (rw h (rw free refl), rw h (rw free refl))

rotated :
    (e : Env) (token : ℕ) (d : Db) (k : RefreshToken) (u : Account)
    → ltb k.expires_at e.now ≡ false
    → by_id k.holder d.accounts ≡ some u
    → u.banned ≡ false
    → ((rotate e token (some k) d).answer
        ≡ ok (record { user = k.holder; refresh = e.fresh_token }))
      × ((rotate e token (some k) d).db.accounts ≡ d.accounts)
unfolding rotate revoke_token
rotated e token d k u early here free =
    let (a, b) = issued e k.holder (revoke_token token d) u here free in
    (rw early (rw a refl), rw early b)

-- Two requests that both read a refresh token before either has revoked it: each gets a session,
-- if the token is live and not expired for either, and its account is there and not suspended.
pub rotate-twice :
    (e f : Env) (token : ℕ) (d : Db) (k : RefreshToken) (u : Account)
    → live_token token d.tokens ≡ some k
    → ltb k.expires_at e.now ≡ false
    → ltb k.expires_at f.now ≡ false
    → by_id k.holder d.accounts ≡ some u
    → u.banned ≡ false
    → ((rotate e token (live_token token d.tokens) d).answer
        ≡ ok (record { user = k.holder; refresh = e.fresh_token }))
      × ((rotate f token
            (live_token token d.tokens)
            (rotate e token (live_token token d.tokens) d).db).answer
          ≡ ok (record { user = k.holder; refresh = f.fresh_token }))
rotate-twice e f token d k u live early late here free = rw live (
  (rotated e token d k u early here free).0,
  (rotated f token (rotate e token (some k) d).db k u late
      (ap (by_id k.holder) (rotated e token d k u early here free).1 ∙ here) free).0,
)
