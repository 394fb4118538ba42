-- ===== src/Auth/Sessions.antt =====
-- internal/auth/auth_service.go: issue, Login, Refresh and Revoke, with the queries on refresh_tokens.
use chirpy.Prelude.{
  ℕ, ◌+◌, true, false, not, ◌&&◌, Option, none, some, List, [], ◌∷◌, if◌then◌else◌, ltb, ◌==◌, map,
}
use chirpy.Auth.Model.{
  RefreshToken, Db, M, ◌>>=◌, done, fails, require, write, Env, by_email, by_id, found,
  not_authorized, account_suspended, invalid_credentials, email_not_verified,
}

-- The account, and the refresh token. The access token is a JWT.
pub record Session : Type 0 where
  pub user : ℕ
  pub refresh : ℕ

-- CreateARefreshToken.
unfoldable pub store_token : Env → ℕ → Db → Db
store_token e user d = record d {
  tokens =
      record {
        token = e.fresh_token;
        holder = user;
        expires_at = e.now + e.refresh_ttl;
        revoked = false;
      }
      ∷ d.tokens;
}

-- Every session is made here: a suspended account gets none.
unfoldable pub issue : Env → ℕ → M Session
unfolding store_token
issue e user d =
    (found (by_id user d.accounts) not_authorized >>= λ u.
    require (not u.banned) account_suspended >>= λ allowed.
    write (store_token e user) >>= λ stored. done (record { user = user; refresh = e.fresh_token }))
      d

abbrev pub password_of : Option ℕ → M ℕ
password_of none = fails invalid_credentials
password_of (some h) = done h

unfoldable pub login : Env → ℕ → ℕ → M Session
unfolding issue
login e email password d =
    (do
      u ← found (by_email email d.accounts) invalid_credentials
      hash ← password_of u.password
      matched ← require (e.check_password password hash) invalid_credentials
      checked ← require u.verified email_not_verified
      issue e u.id)
      d

-- GetRefreshToken: one that is not revoked.
abbrev pub live_token : ℕ → List RefreshToken → Option RefreshToken
live_token token [] = none
live_token token (k ∷ ks) =
    if (k.token == token) && not k.revoked then some k else live_token token ks

-- RevokeRefreshToken.
unfoldable pub revoke_token : ℕ → Db → Db
revoke_token token d = record d {
  tokens =
      map (λ (k : RefreshToken). if k.token == token then record k { revoked = true } else k)
        d.tokens;
}

-- RevokeAllUserRefreshTokens.
unfoldable pub revoke_all : ℕ → Db → Db
revoke_all user d = record d {
  tokens =
      map (λ (k : RefreshToken). if k.holder == user then record k { revoked = true } else k)
        d.tokens;
}

-- What follows once the token is read.
unfoldable pub rotate : Env → ℕ → Option RefreshToken → M Session
unfolding issue revoke_token
rotate e token none = fails not_authorized
rotate e token (some k) = require (not (ltb k.expires_at e.now)) not_authorized >>= λ fresh.
    write (revoke_token token) >>= λ revoked. issue e k.holder

unfoldable pub refresh : Env → ℕ → M Session
unfolding rotate
refresh e token d = rotate e token (live_token token d.tokens) d
