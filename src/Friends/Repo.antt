-- ===== src/Friends/Repo.antt =====
-- internal/friends/repo.go: the queries' outcomes as the package's errors.
use chirpy.Prelude.{ℕ, Bool, Option, none, some, if◌then◌else◌}
use chirpy.Friends.Model.{
  FriendErr, self_request, request_exists, already_friends, request_not_found, unknown_user,
  not_friends, self_block, Answer, done, refused,
}
use chirpy.Friends.Rows.{
  Rel, Db, Violation, check_violation, unique_violation, foreign_key_violation, written, violates,
  pair_row, create_friend_request, accept_friend_request, deny_friend_request,
  cancel_friend_request, unfriend_row, block_user,
}

-- What a violated constraint means to a sender.
abbrev pub create_error : Option Rel → Violation → FriendErr
create_error row check_violation = self_request
create_error row foreign_key_violation = unknown_user
create_error none unique_violation = request_exists
create_error (some r) unique_violation = if r.confirmed then already_friends else request_exists

unfoldable pub create : Db → ℕ → ℕ → ℕ → Answer Db
create db id from to = elim (create_friend_request db id from to) [
  | written after ↦ done after
  | violates v ↦ refused (create_error (pair_row from to db.rels) v)
]

-- `none` is pgx.ErrNoRows.
abbrev pub not_found : FriendErr → Option ℕ × Db → Answer (ℕ × Db)
not_found e (none, db) = refused e
not_found e (some u, db) = done (u, db)

unfoldable pub accept : Db → ℕ → ℕ → Answer (ℕ × Db)
accept db id me = not_found request_not_found (accept_friend_request db id me)

unfoldable pub deny : Db → ℕ → ℕ → Answer (ℕ × Db)
deny db id me = not_found request_not_found (deny_friend_request db id me)

unfoldable pub cancel : Db → ℕ → ℕ → Answer (ℕ × Db)
cancel db id me = not_found request_not_found (cancel_friend_request db id me)

unfoldable pub unfriend : Db → ℕ → ℕ → Answer (ℕ × Db)
unfriend db a b = not_found not_friends (unfriend_row db a b)

-- The service turns a self-block down before it gets here.
unfoldable pub block : Db → ℕ → ℕ → ℕ → Answer (Bool × Db)
block db a b at = elim (block_user db a b at) [
  | written r ↦ done r
  | violates foreign_key_violation ↦ refused unknown_user
  | violates v ↦ refused self_block
]
