-- ===== src/Friends/Rows.antt =====
-- The tables user_relationships and user_blocks, their constraints, and the queries of
-- sql/queries/friends.sql. Names and avatars, which the lists join in, are left out.
use chirpy.Prelude.{
  ℕ, min, max, Bool, true, false, not, ◌&&◌, ◌||◌, Option, none, some, List, [], ◌∷◌, ◌++◌,
  if◌then◌else◌, ◌==◌, keep, map,
}

-- A row of user_relationships: pending, or confirmed.
pub record Rel : Type 0 where
  pub id : ℕ
  pub user_id : ℕ
  pub other_id : ℕ
  pub confirmed : Bool

pub record BlockRow : Type 0 where
  pub blocker_id : ℕ
  pub blocked_id : ℕ
  pub created_at : ℕ

-- `exists` is the table of users, which the foreign keys refer to.
pub record Db : Type 0 where
  pub rels : List Rel
  pub blocks : List BlockRow
  pub exists : ℕ → Bool

-- What Postgres refuses a row for: the codes 23514, 23505 and 23503.
pub data Violation : Type 0 where
  check_violation : Violation
  unique_violation : Violation
  foreign_key_violation : Violation

pub data Written (A : Type 0) : Type 0 where
  written : A → Written A
  violates : Violation → Written A

-- The key of the index user_relationships_pair_key.
abbrev pub same_pair : ℕ → ℕ → Rel → Bool
same_pair a b r = (min r.user_id r.other_id == min a b) && (max r.user_id r.other_id == max a b)

-- The first row that a WHERE clause selects.
abbrev pub first_row : (Rel → Bool) → List Rel → Option Rel
first_row test [] = none
first_row test (r ∷ rels) = if test r then some r else first_row test rels

-- PairStatus, with the row.
abbrev pub pair_row : ℕ → ℕ → List Rel → Option Rel
pair_row a b rels = first_row (same_pair a b) rels

abbrev pub is_row : Option Rel → Bool
is_row none = false
is_row (some r) = true

-- CreateFriendRequest. The check is made before the row goes in, the foreign keys after.
unfoldable pub create_friend_request : Db → ℕ → ℕ → ℕ → Written Db
create_friend_request db id from to =
    if from == to
    then violates check_violation
    else if is_row (first_row (λ r. r.id == id) db.rels) || is_row (pair_row from to db.rels)
    then violates unique_violation
    else if not (db.exists from) || not (db.exists to)
    then violates foreign_key_violation
    else written (record db {
      rels = db.rels ++ (record { id = id; user_id = from; other_id = to; confirmed = false } ∷ []);
    })

-- The WHERE clauses of AcceptFriendRequest and DenyFriendRequest, and of CancelFriendRequest.
abbrev pub pending_to : ℕ → ℕ → Rel → Bool
pending_to id me r = (r.id == id) && ((r.other_id == me) && not r.confirmed)

abbrev pub pending_from : ℕ → ℕ → Rel → Bool
pending_from id me r = (r.id == id) && ((r.user_id == me) && not r.confirmed)

abbrev pub confirm : (Rel → Bool) → Rel → Rel
confirm test r = if test r then record r { confirmed = true } else r

unfoldable pub accept_friend_request : Db → ℕ → ℕ → Option ℕ × Db
accept_friend_request db id me = elim (first_row (pending_to id me) db.rels) [
  | none ↦ (none, db)
  | some r ↦ (some r.user_id, record db { rels = map (confirm (pending_to id me)) db.rels })
]

abbrev pub delete_rows : (Rel → Bool) → Db → Db
delete_rows test db = record db { rels = keep (λ r. not (test r)) db.rels }

unfoldable pub deny_friend_request : Db → ℕ → ℕ → Option ℕ × Db
deny_friend_request db id me = elim (first_row (pending_to id me) db.rels) [
  | none ↦ (none, db)
  | some r ↦ (some r.user_id, delete_rows (pending_to id me) db)
]

unfoldable pub cancel_friend_request : Db → ℕ → ℕ → Option ℕ × Db
cancel_friend_request db id me = elim (first_row (pending_from id me) db.rels) [
  | none ↦ (none, db)
  | some r ↦ (some r.other_id, delete_rows (pending_from id me) db)
]

abbrev pub confirmed_pair : ℕ → ℕ → Rel → Bool
confirmed_pair a b r = r.confirmed && same_pair a b r

-- Unfriend: the id of the row that is gone, if there was one.
unfoldable pub unfriend_row : Db → ℕ → ℕ → Option ℕ × Db
unfriend_row db a b = elim (first_row (confirmed_pair a b) db.rels) [
  | none ↦ (none, db)
  | some r ↦ (some r.id, delete_rows (confirmed_pair a b) db)
]

abbrev pub blocks_pair : ℕ → ℕ → BlockRow → Bool
blocks_pair a b r = (r.blocker_id == a) && (r.blocked_id == b)

-- Did `a` block `b`?
abbrev pub has_block : ℕ → ℕ → List BlockRow → Bool
has_block a b [] = false
has_block a b (r ∷ blocks) = blocks_pair a b r || has_block a b blocks

-- BlockUser: whether the two were friends.
unfoldable pub block_user : Db → ℕ → ℕ → ℕ → Written (Bool × Db)
block_user db blocker blocked at =
    if blocker == blocked
    then violates check_violation
    else if not (db.exists blocker) || not (db.exists blocked)
    then violates foreign_key_violation
    else let row : BlockRow = record {
      blocker_id = blocker;
      blocked_id = blocked;
      created_at = at;
    } in
      let blocks = if has_block blocker blocked db.blocks then db.blocks else row ∷ db.blocks in
      written (
        is_row (first_row (confirmed_pair blocker blocked) db.rels),
        record (delete_rows (same_pair blocker blocked) db) { blocks = blocks },
      )

unfoldable pub unblock_user : Db → ℕ → ℕ → Db
unblock_user db a b = record db { blocks = keep (λ r. not (blocks_pair a b r)) db.blocks }

-- BlockBetween.
abbrev pub block_between : Db → ℕ → ℕ → Bool × Bool
block_between db a b = (has_block a b db.blocks, has_block b a db.blocks)

-- ListFriends: the other side of each confirmed row.
unfoldable pub list_friends : ℕ → List Rel → List ℕ
list_friends me [] = []
list_friends me (r ∷ rels) =
    if (r.user_id == me) && r.confirmed
    then r.other_id ∷ list_friends me rels
    else if (r.other_id == me) && r.confirmed
    then r.user_id ∷ list_friends me rels
    else list_friends me rels

-- ListIncomingFriendRequests and ListOutgoingFriendRequests: the other side of each pending row.
unfoldable pub list_incoming : ℕ → List Rel → List ℕ
list_incoming me [] = []
list_incoming me (r ∷ rels) =
    if (r.other_id == me) && not r.confirmed
    then r.user_id ∷ list_incoming me rels
    else list_incoming me rels

unfoldable pub list_outgoing : ℕ → List Rel → List ℕ
list_outgoing me [] = []
list_outgoing me (r ∷ rels) =
    if (r.user_id == me) && not r.confirmed
    then r.other_id ∷ list_outgoing me rels
    else list_outgoing me rels
