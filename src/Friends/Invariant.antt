-- ===== src/Friends/Invariant.antt =====
-- The invariant of user_relationships and user_blocks, under the writes of sql/queries/friends.sql.
use chirpy.Prelude.{
  ℕ, min, max, ◌≡◌, ◌≢◌, ◌⊎◌, inl, inr, Bool, true, false, not, none, List, [], ◌∷◌, ◌++◌, arith,
  if◌then◌else◌, keep, map, Option-cases,
}
use chirpy.Friends.Rows.{
  Rel, Db, BlockRow, written, same_pair, first_row, pair_row, confirm, has_block, blocks_pair,
  delete_rows, create_friend_request, accept_friend_request, deny_friend_request,
  cancel_friend_request, unfriend_row, block_user, unblock_user, pending_to, pending_from,
  confirmed_pair, is_row,
}
use chirpy.Friends.Pairs.{
  Distinct, pair_row-keep, Distinct-keep, pair_row-map, Distinct-map, pair_row-append,
  Distinct-append, pair_row_deleted,
}

-- A pair has one row at most, nobody has one with themselves, and there is none across a block.
pub record Sound (db : Db) : Type 0 where
  pub distinct : Distinct db.rels
  pub no_self : (a : ℕ) → pair_row a a db.rels ≡ none
  pub apart : (a b : ℕ) → has_block a b db.blocks ≡ true → pair_row a b db.rels ≡ none

pub delete_rows-Sound : (test : Rel → Bool) (db : Db) → Sound db → Sound (delete_rows test db)
delete_rows-Sound test db h = record {
  distinct = Distinct-keep test db.rels h.distinct;
  no_self = λ a. ground (arith, pair_row-keep a a test db.rels h.distinct, h.no_self a);
  apart = λ a b e. ground (arith, pair_row-keep a b test db.rels h.distinct, h.apart a b);
}

pub confirm-Sound :
    (test : Rel → Bool) (db : Db)
    → Sound db
    → Sound (record db { rels = map (confirm test) db.rels })
confirm-Sound test db h = record {
  distinct = Distinct-map test db.rels h.distinct;
  no_self = λ a. ground (arith, pair_row-map a a test db.rels, h.no_self a);
  apart = λ a b e. ground (arith, pair_row-map a b test db.rels, h.apart a b);
}

pub accept_friend_request-Sound :
    (db : Db) (id me : ℕ) → Sound db → Sound (accept_friend_request db id me).1
unfolding accept_friend_request
accept_friend_request-Sound db id me h =
    elim (Option-cases (first_row (pending_to id me) db.rels)) [
      | inl e ↦ rw (e, accept_friend_request) h
      | inr (r, e) ↦ rw (e, accept_friend_request) (confirm-Sound (pending_to id me) db h)
    ]

pub deny_friend_request-Sound :
    (db : Db) (id me : ℕ) → Sound db → Sound (deny_friend_request db id me).1
unfolding deny_friend_request
deny_friend_request-Sound db id me h = elim (Option-cases (first_row (pending_to id me) db.rels)) [
  | inl e ↦ rw (e, deny_friend_request) h
  | inr (r, e) ↦ rw (e, deny_friend_request) (delete_rows-Sound (pending_to id me) db h)
]

pub cancel_friend_request-Sound :
    (db : Db) (id me : ℕ) → Sound db → Sound (cancel_friend_request db id me).1
unfolding cancel_friend_request
cancel_friend_request-Sound db id me h =
    elim (Option-cases (first_row (pending_from id me) db.rels)) [
      | inl e ↦ rw (e, cancel_friend_request) h
      | inr (r, e) ↦ rw (e, cancel_friend_request) (delete_rows-Sound (pending_from id me) db h)
    ]

pub unfriend_row-Sound : (db : Db) (a b : ℕ) → Sound db → Sound (unfriend_row db a b).1
unfolding unfriend_row
unfriend_row-Sound db a b h = elim (Option-cases (first_row (confirmed_pair a b) db.rels)) [
  | inl e ↦ rw (e, unfriend_row) h
  | inr (r, e) ↦ rw (e, unfriend_row) (delete_rows-Sound (confirmed_pair a b) db h)
]

-- What is there after the row of a request went in.
pub create_friend_request_lem :
    (db after : Db) (id from to : ℕ)
    → create_friend_request db id from to ≡ written after
    → (from ≢ to)
      × (db.exists to ≡ true)
      × (pair_row from to db.rels ≡ none)
      × (after ≡ record db {
        rels =
            db.rels ++ (record { id = id; user_id = from; other_id = to; confirmed = false } ∷ []);
      })
unfolding create_friend_request
create_friend_request_lem db after id from to e =
    (ground arith, ground arith, ground arith, ground arith)

has_block_pair :
    (a b c d : ℕ) (blocks : List BlockRow)
    → has_block c d blocks ≡ false
    → has_block d c blocks ≡ false
    → min c d ≡ min a b
    → max c d ≡ max a b
    → has_block a b blocks ≡ false
has_block_pair a b c d blocks f g e k =
    let same : ((a ≡ c) × (b ≡ d)) ⊎ ((a ≡ d) × (b ≡ c)) = omega arith in
    elim same [ inl p ↦ rw (p.0, p.1) f | inr p ↦ rw (p.0, p.1) g ]

pub create_friend_request-Sound :
    (db after : Db) (id from to : ℕ)
    → Sound db
    → has_block from to db.blocks ≡ false
    → has_block to from db.blocks ≡ false
    → create_friend_request db id from to ≡ written after
    → Sound after
create_friend_request-Sound db after id from to h f g e =
    let (ne, ex, n, is) = create_friend_request_lem db after id from to e in
    let x : Rel = record { id = id; user_id = from; other_id = to; confirmed = false } in
    rw is record {
      distinct = Distinct-append x db.rels h.distinct n;
      no_self = λ a. ground (arith, pair_row-append a a x db.rels, h.no_self a);
      apart = λ a b p. ground (
        arith,
        pair_row-append a b x db.rels,
        h.apart a b p,
        has_block_pair a b from to db.blocks f g,
      );
    }

has_block-keep :
    (a b c d : ℕ) (blocks : List BlockRow)
    → has_block a b (keep (λ r. not (blocks_pair c d r)) blocks) ≡ true
    → has_block a b blocks ≡ true
has_block-keep a b c d [] e = e
has_block-keep a b c d (r ∷ blocks) e = ground (arith, has_block-keep a b c d blocks)

pub unblock_user-Sound : (db : Db) (a b : ℕ) → Sound db → Sound (unblock_user db a b)
unfolding unblock_user
unblock_user-Sound db a b h = record {
  distinct = h.distinct;
  no_self = h.no_self;
  apart = λ c d e. h.apart c d (has_block-keep c d a b db.blocks e);
}

-- What is there after a block.
pub block_user_lem :
    (db after : Db) (a b now : ℕ) (were : Bool)
    → block_user db a b now ≡ written (were, after)
    → (a ≢ b)
      × (were ≡ is_row (first_row (confirmed_pair a b) db.rels))
      × (after ≡ record (delete_rows (same_pair a b) db) {
        blocks =
            if has_block a b db.blocks
            then db.blocks
            else record { blocker_id = a; blocked_id = b; created_at = now } ∷ db.blocks;
      })
unfolding block_user
block_user_lem db after a b now were e = (ground arith, ground arith, ground arith)

has_block-add :
    (a b c d now : ℕ) (blocks : List BlockRow)
    → has_block a b (
        if has_block c d blocks
        then blocks
        else record { blocker_id = c; blocked_id = d; created_at = now } ∷ blocks)
      ≡ true
    → ((a ≡ c) × (b ≡ d)) ⊎ (has_block a b blocks ≡ true)
has_block-add a b c d now blocks e = ground arith

pub block_user-Sound :
    (db after : Db) (a b now : ℕ) (were : Bool)
    → Sound db
    → block_user db a b now ≡ written (were, after)
    → Sound after
block_user-Sound db after a b now were h e =
    let (ne, w, is) = block_user_lem db after a b now were e in
    let k = delete_rows-Sound (same_pair a b) db h in
    rw is record {
      distinct = k.distinct;
      no_self = k.no_self;
      apart = λ c d p. elim (has_block-add c d a b now db.blocks p) [
        | inr q ↦ k.apart c d q
        | inl q ↦ rw (q.0, q.1) (pair_row_deleted a b db.rels h.distinct)
      ];
    }
