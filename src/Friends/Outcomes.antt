-- ===== src/Friends/Outcomes.antt =====
-- What the operations of internal/friends/service.go do to two users' friendship.
use chirpy.Prelude.{
  ℕ, ◌≡◌, ◌≢◌, ◌↔◌, refl, sym, inl, inr, Bool, true, false, none, some, List, [], ◌∷◌, arith,
  if◌then◌else◌, ◌==◌, map, Bool-cases, Option-cases,
}
use chirpy.Friends.Model.{Answer, done, refused, you_blocked}
use chirpy.Friends.Rows.{
  Db, Rel, has_block, first_row, pair_row, pending_to, confirm, confirmed_pair, is_row,
  create_friend_request, accept_friend_request, block_user,
}
use chirpy.Friends.Repo.{create, accept, block}
use chirpy.Friends.Service.{
  Named, named, Effect, forget, push, broke, unfriend_event, send_check, send_create, send,
  accept_request, block_other, are_friends,
}
use chirpy.Friends.Pairs.{
  Distinct, pair_row_comm, pair_row_same, pair_row-map, is_confirmed, contains-list_friends,
}
use chirpy.Friends.Invariant.{Sound, confirm-Sound, block_user-Sound, block_user_lem}
use chirpy.Friends.History.{Written-cases}

abbrev pub is_done {ℓ} : {A : Type ℓ} → Answer A → Bool
is_done (done a) = true
is_done (refused e) = false

-- The row of a request that goes in.
abbrev pub new_row : ℕ → ℕ → ℕ → Rel
new_row id from to = record { id = id; user_id = from; other_id = to; confirmed = false }

-- With a new id, a send succeeds exactly when the users differ, the name is known, neither blocks
-- the other, they have no row together, and both accounts exist.
pub send_ok :
    (names : ℕ → Named) (alerts : Bool) (db : Db) (id from to : ℕ)
    → first_row (λ r. r.id == id) db.rels ≡ none
    → (is_done (send names alerts db id from to) ≡ true) ↔ (
        (from ≢ to)
        × (names to ≡ named)
        × (has_block from to db.blocks ≡ false)
        × (has_block to from db.blocks ≡ false)
        × (pair_row from to db.rels ≡ none)
        × (db.exists from ≡ true)
        × (db.exists to ≡ true))
unfolding send send_check send_create create create_friend_request
send_ok names alerts db id from to fresh = ground arith

are_friends-row :
    (db : Db) (a b : ℕ) → Sound db → are_friends db a b ≡ is_confirmed (pair_row a b db.rels)
unfolding are_friends
are_friends-row db a b h = contains-list_friends a b db.rels h.distinct

-- In sound tables friendship goes both ways.
pub are_friends_comm : (db : Db) (a b : ℕ) → Sound db → are_friends db a b ≡ are_friends db b a
are_friends_comm db a b h =
    rw (are_friends-row db a b h, are_friends-row db b a h, pair_row_comm a b db.rels) refl

first_row-pair :
    (test : Rel → Bool) (r : Rel) (rels : List Rel)
    → Distinct rels
    → first_row test rels ≡ some r
    → (test r ≡ true) × (pair_row r.user_id r.other_id rels ≡ some r)
first_row-pair test r [] d e = absurd (cc)
first_row-pair test r (x ∷ rels) d e = elim (Bool-cases (test x)) [
  | inl b ↦ let is : x ≡ r = ground arith in (rw (sym is) b, rw (sym is) (ground arith))
  | inr b ↦
      let ih = first_row-pair test r rels d.0 (ground arith) in
      let same = pair_row_same r.user_id r.other_id x.user_id x.other_id rels in
      (ih.0, ground (arith, d.1, ih.1))
]

first_row_confirmed :
    (a b : ℕ) (rels : List Rel)
    → Distinct rels
    → is_row (first_row (confirmed_pair a b) rels) ≡ is_confirmed (pair_row a b rels)
first_row_confirmed a b [] d = refl
first_row_confirmed a b (x ∷ rels) d =
    ground
      (arith, first_row_confirmed a b rels d.0, pair_row_same a b x.user_id x.other_id rels, d.1)

-- In sound tables an accept that succeeds had a pending request of that id from the sender to the
-- user, and makes each of them the other's friend.
pub accept-are_friends :
    (alerts : Bool) (db after : Db) (me id : ℕ) (fx : List Effect)
    → Sound db
    → accept_request alerts db me id ≡ done (fx, after)
    → (r : Rel) × (pair_row r.user_id me db.rels ≡ some r)
      × (r.id ≡ id)
      × (r.confirmed ≡ false)
      × (are_friends after me r.user_id ≡ true)
      × (are_friends after r.user_id me ≡ true)
unfolding accept_request accept accept_friend_request
accept-are_friends alerts db after me id fx h e =
    elim (Option-cases (first_row (pending_to id me) db.rels)) [
      | inl n ↦ absurd (ground arith)
      | inr (r, n) ↦
          let (t, p) = first_row-pair (pending_to id me) r db.rels h.distinct n in
          let q : pair_row r.user_id me db.rels ≡ some r = ground arith in
          let is : after ≡ record db { rels = map (confirm (pending_to id me)) db.rels } =
            ground arith in
          let k : Sound after = rw is (confirm-Sound (pending_to id me) db h) in
          let g : pair_row r.user_id me after.rels ≡ some (record r { confirmed = true }) =
            rw (is, pair_row-map r.user_id me (pending_to id me) db.rels, q, t) refl in
          let f : are_friends after r.user_id me ≡ true =
            rw (are_friends-row after r.user_id me k, g) refl in
          (r, q, ground arith, ground arith, rw (are_friends_comm after me r.user_id k) f, f)
    ]

pub has_block-added :
    (a b now : ℕ) (db : Db)
    → has_block a b (
        if has_block a b db.blocks
        then db.blocks
        else record { blocker_id = a; blocked_id = b; created_at = now } ∷ db.blocks)
      ≡ true
has_block-added a b now db = ground arith

-- In sound tables, after a block that succeeds neither user is the other's friend and neither can
-- send a request: the blocker, to a known name, is told of the block. The other is told only that
-- the friendship ended, if there was one.
pub block_ends :
    (names : ℕ → Named) (alerts : Bool) (db after : Db) (me other now id : ℕ) (fx : List Effect)
    → Sound db
    → block_other db me other now ≡ done (fx, after)
    → (are_friends after me other ≡ false)
      × (are_friends after other me ≡ false)
      × (names other ≡ named → send names alerts after id me other ≡ refused you_blocked)
      × (is_done (send names alerts after id other me) ≡ false)
      × (fx
          ≡ forget (me ∷ other ∷ [])
            ∷ broke me other
            ∷ (if are_friends db me other then push other unfriend_event 0 me ∷ [] else []))
unfolding block_other block send send_check
block_ends names alerts db after me other now id fx h e =
    elim (Written-cases (block_user db me other now)) [
      | inl (v, n) ↦ absurd (ground arith)
      | inr ((were, mid), n) ↦
          let is : mid ≡ after = ground arith in
          let (ne, w, shape) = block_user_lem db mid me other now were n in
          let b : has_block me other after.blocks ≡ true =
            rw (sym is, shape) (has_block-added me other now db) in
          let k : Sound after = rw (sym is) (block_user-Sound db mid me other now were h n) in
          let f : are_friends after me other ≡ false =
            rw (are_friends-row after me other k, k.apart me other b) refl in
          let same : were ≡ are_friends db me other =
            rw (w, are_friends-row db me other h)
              (first_row_confirmed me other db.rels h.distinct) in
          (
            f,
            rw (are_friends_comm after other me k) f,
            λ nm. ground arith,
            ground arith,
            ground arith,
          )
    ]
