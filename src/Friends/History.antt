-- ===== src/Friends/History.antt =====
-- Any sequence of requests to internal/friends/service.go, each run whole.
use chirpy.Prelude.{ℕ, ◌≡◌, ◌⊎◌, refl, inl, inr, Bool, false, List, [], ◌∷◌, arith}
use chirpy.Friends.Model.{done, refused}
use chirpy.Friends.Rows.{
  Db, has_block, Written, written, violates, create_friend_request, accept_friend_request,
  deny_friend_request, cancel_friend_request, unfriend_row, block_user, Violation,
}
use chirpy.Friends.Repo.{create, accept, deny, cancel, unfriend, block}
use chirpy.Friends.Service.{
  Named, Outcome, send_check, send_create, send, accept_request, deny_request, cancel_request,
  end_friendship, block_other, unblock_other,
}
use chirpy.Friends.Invariant.{
  Sound, create_friend_request-Sound, accept_friend_request-Sound, deny_friend_request-Sound,
  cancel_friend_request-Sound, unfriend_row-Sound, block_user-Sound, unblock_user-Sound,
}

-- The operations with their arguments; a send comes with the id that it draws, a block with its time.
pub data Act : Type 0 where
  sends : ℕ → ℕ → ℕ → Act
  accepts : ℕ → ℕ → Act
  denies : ℕ → ℕ → Act
  cancels : ℕ → ℕ → Act
  unfriends : ℕ → ℕ → Act
  blocks : ℕ → ℕ → ℕ → Act
  unblocks : ℕ → ℕ → Act

-- What is in the tables after an operation.
abbrev pub final : Db → Outcome → Db
final db (refused e) = db
final db (done (fx, after)) = after

module _ (names : ℕ → Named) (alerts : Bool) where
  abbrev pub outcome : Db → Act → Outcome
  outcome db (sends from to id) = send names alerts db id from to
  outcome db (accepts me id) = accept_request alerts db me id
  outcome db (denies me id) = deny_request db me id
  outcome db (cancels me id) = cancel_request db me id
  outcome db (unfriends me other) = end_friendship db me other
  outcome db (blocks me other now) = block_other db me other now
  outcome db (unblocks me other) = unblock_other db me other

  unfoldable pub perform_all : Db → List Act → Db
  perform_all db [] = db
  perform_all db (x ∷ xs) = perform_all (final db (outcome db x)) xs

pub Written-cases :
    {A : Type 0} (w : Written A)
    → ((v : Violation) × (w ≡ violates v)) ⊎ ((a : A) × (w ≡ written a))
Written-cases (written a) = inr (a, refl)
Written-cases (violates v) = inl (v, refl)

one_of : (a b c : Db) → (a ≡ b) ⊎ (a ≡ c) → Sound b → Sound c → Sound a
one_of a b c (inl e) h k = rw e h
one_of a b c (inr e) h k = rw e k

-- A send that changes the tables has found no block, and has put a row in.
final-send :
    (names : ℕ → Named) (alerts : Bool) (db after : Db) (id from to : ℕ)
    → create_friend_request db id from to ≡ written after
    → (final db (send names alerts db id from to) ≡ db)
      ⊎ ((has_block from to db.blocks ≡ false)
          × (has_block to from db.blocks ≡ false)
          × (final db (send names alerts db id from to) ≡ after))
unfolding send send_check send_create create
final-send names alerts db after id from to e = ground arith

send_refused :
    (names : ℕ → Named) (alerts : Bool) (db : Db) (id from to : ℕ) (v : Violation)
    → create_friend_request db id from to ≡ violates v
    → final db (send names alerts db id from to) ≡ db
unfolding send send_check send_create create
send_refused names alerts db id from to v e = ground arith

send-Sound :
    (names : ℕ → Named) (alerts : Bool) (db : Db) (id from to : ℕ)
    → Sound db
    → Sound (final db (send names alerts db id from to))
send-Sound names alerts db id from to h =
    elim (Written-cases (create_friend_request db id from to)) [
      | inl (v, e) ↦ rw (send_refused names alerts db id from to v e) h
      | inr (after, e) ↦ elim (final-send names alerts db after id from to e) [
        | inl same ↦ rw same h
        | inr (f, g, same) ↦ rw same (create_friend_request-Sound db after id from to h f g e)
      ]
    ]

accept_final :
    (alerts : Bool) (db : Db) (me id : ℕ)
    → (final db (accept_request alerts db me id) ≡ db)
      ⊎ (final db (accept_request alerts db me id) ≡ (accept_friend_request db id me).1)
unfolding accept_request accept
accept_final alerts db me id = ground arith

deny_final :
    (db : Db) (me id : ℕ)
    → (final db (deny_request db me id) ≡ db)
      ⊎ (final db (deny_request db me id) ≡ (deny_friend_request db id me).1)
unfolding deny_request deny
deny_final db me id = ground arith

cancel_final :
    (db : Db) (me id : ℕ)
    → (final db (cancel_request db me id) ≡ db)
      ⊎ (final db (cancel_request db me id) ≡ (cancel_friend_request db id me).1)
unfolding cancel_request cancel
cancel_final db me id = ground arith

unfriend_final :
    (db : Db) (me other : ℕ)
    → (final db (end_friendship db me other) ≡ db)
      ⊎ (final db (end_friendship db me other) ≡ (unfriend_row db me other).1)
unfolding end_friendship unfriend
unfriend_final db me other = ground arith

block-Sound :
    (db : Db) (me other now : ℕ) → Sound db → Sound (final db (block_other db me other now))
unfolding block_other block
block-Sound db me other now h = elim (Written-cases (block_user db me other now)) [
  | inl (v, e) ↦ let same : final db (block_other db me other now) ≡ db = ground arith in rw same h
  | inr ((were, after), e) ↦
      one_of (final db (block_other db me other now)) db after (ground arith) h
        (block_user-Sound db after me other now were h e)
]

act-Sound :
    (names : ℕ → Named) (alerts : Bool) (db : Db) (x : Act)
    → Sound db
    → Sound (final db (outcome names alerts db x))
unfolding unblock_other
act-Sound names alerts db (sends from to id) h = send-Sound names alerts db id from to h
act-Sound names alerts db (accepts me id) h =
    one_of _ _ _ (accept_final alerts db me id) h (accept_friend_request-Sound db id me h)
act-Sound names alerts db (denies me id) h =
    one_of _ _ _ (deny_final db me id) h (deny_friend_request-Sound db id me h)
act-Sound names alerts db (cancels me id) h =
    one_of _ _ _ (cancel_final db me id) h (cancel_friend_request-Sound db id me h)
act-Sound names alerts db (unfriends me other) h =
    one_of _ _ _ (unfriend_final db me other) h (unfriend_row-Sound db me other h)
act-Sound names alerts db (blocks me other now) h = block-Sound db me other now h
act-Sound names alerts db (unblocks me other) h = unblock_user-Sound db me other h

-- From sound tables, and whatever requests the service is given, each run whole: a pair of users
-- has one row at most, nobody has one with themselves, and no two users, one of whom blocks the
-- other, have a request or a friendship.
pub perform_all-Sound :
    (names : ℕ → Named) (alerts : Bool) (db : Db) (xs : List Act)
    → Sound db
    → Sound (perform_all names alerts db xs)
unfolding perform_all
perform_all-Sound names alerts db [] h = h
perform_all-Sound names alerts db (x ∷ xs) h =
    perform_all-Sound names alerts (final db (outcome names alerts db x)) xs
      (act-Sound names alerts db x h)
