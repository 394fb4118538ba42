-- ===== src/Friends/Race.antt =====
-- internal/friends/service.go: a block that is committed while a request is on its way.
use chirpy.Prelude.{
  ℕ, ◌≡◌, refl, sym, inl, inr, Bool, true, false, not, none, some, List, [], ◌∷◌, ◌++◌, arith, ◌==◌,
  keep,
}
use chirpy.Friends.Model.{done}
use chirpy.Friends.Rows.{
  Db, Rel, written, has_block, same_pair, first_row, pair_row, create_friend_request, block_user,
}
use chirpy.Friends.Repo.{create, block}
use chirpy.Friends.Service.{Named, Effect, send_check, send_create, block_other}
use chirpy.Friends.Pairs.{pair_row-append}
use chirpy.Friends.Invariant.{block_user_lem}
use chirpy.Friends.History.{final, Written-cases}
use chirpy.Friends.Outcomes.{new_row, has_block-added}

first_row-keep :
    (test gone : Rel → Bool) (rels : List Rel)
    → first_row test rels ≡ none
    → first_row test (keep (λ r. not (gone r)) rels) ≡ none
first_row-keep test gone [] e = e
first_row-keep test gone (x ∷ rels) e = ground (arith, first_row-keep test gone rels)

-- The row of the request is put in after the block, whose own check saw no row.
create_after_block :
    (db : Db) (id from to : ℕ)
    → first_row (λ r. r.id == id) db.rels ≡ none
    → pair_row from to db.rels ≡ none
    → (from == to) ≡ false
    → db.exists from ≡ true
    → db.exists to ≡ true
    → create_friend_request db id from to
      ≡ written (record db { rels = db.rels ++ (new_row id from to ∷ []) })
unfolding create_friend_request
create_after_block db id from to fresh free ne ex ey = rw (ne, fresh, free, ex, ey) refl

final-send_create :
    (alerts : Bool) (db after : Db) (id from to : ℕ)
    → create_friend_request db id from to ≡ written after
    → final db (send_create alerts db id from to) ≡ after
unfolding send_create create
final-send_create alerts db after id from to e = ground arith

block_user_exists :
    (db after : Db) (a b now : ℕ) (were : Bool)
    → block_user db a b now ≡ written (were, after)
    → (db.exists a ≡ true) × (db.exists b ≡ true)
unfolding block_user
block_user_exists db after a b now were e = (ground arith, ground arith)

-- A block that is committed between the check of a send and its insert does not stop the request:
-- if the id is new and the two had no row, the tables then hold both the block and the pending
-- request.
pub block_in_send :
    (names : ℕ → Named) (alerts : Bool) (db mid : Db) (id from to now : ℕ) (fx : List Effect)
    → first_row (λ r. r.id == id) db.rels ≡ none
    → pair_row from to db.rels ≡ none
    → send_check names db from to ≡ done tt
    → block_other db to from now ≡ done (fx, mid)
    → (has_block to from (final mid (send_create alerts mid id from to)).blocks ≡ true)
      × (pair_row from to (final mid (send_create alerts mid id from to)).rels
          ≡ some (new_row id from to))
unfolding block_other block
block_in_send names alerts db mid id from to now fx fresh free ok e =
    elim (Written-cases (block_user db to from now)) [
      | inl (v, n) ↦ absurd (ground arith)
      | inr ((were, m), n) ↦
          let is : m ≡ mid = ground arith in
          let (ne, w, shape) = block_user_lem db m to from now were n in
          let (there_to, there_from) = block_user_exists db m to from now were n in
          let row =
            create_after_block mid id from to
              (rw (sym is, shape)
                (first_row-keep (λ r. r.id == id) (same_pair to from) db.rels fresh))
              (rw (sym is, shape)
                (first_row-keep (same_pair from to) (same_pair to from) db.rels free))
              (ground arith) (rw (sym is, shape) there_from) (rw (sym is, shape) there_to) in
          let end =
            final-send_create alerts mid
              (record mid { rels = mid.rels ++ (new_row id from to ∷ []) }) id from to row in
          let blocked : has_block to from mid.blocks ≡ true =
            rw (sym is, shape) (has_block-added to from now db) in
          let free_mid : pair_row from to mid.rels ≡ none =
            rw (sym is, shape)
              (first_row-keep (same_pair from to) (same_pair to from) db.rels free) in
          (
            rw end blocked,
            rw end (ground (arith, pair_row-append from to (new_row id from to) mid.rels)),
          )
    ]
