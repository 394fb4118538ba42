-- ===== src/Friends/Tests.antt =====
-- Three users of internal/friends: 1 and 2 are friends, and 3 has asked 1.
use chirpy.Prelude.{ℕ, ◌≡◌, refl, true, false, some, [], ◌∷◌, arith, if◌then◌else◌, ltb}
use chirpy.Friends.Model.{refused, you_blocked}
use chirpy.Friends.Rows.{Rel, Db, pair_row, has_block, accept_friend_request, block_user}
use chirpy.Friends.Repo.{block}
use chirpy.Friends.Service.{
  Named, named, user_not_found, forget, push, broke, unfriend_event, send_check, send_create, send,
  block_other, are_friends,
}
use chirpy.Friends.Invariant.{Sound}
use chirpy.Friends.History.{sends, accepts, blocks, unblocks, perform_all, perform_all-Sound, final}
use chirpy.Friends.Outcomes.{is_done, new_row, block_ends}
use chirpy.Friends.Race.{block_in_send}

abbrev names : ℕ → Named
names u = if ltb u 9 then named else user_not_found

abbrev asked : Rel
asked = record { id = 8; user_id = 3; other_id = 1; confirmed = false }

abbrev trio : Db
trio = record {
  rels = record { id = 7; user_id = 1; other_id = 2; confirmed = true } ∷ asked ∷ [];
  blocks = [];
  exists = λ u. ltb u 9;
}

trio-Sound : Sound trio
trio-Sound = record {
  distinct = ((tt, refl), refl);
  no_self = λ a. ground arith;
  apart = λ a b e. absurd (cc);
}

perform_all-Sound_example : Sound (
    perform_all names true trio
      (accepts 1 8 ∷ blocks 2 1 50 ∷ sends 1 2 9 ∷ unblocks 2 1 ∷ sends 1 2 10 ∷ []))
perform_all-Sound_example =
    perform_all-Sound names true trio
      (accepts 1 8 ∷ blocks 2 1 50 ∷ sends 1 2 9 ∷ unblocks 2 1 ∷ sends 1 2 10 ∷ []) trio-Sound

abbrev accepted : Db
accepted = (accept_friend_request trio 8 1).1

abbrev apart : Db
apart = record trio {
  rels = asked ∷ [];
  blocks = record { blocker_id = 2; blocked_id = 1; created_at = 50 } ∷ [];
}

block_ends_example :
    (are_friends apart 2 1 ≡ false)
    × (are_friends apart 1 2 ≡ false)
    × (names 1 ≡ named → send names true apart 9 2 1 ≡ refused you_blocked)
    × (is_done (send names true apart 9 1 2) ≡ false)
    × ((forget (2 ∷ 1 ∷ []) ∷ broke 2 1 ∷ push 1 unfriend_event 0 2 ∷ [])
        ≡ forget (2 ∷ 1 ∷ [])
          ∷ broke 2 1
          ∷ (if are_friends trio 2 1 then push 1 unfriend_event 0 2 ∷ [] else []))
unfolding block_other block block_user
block_ends_example =
    block_ends names true trio apart 2 1 50 9
      (forget (2 ∷ 1 ∷ []) ∷ broke 2 1 ∷ push 1 unfriend_event 0 2 ∷ []) trio-Sound refl

abbrev blocked : Db
blocked = record trio { blocks = record { blocker_id = 3; blocked_id = 2; created_at = 50 } ∷ [] }

block_in_send_example :
    (has_block 3 2 (final blocked (send_create true blocked 9 2 3)).blocks ≡ true)
    × (pair_row 2 3 (final blocked (send_create true blocked 9 2 3)).rels ≡ some (new_row 9 2 3))
unfolding send_check block_other block block_user
block_in_send_example =
    block_in_send names true trio blocked 9 2 3 50 (forget (3 ∷ 2 ∷ []) ∷ broke 3 2 ∷ []) refl refl
      refl refl
