-- ===== src/Friends/Names.antt =====
-- internal/friends/service.go: whose cached lists a rename drops.
use chirpy.Prelude.{
  ℕ, ◌≡◌, ◌↔◌, ◌⊎◌, refl, inl, inr, Bool, true, false, not, ◌&&◌, ◌||◌, Option, none, some, List,
  [], ◌∷◌, ◌++◌, arith, ◌==◌, contains, Bool-cases, Option-cases,
}
use chirpy.Friends.Rows.{
  Rel, Db, same_pair, pair_row, is_row, list_friends, list_incoming, list_outgoing,
}
use chirpy.Friends.Service.{forget_names}
use chirpy.Friends.Pairs.{Distinct, pair_row_key, pair_row_same, contains-list_friends}
use chirpy.Friends.Invariant.{Sound}

contains-append :
    (xs ys : List ℕ) (v : ℕ) → contains (xs ++ ys) v ≡ (contains xs v || contains ys v)
contains-append [] ys v = refl
contains-append (x ∷ xs) ys v = ground (arith, contains-append xs ys v)

-- Is a row a pending request from `b`?
abbrev asks : ℕ → Option Rel → Bool
asks b none = false
asks b (some r) = (r.user_id == b) && not r.confirmed

abbrev asked : ℕ → Option Rel → Bool
asked b none = false
asked b (some r) = (r.other_id == b) && not r.confirmed

contains-list_incoming :
    (a b : ℕ) (rels : List Rel)
    → Distinct rels
    → contains (list_incoming a rels) b ≡ asks b (pair_row a b rels)
unfolding list_incoming
contains-list_incoming a b [] d = refl
contains-list_incoming a b (x ∷ rels) d =
    let ih = contains-list_incoming a b rels d.0 in
    elim (Bool-cases (same_pair a b x)) [
      | inl s ↦
          let n : pair_row a b rels ≡ none =
            ground (arith, pair_row_same a b x.user_id x.other_id rels, d.1) in
          let out : contains (list_incoming a rels) b ≡ false = rw ih (rw n refl) in
          rw s (ground arith)
      | inr s ↦ rw s (ground arith)
    ]

contains-list_outgoing :
    (a b : ℕ) (rels : List Rel)
    → Distinct rels
    → contains (list_outgoing a rels) b ≡ asked b (pair_row a b rels)
unfolding list_outgoing
contains-list_outgoing a b [] d = refl
contains-list_outgoing a b (x ∷ rels) d =
    let ih = contains-list_outgoing a b rels d.0 in
    elim (Bool-cases (same_pair a b x)) [
      | inl s ↦
          let n : pair_row a b rels ≡ none =
            ground (arith, pair_row_same a b x.user_id x.other_id rels, d.1) in
          let out : contains (list_outgoing a rels) b ≡ false = rw ih (rw n refl) in
          rw s (ground arith)
      | inr s ↦ rw s (ground arith)
    ]

-- In sound tables a rename drops the cached lists of the user and of exactly those who have a row
-- with them, a friendship or a request either way.
pub forget_names_iff :
    (db : Db) (u v : ℕ)
    → Sound db
    → (contains (forget_names db u) v ≡ true) ↔ ((v ≡ u) ⊎ (is_row (pair_row u v db.rels) ≡ true))
unfolding forget_names
forget_names_iff db u v h =
    let f = contains-list_friends u v db.rels h.distinct in
    let i = contains-list_incoming u v db.rels h.distinct in
    let o = contains-list_outgoing u v db.rels h.distinct in
    let e =
      contains-append (list_friends u db.rels) (list_incoming u db.rels ++ list_outgoing u db.rels)
        v in
    let g = contains-append (list_incoming u db.rels) (list_outgoing u db.rels) v in
    elim (Option-cases (pair_row u v db.rels)) [
      | inl n ↦ ground arith
      | inr (r, n) ↦ let k = pair_row_key u v r db.rels n in ground arith
    ]
