-- ===== src/Friends/Pairs.antt =====
-- The row of a pair in user_relationships, under the writes of sql/queries/friends.sql.
use chirpy.Prelude.{
  ℕ, min, max, ◌≡◌, refl, inl, inr, Bool, true, false, not, Option, none, some, List, [], ◌∷◌, ◌++◌,
  arith, if◌then◌else◌, keep, map, contains, Bool-cases, Option-cases,
}
use chirpy.Friends.Rows.{Rel, same_pair, pair_row, confirm, list_friends}

-- No pair has two rows.
abbrev pub Distinct : List Rel → Type 0
Distinct [] = Unit
Distinct (r ∷ rels) = Distinct rels × (pair_row r.user_id r.other_id rels ≡ none)

pub pair_row_comm : (a b : ℕ) (rels : List Rel) → pair_row a b rels ≡ pair_row b a rels
pair_row_comm a b [] = refl
pair_row_comm a b (r ∷ rels) = ground (arith, pair_row_comm a b rels)

pub pair_row_key :
    (a b : ℕ) (r : Rel) (rels : List Rel) → pair_row a b rels ≡ some r → same_pair a b r ≡ true
pair_row_key a b r [] e = absurd (cc)
pair_row_key a b r (x ∷ rels) e = ground (arith, pair_row_key a b r rels)

pub pair_row_same :
    (a b c d : ℕ) (rels : List Rel)
    → min a b ≡ min c d
    → max a b ≡ max c d
    → pair_row a b rels ≡ pair_row c d rels
pair_row_same a b c d [] e f = refl
pair_row_same a b c d (x ∷ rels) e f = ground (arith, pair_row_same a b c d rels e f)

-- What is left of a row when the rows that pass a test are deleted.
abbrev pub drop_if : (Rel → Bool) → Option Rel → Option Rel
drop_if test none = none
drop_if test (some r) = if test r then none else some r

pub pair_row-keep :
    (a b : ℕ) (test : Rel → Bool) (rels : List Rel)
    → Distinct rels
    → pair_row a b (keep (λ r. not (test r)) rels) ≡ drop_if test (pair_row a b rels)
pair_row-keep a b test [] d = refl
pair_row-keep a b test (x ∷ rels) d =
    ground
      (arith, pair_row-keep a b test rels d.0, pair_row_same a b x.user_id x.other_id rels, d.1)

pub Distinct-keep :
    (test : Rel → Bool) (rels : List Rel) → Distinct rels → Distinct (keep (λ r. not (test r)) rels)
Distinct-keep test [] d = d
Distinct-keep test (x ∷ rels) d =
    let ih = Distinct-keep test rels d.0 in
    let e = pair_row-keep x.user_id x.other_id test rels d.0 in ground (arith, d.1)

-- A pair whose rows are deleted has none.
pub pair_row_deleted :
    (a b : ℕ) (rels : List Rel)
    → Distinct rels
    → pair_row a b (keep (λ r. not (same_pair a b r)) rels) ≡ none
pair_row_deleted a b rels d = elim (Option-cases (pair_row a b rels)) [
  | inl e ↦ rw (pair_row-keep a b (same_pair a b) rels d, e) refl
  | inr (r, e) ↦ rw (pair_row-keep a b (same_pair a b) rels d, e, pair_row_key a b r rels e) refl
]

-- What is left of a row when the rows that pass a test are confirmed.
abbrev pub confirm_if : (Rel → Bool) → Option Rel → Option Rel
confirm_if test none = none
confirm_if test (some r) = some (confirm test r)

pub pair_row-map :
    (a b : ℕ) (test : Rel → Bool) (rels : List Rel)
    → pair_row a b (map (confirm test) rels) ≡ confirm_if test (pair_row a b rels)
pair_row-map a b test [] = refl
pair_row-map a b test (x ∷ rels) = ground (arith, pair_row-map a b test rels)

pub Distinct-map :
    (test : Rel → Bool) (rels : List Rel) → Distinct rels → Distinct (map (confirm test) rels)
Distinct-map test [] d = d
Distinct-map test (x ∷ rels) d =
    let ih = Distinct-map test rels d.0 in
    let e = pair_row-map x.user_id x.other_id test rels in ground (arith, d.1)

abbrev pub or_else : Option Rel → Option Rel → Option Rel
or_else none o = o
or_else (some r) o = some r

pub pair_row-append :
    (a b : ℕ) (x : Rel) (rels : List Rel)
    → pair_row a b (rels ++ (x ∷ []))
      ≡ or_else (pair_row a b rels) (if same_pair a b x then some x else none)
pair_row-append a b x [] = ground arith
pair_row-append a b x (y ∷ rels) = ground (arith, pair_row-append a b x rels)

pub Distinct-append :
    (x : Rel) (rels : List Rel)
    → Distinct rels
    → pair_row x.user_id x.other_id rels ≡ none
    → Distinct (rels ++ (x ∷ []))
Distinct-append x [] d e = (tt, refl)
Distinct-append x (y ∷ rels) d e =
    let ih = Distinct-append x rels d.0 in
    let p = pair_row-append y.user_id y.other_id x rels in ground (arith, d.1)

-- Is there a confirmed row?
abbrev pub is_confirmed : Option Rel → Bool
is_confirmed none = false
is_confirmed (some r) = r.confirmed

pub contains-list_friends :
    (a b : ℕ) (rels : List Rel)
    → Distinct rels
    → contains (list_friends a rels) b ≡ is_confirmed (pair_row a b rels)
unfolding list_friends
contains-list_friends a b [] d = refl
contains-list_friends a b (x ∷ rels) d =
    let ih = contains-list_friends a b rels d.0 in
    elim (Bool-cases (same_pair a b x)) [
      | inl s ↦
          let n : pair_row a b rels ≡ none =
            ground (arith, pair_row_same a b x.user_id x.other_id rels, d.1) in
          let out : contains (list_friends a rels) b ≡ false = rw ih (rw n refl) in
          rw s (ground arith)
      | inr s ↦ rw s (ground arith)
    ]
