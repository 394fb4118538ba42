-- ===== src/Chat/Paging.antt =====
-- The pages of a history, against the whole history in its order.
use chirpy.Prelude.{
  ℕ, ◌≡◌, refl, sym, ap, ◌∙◌, subst, Bool, true, false, ◌&&◌, none, some, List, [], ◌∷◌, ◌++◌,
  if◌then◌else◌, keep, All, arith, Bool-cases, inl, inr,
}
use chirpy.Chat.Model.{ok}
use chirpy.Chat.Tables.{Message, find_message}
use chirpy.Chat.Rows.{Unique}
use chirpy.Chat.History.{
  take, reverse, put_in, ordered, newer, by_id, before_cursor, newest, page_before,
}

-- Each is followed by what comes after it in the order.
abbrev Ordered : List Message → Type 0
Ordered [] = Unit {0}
Ordered (m ∷ ms) = All (λ (x : Message). newer by_id m x ≡ true) ms × Ordered ms

All-put_in :
    (m x : Message) (xs : List Message)
    → newer by_id m x ≡ true
    → All (λ (y : Message). newer by_id m y ≡ true) xs
    → All (λ (y : Message). newer by_id m y ≡ true) (put_in (newer by_id) x xs)
All-put_in m x [] h a = (h, tt)
All-put_in m x (y ∷ ys) h a = elim (Bool-cases (newer by_id x y)) [
  | inl e ↦ rw e (h, a)
  | inr e ↦ rw e (a.0, All-put_in m x ys h a.1)
]

All-after :
    (m x : Message) (xs : List Message)
    → newer by_id m x ≡ true
    → All (λ (y : Message). newer by_id x y ≡ true) xs
    → All (λ (y : Message). newer by_id m y ≡ true) xs
All-after m x [] h a = tt
All-after m x (y ∷ ys) h a = (ground arith, All-after m x ys h a.1)

put_in-Ordered :
    (m : Message) (xs : List Message) → Ordered xs → Ordered (put_in (newer by_id) m xs)
put_in-Ordered m [] o = (tt, tt)
put_in-Ordered m (x ∷ xs) o = elim (Bool-cases (newer by_id m x)) [
  | inl e ↦ rw e ((e, All-after m x xs e o.0), o)
  | inr e ↦ rw e (All-put_in x m xs (ground arith) o.0, put_in-Ordered m xs o.1)
]

ordered-Ordered : (ms : List Message) → Ordered (ordered (newer by_id) ms)
unfolding ordered
ordered-Ordered [] = tt
ordered-Ordered (m ∷ ms) = put_in-Ordered m (ordered (newer by_id) ms) (ordered-Ordered ms)

-- Sorting what is kept is keeping of what is sorted.
put_in-first :
    (test : Message → Bool) (m : Message) (xs : List Message)
    → All (λ (y : Message). newer by_id m y ≡ true) xs
    → put_in (newer by_id) m (keep test xs) ≡ m ∷ keep test xs
put_in-first test m [] a = refl
put_in-first test m (x ∷ xs) a = elim (Bool-cases (test x)) [
  | inl e ↦ rw e (rw a.0 refl)
  | inr e ↦ rw e (put_in-first test m xs a.1)
]

keep-put_in :
    (test : Message → Bool) (m : Message) (xs : List Message)
    → Ordered xs
    → keep test (put_in (newer by_id) m xs)
      ≡ (if test m then put_in (newer by_id) m (keep test xs) else keep test xs)
keep-put_in test m [] o = refl
keep-put_in test m (x ∷ xs) o = elim (Bool-cases (newer by_id m x)) [
  | inl e ↦ ground (arith, e, put_in-first test m (x ∷ xs) (e, All-after m x xs e o.0))
  | inr e ↦ ground (arith, e, keep-put_in test m xs o.1)
]

keep-ordered :
    (test : Message → Bool) (ms : List Message)
    → keep test (ordered (newer by_id) ms) ≡ ordered (newer by_id) (keep test ms)
unfolding ordered
keep-ordered test [] = refl
keep-ordered test (m ∷ ms) = elim (Bool-cases (test m)) [
  | inl e ↦
      keep-put_in test m (ordered (newer by_id) ms) (ordered-Ordered ms)
      ∙ rw e (ap (put_in (newer by_id) m) (keep-ordered test ms))
  | inr e ↦
      keep-put_in test m (ordered (newer by_id) ms) (ordered-Ordered ms)
      ∙ rw e (keep-ordered test ms)
]

keep-keep :
    (p q : Message → Bool) (ms : List Message) → keep (λ m. p m && q m) ms ≡ keep q (keep p ms)
keep-keep p q [] = refl
keep-keep p q (m ∷ ms) = ground (arith, keep-keep p q ms)

-- Ids stay unique.
find_message-keep :
    (test : Message → Bool) (id : ℕ) (ms : List Message)
    → find_message id ms ≡ none
    → find_message id (keep test ms) ≡ none
find_message-keep test id [] e = refl
find_message-keep test id (m ∷ ms) e = ground (arith, find_message-keep test id ms)

Unique-keep : (test : Message → Bool) (ms : List Message) → Unique ms → Unique (keep test ms)
Unique-keep test [] u = tt
Unique-keep test (m ∷ ms) u = ground (arith, find_message-keep test m.id ms, Unique-keep test ms)

find_message-put_in :
    (first : Message → Message → Bool) (id : ℕ) (m : Message) (ms : List Message)
    → find_message id (m ∷ ms) ≡ none
    → find_message id (put_in first m ms) ≡ none
find_message-put_in first id m [] e = e
find_message-put_in first id m (x ∷ xs) e = ground (arith, find_message-put_in first id m xs)

Unique-put_in :
    (first : Message → Message → Bool) (m : Message) (ms : List Message)
    → Unique (m ∷ ms)
    → Unique (put_in first m ms)
Unique-put_in first m [] u = u
Unique-put_in first m (x ∷ xs) u =
    ground (arith, find_message-put_in first x.id m xs, Unique-put_in first m xs)

find_message-ordered :
    (first : Message → Message → Bool) (id : ℕ) (ms : List Message)
    → find_message id ms ≡ none
    → find_message id (ordered first ms) ≡ none
unfolding ordered
find_message-ordered first id [] e = refl
find_message-ordered first id (m ∷ ms) e =
    find_message-put_in first id m (ordered first ms)
      (ground (arith, find_message-ordered first id ms))

Unique-ordered :
    (first : Message → Message → Bool) (ms : List Message) → Unique ms → Unique (ordered first ms)
unfolding ordered
Unique-ordered first [] u = tt
Unique-ordered first (m ∷ ms) u =
    Unique-put_in first m (ordered first ms)
      (find_message-ordered first m.id ms u.0, Unique-ordered first ms u.1)

-- In an ordered list, what is before the cursor in the order of rows is what stands behind it.
keep_all :
    (c : Message) (rest : List Message)
    → All (λ (x : Message). newer by_id c x ≡ true) rest
    → find_message c.id rest ≡ none
    → keep (before_cursor c.created_at c.id) rest ≡ rest
keep_all c [] a e = refl
keep_all c (x ∷ xs) a e = ground (arith, keep_all c xs)

at_or_after :
    (x : Message) (front : List Message) (c : Message) (rest : List Message)
    → All (λ (y : Message). newer by_id x y ≡ true) (front ++ (c ∷ rest))
    → before_cursor c.created_at c.id x ≡ false
at_or_after x [] c rest a = ground arith
at_or_after x (y ∷ front) c rest a = at_or_after x front c rest a.1

keep_behind :
    (front : List Message) (c : Message) (rest : List Message)
    → Ordered (front ++ (c ∷ rest))
    → Unique (front ++ (c ∷ rest))
    → keep (before_cursor c.created_at c.id) (front ++ (c ∷ rest)) ≡ rest
keep_behind [] c rest o u = ground (arith, keep_all c rest)
keep_behind (x ∷ front) c rest o u =
    ground (arith, at_or_after x front c rest o.0, keep_behind front c rest)

-- With unique ids, the page before a message that the chat has is what stands directly behind it
-- when all that the viewer may see is put newest first, by time and id: the next n of it, or what
-- is left, in chronological order.
pub page_before-history :
    (ours visible : Message → Bool) (ms front rest : List Message) (c : Message) (n : ℕ)
    → Unique ms
    → find_message c.id ms ≡ some c
    → ours c ≡ true
    → ordered (newer by_id) (keep visible ms) ≡ front ++ (c ∷ rest)
    → page_before ours visible ms c.id n ≡ ok (reverse (take n rest))
unfolding page_before newest
page_before-history ours visible ms front rest c n u found own whole =
    let before : Message → Bool = before_cursor c.created_at c.id in
    let cut : ordered (newer by_id) (keep (λ m. visible m && before m) ms) ≡ rest =
      ap (ordered (newer by_id)) (keep-keep visible before ms)
      ∙ (sym (keep-ordered before (keep visible ms))
          ∙ (ap (keep before) whole
              ∙ keep_behind front c rest (subst Ordered whole (ordered-Ordered (keep visible ms))) (
                  subst Unique whole (
                    Unique-ordered (newer by_id) (keep visible ms) (Unique-keep visible ms u))))) in
    rw found (rw own (ap (λ l. ok (reverse (take n l))) cut))
