-- ===== src/Chat/Hiding.antt =====
-- What a page of history shows, and what it hides.
use chirpy.Prelude.{
  ℕ, suc, ◌+◌, ◌≡◌, ◌≢◌, refl, sym, subst, Bool, true, false, not, ◌||◌, ◌&&◌, some, List, [], ◌∷◌,
  ◌==◌, keep, map, contains, length, All, arith, Bool-cases, inl, inr,
}
use chirpy.Chat.Model.{ok}
use chirpy.Chat.Tables.{Message, Reaction, Table, is_some}
use chirpy.Chat.Shown.{
  ReactionCount, Shown, count_in, group_counts, reaction_counts, senders_of, show, PageServices,
  suspended, with_state,
}

abbrev pub total : List ReactionCount → ℕ
total [] = 0
total (c ∷ cs) = c.count + total cs

abbrev pub has_mine : List ReactionCount → Bool
has_mine [] = false
has_mine (c ∷ cs) = c.mine || has_mine cs

abbrev pub reacted : ℕ → List Reaction → Bool
reacted me [] = false
reacted me (r ∷ rs) = (r.user_id == me) || reacted me rs

total-count_in :
    (me : ℕ) (r : Reaction) (cs : List ReactionCount) → total (count_in me r cs) ≡ suc (total cs)
unfolding count_in
total-count_in me r [] = omega arith
total-count_in me r (c ∷ cs) = ground (arith, total-count_in me r cs)

mine-count_in :
    (me : ℕ) (r : Reaction) (cs : List ReactionCount)
    → has_mine (count_in me r cs) ≡ ((r.user_id == me) || has_mine cs)
unfolding count_in
mine-count_in me r [] = ground arith
mine-count_in me r (c ∷ cs) = ground (arith, mine-count_in me r cs)

group_counts-total : (me : ℕ) (rs : List Reaction) → total (group_counts me rs) ≡ length rs
unfolding group_counts
group_counts-total me [] = refl
group_counts-total me (r ∷ rs) =
    omega (arith, total-count_in me r (group_counts me rs), group_counts-total me rs)

group_counts-mine : (me : ℕ) (rs : List Reaction) → has_mine (group_counts me rs) ≡ reacted me rs
unfolding group_counts
group_counts-mine me [] = refl
group_counts-mine me (r ∷ rs) =
    ground (arith, mine-count_in me r (group_counts me rs), group_counts-mine me rs)

-- Everybody who sent one of the messages is asked about, and nobody who has no account.
abbrev AskedAbout : List ℕ → List Message → Type 0
AskedAbout us ms = All (λ (m : Message). contains us m.from_id ≡ not (m.from_id == 0)) ms

AskedAbout-cons :
    (u : ℕ) (us : List ℕ) (ms : List Message) → u ≢ 0 → AskedAbout us ms → AskedAbout (u ∷ us) ms
AskedAbout-cons u us [] h a = tt
AskedAbout-cons u us (m ∷ ms) h a = (ground arith, AskedAbout-cons u us ms h a.1)

senders_of-zero : (ms : List Message) → contains (senders_of ms) 0 ≡ false
senders_of-zero [] = refl
senders_of-zero (m ∷ ms) = ground (arith, senders_of-zero ms)

senders_of-known :
    (m : Message) (ms : List Message)
    → ((m.from_id == 0) || contains (senders_of ms) m.from_id) ≡ true
    → senders_of (m ∷ ms) ≡ senders_of ms
senders_of-known m ms e = rw e refl

senders_of-new :
    (m : Message) (ms : List Message)
    → ((m.from_id == 0) || contains (senders_of ms) m.from_id) ≡ false
    → senders_of (m ∷ ms) ≡ m.from_id ∷ senders_of ms
senders_of-new m ms e = rw e refl

senders_of-AskedAbout : (ms : List Message) → AskedAbout (senders_of ms) ms
senders_of-AskedAbout [] = tt
senders_of-AskedAbout (m ∷ ms) =
    elim (Bool-cases ((m.from_id == 0) || contains (senders_of ms) m.from_id)) [
      | inl e ↦
          subst (λ us. AskedAbout us (m ∷ ms)) (sym (senders_of-known m ms e))
            (ground (arith, senders_of-zero ms), senders_of-AskedAbout ms)
      | inr e ↦
          subst (λ us. AskedAbout us (m ∷ ms)) (sym (senders_of-new m ms e))
            (
              ground arith,
              AskedAbout-cons m.from_id (senders_of ms) ms (ground arith)
                  (senders_of-AskedAbout ms),
            )
    ]

suspended-some :
    (s : PageServices) (us : List ℕ) (banned : ℕ → Bool)
    → s.banned ≡ some banned
    → suspended s us ≡ ok (λ v. contains us v && banned v)
unfolding suspended
suspended-some s [] banned e = refl
suspended-some s (u ∷ us) banned e = rw e refl

-- What one message of a page must be shown as, for a reader `me`.
pub record ShownAs (media : ℕ → List ℕ) (banned : ℕ → Bool) (t : Table) (me : ℕ) (m : Message)
    (x : Shown) : Type 0 where
  pub same : (x.id ≡ m.id) × (x.deleted ≡ is_some m.deleted_at)
  pub flagged : x.suspended ≡ (not (m.from_id == 0) && banned m.from_id)
  pub hidden : (x.suspended ≡ true) → (x.content ≡ []) × (x.media ≡ []) × (x.reactions ≡ [])
  pub wiped : (x.deleted ≡ true) → (x.content ≡ []) × (x.media ≡ [])
  pub whole :
      (x.suspended ≡ false) → (x.deleted ≡ false) → (x.content ≡ m.content) × (x.media ≡ media m.id)
  pub counted :
      (x.suspended ≡ false)
      → (total x.reactions ≡ length (keep (λ (r : Reaction). r.message_id == m.id) t.reactions))
        × (has_mine x.reactions
            ≡ reacted me (keep (λ (r : Reaction). r.message_id == m.id) t.reactions))

show-ShownAs :
    (media : ℕ → List ℕ) (banned : ℕ → Bool) (t : Table) (me : ℕ) (us : List ℕ) (m : Message)
    → contains us m.from_id ≡ not (m.from_id == 0)
    → ShownAs media banned t me m (
        show (reaction_counts t me m.id) (media m.id) (contains us m.from_id && banned m.from_id) m)
unfolding show reaction_counts
show-ShownAs media banned t me us m e =
    let rows : List Reaction = keep (λ (r : Reaction). r.message_id == m.id) t.reactions in
    record {
      same = (refl, refl);
      flagged = rw e refl;
      hidden = λ h. (ground arith, ground arith, ground arith);
      wiped = λ h. (ground arith, ground arith);
      whole = λ h d. (ground arith, ground arith);
      counted = λ h. rw h (group_counts-total me rows, group_counts-mine me rows);
    }

-- One row of the second list for each of the first, in their order.
abbrev pub Matched : {A B : Type 0} → (A → B → Type 0) → List A → List B → Type 0
Matched R [] [] = Unit
Matched R [] (b ∷ bs) = ⊥
Matched R (a ∷ as') [] = ⊥
Matched R (a ∷ as') (b ∷ bs) = R a b × Matched R as' bs

show-Matched :
    (media : ℕ → List ℕ) (banned : ℕ → Bool) (t : Table) (me : ℕ) (us : List ℕ) (ms : List Message)
    → AskedAbout us ms
    → Matched (ShownAs media banned t me) ms (
        map
          (λ (m : Message).
            show
              (reaction_counts t me m.id)
              (media m.id)
              (contains us m.from_id && banned m.from_id)
              m)
          ms)
show-Matched media banned t me us [] a = tt
show-Matched media banned t me us (m ∷ ms) a =
    (show-ShownAs media banned t me us m a.0, show-Matched media banned t me us ms a.1)

-- If the media and the banned accounts can be read, a page shows each of its messages, in their
-- order: one of a banned sender without text, media and reactions, a deleted one without text and
-- media, any other with its own. Counts that are shown add up to the rows of reactions to the
-- message, and one is marked as the reader's exactly if a row is the reader's.
pub with_state-ShownAs :
    (s : PageServices) (media : ℕ → List ℕ) (banned : ℕ → Bool) (t : Table) (me : ℕ)
    (ms : List Message)
    → s.attachments ≡ some media
    → s.banned ≡ some banned
    → (xs : List Shown) × (with_state s t me ms ≡ ok xs) × Matched (ShownAs media banned t me) ms xs
unfolding with_state
with_state-ShownAs s media banned t me ms e f = (
  _,
  rw e (rw (suspended-some s (senders_of ms) banned f) refl),
  show-Matched media banned t me (senders_of ms) ms (senders_of-AskedAbout ms),
)
