-- ===== src/Presence/Privacy.antt =====
-- internal/presence/presence.go: who is told, what, and that both views agree.
use chirpy.Prelude.{
  ℕ, ◌≡◌, ◌↔◌, ◌⊎◌, refl, inl, inr, Bool, true, false, not, ◌&&◌, ◌||◌, Option, none, some, List,
  [], ◌∷◌, arith, if◌then◌else◌, keep, contains, Bool-cases, Option-cases, ◌==◌,
}
use chirpy.Presence.Views.{
  set_hidden, PresenceRow, World, Entry, Sent, load_failed, nothing, sent, hides, shown, sent_to,
  broadcast_to, broadcast, entries, friends_of,
}

contains-keep :
    (test : ℕ → Bool) (v : ℕ) (xs : List ℕ) → contains (keep test xs) v ≡ (contains xs v && test v)
contains-keep test v [] = refl
contains-keep test v (x ∷ xs) = ground (arith, contains-keep test v xs)

-- Is a user among the receivers?
abbrev pub reaches : Sent → ℕ → Bool
reaches load_failed v = false
reaches nothing v = false
reaches (sent to ev) v = contains to v

reaches-sent_to : (to : List ℕ) (ev : Entry) (v : ℕ) → reaches (sent_to to ev) v ≡ contains to v
reaches-sent_to [] ev v = refl
reaches-sent_to (x ∷ to) ev v = refl

reaches-broadcast_to :
    (w : World) (u v : ℕ) (fs : List ℕ) (me : PresenceRow)
    → w.row u ≡ some me
    → reaches (broadcast_to w u fs) v ≡ (contains fs v && not (hides (w.row v)))
unfolding broadcast_to
reaches-broadcast_to w u v [] me e = refl
reaches-broadcast_to w u v (f ∷ fs) me e =
    rw
      (
        e,
        broadcast_to,
        reaches-sent_to (keep (λ x. not (hides (w.row x))) (f ∷ fs))
            (shown w u me me.hide_last_seen) v,
      )
      (contains-keep (λ x. not (hides (w.row x))) v (f ∷ fs))

-- A presence event of an account that exists reaches exactly the friends who are online and do not
-- hide their last seen.
pub broadcast_reach :
    (w : World) (u v : ℕ) (me : PresenceRow) (friends : List ℕ)
    → w.relationships u ≡ some friends
    → w.row u ≡ some me
    → (reaches (broadcast w u) v ≡ true)
      ↔ ((contains friends v ≡ true) × (w.is_online v ≡ true) × (hides (w.row v) ≡ false))
unfolding broadcast
broadcast_reach w u v me friends f e = ground (
  arith,
  reaches-broadcast_to w u v (keep w.is_online friends) me e,
  contains-keep w.is_online v friends,
)

-- The entry of a friend in what Friends returns.
abbrev pub entry_of : ℕ → List Entry → Option Entry
entry_of f [] = none
entry_of f (e ∷ es) = if e.user_id == f then some e else entry_of f es

user_id-shown : (w : World) (u : ℕ) (r : PresenceRow) (h : Bool) → (shown w u r h).user_id ≡ u
unfolding shown
user_id-shown w u r true = refl
user_id-shown w u r false = refl

entry_of-entries :
    (w : World) (u : ℕ) (r : PresenceRow) (hide : Bool) (fs : List ℕ)
    → contains fs u ≡ true
    → w.row u ≡ some r
    → entry_of u (entries w hide fs) ≡ some (shown w u r (hide || r.hide_last_seen))
unfolding entries
entry_of-entries w u r hide [] c e = absurd (cc)
entry_of-entries w u r hide (f ∷ fs) c e = elim (Bool-cases (f == u)) [
  | inl b ↦
      let is : f ≡ u = ground arith in
      rw (is, entries, e) (ground (arith, user_id-shown w u r (hide || r.hide_last_seen)))
  | inr b ↦
      let ih = entry_of-entries w u r hide fs (ground arith) e in
      elim (Option-cases (w.row f)) [
        | inl n ↦ rw (n, entries) ih
        | inr (q, n) ↦
            rw (n, entries) (ground (arith, user_id-shown w f q (hide || q.hide_last_seen)))
      ]
]

-- What goes out is what may be shown of the account.
sent_lem :
    (w : World) (u : ℕ) (fs to : List ℕ) (ev : Entry)
    → broadcast_to w u fs ≡ sent to ev
    → (me : PresenceRow) × (w.row u ≡ some me) × (ev ≡ shown w u me me.hide_last_seen)
unfolding broadcast_to
sent_lem w u [] to ev e = absurd (cc)
sent_lem w u (f ∷ fs) to ev e = elim (Option-cases (w.row u)) [
  | inl n ↦ absurd (ground arith)
  | inr (me, n) ↦ (me, n, ground arith)
]

-- A friend who receives a user's presence event does not hide their own, and what they would read
-- of that user in the list of friends is the very same entry.
pub views_agree :
    (w : World) (u v : ℕ) (to mine theirs : List ℕ) (ev : Entry)
    → w.relationships u ≡ some theirs
    → w.relationships v ≡ some mine
    → contains mine u ≡ true
    → broadcast w u ≡ sent to ev
    → contains to v ≡ true
    → (es : List Entry) × (friends_of w v ≡ some (false, es)) × (entry_of u es ≡ some ev)
unfolding friends_of
views_agree w u v to mine theirs ev rt rm c b t =
    let bt : broadcast_to w u (keep w.is_online theirs) ≡ sent to ev =
      unfold broadcast in ground arith in
    let (me, row, is) = sent_lem w u (keep w.is_online theirs) to ev bt in
    let seen : hides (w.row v) ≡ false = ((broadcast_reach w u v me theirs rt row).0 (rw b t)).2 in
    (
      entries w false mine,
      rw (rm, friends_of, seen) refl,
      rw is (entry_of-entries w u me false mine c row),
    )

hidden_shown :
    (w : World) (u : ℕ) (r : PresenceRow) (hide : Bool)
    → (hide || r.hide_last_seen) ≡ true
    → ((shown w u r (hide || r.hide_last_seen)).hidden ≡ true)
      × ((shown w u r (hide || r.hide_last_seen)).online ≡ false)
      × ((shown w u r (hide || r.hide_last_seen)).last_seen ≡ none)
unfolding shown
hidden_shown w u r hide e = rw e (refl, refl, refl)

-- Whose entry it is.
entry_lem :
    (w : World) (u : ℕ) (hide : Bool) (fs : List ℕ) (e : Entry)
    → entry_of u (entries w hide fs) ≡ some e
    → (r : PresenceRow) × (w.row u ≡ some r) × (e ≡ shown w u r (hide || r.hide_last_seen))
unfolding entries
entry_lem w u hide [] e p = absurd (cc)
entry_lem w u hide (f ∷ fs) e p = elim (Option-cases (w.row f)) [
  | inl n ↦ entry_lem w u hide fs e (ground arith)
  | inr (q, n) ↦
      let id = user_id-shown w f q (hide || q.hide_last_seen) in
      elim (Bool-cases (f == u)) [
        | inl b ↦ let is : f ≡ u = ground arith in (q, ground arith, ground arith)
        | inr b ↦ entry_lem w u hide fs e (ground arith)
      ]
]

-- If either of two users hides the last seen, the entry of the one in the other's list is hidden
-- and shows neither whether they are online nor a last seen time.
pub hidden_both_ways :
    (w : World) (u v : ℕ) (es : List Entry) (hide : Bool) (e : Entry)
    → friends_of w v ≡ some (hide, es)
    → entry_of u es ≡ some e
    → (hides (w.row v) ≡ true) ⊎ (hides (w.row u) ≡ true)
    → (e.hidden ≡ true) × (e.online ≡ false) × (e.last_seen ≡ none)
unfolding friends_of
hidden_both_ways w u v es hide e f o h = elim (Option-cases (w.relationships v)) [
  | inl n ↦ absurd (ground arith)
  | inr (fs, n) ↦
      let is : entries w (hides (w.row v)) fs ≡ es = ground arith in
      let (r, row, shape) = entry_lem w u (hides (w.row v)) fs e (rw is o) in
      rw shape (hidden_shown w u r (hides (w.row v)) (ground arith))
]

broadcast-sent :
    (w : World) (u : ℕ) (to : List ℕ) (ev : Entry)
    → broadcast w u ≡ sent to ev
    → (fs : List ℕ) × (broadcast_to w u fs ≡ sent to ev)
unfolding broadcast
broadcast-sent w u to ev e = elim (Option-cases (w.relationships u)) [
  | inl n ↦ absurd (ground arith)
  | inr (fs, n) ↦ (keep w.is_online fs, ground arith)
]

-- What goes out when a user sets the privacy is that user's entry under the new setting: with it
-- on it shows neither whether they are online nor a last seen time, with it off whether they are
-- online.
pub set_hidden_sent :
    (w : World) (me : ℕ) (hide : Bool) (to : List ℕ) (ev : Entry)
    → (set_hidden w me hide).1 ≡ sent to ev
    → (ev.hidden ≡ hide)
      × (ev.user_id ≡ me)
      × (hide ≡ true → (ev.online ≡ false) × (ev.last_seen ≡ none))
      × (hide ≡ false → ev.online ≡ w.is_online me)
unfolding set_hidden shown
set_hidden_sent w me hide to ev e =
    let w1 = (set_hidden w me hide).0 in
    let (fs, b) = broadcast-sent w1 me to ev e in
    let (r, row, is) = sent_lem w1 me fs to ev b in
    let same : r.hide_last_seen ≡ hide = ground (arith, Option-cases (w.row me)) in
    elim (Bool-cases hide) [ inl h ↦ ground arith | inr h ↦ ground arith ]
