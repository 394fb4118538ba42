-- ===== src/Chat/Markers.antt =====
-- Read markers only move forward.
use chirpy.Prelude.{
  ℕ, ◌≤◌, ◌≡◌, refl, true, false, ◌&&◌, Option, none, some, List, [], ◌∷◌, ◌==◌, arith, Bool-cases,
  inl, inr,
}
use chirpy.Chat.Tables.{Message, Tables}
use chirpy.Chat.Authorize.{World}
use chirpy.Chat.Send.{IdText}
use chirpy.Chat.Changes.{Result-cases}
use chirpy.Chat.Receipts.{
  Marker, is_marker, find_marker, sent_at, not_earlier, upsert_marker, mark_group_read,
  check_group_read, write_group_read, handle_seen,
}

-- The marker of a key is on a message that was sent at `at` or later.
abbrev pub Reached : List Message → ℕ → ℕ → ℕ → ℕ → List Marker → Type 0
Reached ms chat other user at ks =
    (msg : ℕ) × (when : ℕ) × (find_marker chat other user ks ≡ some msg)
    × (sent_at msg ms ≡ some when)
    × (at ≤ when)

find_marker-upsert_other :
    (ms : List Message) (c o u c' o' u' msg : ℕ) (ks : List Marker)
    → ((c' == c) && ((o' == o) && (u' == u))) ≡ false
    → find_marker c o u (upsert_marker ms c' o' u' msg ks).1 ≡ find_marker c o u ks
unfolding upsert_marker
find_marker-upsert_other ms c o u c' o' u' msg [] e = ground arith
find_marker-upsert_other ms c o u c' o' u' msg (k ∷ ks) e =
    ground (arith, find_marker-upsert_other ms c o u c' o' u' msg ks)

not_earlier-sent :
    (new old : Option ℕ)
    → not_earlier new old ≡ true
    → (when : ℕ) → old ≡ some when
    → (later : ℕ) × (new ≡ some later) × (when ≤ later)
not_earlier-sent none old e when f = absurd (cc)
not_earlier-sent (some a) none e when f = absurd (cc)
not_earlier-sent (some a) (some b) e when f = (a, refl, ground arith)

upsert_marker-Reached_same :
    (ms : List Message) (c o u msg at : ℕ) (ks : List Marker)
    → Reached ms c o u at ks
    → Reached ms c o u at (upsert_marker ms c o u msg ks).1
unfolding upsert_marker
upsert_marker-Reached_same ms c o u msg at [] (old, when, f, s, h) = absurd (cc)
upsert_marker-Reached_same ms c o u msg at (k ∷ ks) (old, when, f, s, h) =
    elim (Bool-cases (is_marker c o u k)) [
      | inr e ↦
          let (new, later, g, r, l) =
            upsert_marker-Reached_same ms c o u msg at ks (old, when, ground arith, s, h) in
          (new, later, ground arith, r, l)
      | inl e ↦ elim (Bool-cases (not_earlier (sent_at msg ms) (sent_at k.message ms))) [
        | inr stale ↦ (old, when, ground arith, s, h)
        | inl fresh ↦
            let (later, r, l) =
              not_earlier-sent (sent_at msg ms) (sent_at k.message ms) fresh when (ground arith) in
            (msg, later, ground arith, r, omega arith)
      ]
    ]

upsert_marker-Reached :
    (ms : List Message) (c o u c' o' u' msg at : ℕ) (ks : List Marker)
    → Reached ms c o u at ks
    → Reached ms c o u at (upsert_marker ms c' o' u' msg ks).1
upsert_marker-Reached ms c o u c' o' u' msg at ks (old, when, f, s, h) =
    elim (Bool-cases ((c' == c) && ((o' == o) && (u' == u)))) [
      | inr e ↦ (old, when, ground (arith, find_marker-upsert_other ms c o u c' o' u' msg ks), s, h)
      | inl e ↦
          let one : c' ≡ c = ground arith in
          let two : o' ≡ o = ground arith in
          let three : u' ≡ u = ground arith in
          rw one
            (rw two (rw three (upsert_marker-Reached_same ms c o u msg at ks (old, when, f, s, h))))
    ]

-- What moves a marker.
pub data Reading : Type 0 where
  group_reading : World → ℕ → ℕ → IdText → Reading
  -- A job of the queue, for the private table.
  seen_job : ℕ → ℕ → ℕ → ℕ → Reading

abbrev pub Markers : Type 0
Markers = List Marker × List Marker

-- The markers of private chats, and those of groups.
pub read_one : Tables → Reading → Markers → Markers
read_one t (group_reading w me group text) (seen, read) =
    (seen, (mark_group_read w t read me group text).markers)
read_one t (seen_job low high user msg) (seen, read) = (handle_seen t low high user msg seen, read)

pub read_all : Tables → List Reading → Markers → Markers
unfolding read_one
read_all t [] ks = ks
read_all t (r ∷ rs) ks = read_all t rs (read_one t r ks)

mark_group_read-Reached :
    (w : World) (t : Tables) (ks : List Marker) (me group : ℕ) (text : IdText) (g u at : ℕ)
    → Reached t.group_side.messages g 0 u at ks
    → Reached t.group_side.messages g 0 u at (mark_group_read w t ks me group text).markers
unfolding mark_group_read write_group_read
mark_group_read-Reached w t ks me group text g u at h =
    elim (Result-cases (check_group_read w t me group text)) [
      | inr (x, e) ↦ rw (e, mark_group_read) h
      | inl ((msg, members, when), e) ↦
          rw (e, mark_group_read)
            (upsert_marker-Reached t.group_side.messages g 0 u group 0 me msg at ks h)
    ]

read_all-each :
    (t : Tables) (rs : List Reading) (ks : Markers) (low high user when group reader at : ℕ)
    → (Reached t.private_side.messages low high user when ks.0
        → Reached t.private_side.messages low high user when (read_all t rs ks).0)
      × (Reached t.group_side.messages group 0 reader at ks.1
          → Reached t.group_side.messages group 0 reader at (read_all t rs ks).1)
unfolding read_all handle_seen
read_all-each t [] ks low high user when group reader at = (λ h. h, λ h. h)
read_all-each t (group_reading w me g text ∷ rs) (seen, read) low high user when group reader at =
    let (first, second) =
      read_all-each t rs (read_one t (group_reading w me g text) (seen, read)) low high user when
        group reader at in
    (first, λ h. second (mark_group_read-Reached w t read me g text group reader at h))
read_all-each t (seen_job l h' u msg ∷ rs) (seen, read) low high user when group reader at =
    let (first, second) =
      read_all-each t rs (read_one t (seen_job l h' u msg) (seen, read)) low high user when group
        reader at in
    (
      λ h.
          first
            (upsert_marker-Reached t.private_side.messages low high user l h' u msg when seen h),
      second,
    )

-- If a user's marker in a private chat is on a message sent at some time or later, and a reader's
-- marker in a group on one sent at some time or later, that holds of both after any reports of
-- reading and any receipts from the queue, late ones and repeated ones too. The messages stay as
-- they are meanwhile.
pub read_all-forward :
    (t : Tables) (rs : List Reading) (ks : Markers) (low high user when group reader at : ℕ)
    → Reached t.private_side.messages low high user when ks.0
    → Reached t.group_side.messages group 0 reader at ks.1
    → Reached t.private_side.messages low high user when (read_all t rs ks).0
      × Reached t.group_side.messages group 0 reader at (read_all t rs ks).1
read_all-forward t rs ks low high user when group reader at h k =
    let (first, second) = read_all-each t rs ks low high user when group reader at in
    (first h, second k)
