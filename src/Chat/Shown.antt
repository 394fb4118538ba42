-- ===== src/Chat/Shown.antt =====
-- internal/chat/service.go: withState, PrivateMessages and GroupMessages, with ReactionCounts and
-- Suspended of repo.go. The order of a message's emoji, by the time of the first, is not modelled: they
-- come as their first rows do.
use chirpy.Prelude.{
  ℕ, ◌+◌, Bool, true, false, ◌||◌, ◌&&◌, Option, List, [], ◌∷◌, if◌then◌else◌, ◌==◌, keep, map,
  contains,
}
use chirpy.Chat.Model.{Result, ok, ◌>>=◌}
use chirpy.Chat.Tables.{Message, Reaction, Table, Tables, is_some}
use chirpy.Chat.Authorize.{World, asked}
use chirpy.Chat.History.{HistoryQuery, private_history, group_history}

pub record ReactionCount : Type 0 where
  pub emoji : List ℕ
  pub count : ℕ
  pub mine : Bool

-- A message as a page shows it.
pub record Shown : Type 0 where
  pub id : ℕ
  pub from_id : ℕ
  pub content : List ℕ
  pub deleted : Bool
  pub reactions : List ReactionCount
  pub media : List ℕ
  pub suspended : Bool

abbrev pub same_text : List ℕ → List ℕ → Bool
same_text [] [] = true
same_text [] (b ∷ bs) = false
same_text (a ∷ as') [] = false
same_text (a ∷ as') (b ∷ bs) = (a == b) && same_text as' bs

-- count(*) and bool_or(user_id = me) of a group of rows.
unfoldable pub count_in : ℕ → Reaction → List ReactionCount → List ReactionCount
count_in me r [] = record { emoji = r.emoji; count = 1; mine = r.user_id == me } ∷ []
count_in me r (c ∷ cs) =
    if same_text c.emoji r.emoji
    then record c { count = c.count + 1; mine = c.mine || (r.user_id == me) } ∷ cs
    else c ∷ count_in me r cs

unfoldable pub group_counts : ℕ → List Reaction → List ReactionCount
unfolding count_in
group_counts me [] = []
group_counts me (r ∷ rs) = count_in me r (group_counts me rs)

-- PrivateReactionSummary and GroupReactionSummary, for one message.
unfoldable pub reaction_counts : Table → ℕ → ℕ → List ReactionCount
unfolding group_counts
reaction_counts t me id = group_counts me (keep (λ r. r.message_id == id) t.reactions)

-- The senders whom the page asks about.
abbrev pub senders_of : List Message → List ℕ
senders_of [] = []
senders_of (m ∷ ms) =
    let rest = senders_of ms in
    if (m.from_id == 0) || contains rest m.from_id then rest else m.from_id ∷ rest

abbrev pub shown_content : Bool → Bool → List ℕ → List ℕ
shown_content deleted banned content = if deleted || banned then [] else content

-- One turn of the loop over the page.
unfoldable pub show : List ReactionCount → List ℕ → Bool → Message → Shown
show counts media banned m = record {
  id = m.id;
  from_id = m.from_id;
  content = shown_content (is_some m.deleted_at) banned m.content;
  deleted = is_some m.deleted_at;
  reactions = if banned then [] else counts;
  media = if is_some m.deleted_at || banned then [] else media;
  suspended = banned;
}

-- What the page needs of the others, `none` where they fail: the media of a message (nothing, where
-- media is off), and the banned accounts.
pub record PageServices : Type 0 where
  pub attachments : Option (ℕ → List ℕ)
  pub banned : Option (ℕ → Bool)

-- Suspended: nothing is asked for no senders, and only about these.
unfoldable pub suspended : PageServices → List ℕ → Result (ℕ → Bool)
suspended s [] = ok (λ u. false)
suspended s (u ∷ us) = asked s.banned >>= λ banned. ok (λ v. contains (u ∷ us) v && banned v)

unfoldable pub with_state : PageServices → Table → ℕ → List Message → Result (List Shown)
unfolding suspended show reaction_counts
with_state s t me ms = do
  media ← asked s.attachments
  banned ← suspended s (senders_of ms)
  ok (map (λ (m : Message). show (reaction_counts t me m.id) (media m.id) (banned m.from_id) m) ms)

-- PrivateMessages and GroupMessages.
unfoldable pub private_messages :
    (Message → Message → Bool) → PageServices → Tables → ℕ → ℕ → HistoryQuery → Result (List Shown)
private_messages tie s t me other q =
    private_history tie t me other q >>= λ ms. with_state s t.private_side me ms

unfoldable pub group_messages :
    (Message → Message → Bool)
    → World
    → PageServices
    → Tables
    → ℕ
    → ℕ
    → HistoryQuery
    → Result (List Shown)
group_messages tie w s t me group q =
    group_history tie w t me group q >>= λ ms. with_state s t.group_side me ms
