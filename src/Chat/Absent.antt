-- ===== src/Chat/Absent.antt =====
-- chat's React, for a group message whose author is in the group no more.
use chirpy.Prelude.{ℕ, ◌≡◌, true, false, none, some, List, ◌==◌, contains, All, arith}
use chirpy.Chat.Model.{ok}
use chirpy.Chat.Tables.{Message, Tables, find_live}
use chirpy.Chat.Authorize.{World, members_are, group_ref}
use chirpy.Chat.Change.{react, may_react, write_react}
use chirpy.Chat.Audience.{Hears, of_conversation, of_group, Heard}

not-Hears :
    (w : World) (t : Tables) (id : ℕ) (m : Message) (us : List ℕ)
    → find_live id t.private_side ≡ none
    → find_live id t.group_side ≡ some m
    → w.members m.to_id ≡ members_are us
    → contains us m.from_id ≡ false
    → ¬ Hears w t id m.from_id
not-Hears w t id m us e f g left (of_conversation n p c) = absurd (ground arith)
not-Hears w t id m us e f g left (of_group n vs p q h c) = absurd (ground arith)

-- A reaction to a group message that is allowed, by somebody else than its author, is told to the
-- author by a push job also when the author is no member of the group any more: not all who are told
-- are members, if there is a notifier.
pub absent_author :
    (w : World) (seen t : Tables) (me id : ℕ) (emoji others us : List ℕ) (m : Message)
    → may_react w seen me id emoji ≡ ok (group_ref m, others)
    → find_live id seen.private_side ≡ none
    → find_live id seen.group_side ≡ some m
    → w.members m.to_id ≡ members_are us
    → contains us m.from_id ≡ false
    → (m.from_id == me) ≡ false
    → (m.from_id == 0) ≡ false
    → ¬ All (Heard (Hears w seen id) (Hears w seen id)) (react w true seen me id emoji t).effects
unfolding react write_react
absent_author w seen t me id emoji others us m may e f g left other known =
    rw may (rw other (rw known (λ a. not-Hears w seen id m us e f g left a.1.0.0)))
