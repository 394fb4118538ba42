-- ===== src/Chat/Tests.antt =====
-- Friends 1 and 2, and group 9 of 1, 2 and 3, with a few messages.
use chirpy.Prelude.{
  ℕ, ◌≤◌, ◌≡◌, ◌↔◌, ◌⊎◌, refl, Bool, true, false, ◌&&◌, none, some, List, [], ◌∷◌, ◌++◌,
  if◌then◌else◌, ltb, ◌==◌, arith, All, keep, length,
}
use chirpy.Chat.Model.{private, public, ok, err, MessageRef, trim_space, message_not_found}
use chirpy.Chat.Tables.{Message, Tables, side, find_message, find_live, is_some, find_reaction}
use chirpy.Chat.Authorize.{World, members_are, no_such_group, authorize_message, private_ref}
use chirpy.Chat.Emoji.{validate_emoji, is_pictographic}
use chirpy.Chat.Send.{Incoming, Services, id_is}
use chirpy.Chat.Change.{
  edit_message, delete_message, react, unreact, may_react, may_read_by, refused, fits,
}
use chirpy.Chat.Receipts.{Marker}
use chirpy.Chat.Calls.{
  Call, send_call, edit_call, delete_call, react_call, unreact_call, forward_call, perform_all,
}
use chirpy.Chat.Sides.{SoundTables}
use chirpy.Chat.Invariant.{perform_all-SoundTables}
use chirpy.Chat.Secrecy.{IsHidden, between_others, hidden_alike, Sees, as_side}
use chirpy.Chat.Changes.{MayEdit, edit_message_iff}
use chirpy.Chat.Deleting.{MayDelete, delete_message_iff}
use chirpy.Chat.Forever.{perform_all-deleted}
use chirpy.Chat.Audience.{Hears, Wrote, Heard, changes-Heard, late_reaction-stays}
use chirpy.Chat.History.{ordered, newer, by_id, page_before}
use chirpy.Chat.Paging.{page_before-history}
use chirpy.Chat.Shown.{Shown, PageServices, with_state}
use chirpy.Chat.Hiding.{ShownAs, Matched, with_state-ShownAs}
use chirpy.Chat.Markers.{Reached, read_all, read_all-forward, group_reading, seen_job}
use chirpy.Chat.Dedupe.{
  DedupeKey, Dedupe, enter, finish, resume, run_send, wait_for, still_waiting, same_message,
}
use chirpy.Chat.Retries.{entering, finishing, happen_all, enter_once, QuietAll, Quiet, happen}

abbrev world : World
world = record {
  friends = λ a b. some (ltb a 3 && ltb b 3);
  members = λ g. if g == 9 then members_are (1 ∷ 2 ∷ 3 ∷ []) else no_such_group;
  is_member = λ g u. some ((g == 9) && ltb u 4);
  can_delete = λ g u v. some (u == 1);
  joined_at = λ g u. some 10;
}

abbrev message : ℕ → ℕ → ℕ → ℕ → List ℕ → Message
message id from to at text = record {
  id = id;
  from_id = from;
  to_id = to;
  parent_id = none;
  content = text;
  created_at = at;
  edited_at = none;
  deleted_at = none;
  forwarded = false;
}

abbrev first : Message
first = message 5 1 2 100 (104 ∷ 105 ∷ [])

abbrev second : Message
second = message 6 2 1 200 (111 ∷ 107 ∷ [])

abbrev gone : Message
gone = record (message 8 3 9 150 []) { deleted_at = some 160 }

abbrev heart : List ℕ
heart = 10084 ∷ 65039 ∷ []

abbrev tables : Tables
tables = record {
  private_side = record { messages = first ∷ second ∷ []; reactions = [] };
  group_side = record {
    messages = message 7 3 9 150 (121 ∷ []) ∷ gone ∷ [];
    reactions = record { message_id = 7; user_id = 1; emoji = heart } ∷ [];
  };
}

abbrev services : Services
services = record {
  world = world;
  media = none;
  notifier = true;
  saves = λ m. true;
  suspended = λ u. some (u == 3);
}

abbrev greeting : Incoming
greeting = record {
  content = 32 ∷ 104 ∷ [];
  parent_id = id_is 5;
  to_id = id_is 2;
  kind = some private;
  media = [];
  forwarded = false;
}

tables-SoundTables : SoundTables 10 tables
tables-SoundTables = record {
  private_sound = record {
    sound = record {
      unique = (refl, (refl, tt));
      blank = (λ e. absurd (cc), (λ e. absurd (cc), tt));
      one_per_user = tt;
    };
    below = (omega arith, (omega arith, tt));
  };
  group_sound = record {
    sound = record {
      unique = (refl, (refl, tt));
      blank = (λ e. absurd (cc), (λ e. refl, tt));
      one_per_user = (refl, tt);
    };
    below = (omega arith, (omega arith, tt));
  };
}

abbrev day : List Call
day =
    send_call services 1 greeting 300
    ∷ react_call services tables 2 5 heart
    ∷ edit_call services tables 1 5 (104 ∷ []) 400
    ∷ delete_call services true tables 1 7 500
    ∷ forward_call services 1 5 (record { kind = some public; id = id_is 9 } ∷ []) 600
    ∷ unreact_call services tables 2 5
    ∷ []

perform_all-SoundTables_example : (k : ℕ) × SoundTables k (perform_all day 10 tables)
perform_all-SoundTables_example = perform_all-SoundTables day 10 tables tables-SoundTables

perform_all-deleted_example :
    find_message 8 (side public (perform_all day 10 tables)).messages ≡ some gone
perform_all-deleted_example = perform_all-deleted day 10 8 public gone tables refl refl

abbrev hidden_from_three : IsHidden world tables 3 5
hidden_from_three = between_others first refl (omega arith) (omega arith)

heart_is_one : validate_emoji heart ≡ true
unfolding validate_emoji is_pictographic
heart_is_one = refl

hidden_alike_example :
    (edit_message world tables 3 5 (104 ∷ []) 300 tables ≡ refused tables (err message_not_found))
    × (delete_message world true tables 3 5 300 tables ≡ refused tables (err message_not_found))
    × (react world true tables 3 5 heart tables ≡ refused tables (err message_not_found))
    × (unreact world tables 3 5 tables ≡ refused tables (err message_not_found))
    × (may_read_by world tables 3 5 ≡ err message_not_found)
unfolding trim_space
hidden_alike_example =
    hidden_alike world tables tables 3 5 300 (104 ∷ []) heart true true hidden_from_three refl
      heart_is_one

abbrev two_sees : Sees world tables 2 5 true (private_ref first) (1 ∷ [])
two_sees = as_side first 1 refl refl refl refl (λ e. refl) refl

edit_message_iff_example :
    ((edit_message world tables 1 5 (104 ∷ []) 300 tables).answer ≡ ok tt) ↔ (
      (fits (trim_space (104 ∷ [])) ≡ true)
      × ((ref : MessageRef) × (others : List ℕ) × MayEdit world tables 1 5 300 ref others
          × (is_some (find_live 5 (side ref.kind tables)) ≡ true)))
edit_message_iff_example = edit_message_iff world tables tables 1 5 (104 ∷ []) 300

delete_message_iff_example : ((delete_message world true tables 1 7 300 tables).answer ≡ ok tt) ↔ (
    (ref : MessageRef) × (others : List ℕ) × MayDelete world tables 1 7 ref others
    × (is_some (find_live 7 (side ref.kind tables)) ≡ true))
delete_message_iff_example = delete_message_iff world true tables tables 1 7 300

changes-Heard_example :
    All
      (Heard (Hears world tables 5) (Wrote tables 5))
      (edit_message world tables 1 5 (104 ∷ []) 300 tables).effects
    × All
        (Heard (Hears world tables 5) (Wrote tables 5))
        (delete_message world true tables 1 5 300 tables).effects
    × All
        (Heard (Hears world tables 5) (Wrote tables 5))
        (react world true tables 1 5 heart tables).effects
    × All (Heard (Hears world tables 5) (Wrote tables 5)) (unreact world tables 1 5 tables).effects
changes-Heard_example = changes-Heard world tables tables 1 5 300 (104 ∷ []) heart true true

-- The first message, deleted by another call.
abbrev later : Tables
later = record tables {
  private_side = record {
    messages = record first { content = []; deleted_at = some 250 } ∷ second ∷ [];
    reactions = [];
  };
}

two_may_react : may_react world tables 2 5 heart ≡ ok (private_ref first, 1 ∷ [])
unfolding may_react authorize_message validate_emoji is_pictographic
two_may_react = refl

late_reaction-stays_example :
    (find_message 5 (react world true tables 2 5 heart later).tables.private_side.messages
      ≡ some (record first { content = []; deleted_at = some 250 }))
    × (find_reaction 5 2 (react world true tables 2 5 heart later).tables.private_side.reactions
        ≡ some (record { message_id = 5; user_id = 2; emoji = heart }))
late_reaction-stays_example =
    late_reaction-stays world true tables later 2 5 heart (private_ref first) (1 ∷ [])
      (record first { content = []; deleted_at = some 250 }) two_may_react refl refl

abbrev every : Message → Bool
every m = true

two_in_order :
    ordered (newer by_id) (keep every (first ∷ second ∷ [])) ≡ [] ++ (second ∷ first ∷ [])
unfolding ordered
two_in_order = refl

page_before-history_example : page_before every every (first ∷ second ∷ []) 6 30 ≡ ok (first ∷ [])
page_before-history_example =
    page_before-history every every (first ∷ second ∷ []) [] (first ∷ []) second 30
      (refl, (refl, tt)) refl refl two_in_order

abbrev page_services : PageServices
page_services = record { attachments = some (λ id. 77 ∷ []); banned = some (λ u. u == 3) }

with_state-ShownAs_example :
    (xs : List Shown) × (with_state page_services tables.group_side 1 tables.group_side.messages
      ≡ ok xs)
    × Matched
        (ShownAs (λ id. 77 ∷ []) (λ u. u == 3) tables.group_side 1)
        tables.group_side.messages
        xs
with_state-ShownAs_example =
    with_state-ShownAs page_services (λ id. 77 ∷ []) (λ u. u == 3) tables.group_side 1
      tables.group_side.messages refl refl

abbrev marks : List Marker × List Marker
marks = (
  record { chat = 1; other = 2; user = 1; message = 6 } ∷ [],
  record { chat = 9; other = 0; user = 1; message = 7 } ∷ [],
)

read_all-forward_example :
    Reached tables.private_side.messages 1 2 1 200
      (read_all tables (seen_job 1 2 1 5 ∷ group_reading world 1 9 (id_is 8) ∷ []) marks).0
    × Reached tables.group_side.messages 9 0 1 150
        (read_all tables (seen_job 1 2 1 5 ∷ group_reading world 1 9 (id_is 8) ∷ []) marks).1
read_all-forward_example =
    read_all-forward tables (seen_job 1 2 1 5 ∷ group_reading world 1 9 (id_is 8) ∷ []) marks 1 2 1
      200 9 1 150 (6, 200, refl, refl, omega arith) (7, 150, refl, refl, omega arith)

abbrev dedupe : Dedupe
dedupe = record {
  keys = [];
  entries = λ e. record { done = none; at = 0 };
  made = 3;
  last_gc = 0;
  max_keys = 200000;
}

abbrev key : DedupeKey
key = record { from = 1; client = 40 }

abbrev other_key : DedupeKey
other_key = record { from = 2; client = 40 }

entered_first : (enter key 1000 dedupe).1 ≡ run_send 3
unfolding enter
entered_first = refl

entered_quiet :
    QuietAll 3 1000 77
      (entering other_key 1500 ∷ finishing key 3 (ok 77) ∷ [])
      (enter key 1000 dedupe).0
unfolding QuietAll Quiet happen enter
entered_quiet = ((omega arith, omega arith), (λ e. refl, tt))

entered_few :
    length
      (happen_all
        (entering other_key 1500 ∷ finishing key 3 (ok 77) ∷ [])
        (enter key 1000 dedupe).0).keys
    ≤ (happen_all
        (entering other_key 1500 ∷ finishing key 3 (ok 77) ∷ [])
        (enter key 1000 dedupe).0).max_keys
unfolding happen_all enter finish
entered_few = omega arith

enter_once_example :
    ((enter key 2000 (
        happen_all
          (entering other_key 1500 ∷ finishing key 3 (ok 77) ∷ [])
          (enter key 1000 dedupe).0)).1
      ≡ wait_for 3)
    × ((resume 3
            (enter key 2000 (
              happen_all
                (entering other_key 1500 ∷ finishing key 3 (ok 77) ∷ [])
                (enter key 1000 dedupe).0)).0
          ≡ still_waiting)
        ⊎ (resume 3
              (enter key 2000 (
                happen_all
                  (entering other_key 1500 ∷ finishing key 3 (ok 77) ∷ [])
                  (enter key 1000 dedupe).0)).0
            ≡ same_message 77))
enter_once_example =
    enter_once key 3 1000 77 2000 (entering other_key 1500 ∷ finishing key 3 (ok 77) ∷ []) dedupe
      entered_first entered_quiet (omega arith) entered_few

abbrev held : Dedupe
held = record dedupe { keys = (key, 2) ∷ [] }
