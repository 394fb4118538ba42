-- ===== src/Chat/Sides.antt =====
-- The invariant of the two tables, with the ids that are still to be drawn, and the queries that keep it.
use chirpy.Prelude.{ℕ, ◌+◌, ◌<◌, ◌≤◌, ◌≡◌, refl, none, List, [], ◌∷◌, ◌++◌, All, arith, map}
use chirpy.Chat.Model.{Kind, private, public}
use chirpy.Chat.Tables.{
  Message, Table, Tables, side, with_side, find_message, add_message, edit_row, edit_message_row,
  delete_row, delete_message_row, set_reaction_row, delete_reaction_row,
}
use chirpy.Chat.Rows.{
  Sound, add_message-Sound, edit_message_row-Sound, delete_message_row-Sound, set_reaction-Sound,
  delete_reaction_row-Sound,
}

abbrev pub Below : ℕ → List Message → Type 0
Below n ms = All (λ (m : Message). m.id < n) ms

pub record SoundSide (next : ℕ) (t : Table) : Type 0 where
  pub sound : Sound t
  pub below : Below next t.messages

-- Both tables are sound, and no message has an id that is still to be drawn.
pub record SoundTables (next : ℕ) (t : Tables) : Type 0 where
  pub private_sound : SoundSide next t.private_side
  pub group_sound : SoundSide next t.group_side

pub find_message-Below : (n : ℕ) (ms : List Message) → Below n ms → find_message n ms ≡ none
find_message-Below n [] b = refl
find_message-Below n (m ∷ ms) b = ground (arith, find_message-Below n ms)

pub Below-mono : (n k : ℕ) (ms : List Message) → n ≤ k → Below n ms → Below k ms
Below-mono n k [] h b = tt
Below-mono n k (m ∷ ms) h b = (omega arith, Below-mono n k ms h b.1)

pub Below-append :
    (n : ℕ) (ms : List Message) (m : Message) → Below n ms → m.id < n → Below n (ms ++ (m ∷ []))
Below-append n [] m b h = (h, tt)
Below-append n (x ∷ ms) m b h = (b.0, Below-append n ms m b.1 h)

pub Below-map :
    (n : ℕ) (f : Message → Message) (same : (m : Message) → (f m).id ≡ m.id) (ms : List Message)
    → Below n ms
    → Below n (map f ms)
Below-map n f same [] b = tt
Below-map n f same (m ∷ ms) b = (rw (same m) b.0, Below-map n f same ms b.1)

pub SoundSide-mono : (n k : ℕ) (t : Table) → n ≤ k → SoundSide n t → SoundSide k t
SoundSide-mono n k t h s = record { sound = s.sound; below = Below-mono n k t.messages h s.below }

pub SoundTables-mono : (n k : ℕ) (t : Tables) → n ≤ k → SoundTables n t → SoundTables k t
SoundTables-mono n k t h s = record {
  private_sound = SoundSide-mono n k t.private_side h s.private_sound;
  group_sound = SoundSide-mono n k t.group_side h s.group_sound;
}

pub side-SoundSide : (n : ℕ) (k : Kind) (t : Tables) → SoundTables n t → SoundSide n (side k t)
side-SoundSide n private t s = s.private_sound
side-SoundSide n public t s = s.group_sound

pub with_side-SoundTables :
    (n : ℕ) (k : Kind) (rows : Table) (t : Tables)
    → SoundTables n t
    → SoundSide n rows
    → SoundTables n (with_side k rows t)
with_side-SoundTables n private rows t s r = record {
  private_sound = r;
  group_sound = s.group_sound;
}
with_side-SoundTables n public rows t s r = record {
  private_sound = s.private_sound;
  group_sound = r;
}

pub edit-SoundSide :
    (n id : ℕ) (content : List ℕ) (at : ℕ) (t : Table)
    → SoundSide n t
    → SoundSide n (edit_message_row id content at t).1
unfolding edit_message_row
edit-SoundSide n id content at t s = record {
  sound = edit_message_row-Sound id content at t s.sound;
  below = Below-map n (edit_row id content at) (λ m. ground arith) t.messages s.below;
}

pub delete-SoundSide :
    (n id at : ℕ) (t : Table) → SoundSide n t → SoundSide n (delete_message_row id at t).1
unfolding delete_message_row
delete-SoundSide n id at t s = record {
  sound = delete_message_row-Sound id at t s.sound;
  below = ground (arith, Below-map n (delete_row id at) (λ m. ground arith) t.messages s.below);
}

pub set_reaction-SoundSide :
    (n msg user : ℕ) (emoji : List ℕ) (t : Table)
    → SoundSide n t
    → SoundSide n (record t { reactions = set_reaction_row msg user emoji t.reactions })
set_reaction-SoundSide n msg user emoji t s = record {
  sound = set_reaction-Sound msg user emoji t s.sound;
  below = s.below;
}

pub delete_reaction-SoundSide :
    (n msg user : ℕ) (t : Table) → SoundSide n t → SoundSide n (delete_reaction_row msg user t).1
unfolding delete_reaction_row
delete_reaction-SoundSide n msg user t s = record {
  sound = delete_reaction_row-Sound msg user t s.sound;
  below = s.below;
}

pub add_message-SoundSide :
    (n : ℕ) (m : Message) (t : Table)
    → SoundSide n t
    → m.id ≡ n
    → m.deleted_at ≡ none
    → SoundSide (n + 1) (add_message m t)
unfolding add_message
add_message-SoundSide n m t s e live = record {
  sound =
      unfold add_message in
      add_message-Sound m t s.sound (rw e (find_message-Below n t.messages s.below)) live;
  below =
      Below-append (n + 1) t.messages m (Below-mono n (n + 1) t.messages (omega arith) s.below)
        (omega arith);
}
