-- ===== src/Chat/Rows.antt =====
-- The tables of messages and reactions under their queries: what is kept of each row.
use chirpy.Prelude.{
  ℕ, ◌≡◌, refl, Bool, true, not, ◌&&◌, none, some, List, [], ◌∷◌, ◌++◌, if◌then◌else◌, ◌==◌, keep,
  map, All, arith,
}
use chirpy.Chat.Tables.{
  Message, Reaction, Table, is_some, find_message, add_message, edit_row, edit_message_row,
  delete_row, delete_message_row, is_reaction, set_reaction_row, find_reaction, delete_reaction_row,
}

-- A deleted message has no text.
abbrev pub IsBlank : Message → Type 0
IsBlank m = is_some m.deleted_at ≡ true → m.content ≡ []

-- No id twice.
abbrev pub Unique : List Message → Type 0
Unique [] = Unit {0}
Unique (m ∷ ms) = (find_message m.id ms ≡ none) × Unique ms

-- A user has one reaction to a message at most.
abbrev pub OnePerUser : List Reaction → Type 0
OnePerUser [] = Unit {0}
OnePerUser (r ∷ rs) = (find_reaction r.message_id r.user_id rs ≡ none) × OnePerUser rs

pub record Sound (t : Table) : Type 0 where
  pub unique : Unique t.messages
  pub blank : All IsBlank t.messages
  pub one_per_user : OnePerUser t.reactions

-- A rewriting of rows that leaves their ids.
pub find_message-map :
    (f : Message → Message) (same : (m : Message) → (f m).id ≡ m.id) (id : ℕ) (ms : List Message)
    → (find_message id ms ≡ none)
    → find_message id (map f ms) ≡ none
find_message-map f same id [] e = refl
find_message-map f same id (m ∷ ms) e = ground (arith, same m, find_message-map f same id ms)

pub Unique-map :
    (f : Message → Message) (same : (m : Message) → (f m).id ≡ m.id) (ms : List Message)
    → Unique ms
    → Unique (map f ms)
Unique-map f same [] u = tt
Unique-map f same (m ∷ ms) u =
    (rw (same m) (find_message-map f same m.id ms u.0), Unique-map f same ms u.1)

pub Blank-map :
    (f : Message → Message) (keeps : (m : Message) → IsBlank m → IsBlank (f m)) (ms : List Message)
    → All IsBlank ms
    → All IsBlank (map f ms)
Blank-map f keeps [] u = tt
Blank-map f keeps (m ∷ ms) u = (keeps m u.0, Blank-map f keeps ms u.1)

pub find_message-append :
    (id : ℕ) (ms : List Message) (n : Message)
    → find_message id (ms ++ (n ∷ []))
      ≡ (if is_some (find_message id ms) then find_message id ms else find_message id (n ∷ []))
find_message-append id [] n = refl
find_message-append id (m ∷ ms) n = ground (arith, find_message-append id ms n)

pub Unique-append :
    (ms : List Message) (n : Message)
    → Unique ms
    → find_message n.id ms ≡ none
    → Unique (ms ++ (n ∷ []))
Unique-append [] n u e = (refl, tt)
Unique-append (m ∷ ms) n u e =
    (ground (arith, find_message-append m.id ms n), Unique-append ms n u.1 (ground arith))

pub Blank-append :
    (ms : List Message) (n : Message) → All IsBlank ms → IsBlank n → All IsBlank (ms ++ (n ∷ []))
Blank-append [] n u b = (b, tt)
Blank-append (m ∷ ms) n u b = (u.0, Blank-append ms n u.1 b)

pub find_reaction-keep :
    (test : Reaction → Bool) (msg user : ℕ) (rs : List Reaction)
    → find_reaction msg user rs ≡ none
    → find_reaction msg user (keep test rs) ≡ none
find_reaction-keep test msg user [] e = refl
find_reaction-keep test msg user (r ∷ rs) e = ground (arith, find_reaction-keep test msg user rs)

pub OnePerUser-keep :
    (test : Reaction → Bool) (rs : List Reaction) → OnePerUser rs → OnePerUser (keep test rs)
OnePerUser-keep test [] u = tt
OnePerUser-keep test (r ∷ rs) u =
    ground (arith, find_reaction-keep test r.message_id r.user_id rs, OnePerUser-keep test rs)

-- After SetReaction the user has the emoji, and everybody else what they had.
pub find_reaction-set_reaction_row :
    (msg user j u : ℕ) (emoji : List ℕ) (rs : List Reaction)
    → find_reaction j u (set_reaction_row msg user emoji rs) ≡ (
        if (msg == j) && (user == u)
        then some (record { message_id = msg; user_id = user; emoji = emoji })
        else find_reaction j u rs)
unfolding set_reaction_row
find_reaction-set_reaction_row msg user j u emoji [] = refl
find_reaction-set_reaction_row msg user j u emoji (r ∷ rs) =
    ground (arith, find_reaction-set_reaction_row msg user j u emoji rs)

pub OnePerUser-set_reaction_row :
    (msg user : ℕ) (emoji : List ℕ) (rs : List Reaction)
    → OnePerUser rs
    → OnePerUser (set_reaction_row msg user emoji rs)
unfolding set_reaction_row
OnePerUser-set_reaction_row msg user emoji [] u = (refl, tt)
OnePerUser-set_reaction_row msg user emoji (r ∷ rs) u = ground (
  arith,
  find_reaction-set_reaction_row msg user r.message_id r.user_id emoji rs,
  OnePerUser-set_reaction_row msg user emoji rs,
)

pub find_reaction-delete :
    (msg user j u : ℕ) (rs : List Reaction)
    → find_reaction j u (keep (λ r. not (is_reaction msg user r)) rs)
      ≡ (if (msg == j) && (user == u) then none else find_reaction j u rs)
find_reaction-delete msg user j u [] = ground arith
find_reaction-delete msg user j u (r ∷ rs) = ground (arith, find_reaction-delete msg user j u rs)

-- Every query keeps a table sound; an insert, if the id is new and the message is not deleted.
pub add_message-Sound :
    (m : Message) (t : Table)
    → Sound t
    → find_message m.id t.messages ≡ none
    → m.deleted_at ≡ none
    → Sound (add_message m t)
unfolding add_message
add_message-Sound m t s fresh live = record {
  unique = Unique-append t.messages m s.unique fresh;
  blank = Blank-append t.messages m s.blank (λ e. ground arith);
  one_per_user = s.one_per_user;
}

pub edit_message_row-Sound :
    (id : ℕ) (content : List ℕ) (at : ℕ) (t : Table)
    → Sound t
    → Sound (edit_message_row id content at t).1
unfolding edit_message_row
edit_message_row-Sound id content at t s = record {
  unique = Unique-map (edit_row id content at) (λ m. ground arith) t.messages s.unique;
  blank = Blank-map (edit_row id content at) (λ m b d. ground (arith, b)) t.messages s.blank;
  one_per_user = s.one_per_user;
}

pub delete_message_row-Sound :
    (id at : ℕ) (t : Table) → Sound t → Sound (delete_message_row id at t).1
unfolding delete_message_row
delete_message_row-Sound id at t s =
    let there : Sound (record {
      messages = map (delete_row id at) t.messages;
      reactions = keep (λ r. not (r.message_id == id)) t.reactions;
    }) =
      record {
        unique = Unique-map (delete_row id at) (λ m. ground arith) t.messages s.unique;
        blank = Blank-map (delete_row id at) (λ m b d. ground (arith, b)) t.messages s.blank;
        one_per_user = OnePerUser-keep (λ r. not (r.message_id == id)) t.reactions s.one_per_user;
      } in
    ground (arith, there)

pub set_reaction-Sound :
    (msg user : ℕ) (emoji : List ℕ) (t : Table)
    → Sound t
    → Sound (record t { reactions = set_reaction_row msg user emoji t.reactions })
set_reaction-Sound msg user emoji t s = record {
  unique = s.unique;
  blank = s.blank;
  one_per_user = OnePerUser-set_reaction_row msg user emoji t.reactions s.one_per_user;
}

pub delete_reaction_row-Sound :
    (msg user : ℕ) (t : Table) → Sound t → Sound (delete_reaction_row msg user t).1
unfolding delete_reaction_row
delete_reaction_row-Sound msg user t s = record {
  unique = s.unique;
  blank = s.blank;
  one_per_user = OnePerUser-keep (λ r. not (is_reaction msg user r)) t.reactions s.one_per_user;
}
