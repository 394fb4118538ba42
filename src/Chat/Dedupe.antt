-- ===== src/Chat/Dedupe.antt =====
-- internal/chat/dedupe.go, and SendMessage with a client id. A key is a sender and a client id; an entry
-- is known by its number, and `done` is its channel with what send has returned. Each part of do under
-- the mutex is a function; the goroutines' parts come in any order.
use chirpy.Prelude.{
  ℕ, ◌+◌, ◌-◌, ◌*◌, Bool, true, false, not, ◌&&◌, Option, none, some, List, [], ◌∷◌, if◌then◌else◌,
  ltb, ◌==◌, length, keep, update,
}
use chirpy.Chat.Model.{Result, ok, err, bad_client_id}
use chirpy.Chat.Send.{IdText, absent, garbled, id_is}

abbrev pub dedupe_window : ℕ
dedupe_window = 10 * 60 * 1000000000

abbrev pub minute : ℕ
minute = 60 * 1000000000

pub record DedupeKey : Type 0 where
  pub from : ℕ
  pub client : ℕ

abbrev pub same_key : DedupeKey → DedupeKey → Bool
same_key j k = (j.from == k.from) && (j.client == k.client)

pub record DedupeEntry : Type 0 where
  pub done : Option (Result ℕ)
  pub at : ℕ

-- The map, from keys to the numbers of entries; `entries` holds also those that are out of it.
pub record Dedupe : Type 0 where
  pub keys : List (DedupeKey × ℕ)
  pub entries : ℕ → DedupeEntry
  pub made : ℕ
  pub last_gc : ℕ
  pub max_keys : ℕ

abbrev pub find_key : DedupeKey → List (DedupeKey × ℕ) → Option ℕ
find_key k [] = none
find_key k ((j, e) ∷ m) = if same_key j k then some e else find_key k m

abbrev pub remove_key : DedupeKey → List (DedupeKey × ℕ) → List (DedupeKey × ℕ)
remove_key k [] = []
remove_key k ((j, e) ∷ m) = if same_key j k then remove_key k m else (j, e) ∷ remove_key k m

abbrev pub is_done : DedupeEntry → Bool
is_done e = elim e.done [ none ↦ false | some r ↦ true ]

abbrev pub expired : ℕ → DedupeEntry → Bool
expired now e = ltb dedupe_window (now - e.at)

-- gc: too many keys are all dropped; once a minute, those that are done and expired.
unfoldable pub sweep : ℕ → Dedupe → Dedupe
sweep now d = if ltb (now - d.last_gc) minute then d else record d {
  last_gc = now;
  keys =
      keep (λ (p : DedupeKey × ℕ). not (is_done (d.entries p.1) && expired now (d.entries p.1)))
        d.keys;
}

unfoldable pub collect : ℕ → Dedupe → Dedupe
unfolding sweep
collect now d = sweep now (if ltb d.max_keys (length d.keys) then record d { keys = [] } else d)

pub data Verdict : Type 0 where
  run_send : ℕ → Verdict
  wait_for : ℕ → Verdict

-- A new entry in the map: this call runs send.
unfoldable pub start_entry : DedupeKey → ℕ → Dedupe → Dedupe × Verdict
start_entry k now d = (
  record d {
    keys = (k, d.made) ∷ remove_key k d.keys;
    entries = update d.entries d.made (record { done = none; at = now });
    made = d.made + 1;
  },
  run_send d.made,
)

-- The first part of do under the mutex.
unfoldable pub look_up : DedupeKey → ℕ → Dedupe → Dedupe × Verdict
unfolding start_entry
look_up k now d = elim (find_key k d.keys) [
  | none ↦ start_entry k now d
  | some e ↦ if expired now (d.entries e) then start_entry k now d else (d, wait_for e)
]

unfoldable pub enter : DedupeKey → ℕ → Dedupe → Dedupe × Verdict
unfolding collect look_up
enter k now d = look_up k now (collect now d)

-- forget: the key, unless another entry has it.
abbrev pub holds_entry : ℕ → Option ℕ → Bool
holds_entry e none = false
holds_entry e (some f) = f == e

unfoldable pub forget : DedupeKey → ℕ → Dedupe → Dedupe
forget k e d =
    if holds_entry e (find_key k d.keys) then record d { keys = remove_key k d.keys } else d

-- send has returned: the entry is closed, and forgotten if it failed.
unfoldable pub finish : DedupeKey → ℕ → Result ℕ → Dedupe → Dedupe
unfolding forget
finish k e r d =
    let closed : Dedupe = record d {
      entries = update d.entries e (record { done = some r; at = (d.entries e).at });
    } in
    elim r [ ok id ↦ closed | err x ↦ forget k e closed ]

pub data Waited : Type 0 where
  still_waiting : Waited
  same_message : ℕ → Waited
  try_again : Waited

-- What a call that waits for an entry finds.
unfoldable pub resume : ℕ → Dedupe → Waited
resume e d = elim (d.entries e).done [
  | none ↦ still_waiting
  | some (ok id) ↦ same_message id
  | some (err x) ↦ try_again
]

-- SendMessage: no client id is no key.
pub data Keyed : Type 0 where
  plain : Keyed
  keyed : DedupeKey → Keyed

unfoldable pub client_key : ℕ → IdText → Result Keyed
client_key from absent = ok plain
client_key from garbled = err bad_client_id
client_key from (id_is c) = ok (keyed (record { from = from; client = c }))
