-- ===== src/Chat/Model.antt =====
-- internal/chat/model.go: kinds, errors, constants, and what the service returns besides. Ids are
-- numbers, and 0 is uuid.Nil; a text is the list of its runes; times are nanoseconds.
use chirpy.Prelude.{
  ℕ, ◌*◌, Bool, true, false, ◌||◌, ◌&&◌, Option, List, [], ◌∷◌, ◌++◌, if◌then◌else◌, leb, ◌==◌,
}

pub data Kind : Type 0 where
  private : Kind
  public : Kind

abbrev pub is_private : Kind → Bool
is_private private = true
is_private public = false

pub data ChatErr : Type 0 where
  not_authorized : ChatErr
  not_friends : ChatErr
  not_valid_to_id : ChatErr
  not_valid_uuid : ChatErr
  not_valid_time : ChatErr
  not_valid_parent : ChatErr
  not_supported_type : ChatErr
  empty_message : ChatErr
  not_in_chat : ChatErr
  bad_cursor : ChatErr
  since_and_before : ChatErr
  since_not_supported : ChatErr
  message_not_found : ChatErr
  not_your_message : ChatErr
  edit_window_closed : ChatErr
  not_group_message : ChatErr
  group_too_big : ChatErr
  bad_forward : ChatErr
  not_an_emoji : ChatErr
  bad_client_id : ChatErr
  -- Errors of the other services: a group that is unknown, media that is off or refused, and failures.
  unknown_group : ChatErr
  media_disabled : ChatErr
  media_refused : ChatErr
  lookup_failed : ChatErr

pub data Result {ℓ} (A : Type ℓ) : Type ℓ where
  ok : A → Result A
  err : ChatErr → Result A

infixl 10 ◌>>=◌
abbrev pub ◌>>=◌ {ℓ κ} : {A : Type ℓ} {B : Type κ} → Result A → (A → Result B) → Result B
ok a >>= f = f a
err e >>= f = err e

abbrev pub is_ok {ℓ} : {A : Type ℓ} → Result A → Bool
is_ok (ok a) = true
is_ok (err e) = false

-- `if !test { return e }`
abbrev pub require : Bool → ChatErr → Result (Unit {0})
require true e = ok tt
require false e = err e

abbrev pub edit_window : ℕ
edit_window = 15 * 60 * 1000000000

abbrev pub max_message_len : ℕ
max_message_len = 500

abbrev pub read_by_max_members : ℕ
read_by_max_members = 50

-- messageRef: `to` is the receiver of a private message, `group` the group of another one.
pub record MessageRef : Type 0 where
  pub kind : Kind
  pub sender : ℕ
  pub receiver : ℕ
  pub group : ℕ
  pub created_at : ℕ

-- unicode.IsSpace.
abbrev pub is_space : ℕ → Bool
is_space c =
    (leb 9 c && leb c 13)
    || ((c == 32)
        || ((c == 133)
            || ((c == 160)
                || ((c == 5760)
                    || ((leb 8192 c && leb c 8202)
                        || ((c == 8232)
                            || ((c == 8233) || ((c == 8239) || ((c == 8287) || (c == 12288))))))))))

abbrev drop_spaces : List ℕ → List ℕ
drop_spaces [] = []
drop_spaces (c ∷ s) = if is_space c then drop_spaces s else c ∷ s

abbrev cut_spaces : List ℕ → List ℕ
cut_spaces [] = []
cut_spaces (c ∷ s) = elim (cut_spaces s) [
  | [] ↦ if is_space c then [] else c ∷ []
  | d ∷ r ↦ c ∷ d ∷ r
]

-- strings.TrimSpace.
unfoldable pub trim_space : List ℕ → List ℕ
trim_space s = cut_spaces (drop_spaces s)

pub data ChatEvent : Type 0 where
  -- The message, its sender, its kind, the group of a public one, and its text.
  message_event : ℕ → ℕ → Kind → ℕ → List ℕ → ChatEvent
  edited_event : ℕ → ℕ → Kind → ℕ → List ℕ → ℕ → ChatEvent
  -- The last one is who deleted it, if that was not its sender.
  deleted_event : ℕ → ℕ → Kind → ℕ → Option ℕ → ChatEvent
  -- The emoji, or [] when it is removed.
  reaction_event : ℕ → ℕ → Kind → ℕ → List ℕ → ChatEvent
  seen_event : ℕ → ℕ → ChatEvent
  group_read_event : ℕ → ℕ → ℕ → ChatEvent

pub data Effect : Type 0 where
  push : List ℕ → ChatEvent → Effect
  -- A push notification: to whom, from whom, the group or none, and the message.
  notify_message : List ℕ → ℕ → Option ℕ → ℕ → Effect
  notify_reaction : List ℕ → ℕ → Option ℕ → ℕ → List ℕ → Effect
  expire_media : ℕ → Effect
  publish_seen : ℕ → ℕ → ℕ → ℕ → Effect

-- withMe.
abbrev pub with_me : List ℕ → ℕ → List ℕ
with_me targets me = targets ++ (me ∷ [])

-- slices.DeleteFunc(members, id == me)
abbrev pub without : ℕ → List ℕ → List ℕ
without me [] = []
without me (u ∷ us) = if u == me then without me us else u ∷ without me us
