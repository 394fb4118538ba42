-- ===== src/Chat/Forward.antt =====
-- internal/chat/service.go: Forward, with forwardError. Targets are sent to one after the other, each
-- through SendMessage without a client id; the new messages have the ids from `next` on.
use chirpy.Prelude.{
  ℕ, ◌+◌, Bool, true, false, not, ◌||◌, Option, none, some, List, [], ◌∷◌, ◌++◌, if◌then◌else◌, ltb,
  ◌==◌, length,
}
use chirpy.Chat.Model.{
  Kind, ChatErr, Result, ok, err, ◌>>=◌, require, message_not_found, bad_forward, Effect,
  not_friends, not_authorized, not_valid_to_id, not_supported_type, empty_message, media_disabled,
  media_refused,
}
use chirpy.Chat.Tables.{Tables, side, find_message, is_some, Message}
use chirpy.Chat.Authorize.{asked, authorize_message}
use chirpy.Chat.Change.{Outcome, and_then}
use chirpy.Chat.Send.{IdText, absent, Incoming, Services, Media, send}

abbrev pub max_forward_targets : ℕ
max_forward_targets = 5

pub record ForwardTarget : Type 0 where
  pub kind : Option Kind
  pub id : IdText

-- What a client is told of one target: a new message, an error it may see, or that it failed.
pub data ForwardResult : Type 0 where
  forwarded_as : ℕ → ForwardResult
  refused_as : ChatErr → ForwardResult
  failed : ForwardResult

-- forwardError. `media_refused` stands for the errors of the media service that are named there.
unfoldable pub forward_error : ChatErr → ForwardResult
forward_error not_friends = refused_as not_friends
forward_error not_authorized = refused_as not_authorized
forward_error not_valid_to_id = refused_as not_valid_to_id
forward_error not_supported_type = refused_as not_supported_type
forward_error empty_message = refused_as empty_message
forward_error media_refused = refused_as media_refused
forward_error media_disabled = refused_as media_disabled
forward_error other = failed

abbrev pub forward_answer : Result ℕ → ForwardResult
forward_answer (ok id) = forwarded_as id
forward_answer (err e) = forward_error e

-- MessageContent: the text, and whether the message is deleted.
abbrev pub content_of : Option Message → Result (List ℕ × Bool)
content_of none = err message_not_found
content_of (some m) = ok (m.content, is_some m.deleted_at)

-- A sender who is suspended has nothing to forward; one whose account is gone is not asked about.
unfoldable pub sender_allowed : Services → ℕ → Result (Unit {0})
sender_allowed s sender =
    if sender == 0
    then ok tt
    else asked (s.suspended sender) >>= λ banned. require (not banned) message_not_found

abbrev pub sources_of : Option Media → ℕ → Result (List ℕ)
sources_of none id = ok []
sources_of (some media) id = media.for_message id

-- Forward up to its loop: the text and the media to send.
unfoldable pub check_forward :
    Services → Tables → ℕ → ℕ → List ForwardTarget → Result (List ℕ × List ℕ)
unfolding sender_allowed
check_forward s t me id to = do
  counted ← require (not ((length to == 0) || ltb max_forward_targets (length to))) bad_forward
  found ← authorize_message s.world t me id false
  content ← content_of (find_message id (side found.0.kind t).messages)
  there ← require (not content.1) message_not_found
  allowed ← sender_allowed s found.0.sender
  media ← sources_of s.media id
  ok (content.0, media)

-- The copies of the media for one target, up to the first that fails.
unfoldable pub duplicate_all : Option Media → ℕ → List ℕ → Result (List ℕ)
duplicate_all none me sources = ok []
duplicate_all (some media) me [] = ok []
duplicate_all (some media) me (a ∷ sources) = do
  copy ← media.duplicate me a
  copies ← duplicate_all (some media) me sources
  ok (copy ∷ copies)

abbrev pub copy_of : List ℕ → ForwardTarget → List ℕ → Incoming
copy_of text to media = record {
  content = text;
  parent_id = absent;
  to_id = to.id;
  kind = to.kind;
  media = media;
  forwarded = true;
}

unfoldable pub forward_one :
    Services → ℕ → List ℕ → List ℕ → ForwardTarget → ℕ → ℕ → Tables → Outcome ℕ
unfolding duplicate_all
forward_one s me text sources to id now t =
    and_then t (duplicate_all s.media me sources)
      (λ copies. send s me (copy_of text to copies) id now t)

pub record Forwarded : Type 0 where
  pub tables : Tables
  pub effects : List Effect
  pub results : List ForwardResult

abbrev pub then_more : Outcome ℕ → (Tables → Forwarded) → Forwarded
then_more one more =
    let rest : Forwarded = more one.tables in
    record {
      tables = rest.tables;
      effects = one.effects ++ rest.effects;
      results = forward_answer one.answer ∷ rest.results;
    }

-- The ids are drawn from `id` on.
unfoldable pub forward_all :
    Services → ℕ → List ℕ → List ℕ → List ForwardTarget → ℕ → ℕ → Tables → Forwarded
unfolding forward_one forward_error
forward_all s me text sources [] id now t = record { tables = t; effects = []; results = [] }
forward_all s me text sources (to ∷ rest) id now t =
    then_more (forward_one s me text sources to id now t)
      (forward_all s me text sources rest (id + 1) now)

unfoldable pub forward : Services → ℕ → ℕ → List ForwardTarget → ℕ → ℕ → Tables → Result Forwarded
unfolding check_forward forward_all
forward s me id to next now t = do
  found ← check_forward s t me id to
  ok (forward_all s me found.0 found.1 to next now t)
