-- ===== src/Queue/Tests.antt =====
-- Two workers, two jobs that are equal, and one with another payload.
use chirpy.Prelude.{◌||◌, ◌≡◌, refl, Bool, true, [], ◌∷◌, List, ltb}
use chirpy.Queue.Jobs.{
  Job, backoff, handled, failed, permanent, process_job, put_delayed, publish, add, add_all,
  move_due, settle, next_step,
}
use chirpy.Queue.Steps.{Act, publishing, reading, processing, moving, act, act_all, new_system}
use chirpy.Queue.Keys.{is_held}
use chirpy.Queue.Kept.{is_ended, is_asked-act_all}

backoff_first : backoff 1 ≡ 200
unfolding backoff
backoff_first = refl

backoff_late : backoff 100 ≡ 30000
unfolding backoff
backoff_late = refl

-- The texts by their payloads.
abbrev by_payload : Job → Job → Bool
by_payload j k = ltb j.payload k.payload

abbrev evening : List Act
evening =
    publishing 1 10
    ∷ publishing 1 11
    ∷ reading 0
    ∷ reading 0
    ∷ reading 1
    ∷ processing 0 failed true 0
    ∷ processing 5 failed true 0
    ∷ processing 6 permanent true 0
    ∷ moving 300
    ∷ reading 0
    ∷ processing 310 handled true 0
    ∷ []

one_dead :
    (act_all by_payload 3 evening new_system).queue.dead
    ≡ record { topic = 1; payload = 11; attempt = 1 } ∷ []
unfolding act_all act publish add move_due add_all process_job settle next_step backoff put_delayed
one_dead = refl

is_asked-act_all_example :
    (is_held 1 10 (act_all by_payload 3 evening new_system).queue
      || is_ended by_payload 3 1 10 evening new_system)
    ≡ true
is_asked-act_all_example = is_asked-act_all by_payload 3 1 10 evening refl
