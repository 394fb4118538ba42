-- ===== src/Friends/Model.antt =====
-- internal/friends/model.go: the errors, and what an operation answers.
pub data FriendErr : Type 0 where
  self_request : FriendErr
  request_exists : FriendErr
  already_friends : FriendErr
  request_not_found : FriendErr
  unknown_user : FriendErr
  not_friends : FriendErr
  self_block : FriendErr
  you_blocked : FriendErr
  -- The users service could not answer.
  lookup_failed : FriendErr

pub data Answer {ℓ} (A : Type ℓ) : Type ℓ where
  done : A → Answer A
  refused : FriendErr → Answer A
