-- ===== src/Friends/Service.antt =====
-- internal/friends/service.go: the operations on the tables, and what they do besides: dropping
-- cached relationships, events to the other user, push notifications, and the hooks of OnBreak.
-- A failure of the database, the cache or a push changes nothing here and is left out.
use chirpy.Prelude.{ℕ, Bool, List, [], ◌∷◌, ◌++◌, if◌then◌else◌, ◌==◌, contains}
use chirpy.Friends.Model.{
  self_request, unknown_user, self_block, you_blocked, lookup_failed, Answer, done, refused,
}
use chirpy.Friends.Rows.{
  Db, block_between, unblock_user, list_friends, list_incoming, list_outgoing,
}
use chirpy.Friends.Repo.{create, accept, deny, cancel, unfriend, block}

-- What GetName of the users service answers, but for the name.
pub data Named : Type 0 where
  named : Named
  user_not_found : Named
  name_error : Named

pub data FriendEvent : Type 0 where
  add_friend_event : FriendEvent
  accept_event : FriendEvent
  deny_event : FriendEvent
  unfriend_event : FriendEvent

pub data Effect : Type 0 where
  forget : List ℕ → Effect
  -- The user, the event, its request and who it is from.
  push : ℕ → FriendEvent → ℕ → ℕ → Effect
  -- The user, and who the notification is from.
  alert_request : ℕ → ℕ → Effect
  alert_accept : ℕ → ℕ → Effect
  broke : ℕ → ℕ → Effect

abbrev pub Outcome : Type 0
Outcome = Answer (List Effect × Db)

-- The part of Send before Create.
unfoldable pub send_check : (ℕ → Named) → Db → ℕ → ℕ → Answer (Unit {0})
send_check names db from to = if from == to then refused self_request else elim (names to) [
  | user_not_found ↦ refused unknown_user
  | name_error ↦ refused lookup_failed
  | named ↦
      let (i_blocked, they_blocked) = block_between db from to in
      if i_blocked
      then refused you_blocked
      else if they_blocked
      then refused unknown_user
      else done tt
]

-- The part of Send from Create on; `alerts` tells whether a notifier is set.
unfoldable pub send_create : Bool → Db → ℕ → ℕ → ℕ → Outcome
send_create alerts db id from to = elim (create db id from to) [
  | refused e ↦ refused e
  | done after ↦
      let rest : List Effect = if alerts then alert_request to from ∷ [] else [] in
      done (forget (from ∷ to ∷ []) ∷ push to add_friend_event id from ∷ rest, after)
]

unfoldable pub send : (ℕ → Named) → Bool → Db → ℕ → ℕ → ℕ → Outcome
send names alerts db id from to = elim (send_check names db from to) [
  | refused e ↦ refused e
  | done ok ↦ send_create alerts db id from to
]

unfoldable pub accept_request : Bool → Db → ℕ → ℕ → Outcome
accept_request alerts db me id = elim (accept db id me) [
  | refused e ↦ refused e
  | done (sender, after) ↦
      let rest : List Effect = if alerts then alert_accept sender me ∷ [] else [] in
      done (forget (me ∷ sender ∷ []) ∷ push sender accept_event id me ∷ rest, after)
]

unfoldable pub deny_request : Db → ℕ → ℕ → Outcome
deny_request db me id = elim (deny db id me) [
  | refused e ↦ refused e
  | done (sender, after) ↦
      done (forget (me ∷ sender ∷ []) ∷ push sender deny_event id me ∷ [], after)
]

unfoldable pub cancel_request : Db → ℕ → ℕ → Outcome
cancel_request db me id = elim (cancel db id me) [
  | refused e ↦ refused e
  | done (receiver, after) ↦ done (forget (me ∷ receiver ∷ []) ∷ [], after)
]

-- An event of an unfriend or a block carries no request: 0.
unfoldable pub end_friendship : Db → ℕ → ℕ → Outcome
end_friendship db me other = elim (unfriend db me other) [
  | refused e ↦ refused e
  | done (row, after) ↦
      done (forget (me ∷ other ∷ []) ∷ broke me other ∷ push other unfriend_event 0 me ∷ [], after)
]

unfoldable pub block_other : Db → ℕ → ℕ → ℕ → Outcome
block_other db me other now =
    if me == other then refused self_block else elim (block db me other now) [
      | refused e ↦ refused e
      | done (were, after) ↦
          let rest : List Effect = if were then push other unfriend_event 0 me ∷ [] else [] in
          done (forget (me ∷ other ∷ []) ∷ broke me other ∷ rest, after)
    ]

unfoldable pub unblock_other : Db → ℕ → ℕ → Outcome
unblock_other db me other = done ([], unblock_user db me other)

-- AreFriends, on a snapshot that is up to date.
unfoldable pub are_friends : Db → ℕ → ℕ → Bool
are_friends db a b = contains (list_friends a db.rels) b

-- ForgetNames: the users whose cached lists show the name.
unfoldable pub forget_names : Db → ℕ → List ℕ
forget_names db u =
    u ∷ (list_friends u db.rels ++ (list_incoming u db.rels ++ list_outgoing u db.rels))
