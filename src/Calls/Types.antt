-- ===== src/Calls/Types.antt =====
-- The data of internal/calls/calls.go: reasons, errors, events, one call, and what a call sends.
-- User, call, connection and timer identifiers are numbers; uuid.Nil is 0. Times and durations are
-- nanoseconds.
use chirpy.Prelude.{ℕ, ◌-◌, ◌/◌, Bool, Option, none, some, List, if◌then◌else◌, leb, ◌==◌}

-- CallEnded.reason.
pub data Reason : Type 0 where
  ended missed declined cancelled busy disconnected elsewhere unfriended limit : Reason

-- CallError.error.
pub data CallErr : Type 0 where
  not_friends in_call rate_limited unknown_call bad_request unavailable daily_limit : CallErr

-- The `state` column of the call log; `active` is written by the AnswerCall query.
pub data LogState : Type 0 where
  ringing failed : LogState
  of_reason : Reason → LogState

-- A signed duration, the result of `Time.Sub`.
pub data Duration : Type 0 where
  forward : ℕ → Duration
  backward : ℕ → Duration

abbrev pub sub_time : ℕ → ℕ → Duration
sub_time now t = if leb t now then forward (now - t) else backward (t - now)

-- Duration.Milliseconds truncates towards zero.
abbrev pub milliseconds : Duration → Duration
milliseconds (forward n) = forward (n / 1000000)
milliseconds (backward n) = if n / 1000000 == 0 then forward 0 else backward (n / 1000000)

abbrev pub second : ℕ
second = 1000000000

abbrev pub minute : ℕ
minute = 60000000000

abbrev pub ring_timeout : ℕ
ring_timeout = 45000000000

abbrev pub reconnect_grace : ℕ
reconnect_grace = 30000000000

abbrev pub max_duration : ℕ
max_duration = 14400000000000

abbrev pub max_signal_bytes : ℕ
max_signal_bytes = 16384

abbrev pub max_signals : ℕ
max_signals = 500

abbrev pub starts_per_minute : ℕ
starts_per_minute = 10

-- ws.Conn: a user on one device.
pub record Conn : Type 0 where
  pub user : ℕ
  pub id : ℕ

pub record Call : Type 0 where
  pub id : ℕ
  pub caller : ℕ
  pub callee : ℕ
  pub caller_conn : ℕ
  pub callee_conn : ℕ
  pub active : Bool
  pub started : ℕ
  pub answered : ℕ
  pub timer : ℕ
  pub lost : List (ℕ × ℕ)  -- user to the timer of the reconnect grace
  pub signals : ℕ → ℕ

unfoldable pub peer : Call → ℕ → ℕ
peer c u = if u == c.caller then c.callee else c.caller

unfoldable pub conn : Call → ℕ → ℕ
conn c u = if u == c.caller then c.caller_conn else c.callee_conn

pub data Event : Type 0 where
  ringing_event : ℕ → ℕ → Event  -- call_id, to_id
  incoming_event : ℕ → ℕ → Event  -- call_id, from_id
  accepted_event : ℕ → Event  -- call_id
  ended_event : ℕ → Reason → Duration → Event  -- call_id, reason, duration_ms
  error_event : Option ℕ → CallErr → Event  -- call_id unless Nil, error
  resumed_event : ℕ → ℕ → Event  -- call_id, peer_id
  signal_event : ℕ → ℕ → List ℕ → Event  -- call_id, from_id, data

-- database.InsertCallParams. A pgtype.UUID of uuid.Nil is not valid: `none`.
pub record InsertCall : Type 0 where
  pub id : ℕ
  pub caller_id : Option ℕ
  pub callee_id : Option ℕ
  pub state : LogState
  pub started_at : ℕ
  pub ended_at : Option ℕ
  pub end_reason : Option Reason

unfoldable pub pg_uuid : ℕ → Option ℕ
pg_uuid id = if id == 0 then none else some id

-- What an operation hands to the hub, the call log and the push service, in order.
pub data Effect : Type 0 where
  send_to_conn : Conn → Event → Effect
  write_to_users : List ℕ → Event → Effect
  write_to_user_except : ℕ → ℕ → Event → Effect
  insert_call : InsertCall → Effect
  answer_call : ℕ → ℕ → Effect  -- id, at
  finish_call : ℕ → LogState → Reason → ℕ → Effect  -- id, state, end_reason, at
  notify_call : ℕ → ℕ → ℕ → Effect  -- to, from, call
  notify_missed : ℕ → ℕ → ℕ → Effect  -- to, from, call

unfoldable pub ended_payload : ℕ → Reason → Duration → Event
ended_payload id reason d = ended_event id reason (milliseconds d)

unfoldable pub incoming : Call → Event
incoming c = incoming_event c.id c.caller

-- CallError carries the call unless it is uuid.Nil.
unfoldable pub fail : Conn → ℕ → CallErr → Effect
fail to id code = send_to_conn to (error_event (if id == 0 then none else some id) code)
