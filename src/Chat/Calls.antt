-- ===== src/Chat/Calls.antt =====
-- Calls of the chat service one after another, each with the answers that the other services give it,
-- and with the tables as they were when it asked whether it may. New messages get ids that no message
-- has had: uuid.NewV7 is a counter here.
use chirpy.Prelude.{ℕ, ◌+◌, Bool, List, [], ◌∷◌, length}
use chirpy.Chat.Model.{Result, ok, err}
use chirpy.Chat.Tables.{Tables}
use chirpy.Chat.Change.{edit_message, delete_message, react, unreact}
use chirpy.Chat.Send.{Incoming, Services, send}
use chirpy.Chat.Forward.{ForwardTarget, Forwarded, forward}

pub data Call : Type 0 where
  send_call : Services → ℕ → Incoming → ℕ → Call
  edit_call : Services → Tables → ℕ → ℕ → List ℕ → ℕ → Call
  delete_call : Services → Bool → Tables → ℕ → ℕ → ℕ → Call
  react_call : Services → Tables → ℕ → ℕ → List ℕ → Call
  unreact_call : Services → Tables → ℕ → ℕ → Call
  forward_call : Services → ℕ → ℕ → List ForwardTarget → ℕ → Call

abbrev pub forwarded_tables : Tables → Result Forwarded → Tables
forwarded_tables t (ok f) = f.tables
forwarded_tables t (err e) = t

-- How many ids a call may draw.
abbrev pub drawn : Call → ℕ
drawn (send_call s from m now) = 1
drawn (forward_call s me id to now) = length to
drawn other = 0

unfoldable pub perform : Call → ℕ → Tables → Tables
perform (send_call s from m now) next t = (send s from m next now t).tables
perform (edit_call s seen me id content now) next t =
    (edit_message s.world seen me id content now t).tables
perform (delete_call s media seen me id now) next t =
    (delete_message s.world media seen me id now t).tables
perform (react_call s seen me id emoji) next t =
    (react s.world s.notifier seen me id emoji t).tables
perform (unreact_call s seen me id) next t = (unreact s.world seen me id t).tables
perform (forward_call s me id to now) next t = forwarded_tables t (forward s me id to next now t)

unfoldable pub perform_all : List Call → ℕ → Tables → Tables
unfolding perform
perform_all [] next t = t
perform_all (c ∷ cs) next t = perform_all cs (next + drawn c) (perform c next t)
