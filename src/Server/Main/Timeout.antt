-- ===== src/Server/Main/Timeout.antt =====
-- The timeout of a connection of src/yotta.cpp, in `serve_timers` of src/core/yta_event_loop.c.
use yotta.Prelude.{ℕ, ◌∷◌, ◌++◌}
use yotta.Prelude.Int.{decrement}
use yotta.Core.Heap.{free}
use yotta.Core.Reactor.{Reactor, fds_of}
use yotta.Server.State.{UserData, IoCallback, Callback, Connection}
use yotta.Server.Handler.{Env, close_file}
use yotta.Server.Main.{AcceptAnswers, http_client}

abbrev State : Type 0
State = Reactor UserData IoCallback Callback

-- What `http_cleanup` makes of a connection.
abbrev cleaned_up : Connection → Connection
cleaned_up ctx = record ctx { user_data = close_file ctx.user_data }

module _ (env : Env) (accepted : AcceptAnswers) where
  -- The state when a connection is over, with its context as the cleanup has left it.
  abbrev over : State → ℕ → Connection → State
  over r a ctx = record r {
    contexts = free a r.contexts;
    current_clients = decrement r.current_clients;
    closed = fds_of (http_client env accepted) ctx ++ r.closed;
    ended = cleaned_up ctx ∷ r.ended;
  }
