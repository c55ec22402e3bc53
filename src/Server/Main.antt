-- ===== src/Server/Main.antt =====
-- `main` of src/yotta.cpp: the options, and the server as the client of the event loop.
pub mod Life
pub mod Sending
pub mod Timeout
pub mod Safety
use yotta.Prelude.{ℕ, false, Option, List, [], ◌∷◌, Bytes}
use yotta.Core.Outcome.{Outcome, done, ◌>>=◌}
use yotta.Core.Context.{TimerAnswers}
use yotta.Core.Process.{Master}
use yotta.Core.Reactor.{Reactor, Client, MasterEvent, serve_event}
use yotta.Core.Startup.{Running, RunAnswers, yta_run}
use yotta.Server.State.{UserData, IoCallback, Callback, empty_parser}
use yotta.Server.Handler.{Env, io, plain, accept_callback_http}
use yotta.Server.Options.{get_program_opts}

-- What `accept_callback_http` is answered for the connection of a descriptor: its timer, and the memory
-- that `new` gives.
abbrev pub AcceptAnswers : Type 0
AcceptAnswers = ℕ → TimerAnswers × Option UserData

-- The null pointer of a context that has no `user_data` yet.
unfoldable pub no_user_data : UserData
unfolding empty_parser
no_user_data = record {
  counter = 0;
  buf = 0;
  response_buf = 0;
  response = [];
  finalized = false;
  response_size = 0;
  content = false;
  extension = [];
  file_fd = 0;
  file_size = 0;
  offset = 0;
  parser = empty_parser;
  file_stat = record { is_regular = false; st_size = 0; st_mtime = 0 };
  closed_files = [];
  reads = 0;
}

unfoldable pub http_client : Env → AcceptAnswers → Client UserData IoCallback Callback
http_client env accepted = record {
  io = io env;
  plain = plain;
  accept = λ ctx. let answers = accepted ctx.fd in accept_callback_http answers.0 answers.1 ctx;
  no_data = no_user_data;
}

-- A batch of events with the surroundings at that time: the bytes that come, the files and the dates are
-- others each time. A batch of several events can be taken as that many moments.
pub record Moment : Type 0 where
  pub env : Env
  pub accepted : AcceptAnswers
  pub event : MasterEvent

-- The rounds of the loop of `serve`.
unfoldable pub serve_moments :
    Reactor UserData IoCallback Callback
    → List Moment
    → Outcome (Reactor UserData IoCallback Callback)
serve_moments reactor [] = done reactor
serve_moments reactor (m ∷ ms) = do
  reactor' ← serve_event (http_client m.env m.accepted) reactor m.event
  serve_moments reactor' ms

-- `given` is what `getopt` gives; the surroundings are the same throughout (see `Moment` for others).
unfoldable pub main :
    Env
    → AcceptAnswers
    → Master
    → List (ℕ × Bytes)
    → RunAnswers
    → Outcome (Running UserData IoCallback Callback)
main env accepted m given a =
    let opts = get_program_opts given in
    yta_run (http_client env accepted) m opts.host opts.port opts.pid_file opts.daemonize
      opts.workers a
