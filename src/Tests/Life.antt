-- ===== src/Tests/Life.antt =====
-- A worker of the server that accepts a client and reads the start of its request, and a connection whose
-- time is over; and the options.
use yotta.Prelude.{ℕ, length, ◌≡◌, refl, true, false, some, none, List, [], ◌∷◌, codes, arith}
use yotta.Prelude.Int.{pos}
use yotta.Core.Outcome.{done, done-unique}
use yotta.Core.Context.{new_ctx, async_read, async_write, async_timer, set_close_callback}
use yotta.Core.Transfer.{count, read_loop, read_round}
use yotta.Core.Heap.{load, store}
use yotta.Core.Reactor.{
  Reactor, Client, SocketEvent, sockets, is_hangup, require, allocated, admit, accept_round,
  accept_loop, do_reads, do_writes, close_on_error, transfer, serve_socket, serve_sockets,
  serve_event,
}
use yotta.Core.Reactor.Connections.{Kept, SocketsFit}
use yotta.Core.Transfer.Keeping.{ReadsFit}
use yotta.Core.Startup.{descriptor, create_reactor}
use yotta.Http.Response.{serve_400}
use yotta.Server.State.{
  UserData, Connection, IoCallback, Callback, http_finish_callback, http_cleanup, timer_callback,
  reset, accept_logic, empty_parser, return_400, finish_with, write_header_callback,
}
use yotta.Server.Handler.{
  Env, malformed, handle_parsed, store_parsed, after_parse, read_request, io, accept_callback_http,
}
use yotta.Server.Handler.Phases.{InPhase}
use yotta.Server.Main.{AcceptAnswers, Moment, serve_moments, http_client, no_user_data}
use yotta.Core.Reactor.{TimerEvent}
use yotta.Server.Main.Life.{MomentsFit, serve_moments-InPhase}
use yotta.Server.Options.{default_options, get_program_opts}
use yotta.Server.Options.Last.{each_last, get_program_opts-each_last}
use yotta.Tests.Core.{quiet, arrival}
use yotta.Tests.Server.{fresh, surroundings}
use yotta.Tests.Startup.{all_well}

get_program_opts-each_last_example :
    get_program_opts ((b'p', codes "80") ∷ (b'g', []) ∷ (b'p', codes "81") ∷ [])
    ≡ each_last default_options ((b'p', codes "80") ∷ (b'g', []) ∷ (b'p', codes "81") ∷ [])
get_program_opts-each_last_example =
    get_program_opts-each_last ((b'p', codes "80") ∷ (b'g', []) ∷ (b'p', codes "81") ∷ [])

abbrev accepting : AcceptAnswers
accepting fd = (record { created = some 9; added = true; armed = true }, some fresh)

abbrev server : Client UserData IoCallback Callback
server = http_client surroundings accepting

abbrev beginning : SocketEvent
beginning = record {
  socket_ctx = 2;
  socket_flags = record quiet { epollin = true };
  accepts = [];
  reads = count 5 ∷ [];
  writes = [];
}

-- The client's connection when it is accepted.
abbrev waiting : Connection
waiting =
    accept_logic
      (record (new_ctx fresh 8) {
        close_callback = some http_cleanup;
        timer_fd = pos 9;
        timer_callback = some timer_callback;
      })
      fresh

abbrev with_contexts : List (ℕ × Connection) → Reactor UserData IoCallback Callback
with_contexts contexts = record {
  listen_fd = 3;
  listen_fd_ctx = 1;
  socket_epoll_fd = 4;
  timer_epoll_fd = 5;
  signal_fd = 6;
  master_epoll_fd = 7;
  current_clients = pos 1;
  terminated = false;
  contexts = contexts;
  closed = [];
  ended = [];
}

abbrev start : Reactor UserData IoCallback Callback
start = record (with_contexts ((1, new_ctx no_user_data 3) ∷ [])) { current_clients = pos 0 }

abbrev joined : Reactor UserData IoCallback Callback
joined = with_contexts ((2, waiting) ∷ (1, new_ctx no_user_data 3) ∷ [])

start_run : create_reactor server 3 all_well ≡ done start
unfolding create_reactor descriptor require allocated http_client
start_run = refl

arrival_run : serve_event server start (sockets (arrival ∷ [])) ≡ done joined
unfolding serve_event serve_sockets serve_socket accept_loop accept_round admit require allocated
    new_ctx load is_hangup http_client accept_callback_http async_timer set_close_callback
    accept_logic async_read reset empty_parser
arrival_run = refl

-- The second event comes with other surroundings: the parser takes every request for malformed then.
abbrev later : Env
later = record surroundings {
  phr_parse_request = λ reads counter before room. record {
    status = malformed;
    path = [];
    headers = [];
    num_headers = 0;
  };
}

abbrev refused : Connection
refused =
    async_write
      (record waiting {
        read_callback = none;
        user_data = return_400 (record (reset fresh) {
          counter = 5;
          reads = 1;
          parser = record { path = []; headers = []; num_headers = 0 };
        });
      })
      write_header_callback 8192 (length serve_400)

abbrev turned_away : Reactor UserData IoCallback Callback
turned_away = with_contexts ((2, refused) ∷ (1, new_ctx no_user_data 3) ∷ [])

abbrev morning : List Moment
morning =
    record { env = surroundings; accepted = accepting; event = sockets (arrival ∷ []) }
    ∷ record { env = later; accepted = accepting; event = sockets (beginning ∷ []) }
    ∷ []

morning_run : serve_moments start morning ≡ done turned_away
unfolding serve_moments serve_event serve_sockets serve_socket accept_loop accept_round admit
    require allocated new_ctx load store is_hangup transfer do_reads do_writes close_on_error
    read_loop read_round io read_request handle_parsed store_parsed after_parse http_client
    accept_callback_http async_timer set_close_callback accept_logic async_read async_write reset
    empty_parser return_400 finish_with
morning_run = refl

-- Five bytes are no more than the buffer that is armed.
beginning-Fits : SocketsFit (http_client later accepting) joined (beginning ∷ [])
unfolding load accept_logic async_read reset http_client
beginning-Fits = (
  done-unique (ReadsFit (http_client later accepting).io (count 5 ∷ [])) (load 2 joined.contexts)
      waiting refl (omega arith, λ c ctx' armed called. tt),
  λ r' h. tt,
)

morning-Fits : MomentsFit start morning
unfolding http_client
morning-Fits = (
  ((λ ctx loaded. tt), λ r' h. tt),
  done-unique
      (λ r.
        MomentsFit r
          (record { env = later; accepted = accepting; event = sockets (beginning ∷ []) } ∷ []))
      (serve_event server start (sockets (arrival ∷ []))) joined arrival_run
      (beginning-Fits, λ r' h. tt),
)

serve_moments-InPhase_example : Kept InPhase 1 turned_away
serve_moments-InPhase_example =
    serve_moments-InPhase surroundings accepting 3 all_well 1 start turned_away morning refl
      start_run morning-Fits morning_run

abbrev late : TimerEvent
late = record { timer_ctx = 2; timer_flags = record quiet { epollin = true } }

-- The connection sends the file 9.
abbrev sending : Connection
sending = record (new_ctx (record fresh { file_fd = 9; content = true }) 8) {
  close_callback = some http_cleanup;
  timer_fd = pos 9;
  timer_callback = some timer_callback;
  write_callback = some http_finish_callback;
}

abbrev busy : Reactor UserData IoCallback Callback
busy = with_contexts ((2, sending) ∷ (1, new_ctx no_user_data 3) ∷ [])
