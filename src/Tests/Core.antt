-- ===== src/Tests/Core.antt =====
-- The event loop and the master process at concrete inputs.
use yotta.Prelude.{
  ℕ, ◌+◌, ◌≡◌, if◌then◌else◌, ◌==◌, ◌↔◌, ◌++◌, refl, inr, true, false, some, List, [], ◌∷◌, Bytes,
  codes, map, reverse, arith,
}
use yotta.Prelude.Int.{pos}
use yotta.Core.Outcome.{done, exited, ◌>>=◌}
use yotta.Core.Context.{Ctx, yta_ok, yta_exit, new_ctx, async_write}
use yotta.Core.Transfer.{count, eagain, write_loop, go_on, status_of}
use yotta.Core.Transfer.Writing.{write_loop-parts, parts, given, finished}
use yotta.Core.Heap.{load, free}
use yotta.Core.Reactor.{
  Reactor, Client, Flags, SocketEvent, MasterEvent, sockets, signal, is_hangup, require, allocated,
  call_close, fds_of, cleanup_context, admit, accept_round, accept_loop, serve_socket,
  serve_sockets, terminate, serve_event, keeps_serving, close_reactor, serve_loop,
}
use yotta.Core.Reactor.Accounting.{IsCounted}
use yotta.Core.Reactor.Serving.{Drains, serve_loop-Drains}
use yotta.Core.Decimal.{print_int, print_decimal, print_digits}
use yotta.Core.ListenFds.{
  print_at, print_fds, env_size, create_listen_fds_env, parse_listen_fds_env, prefix,
}
use yotta.Core.ListenFds.HandOver.{parse-create}
use yotta.Core.Process.{
  Master, sigquit, sigterm, kill, waitpid, remove, rename, env_of, rename_and_fork, after_fork,
  Fork, spawn, in_parent, in_child, fork_failed, UpgradeAnswers, worker, master, signal_handler,
  upgrade_handler, respawn, setup_worker_signal_handlers, spawn, old_pid,
}
use yotta.Core.Process.Start.{with_table, spawn-master, spawn-worker}
use yotta.Core.Process.Supervision.{
  signal_handler-effects, upgrade-stops_respawn, respawn-same_slot,
}

abbrev pub Quiet : Type 0
Quiet = Unit {0}

-- A client with nothing to remember.
abbrev pub echo : Client Quiet Quiet Quiet
echo = record {
  io = λ callback ctx buf n. done (yta_ok, ctx);
  plain = λ callback ctx. done (yta_exit, ctx);
  accept = λ ctx. done (yta_ok, ctx);
  no_data = tt;
}

abbrev pub listening : Reactor Quiet Quiet Quiet
listening = record {
  listen_fd = 3;
  listen_fd_ctx = 1;
  socket_epoll_fd = 4;
  timer_epoll_fd = 5;
  signal_fd = 6;
  master_epoll_fd = 7;
  current_clients = pos 0;
  terminated = false;
  contexts = (1, new_ctx tt 3) ∷ [];
  closed = [];
  ended = [];
}

abbrev pub quiet : Flags
quiet = record {
  epollerr = false;
  epollrdhup = false;
  epollhup = false;
  epollin = false;
  epollout = false;
}

abbrev pub arrival : SocketEvent
arrival = record {
  socket_ctx = 1;
  socket_flags = record quiet { epollin = true };
  accepts =
      record { infd = 8; nonblock = true; nodelay = true; address = some 2; added = true } ∷ [];
  reads = [];
  writes = [];
}

abbrev pub hangup : SocketEvent
hangup = record {
  socket_ctx = 2;
  socket_flags = record quiet { epollerr = true };
  accepts = [];
  reads = [];
  writes = [];
}

-- A client comes, the worker is ordered to terminate, the client leaves.
abbrev pub day : List MasterEvent
day = sockets (arrival ∷ []) ∷ signal ∷ sockets (hangup ∷ []) ∷ []

abbrev pub drained : Reactor Quiet Quiet Quiet
drained = record listening {
  terminated = true;
  contexts = [];
  closed = pos 7 ∷ pos 6 ∷ pos 5 ∷ pos 4 ∷ pos 8 ∷ [];
  ended = new_ctx tt 8 ∷ [];
}

pub listening-IsCounted : IsCounted 1 false listening
unfolding new_ctx load
listening-IsCounted = record {
  listens_at = refl;
  phase = refl;
  exact = refl;
  listening = λ e. (new_ctx tt 3, refl, refl);
}

day_run : serve_loop echo listening day ≡ done (true, drained)
unfolding serve_loop serve_event serve_sockets serve_socket accept_loop accept_round admit require
    allocated new_ctx terminate load free keeps_serving close_reactor cleanup_context call_close
    fds_of is_hangup
day_run = refl

serve_loop-Drains_example : Drains echo 1 (true, drained)
unfolding is_hangup
serve_loop-Drains_example =
    serve_loop-Drains echo 1 false listening day (true, drained) listening-IsCounted
      (((λ h. cc, (λ h. cc, tt)), tt), (refl, (((λ h. inr refl, tt), tt), tt))) day_run

unfoldable pub writing : Ctx Quiet Quiet Quiet
unfolding async_write new_ctx
writing = async_write (new_ctx tt 8) tt 500 10

-- Ten bytes that the kernel takes in three parts.
write_loop-parts_example :
    write_loop echo.io (map count (3 ∷ 6 ∷ 1 ∷ []) ++ eagain ∷ []) writing [] ≡ (do
      (status, ctx') ← echo.io tt (finished writing) (given writing) writing.to_write
      go_on echo.io
          (status_of status)
          ctx'
          ([] ++ parts writing.fd writing.wdata writing.already_written (3 ∷ 6 ∷ 1 ∷ []))
          (write_loop echo.io (eagain ∷ [])))
unfolding writing
write_loop-parts_example =
    write_loop-parts echo.io 3 (6 ∷ 1 ∷ []) (eagain ∷ []) writing tt [] refl
      (omega arith, (omega arith, (omega arith, tt))) refl (omega arith)

parse-create_example :
    (value : Bytes) × (create_listen_fds_env (map pos (5 ∷ 12 ∷ 99999 ∷ [])) 3
      ≡ some (prefix ++ value))
    × (parse_listen_fds_env value 3 ≡ some (map pos (5 ∷ 12 ∷ 99999 ∷ [])))
parse-create_example =
    parse-create (5 ∷ 12 ∷ 99999 ∷ []) (λ e. cc) (omega arith, (omega arith, (omega arith, tt)))

abbrev pub two_workers : Master
two_workers = record {
  worker_pids = some (41 ∷ 42 ∷ []);
  worker_count = 2;
  pidfile_to_delete = codes "/run/yotta.pid";
  stored_listen_fds = pos 5 ∷ pos 6 ∷ [];
  upgraded = false;
  effects = [];
}

signal_handler-effects_example :
    (end : ℕ × Master) × (signal_handler two_workers sigterm ≡ done end)
    × (reverse end.1.effects
        ≡ reverse two_workers.effects
          ++ (map (λ p. kill p sigterm) (41 ∷ 42 ∷ [])
              ++ (map waitpid (41 ∷ 42 ∷ []) ++ remove two_workers.pidfile_to_delete ∷ [])))
    × ((end.0 ≡ 0) ↔ (sigterm ≡ sigquit))
signal_handler-effects_example = signal_handler-effects two_workers (41 ∷ 42 ∷ []) sigterm refl refl

abbrev no_fork : UpgradeAnswers
no_fork = record {
  allocated = true;
  rename_failed = false;
  forked = fork_failed;
  execve_failed = false;
}

abbrev stuck : Master
stuck = record two_workers {
  upgraded = true;
  pidfile_to_delete = codes "/run/yotta.pid.old";
  effects = rename (codes "/run/yotta.pid") (codes "/run/yotta.pid.old") ∷ [];
}

stuck_run : upgrade_handler two_workers no_fork ≡ done stuck
unfolding upgrade_handler env_of rename_and_fork after_fork print_at create_listen_fds_env print_fds
    env_size print_int print_decimal print_digits
stuck_run = refl

upgrade-stops_respawn_example :
    (stuck.pidfile_to_delete ≡ two_workers.pidfile_to_delete ++ old_pid)
    × (respawn stuck (some 42) (in_parent 43) ≡ done (master, stuck))
upgrade-stops_respawn_example =
    upgrade-stops_respawn two_workers stuck no_fork (some 42) (in_parent 43) refl refl stuck_run

respawn-same_slot_example :
    (respawn two_workers (some 42) (in_parent 43)
      ≡ done (master, record two_workers { worker_pids = some (41 ∷ 43 ∷ []) }))
    × (respawn two_workers (some 42) in_child
        ≡ done (worker 1, setup_worker_signal_handlers two_workers))
    × (respawn two_workers (some 42) fork_failed ≡ exited 1)
respawn-same_slot_example =
    respawn-same_slot two_workers (41 ∷ []) [] 42 43 refl refl refl ((λ e. omega arith), tt)

-- The kernel gives the pids from 50 on.
abbrev counting : ℕ → Fork
counting i = in_parent (50 + i)

spawn-master_example :
    spawn 2 (with_table two_workers (0 ∷ 0 ∷ [])) 0 counting
    ≡ done (master, with_table two_workers (50 ∷ 51 ∷ []))
spawn-master_example =
    spawn-master two_workers counting (50 ∷ 51 ∷ []) (omega arith) (refl, (refl, tt))

-- The third call of `fork` returns in the child.
abbrev third_is_child : ℕ → Fork
third_is_child i = if i == 2 then in_child else counting i

spawn-worker_example :
    spawn (2 + 2) (with_table two_workers (0 ∷ 0 ∷ 0 ∷ 0 ∷ [])) 0 third_is_child
    ≡ done (worker 2, setup_worker_signal_handlers (with_table two_workers (50 ∷ 51 ∷ 0 ∷ 0 ∷ [])))
spawn-worker_example =
    spawn-worker two_workers third_is_child (50 ∷ 51 ∷ []) (0 ∷ 0 ∷ []) 1 (refl, (refl, tt)) refl
