-- ===== src/Tests/Startup.antt =====
-- The start of a worker and the way to its end, of src/core/yta_event_loop.c, at concrete inputs.
use yotta.Prelude.{ℕ, ◌+◌, ◌≡◌, ◌++◌, refl, inr, true, some, none, [], ◌∷◌, Bytes, arith}
use yotta.Prelude.Int.{pos}
use yotta.Core.Outcome.{done, done-Sound}
use yotta.Core.Context.{new_ctx}
use yotta.Core.Heap.{load, free}
use yotta.Core.Reactor.{
  Reactor, is_hangup, require, allocated, call_close, fds_of, cleanup_context, admit, accept_round,
  accept_loop, serve_socket, serve_sockets, terminate, serve_event, keeps_serving, close_reactor,
  serve_loop,
}
use yotta.Core.Reactor.Serving.{Drains}
use yotta.Core.Reactor.Soundness.{AllSound}
use yotta.Core.ListenFds.{prefix}
use yotta.Core.Process.{Master, execve, rename, upgrade_handler, old_pid}
use yotta.Core.Startup.{
  SocketAnswers, descriptor, make_listen_socket, set_nonblock, open_socket, open_sockets,
  get_listen_fds, ReactorAnswers, create_reactor, serve, PrivilegeAnswers, set_gid, set_uid,
  drop_root,
}
use yotta.Core.Startup.Ready.{
  Outcomes, IsInitial, every_call, create_reactor-Outcomes, serve-Drains,
}
use yotta.Core.Startup.Privileges.{Became, drop_root-Became}
use yotta.Core.Startup.Sockets.{
  IsListening, get_listen_fds-IsListening, upgrading, upgrade-keeps_sockets,
}
use yotta.Tests.Core.{Quiet, echo, listening, day, drained, two_workers}

abbrev pub all_well : ReactorAnswers
all_well = record {
  socket_epoll = some 4;
  ctx_address = some 1;
  listen_added = true;
  timer_epoll = some 5;
  set_emptied = true;
  set_filled = true;
  mask_set = true;
  signal_fd = some 6;
  master_epoll = some 7;
  socket_added = true;
  timer_added = true;
  signal_added = true;
}

whole_run : serve echo 3 all_well day ≡ done (true, drained)
unfolding serve create_reactor descriptor serve_loop serve_event serve_sockets serve_socket
    accept_loop accept_round admit require allocated new_ctx terminate load free keeps_serving
    close_reactor cleanup_context call_close fds_of is_hangup
whole_run = refl

serve-Drains_example : Drains echo 1 (true, drained)
unfolding is_hangup
serve-Drains_example =
    serve-Drains echo 3 all_well 1 day (true, drained) refl
      (((λ h. cc, (λ h. cc, tt)), tt), (refl, (((λ h. inr refl, tt), tt), tt))) whole_run

create_reactor-Outcomes_example :
    Outcomes (IsInitial echo 3 all_well) (every_call all_well) (create_reactor echo 3 all_well)
create_reactor-Outcomes_example = create_reactor-Outcomes echo 3 all_well

abbrev pub as_root : PrivilegeAnswers
as_root = record { gid = 0; nobody = some (65534, 65533); gid_set = true; uid_set = true }

drop_root-Became_example :
    Became (some (65534, 65533)) true true (set_gid 65534 ∷ set_uid 65533 ∷ [])
unfolding drop_root
drop_root-Became_example = drop_root-Became as_root (set_gid 65534 ∷ set_uid 65533 ∷ []) refl refl

-- The kernel gives the descriptors from 3 on.
abbrev pub opening : ℕ → SocketAnswers
opening i = record {
  resolved = true;
  created = some (3 + i);
  reuse_addr = true;
  reuse_port = true;
  bound = true;
  flags_read = true;
  flags_set = true;
  listening = true;
}

pub opened_fds : get_listen_fds none true opening 2 ≡ done (pos 3 ∷ pos 4 ∷ [])
unfolding get_listen_fds open_sockets open_socket make_listen_socket set_nonblock descriptor require
opened_fds = refl

get_listen_fds-IsListening_example :
    (fd : ℕ) × (some (pos 4) ≡ some (pos fd)) × IsListening (opening 1) fd
get_listen_fds-IsListening_example =
    get_listen_fds-IsListening true opening 2 1 (pos 3 ∷ pos 4 ∷ []) opened_fds (omega arith)

upgrade-keeps_sockets_example :
    (value : Bytes) × (m' : Master) × (upgrade_handler two_workers upgrading ≡ done m')
    × (m'.effects
        ≡ execve (prefix ++ value)
          ∷ rename two_workers.pidfile_to_delete (two_workers.pidfile_to_delete ++ old_pid)
          ∷ [])
    × (get_listen_fds (some value) true opening 2 ≡ done (pos 5 ∷ pos 6 ∷ []))
upgrade-keeps_sockets_example =
    upgrade-keeps_sockets two_workers (5 ∷ 6 ∷ []) opening refl refl (λ e. cc)
      (omega arith, (omega arith, tt))

abbrev echo_sound : AllSound echo
echo_sound = record {
  io_sound = λ c ctx buf n. done-Sound _;
  plain_sound = λ c ctx. done-Sound _;
  accept_sound = λ ctx. done-Sound _;
}

abbrev busy : Reactor Quiet Quiet Quiet
busy = record listening {
  current_clients = pos 1;
  contexts = (2, new_ctx tt 8) ∷ (1, new_ctx tt 3) ∷ [];
}

abbrev ordered : Reactor Quiet Quiet Quiet
ordered = record busy { terminated = true; contexts = (2, new_ctx tt 8) ∷ [] }
