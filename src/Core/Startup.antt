-- ===== src/Core/Startup.antt =====
-- How a process of src/core/yta_event_loop.c comes up: `make_listen_socket`, `set_nonblock`,
-- `get_listen_fds`, `create_reactor`, `drop_root`, `serve` and `yta_run`. What the system calls answer
-- comes in as arguments; a call whose descriptor is not used is a Boolean, true where it succeeds.
pub mod Ready
pub mod Privileges
pub mod Sockets
pub mod Workers
use yotta.Prelude.{
  ℕ, zero, suc, Bool, false, not, Option, none, some, List, [], ◌∷◌, Bytes, get_elem?,
  if◌then◌else◌, ◌==◌,
}
use yotta.Prelude.Int.{ℤ, pos, negsuc}
use yotta.Core.Outcome.{◌>>=◌, Outcome, done, exited, faulted, or_fault}
use yotta.Core.Context.{new_ctx}
use yotta.Core.ListenFds.{parse_listen_fds_env}
use yotta.Core.Process.{
  Master, Role, worker, master, no_worker, Fork, StartAnswers, Event, yta_fork_workers,
  yta_daemonize,
}
use yotta.Core.Reactor.{Reactor, Client, MasterEvent, require, allocated, serve_loop}

-- The answers while one listening socket is set up.
pub record SocketAnswers : Type 0 where
  pub resolved : Bool
  pub created : Option ℕ
  pub reuse_addr : Bool
  pub reuse_port : Bool
  pub bound : Bool
  pub flags_read : Bool
  pub flags_set : Bool
  pub listening : Bool

-- A descriptor, or `exit(1)` where the call gives -1.
unfoldable pub descriptor : Option ℕ → Outcome ℕ
descriptor none = exited 1
descriptor (some fd) = done fd

unfoldable pub make_listen_socket : SocketAnswers → Outcome ℕ
unfolding descriptor require
make_listen_socket a = do
  _ ← require a.resolved
  listen_fd ← descriptor a.created
  _ ← require a.reuse_addr
  _ ← require a.reuse_port
  _ ← require a.bound
  done listen_fd

unfoldable pub set_nonblock : Bool → Bool → Outcome (Unit {0})
unfolding require
set_nonblock flags_read flags_set = do _ ← require flags_read; require flags_set

-- One round of the loop of `get_listen_fds`.
unfoldable pub open_socket : SocketAnswers → Outcome ℤ
unfolding make_listen_socket set_nonblock require
open_socket a = do
  listen_fd ← make_listen_socket a
  _ ← set_nonblock a.flags_read a.flags_set
  _ ← require a.listening
  done (pos listen_fd)

-- `for (int i = 0; i < worker_count; ++i)`, with the rounds that are left.
unfoldable pub open_sockets : ℕ → ℕ → (ℕ → SocketAnswers) → Outcome (List ℤ)
open_sockets zero i answers = done []
open_sockets (suc rounds) i answers = do
  fd ← open_socket (answers i)
  fds ← open_sockets rounds (suc i) answers
  done (fd ∷ fds)

-- `listen_fds_env` is what `getenv` gives; in both branches memory is asked for first.
unfoldable pub get_listen_fds : Option Bytes → Bool → (ℕ → SocketAnswers) → ℕ → Outcome (List ℤ)
get_listen_fds none memory answers worker_count = do
  _ ← require memory
  open_sockets worker_count 0 answers
get_listen_fds (some listen_fds_env) memory answers worker_count = do
  _ ← require memory
  or_fault (parse_listen_fds_env listen_fds_env worker_count)

-- The answers while the reactor is set up, in the order of the calls.
pub record ReactorAnswers : Type 0 where
  pub socket_epoll : Option ℕ
  pub ctx_address : Option ℕ
  pub listen_added : Bool
  pub timer_epoll : Option ℕ
  pub set_emptied : Bool
  pub set_filled : Bool
  pub mask_set : Bool
  pub signal_fd : Option ℕ
  pub master_epoll : Option ℕ
  pub socket_added : Bool
  pub timer_added : Bool
  pub signal_added : Bool

module _ {U I C : Type 0} (client : Client U I C) where
  unfoldable pub create_reactor : ℕ → ReactorAnswers → Outcome (Reactor U I C)
  create_reactor listen_fd a = do
    socket_epoll_fd ← descriptor a.socket_epoll
    listen_fd_ctx ← allocated a.ctx_address
    _ ← require a.listen_added
    timer_epoll_fd ← descriptor a.timer_epoll
    _ ← require a.set_emptied
    _ ← require a.set_filled
    _ ← require a.mask_set
    signal_fd ← descriptor a.signal_fd
    master_epoll_fd ← descriptor a.master_epoll
    _ ← require a.socket_added
    _ ← require a.timer_added
    _ ← require a.signal_added
    done (record {
      listen_fd = listen_fd;
      listen_fd_ctx = listen_fd_ctx;
      socket_epoll_fd = socket_epoll_fd;
      timer_epoll_fd = timer_epoll_fd;
      signal_fd = signal_fd;
      master_epoll_fd = master_epoll_fd;
      current_clients = pos 0;
      terminated = false;
      contexts = (listen_fd_ctx, new_ctx client.no_data listen_fd) ∷ [];
      closed = [];
      ended = [];
    })

  -- The whole of `serve`, over the events that come.
  unfoldable pub serve : ℕ → ReactorAnswers → List MasterEvent → Outcome (Bool × Reactor U I C)
  serve listen_fd a events = do
    reactor ← create_reactor listen_fd a
    serve_loop client reactor events

-- The changes of `setgid` and `setuid`.
pub data Privilege : Type 0 where
  set_gid : ℕ → Privilege
  set_uid : ℕ → Privilege

-- The group of the process, group and user of `nobody` if there is one, and whether the changes are
-- accepted.
pub record PrivilegeAnswers : Type 0 where
  pub gid : ℕ
  pub nobody : Option (ℕ × ℕ)
  pub gid_set : Bool
  pub uid_set : Bool

become : Option (ℕ × ℕ) → Bool → Bool → Outcome (List Privilege)
become none gid_set uid_set = done []
become (some (pw_gid, pw_uid)) gid_set uid_set =
    if not gid_set
    then exited 1
    else if not uid_set
    then exited 1
    else done (set_gid pw_gid ∷ set_uid pw_uid ∷ [])

-- The changes that were made, in order, where the process goes on.
unfoldable pub drop_root : PrivilegeAnswers → Outcome (List Privilege)
unfolding become
drop_root a = if not (a.gid == 0) then done [] else become a.nobody a.gid_set a.uid_set

-- An `int` count as the argument of `calloc`: a negative one is larger than any memory.
unfoldable pub counted : ℤ → Outcome ℕ
counted (pos n) = done n
counted (negsuc n) = exited 1

-- `listen_fds[worker_id]`; no worker has the id -1.
unfoldable pub fd_of_worker : List ℤ → Role → Outcome ℤ
fd_of_worker fds (worker i) = or_fault (get_elem? fds i)
fd_of_worker fds master = faulted
fd_of_worker fds no_worker = faulted

-- A negative descriptor is refused by `epoll_ctl`; all failures of `create_reactor` exit alike.
unfoldable pub epoll_fd : ℤ → Outcome ℕ
epoll_fd (pos fd) = done fd
epoll_fd (negsuc n) = exited 1

-- What the surroundings answer in the course of `yta_run`; for a socket, by its host and port.
pub record RunAnswers : Type 0 where
  pub daemon_fork : Fork
  pub setsid_failed : Bool
  pub listen_fds_env : Option Bytes
  pub memory : Bool
  pub sockets_of : Bytes → Bytes → ℕ → SocketAnswers
  pub start : StartAnswers
  pub process_events : List Event
  pub privileges : PrivilegeAnswers
  pub reactor : ReactorAnswers
  pub loop_events : List MasterEvent

-- Where a process is found: the master still waits for its workers, or a worker has served, with the
-- changes of its rights that were made before.
pub data Running (U I C : Type 0) : Type 0 where
  waiting : Master → Running U I C
  served : ℕ → List Privilege → Bool × Reactor U I C → Running U I C

unfoldable pub daemonize_if : Bool → Fork → Bool → Outcome (Unit {0})
daemonize_if daemonize fork setsid_failed =
    if daemonize then yta_daemonize fork setsid_failed else done tt

module _ {U I C : Type 0} (client : Client U I C) where
  -- `serve` in a process that has made these changes of its rights.
  unfoldable pub serve_as :
      List Privilege
      → ℕ
      → ReactorAnswers
      → List MasterEvent
      → Outcome (List Privilege × (Bool × Reactor U I C))
  serve_as rights listen_fd a events = do
    result ← serve client listen_fd a events
    done (rights, result)

  -- `yta_run` behind `yta_fork_workers`; the master does not come back from there.
  unfoldable pub run_as : RunAnswers → List ℤ → Role × Master → Outcome (Running U I C)
  run_as a fds (master, m) = done (waiting m)
  run_as a fds (no_worker, m) = do _ ← drop_root a.privileges; faulted
  run_as a fds (worker i, m) = do
    rights ← drop_root a.privileges
    int_fd ← fd_of_worker fds (worker i)
    fd ← epoll_fd int_fd
    (rights', result) ← serve_as rights fd a.reactor a.loop_events
    done (served i rights' result)

  unfoldable pub yta_run :
      Master → Bytes → Bytes → Bytes → Bool → ℤ → RunAnswers → Outcome (Running U I C)
  yta_run m addr port pidfile_path daemonize worker_count a = do
    _ ← daemonize_if daemonize a.daemon_fork a.setsid_failed
    count ← counted worker_count
    fds ← get_listen_fds a.listen_fds_env a.memory (a.sockets_of addr port) count
    started ← yta_fork_workers m count pidfile_path fds a.start a.process_events
    run_as a fds started
