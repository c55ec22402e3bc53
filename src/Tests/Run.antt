-- ===== src/Tests/Run.antt =====
-- Whole runs of `yta_run` of src/core/yta_event_loop.c at concrete inputs.
use yotta.Prelude.{ℕ, ◌≡◌, refl, true, false, none, [], codes, ◌==◌, if◌then◌else◌, ◌∷◌, arith}
use yotta.Prelude.Int.{pos}
use yotta.Core.Outcome.{done}
use yotta.Core.Process.Table.{IsPlaced}
use yotta.Core.Process.Table.Waiting.{yta_fork_workers-IsPlaced}
use yotta.Core.Process.{
  record_pid, Master, worker, with_workers, setup_worker_signal_handlers,
  setup_master_signal_handlers, write_file, Fork, in_parent, in_child, StartAnswers, clear_sigmask,
  write_pidfile, spawn, keep_waiting, yta_fork_workers,
}
use yotta.Core.Reactor.{Reactor}
use yotta.Core.Startup.{fd_of_worker, RunAnswers}
use yotta.Core.Startup.Sockets.{IsListening}
use yotta.Core.Startup.Workers.{yta_fork_workers-IsListening}
use yotta.Tests.Core.{Quiet, day, drained, two_workers}
use yotta.Tests.Startup.{all_well, opening, opened_fds, as_root}

-- The second call of fork returns in the child.
abbrev second_is_child : ℕ → Fork
second_is_child i = if i == 1 then in_child else in_parent 50

abbrev starting : StartAnswers
starting = record {
  sigset_emptied = true;
  mask_set = true;
  pidfile_opened = true;
  pidfile_written = true;
  pids_allocated = true;
  forks = second_is_child;
}

abbrev quiet_day : RunAnswers
quiet_day = record {
  daemon_fork = in_child;
  setsid_failed = false;
  listen_fds_env = none;
  memory = true;
  sockets_of = λ addr port i. opening i;
  start = starting;
  process_events = [];
  privileges = as_root;
  reactor = all_well;
  loop_events = day;
}

abbrev drained_second : Reactor Quiet Quiet Quiet
drained_second = record drained { listen_fd = 4 }

-- The second worker, as the globals are in it.
abbrev in_second : Master
in_second = setup_worker_signal_handlers (
    record_pid
      (with_workers
        (record (setup_master_signal_handlers two_workers) {
          pidfile_to_delete = codes "/run/yotta.pid";
          effects =
              write_file (codes "/run/yotta.pid")
              ∷ (setup_master_signal_handlers two_workers).effects;
        })
        2 (pos 3 ∷ pos 4 ∷ []))
      0 50)

second_started :
    yta_fork_workers two_workers 2 (codes "/run/yotta.pid") (pos 3 ∷ pos 4 ∷ []) starting []
    ≡ done (worker 1, in_second)
unfolding yta_fork_workers clear_sigmask write_pidfile spawn keep_waiting
second_started = refl

yta_fork_workers-IsPlaced_example : IsPlaced 2 (worker 1, in_second)
yta_fork_workers-IsPlaced_example =
    yta_fork_workers-IsPlaced 2 (omega arith) two_workers (codes "/run/yotta.pid")
      (pos 3 ∷ pos 4 ∷ []) starting [] (worker 1, in_second) second_started

yta_fork_workers-IsListening_example :
    (fd : ℕ) × (fd_of_worker (pos 3 ∷ pos 4 ∷ []) (worker 1) ≡ done (pos fd))
    × IsListening (opening 1) fd
yta_fork_workers-IsListening_example =
    yta_fork_workers-IsListening true opening 2 two_workers in_second (codes "/run/yotta.pid")
      (pos 3 ∷ pos 4 ∷ []) starting [] 1 (omega arith) opened_fds second_started
