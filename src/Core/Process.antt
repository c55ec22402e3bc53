-- ===== src/Core/Process.antt =====
-- src/core/yta_process.c: the master process with its workers, its signal handlers and the upgrade of
-- the binary; `yta_daemonize`. The globals of the file are one record. What the system calls return
-- comes in as arguments, and what the process does to the outside is a list of effects, last first.
pub mod Supervision
pub mod Start
pub mod Table
use yotta.Prelude.{
  ℕ, zero, suc, ◌+◌, ◌-◌, Bool, true, false, not, ◌&&◌, Option, none, some, List, [], ◌∷◌, ◌++◌,
  Bytes, codes, length, take, replicate, set, ◌==◌, if◌then◌else◌,
}
use yotta.Core.Outcome.{Outcome, done, exited, faulted, ◌>>=◌}
use yotta.Prelude.Int.{ℤ}
use yotta.Core.ListenFds.{create_listen_fds_env, print_at}

pub data Signal : Type 0 where
  sigquit sigterm sigint sigpipe sigusr1 : Signal

pub data Handler : Type 0 where
  ignored default_action signal_handler_action upgrade_handler_action : Handler

pub data Effect : Type 0 where
  kill : ℕ → Signal → Effect
  waitpid : ℕ → Effect
  remove : Bytes → Effect
  rename : Bytes → Bytes → Effect
  execve : Bytes → Effect
  handle : Signal → Handler → Effect
  write_file : Bytes → Effect

-- The file's globals. A pid of `calloc`ed memory is 0.
pub record Master : Type 0 where
  pub worker_pids : Option (List ℕ)
  pub worker_count : ℕ
  pub pidfile_to_delete : Bytes
  pub stored_listen_fds : List ℤ
  pub upgraded : Bool
  pub effects : List Effect

pids_of : Option (List ℕ) → List ℕ
pids_of none = []
pids_of (some pids) = pids

-- The pids that the loops up to `worker_count` visit.
unfoldable pub workers_of : Master → List ℕ
unfolding pids_of
workers_of m = take m.worker_count (pids_of m.worker_pids)

kill_all : List ℕ → Signal → List Effect
kill_all [] signo = []
kill_all (pid ∷ pids) signo = kill_all pids signo ++ kill pid signo ∷ []

-- `worker_pids[i]` for every `i` below a count; the table may be a null pointer or too short.
unfoldable pub indexed : ℕ → List ℕ → Outcome (List ℕ)
indexed zero pids = done []
indexed (suc n) [] = faulted
indexed (suc n) (pid ∷ pids) = do rest ← indexed n pids; done (pid ∷ rest)

wait_all : List ℕ → List Effect
wait_all [] = []
wait_all (pid ∷ pids) = wait_all pids ++ waitpid pid ∷ []

unfoldable pub forward_signal_to_workers : Master → Signal → Master
unfolding kill_all
forward_signal_to_workers m signo = record m {
  effects = kill_all (workers_of m) signo ++ m.effects;
}

is_sigquit : Signal → Bool
is_sigquit sigquit = true
is_sigquit sigterm = false
is_sigquit sigint = false
is_sigquit sigpipe = false
is_sigquit sigusr1 = false

-- The exit code, and the globals at the exit. What is freed is not used again.
unfoldable pub exit_and_cleanup_main : Master → Signal → ℕ × Master
unfolding is_sigquit
exit_and_cleanup_main m signo = (
  if is_sigquit signo then 0 else 1,
  record m { effects = remove m.pidfile_to_delete ∷ m.effects },
)

unfoldable pub signal_handler : Master → Signal → Outcome (ℕ × Master)
unfolding pids_of forward_signal_to_workers wait_all exit_and_cleanup_main
signal_handler m signo = do
  let forwarded = forward_signal_to_workers m signo
  pids ← indexed forwarded.worker_count (pids_of forwarded.worker_pids)
  done (
      exit_and_cleanup_main (record forwarded { effects = wait_all pids ++ forwarded.effects })
        signo)

-- What `fork` returns: -1, 0 in the child, or the child's pid.
pub data Fork : Type 0 where
  fork_failed : Fork
  in_child : Fork
  in_parent : ℕ → Fork

is_child : Fork → Bool
is_child fork_failed = false
is_child in_child = true
is_child (in_parent pid) = false

-- Whether `calloc` succeeds and `rename` fails, what `fork` returns, and whether `execve` fails.
pub record UpgradeAnswers : Type 0 where
  pub allocated : Bool
  pub rename_failed : Bool
  pub forked : Fork
  pub execve_failed : Bool

abbrev pub old_pid : Bytes
old_pid = codes ".old"

-- `sizeof(old_pid)`, the size of a pointer.
abbrev pub pointer_size : ℕ
pointer_size = 8

unfoldable pub env_of : Option Bytes → Outcome Bytes
env_of none = faulted
env_of (some text) = done text

-- Behind `fork`: only the child goes on to the new binary, whose image replaces it.
unfoldable pub after_fork : Fork → Bool → Master → Bytes → Outcome Master
after_fork fork_failed execve_failed m env = done m
after_fork (in_parent pid) execve_failed m env = done m
after_fork in_child true m env = exited 1
after_fork in_child false m env = done (record m { effects = execve env ∷ m.effects })

-- The handler from `rename` on.
unfoldable pub rename_and_fork : Master → UpgradeAnswers → Bytes → Outcome Master
rename_and_fork m answers new_name = if answers.rename_failed then done m else do
  buf ← env_of (create_listen_fds_env m.stored_listen_fds m.worker_count)
  after_fork answers.forked answers.execve_failed
      (record m {
        pidfile_to_delete = new_name;
        upgraded = true;
        effects = rename m.pidfile_to_delete new_name ∷ m.effects;
      })
      buf

unfoldable pub upgrade_handler : Master → UpgradeAnswers → Outcome Master
upgrade_handler m answers = if not answers.allocated then done m else do
  new_name ←
      env_of (
        print_at (length m.pidfile_to_delete + pointer_size - 1) []
          (m.pidfile_to_delete ++ old_pid))
  rename_and_fork m answers new_name

unfoldable pub setup_master_signal_handlers : Master → Master
setup_master_signal_handlers m = record m {
  effects =
      handle sigusr1 upgrade_handler_action
      ∷ handle sigquit signal_handler_action
      ∷ handle sigint signal_handler_action
      ∷ handle sigterm signal_handler_action
      ∷ handle sigpipe ignored
      ∷ m.effects;
}

unfoldable pub setup_worker_signal_handlers : Master → Master
setup_worker_signal_handlers m = record m {
  effects =
      handle sigusr1 upgrade_handler_action
      ∷ handle sigint default_action
      ∷ handle sigquit default_action
      ∷ handle sigterm default_action
      ∷ m.effects;
}

-- Whether the pid file could be opened and written.
unfoldable pub write_pidfile : Master → Bytes → Bool → Bool → Outcome Master
write_pidfile m path opened wrote =
    if not opened
    then exited 1
    else if not wrote
    then exited 1
    else done (record m { pidfile_to_delete = path; effects = write_file path ∷ m.effects })

-- Both calls of `clear_sigmask` succeed, or the process exits.
unfoldable pub clear_sigmask : Bool → Bool → Outcome (Unit {0})
clear_sigmask emptied masked =
    if not emptied then exited 1 else if not masked then exited 1 else done tt

-- Where a process stands behind the loops of `yta_fork_workers`: a worker with its id, or the master.
-- With no worker to spawn the process goes on as a worker, with the id -1.
pub data Role : Type 0 where
  worker : ℕ → Role
  master : Role
  no_worker : Role

-- `worker_pids[i] = pid`
assign_pid : Option (List ℕ) → ℕ → ℕ → Option (List ℕ)
assign_pid none i pid = none
assign_pid (some pids) i pid = some (set pids i pid)

unfoldable pub record_pid : Master → ℕ → ℕ → Master
unfolding assign_pid
record_pid m i pid = record m { worker_pids = assign_pid m.worker_pids i pid }

spawned : ℕ → Role
spawned zero = no_worker
spawned (suc i) = master

-- The loop that spawns the initial workers: the rounds that are left, the id `i` of the next worker,
-- and what `fork` returns in each round.
unfoldable pub spawn : ℕ → Master → ℕ → (ℕ → Fork) → Outcome (Role × Master)
unfolding spawned
spawn zero m i forks = done (spawned i, m)
spawn (suc rounds) m i forks = elim (forks i) [
  | fork_failed ↦ exited 1
  | in_child ↦ done (worker i, setup_worker_signal_handlers m)
  | in_parent pid ↦ spawn rounds (record_pid m i pid) (suc i) forks
]

-- The place of a pid in `worker_pids`, from the id `i` on.
unfoldable pub find_worker : ℕ → List ℕ → ℕ → Option ℕ
find_worker pid [] i = none
find_worker pid (p ∷ pids) i = if pid == p then some i else find_worker pid pids (suc i)

refork : Fork → Master → ℕ → Outcome (Role × Master)
refork fork_failed m i = exited 1
refork in_child m i = done (worker i, setup_worker_signal_handlers m)
refork (in_parent pid) m i = done (master, record_pid m i pid)

respawn_at : Option ℕ → Fork → Master → Outcome (Role × Master)
unfolding refork
respawn_at none forked m = done (master, m)
respawn_at (some i) forked m = refork forked m i

-- One round of the loop that waits for children: `waitpid` has returned this pid, `none` for -1. A
-- worker that has died is forked again, unless the master was upgraded.
unfoldable pub respawn : Master → Option ℕ → Fork → Outcome (Role × Master)
unfolding respawn_at
respawn m none forked = done (master, m)
respawn m (some pid) forked =
    if m.upgraded then done (master, m) else respawn_at (find_worker pid (workers_of m) 0) forked m

-- What happens to a master that waits: a child has died, with the answer of `fork` that would be
-- asked for, or the upgrade signal came.
pub data Event : Type 0 where
  child_died : Option ℕ → Fork → Event
  upgrade : UpgradeAnswers → Event

unfoldable pub keep_waiting :
    Role × Master → (Master → Outcome (Role × Master)) → Outcome (Role × Master)
keep_waiting (worker i, m) next = done (worker i, m)
keep_waiting (no_worker, m) next = done (no_worker, m)
keep_waiting (master, m) next = next m

-- The handler was left by `execve`: the image of this process was replaced.
unfoldable pub is_replaced : UpgradeAnswers → Bool
unfolding is_child
is_replaced answers =
    answers.allocated
    && not answers.rename_failed
    && is_child answers.forked
    && not answers.execve_failed

-- `while (worker_pid != 0)` over the events that come; a process whose image was replaced stays as
-- it was then.
unfoldable pub wait_loop : Master → List Event → Outcome (Role × Master)
unfolding keep_waiting
wait_loop m [] = done (master, m)
wait_loop m (child_died pid forked ∷ events) = do
  next ← respawn m pid forked
  keep_waiting next (λ m'. wait_loop m' events)
wait_loop m (upgrade answers ∷ events) = do
  m' ← upgrade_handler m answers
  let rest = wait_loop m' events
  if is_replaced answers then done (master, m') else rest

or_exit : Bool → Outcome (Unit {0})
or_exit true = done tt
or_exit false = exited 1

pub record StartAnswers : Type 0 where
  pub sigset_emptied : Bool
  pub mask_set : Bool
  pub pidfile_opened : Bool
  pub pidfile_written : Bool
  pub pids_allocated : Bool
  pub forks : ℕ → Fork

-- The globals as `yta_fork_workers` sets them before it forks.
unfoldable pub with_workers : Master → ℕ → List ℤ → Master
with_workers m workers listen_fds = record m {
  worker_count = workers;
  worker_pids = some (replicate workers 0);
  stored_listen_fds = listen_fds;
}

unfoldable pub yta_fork_workers :
    Master → ℕ → Bytes → List ℤ → StartAnswers → List Event → Outcome (Role × Master)
unfolding clear_sigmask write_pidfile or_exit
yta_fork_workers m workers pidfile_path listen_fds answers events = do
  _ ← clear_sigmask answers.sigset_emptied answers.mask_set
  m' ←
      write_pidfile (setup_master_signal_handlers m) pidfile_path answers.pidfile_opened
        answers.pidfile_written
  _ ← or_exit answers.pids_allocated
  started ← spawn workers (with_workers m' workers listen_fds) 0 answers.forks
  keep_waiting started (λ m''. wait_loop m'' events)

-- The parent of a daemon exits; so does the daemon if `setsid` fails.
unfoldable pub yta_daemonize : Fork → Bool → Outcome (Unit {0})
yta_daemonize in_child setsid_failed = if setsid_failed then exited 1 else done tt
yta_daemonize fork_failed setsid_failed = exited 1
yta_daemonize (in_parent pid) setsid_failed = exited 0
