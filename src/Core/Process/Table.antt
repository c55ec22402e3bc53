-- ===== src/Core/Process/Table.antt =====
-- The table of workers of src/core/yta_process.c over the life of the master.
pub mod Waiting
use yotta.Prelude.{
  Bytes, ℕ, zero, suc, ◌+◌, ◌-◌, ◌<◌, ◌≡◌, ◌⊎◌, refl, ap, ◌∙◌, inl, inr, Bool, true, false, not,
  some, List, [], ◌∷◌, ◌++◌, length, arith, set,
}
use yotta.Core.Outcome.{Outcome, done, exited, faulted, Yields, done-Yields, if-Yields, bind-Yields}
use yotta.Core.ListenFds.{print_at, create_listen_fds_env}
use yotta.Core.Process.{
  Master, Role, worker, master, no_worker, Fork, fork_failed, in_child, in_parent, UpgradeAnswers,
  env_of, after_fork, rename_and_fork, upgrade_handler, assign_pid, record_pid, spawned, spawn,
  setup_worker_signal_handlers, old_pid, pointer_size,
}

-- The table has a place for each worker.
abbrev pub HasTable : ℕ → Master → Type 0
HasTable n m =
    (pids : List ℕ) × (m.worker_pids ≡ some pids) × (length pids ≡ n) × (m.worker_count ≡ n)

-- A process is a worker whose id has a place in the table, or the master with its table.
abbrev pub InTable : ℕ → Role × Master → Type 0
InTable n (worker i, m) = i < n
InTable n (master, m) = HasTable n m
InTable n (no_worker, m) = ⊥

abbrev pub IsPlaced : ℕ → Role × Master → Type 0
IsPlaced n r = ((i : ℕ) × (r.0 ≡ worker i) × (i < n)) ⊎ ((r.0 ≡ master) × HasTable n r.1)

pub InTable-IsPlaced : (n : ℕ) (r : Role × Master) → InTable n r → IsPlaced n r
InTable-IsPlaced n (worker i, m) v = inl (i, refl, v)
InTable-IsPlaced n (master, m) v = inr (refl, v)
InTable-IsPlaced n (no_worker, m) v = absurd v

pub exited-Yields : {A : Type 0} (P : A → Type 0) (code : ℕ) → Yields P (exited code)
exited-Yields P code a h = cc

faulted-Yields : {A : Type 0} (P : A → Type 0) → Yields P faulted
faulted-Yields P a h = cc

length-set : (xs : List ℕ) (i x : ℕ) → length (set xs i x) ≡ length xs
length-set [] i x = refl
length-set (y ∷ xs) zero x = refl
length-set (y ∷ xs) (suc i) x = ap suc (length-set xs i x)

module _ (n : ℕ) (some_worker : 0 < n) where
  pub record_pid-HasTable :
      (m : Master) (i pid : ℕ) → HasTable n m → HasTable n (record_pid m i pid)
  unfolding record_pid assign_pid
  record_pid-HasTable m i pid (pids, table, long, count) =
      (set pids i pid, ap (λ t. assign_pid t i pid) table, length-set pids i pid ∙ long, count)

  spawned-InTable : (i : ℕ) (m : Master) → i ≡ n → HasTable n m → InTable n (spawned i, m)
  unfolding spawned
  spawned-InTable zero m e v = absurd (omega arith)
  spawned-InTable (suc i) m e v = v

  spawn_branch :
      (f : Fork) (m : Master) (i : ℕ) (next : ℕ → Outcome (Role × Master))
      → i < n
      → ((pid : ℕ) → Yields (InTable n) (next pid))
      → Yields (InTable n) (elim f [
        | fork_failed ↦ exited 1
        | in_child ↦ done (worker i, setup_worker_signal_handlers m)
        | in_parent pid ↦ next pid
      ])
  spawn_branch fork_failed m i next inside k = exited-Yields (InTable n) 1
  spawn_branch in_child m i next inside k =
      done-Yields (InTable n) (worker i, setup_worker_signal_handlers m) inside
  spawn_branch (in_parent pid) m i next inside k = k pid

  pub spawn-InTable :
      (rounds : ℕ) (m : Master) (i : ℕ) (forks : ℕ → Fork)
      → i + rounds ≡ n
      → HasTable n m
      → Yields (InTable n) (spawn rounds m i forks)
  unfolding spawn
  spawn-InTable zero m i forks e v =
      done-Yields (InTable n) (spawned i, m) (spawned-InTable i m (omega arith) v)
  spawn-InTable (suc rounds) m i forks e v =
      spawn_branch (forks i) m i (λ pid. spawn rounds (record_pid m i pid) (suc i) forks)
        (omega arith)
        (λ pid.
          spawn-InTable rounds (record_pid m i pid) (suc i) forks (omega arith)
            (record_pid-HasTable m i pid v))

  after_fork-HasTable :
      (f : Fork) (failed : Bool) (m : Master) (env : Bytes)
      → HasTable n m
      → Yields (HasTable n) (after_fork f failed m env)
  unfolding after_fork
  after_fork-HasTable fork_failed failed m env v = done-Yields (HasTable n) m v
  after_fork-HasTable (in_parent pid) failed m env v = done-Yields (HasTable n) m v
  after_fork-HasTable in_child true m env v = exited-Yields (HasTable n) 1
  after_fork-HasTable in_child false m env v = done-Yields (HasTable n) _ v

  Text : Bytes → Type 0
  Text s = Unit

  pub upgrade_handler-HasTable :
      (m : Master) (a : UpgradeAnswers) → HasTable n m → Yields (HasTable n) (upgrade_handler m a)
  unfolding upgrade_handler rename_and_fork Text
  upgrade_handler-HasTable m a v =
      if-Yields (HasTable n) (not a.allocated) _ _ (done-Yields (HasTable n) m v) (
        bind-Yields (HasTable n) Text
          (env_of (
            print_at (length m.pidfile_to_delete + pointer_size - 1) []
              (m.pidfile_to_delete ++ old_pid)))
          _ (λ _ _. tt)
          (λ name _. if-Yields (HasTable n) a.rename_failed _ _ (done-Yields (HasTable n) m v) (
            bind-Yields (HasTable n) Text
              (env_of (create_listen_fds_env m.stored_listen_fds m.worker_count)) _ (λ _ _. tt)
              (λ buf _. after_fork-HasTable a.forked a.execve_failed _ buf v))))
