-- ===== src/Core/Process/Table/Waiting.antt =====
-- The loop of src/core/yta_process.c in which the master waits, and the whole of `yta_fork_workers`, by
-- the table of workers.
use yotta.Prelude.{
  Bytes, ℕ, zero, suc, ◌+◌, ◌≤◌, ◌<◌, ◌≡◌, refl, ap, inl, inr, Option, some, none, some-injective,
  List, [], ◌∷◌, length, take, replicate, length-replicate, arith, ◌==◌, Bool-cases, if-eq-then,
  if-eq-else,
}
use yotta.Prelude.Int.{ℤ}
use yotta.Core.Outcome.{Outcome, done, >>=-eq-done, Yields, done-Yields, if-Yields, bind-Yields}
use yotta.Core.Process.{
  Master, Role, worker, master, no_worker, Fork, fork_failed, in_child, in_parent, pids_of,
  workers_of, upgrade_handler, record_pid, spawn, find_worker, refork, respawn_at, respawn, Event,
  child_died, upgrade, keep_waiting, is_replaced, wait_loop, or_exit, StartAnswers, with_workers,
  clear_sigmask, write_pidfile, setup_master_signal_handlers, setup_worker_signal_handlers,
  yta_fork_workers,
}
use yotta.Core.Process.Table.{
  HasTable, InTable, IsPlaced, InTable-IsPlaced, exited-Yields, record_pid-HasTable, spawn-InTable,
  upgrade_handler-HasTable,
}

module _ (n : ℕ) (some_worker : 0 < n) where
  find_worker-inside :
      (pid : ℕ) (pids : List ℕ) (i k : ℕ) → find_worker pid pids i ≡ some k → k < i + length pids
  unfolding find_worker
  find_worker-inside pid [] i k h = absurd (let bad : ◌≡◌ {A = Option ℕ} none (some k) = h in cc)
  find_worker-inside pid (p ∷ pids) i k h = elim (Bool-cases (pid == p)) [
    | inl e ↦ let same = some-injective (if-eq-then _ _ e h) in omega arith
    | inr e ↦ omega (arith, find_worker-inside pid pids (suc i) k (if-eq-else _ _ e h))
  ]

  length-take_le : (k : ℕ) (xs : List ℕ) → length (take k xs) ≤ length xs
  length-take_le zero xs = omega arith
  length-take_le (suc k) [] = omega arith
  length-take_le (suc k) (x ∷ xs) = omega (arith, length-take_le k xs)

  workers-length : (m : Master) → HasTable n m → length (workers_of m) ≤ n
  unfolding workers_of pids_of
  workers-length m (pids, table, long, count) = omega (
    arith,
    length-take_le m.worker_count (pids_of m.worker_pids),
    ap (λ t. length (pids_of t)) table,
  )

  refork-InTable :
      (f : Fork) (m : Master) (i : ℕ) → i < n → HasTable n m → Yields (InTable n) (refork f m i)
  unfolding refork
  refork-InTable fork_failed m i inside v = exited-Yields (InTable n) 1
  refork-InTable in_child m i inside v =
      done-Yields (InTable n) (worker i, setup_worker_signal_handlers m) inside
  refork-InTable (in_parent pid) m i inside v =
      done-Yields (InTable n) (master, record_pid m i pid)
        (record_pid-HasTable n some_worker m i pid v)

  respawn_at-InTable :
      (found : Option ℕ) (f : Fork) (m : Master)
      → ((i : ℕ) → found ≡ some i → i < n)
      → HasTable n m
      → Yields (InTable n) (respawn_at found f m)
  unfolding respawn_at
  respawn_at-InTable none f m inside v = done-Yields (InTable n) (master, m) v
  respawn_at-InTable (some i) f m inside v = refork-InTable f m i (inside i refl) v

  respawn-InTable :
      (m : Master) (pid : Option ℕ) (f : Fork) → HasTable n m → Yields (InTable n) (respawn m pid f)
  unfolding respawn
  respawn-InTable m none f v = done-Yields (InTable n) (master, m) v
  respawn-InTable m (some pid) f v =
      if-Yields (InTable n) m.upgraded _ _ (done-Yields (InTable n) (master, m) v) (
        respawn_at-InTable (find_worker pid (workers_of m) 0) f m
          (λ i found.
            omega (arith, find_worker-inside pid (workers_of m) 0 i found, workers-length m v))
          v)

  keep_waiting-InTable :
      (r : Role × Master) (next : Master → Outcome (Role × Master))
      → InTable n r
      → ((m : Master) → HasTable n m → Yields (InTable n) (next m))
      → Yields (InTable n) (keep_waiting r next)
  unfolding keep_waiting
  keep_waiting-InTable (worker i, m) next v k = done-Yields (InTable n) (worker i, m) v
  keep_waiting-InTable (no_worker, m) next v k = absurd v
  keep_waiting-InTable (master, m) next v k = k m v

  wait_loop-InTable :
      (m : Master) (events : List Event) → HasTable n m → Yields (InTable n) (wait_loop m events)
  unfolding wait_loop
  wait_loop-InTable m [] v = done-Yields (InTable n) (master, m) v
  wait_loop-InTable m (child_died pid f ∷ events) v =
      bind-Yields (InTable n) (InTable n) (respawn m pid f) _ (respawn-InTable m pid f v) (λ r v'.
        keep_waiting-InTable r (λ m'. wait_loop m' events) v'
          (λ m' v''. wait_loop-InTable m' events v''))
  wait_loop-InTable m (upgrade a ∷ events) v =
      bind-Yields (InTable n) (HasTable n) (upgrade_handler m a) _
        (upgrade_handler-HasTable n some_worker m a v)
        (λ m' v'.
          if-Yields (InTable n) (is_replaced a) _ _ (done-Yields (InTable n) (master, m') v')
            (wait_loop-InTable m' events v'))

  -- With at least one worker, whatever fork returns and whatever happens to the workers and by upgrades,
  -- every process that goes on behind yta_fork_workers is a worker whose id has a place in the table, or
  -- it is the master, which waits and whose table has a place for each worker.
  pub yta_fork_workers-IsPlaced :
      (m : Master) (pidfile_path : Bytes) (fds : List ℤ) (a : StartAnswers) (events : List Event)
      (r : Role × Master)
      → yta_fork_workers m n pidfile_path fds a events ≡ done r
      → IsPlaced n r
  unfolding yta_fork_workers with_workers
  yta_fork_workers-IsPlaced m pidfile_path fds a events r h =
      let (_, _, h₁) = >>=-eq-done (clear_sigmask a.sigset_emptied a.mask_set) _ h in
      let (m', _, h₂) =
        >>=-eq-done
          (write_pidfile (setup_master_signal_handlers m) pidfile_path a.pidfile_opened
            a.pidfile_written)
          _ h₁ in
      let (_, _, h₃) = >>=-eq-done (or_exit a.pids_allocated) _ h₂ in
      let table : HasTable n (with_workers m' n fds) =
        (replicate n 0, refl, length-replicate n 0, refl) in
      InTable-IsPlaced n r (
        bind-Yields (InTable n) (InTable n) (spawn n (with_workers m' n fds) 0 a.forks) _
          (spawn-InTable n some_worker n (with_workers m' n fds) 0 a.forks (omega arith) table)
          (λ r' v.
            keep_waiting-InTable r' (λ m''. wait_loop m'' events) v
              (λ m'' v'. wait_loop-InTable m'' events v'))
          r h₃)
