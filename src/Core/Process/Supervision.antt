-- ===== src/Core/Process/Supervision.antt =====
-- The master process of src/core/yta_process.c: what its handlers do to the workers, and which worker
-- a process becomes.
use yotta.Prelude.{
  ℕ, suc, ◌+◌, ◌-◌, ◌≡◌, ◌≢◌, ◌↔◌, refl, sym, ap, ◌∙◌, Bool, true, false, not, Option, none, some,
  List, [], ◌∷◌, ◌++◌, Bytes, length, take, set, reverse, map, append_assoc, arith, if◌then◌else◌,
  length-append, All,
}
use mathlib.Core.List.{reverse-append, reverse-cons}
use yotta.Core.Outcome.{done, exited, ◌>>=◌, >>=-eq-done, done-injective}
use yotta.Core.ListenFds.{create_listen_fds_env, print_at}
use yotta.Core.Process.{
  Master, Signal, sigquit, kill, waitpid, remove, Fork, fork_failed, in_child, in_parent,
  UpgradeAnswers, worker, master, kill_all, wait_all, workers_of, pids_of, is_sigquit,
  signal_handler, indexed, forward_signal_to_workers, exit_and_cleanup_main, upgrade_handler,
  env_of, after_fork, rename_and_fork, old_pid, pointer_size, record_pid, assign_pid, find_worker,
  respawn, respawn_at, setup_worker_signal_handlers,
}

reverse-kill_all :
    (pids : List ℕ) (signo : Signal) → reverse (kill_all pids signo) ≡ map (λ p. kill p signo) pids
unfolding kill_all
reverse-kill_all [] signo = refl
reverse-kill_all (p ∷ pids) signo =
    reverse-append (kill_all pids signo) (kill p signo ∷ [])
    ∙ ap (λ es. kill p signo ∷ es) (reverse-kill_all pids signo)

reverse-wait_all : (pids : List ℕ) → reverse (wait_all pids) ≡ map waitpid pids
unfolding wait_all
reverse-wait_all [] = refl
reverse-wait_all (p ∷ pids) =
    reverse-append (wait_all pids) (waitpid p ∷ [])
    ∙ ap (λ es. waitpid p ∷ es) (reverse-wait_all pids)

reverse-log {ℓ} :
    {A : Type ℓ} (x : A) (a b c : List A)
    → reverse (x ∷ (a ++ (b ++ c))) ≡ reverse c ++ (reverse b ++ (reverse a ++ x ∷ []))
reverse-log x a b c =
    reverse-cons x (a ++ (b ++ c))
    ∙ ap (λ r. r ++ x ∷ [])
        (reverse-append a (b ++ c) ∙ ap (λ r. r ++ reverse a) (reverse-append b c))
    ∙ append_assoc (reverse c ++ reverse b) (reverse a) (x ∷ [])
    ∙ append_assoc (reverse c) (reverse b) (reverse a ++ x ∷ [])

take_all {ℓ} : {A : Type ℓ} (xs : List A) → take (length xs) xs ≡ xs
take_all [] = refl
take_all (x ∷ xs) = ap (λ ys. x ∷ ys) (take_all xs)

indexed-all : (pids : List ℕ) → indexed (length pids) pids ≡ done pids
unfolding indexed
indexed-all [] = refl
indexed-all (p ∷ pids) = ap (λ m. m >>= λ rest. done (p ∷ rest)) (indexed-all pids)

exit_code_iff : (s : Signal) → (◌≡◌ {A = ℕ} (if is_sigquit s then 0 else 1) 0) ↔ (s ≡ sigquit)
unfolding is_sigquit
exit_code_iff s = (λ h. ground arith, λ h. ground arith)

-- In a master that has its table of workers, a terminating signal goes to every worker in turn, then every
-- worker is waited for, then the pid file is removed; the exit code is 0 exactly for SIGQUIT.
pub signal_handler-effects :
    (m : Master) (pids : List ℕ) (signo : Signal)
    → m.worker_pids ≡ some pids
    → m.worker_count ≡ length pids
    → (end : ℕ × Master) × (signal_handler m signo ≡ done end)
      × (reverse end.1.effects
          ≡ reverse m.effects
            ++ (map (λ p. kill p signo) pids
                ++ (map waitpid pids ++ remove m.pidfile_to_delete ∷ [])))
      × ((end.0 ≡ 0) ↔ (signo ≡ sigquit))
unfolding signal_handler workers_of forward_signal_to_workers exit_and_cleanup_main
signal_handler-effects m pids signo table size =
    let visited : workers_of m ≡ pids =
      ap (λ n. take n (pids_of m.worker_pids)) size
      ∙ ap (λ w. take (length pids) (pids_of w)) table
      ∙ take_all pids in
    let indices : indexed m.worker_count (pids_of m.worker_pids) ≡ done pids =
      ap (λ n. indexed n (pids_of m.worker_pids)) size
      ∙ ap (λ w. indexed (length pids) (pids_of w)) table
      ∙ indexed-all pids in
    let log : Master → List ℕ → ℕ × Master = λ f waited.
      exit_and_cleanup_main (record f { effects = wait_all waited ++ f.effects }) signo in
    (
      log (forward_signal_to_workers m signo) pids,
      ap (λ o. o >>= λ waited. done (log (forward_signal_to_workers m signo) waited)) indices,
      reverse-log (remove m.pidfile_to_delete) (wait_all pids) (kill_all (workers_of m) signo)
            m.effects
          ∙ ap
              (λ r.
                reverse m.effects
                ++ (r ++ (reverse (wait_all pids) ++ remove m.pidfile_to_delete ∷ [])))
              (reverse-kill_all (workers_of m) signo)
          ∙ ap
              (λ r.
                reverse m.effects
                ++ (map (λ p. kill p signo) (workers_of m)
                    ++ (r ++ remove m.pidfile_to_delete ∷ [])))
              (reverse-wait_all pids)
          ∙ ap
              (λ w.
                reverse m.effects
                ++ (map (λ p. kill p signo) w
                    ++ (map waitpid pids ++ remove m.pidfile_to_delete ∷ [])))
              visited,
      exit_code_iff signo,
    )

-- The new name of the pid file fits its buffer.
pub new_name_fits :
    (path : Bytes)
    → print_at (length path + pointer_size - 1) [] (path ++ old_pid) ≡ some (path ++ old_pid)
unfolding print_at
new_name_fits path = ground (arith, length-append path old_pid)

after_fork-keeps :
    (f : Fork) (execve_failed : Bool) (m m' : Master) (env : Bytes)
    → after_fork f execve_failed m env ≡ done m'
    → (m'.upgraded ≡ m.upgraded) × (m'.pidfile_to_delete ≡ m.pidfile_to_delete)
unfolding after_fork
after_fork-keeps fork_failed e m m' env h =
    let same = done-injective (sym h) in
    (ap (λ x. x.upgraded) same, ap (λ x. x.pidfile_to_delete) same)
after_fork-keeps (in_parent pid) e m m' env h =
    let same = done-injective (sym h) in
    (ap (λ x. x.upgraded) same, ap (λ x. x.pidfile_to_delete) same)
after_fork-keeps in_child true m m' env h = cc
after_fork-keeps in_child false m m' env h =
    let same = done-injective (sym h) in
    (ap (λ x. x.upgraded) same, ap (λ x. x.pidfile_to_delete) same)

pub upgrade_handler-rename :
    (m : Master) (answers : UpgradeAnswers)
    → answers.allocated ≡ true
    → upgrade_handler m answers ≡ rename_and_fork m answers (m.pidfile_to_delete ++ old_pid)
unfolding upgrade_handler env_of
upgrade_handler-rename m answers a =
    ap
      (λ b. if not b then done m else (do
        new_name ← env_of (
            print_at (length m.pidfile_to_delete + pointer_size - 1) []
              (m.pidfile_to_delete ++ old_pid))
        rename_and_fork m answers new_name))
      a
    ∙ ap (λ o. env_of o >>= rename_and_fork m answers) (new_name_fits m.pidfile_to_delete)

renamed :
    (m m' : Master) (answers : UpgradeAnswers) (name : Bytes)
    → answers.rename_failed ≡ false
    → rename_and_fork m answers name ≡ done m'
    → (m'.upgraded ≡ true) × (m'.pidfile_to_delete ≡ name)
unfolding rename_and_fork
renamed m m' answers name r h =
    let (env, _, h₁) =
      >>=-eq-done (env_of (create_listen_fds_env m.stored_listen_fds m.worker_count)) _
        (rw r at h) in
    after_fork-keeps answers.forked answers.execve_failed _ m' env h₁

respawn-upgraded :
    (m : Master) (pid : Option ℕ) (forked : Fork)
    → m.upgraded ≡ true
    → respawn m pid forked ≡ done (master, m)
unfolding respawn
respawn-upgraded m none forked u = refl
respawn-upgraded m (some pid) forked u =
    ap (λ b. if b then done (master, m) else respawn_at (find_worker pid (workers_of m) 0) forked m)
      u

-- The upgrade: when the memory is there, the pid file is renamed and the handler returns, the pid file has
-- its new name, and no dead worker is forked again, whatever `fork` returned in the handler.
pub upgrade-stops_respawn :
    (m m' : Master) (answers : UpgradeAnswers) (pid : Option ℕ) (forked : Fork)
    → answers.allocated ≡ true
    → answers.rename_failed ≡ false
    → upgrade_handler m answers ≡ done m'
    → (m'.pidfile_to_delete ≡ m.pidfile_to_delete ++ old_pid)
      × (respawn m' pid forked ≡ done (master, m'))
upgrade-stops_respawn m m' answers pid forked a r h =
    let (up, name) =
      renamed m m' answers (m.pidfile_to_delete ++ old_pid) r
        (sym (upgrade_handler-rename m answers a) ∙ h) in
    (name, respawn-upgraded m' pid forked up)

find_worker-middle :
    (front rest : List ℕ) (pid i : ℕ)
    → All (λ p. p ≢ pid) front
    → find_worker pid (front ++ pid ∷ rest) i ≡ some (i + length front)
unfolding find_worker
find_worker-middle [] rest pid i h = ground arith
find_worker-middle (p ∷ front) rest pid i (hp, h) =
    ground (arith, find_worker-middle front rest pid (suc i) h)

pub set-middle {ℓ} :
    {A : Type ℓ} (front rest : List A) (old new : A)
    → set (front ++ old ∷ rest) (length front) new ≡ front ++ new ∷ rest
set-middle [] rest old new = refl
set-middle (x ∷ front) rest old new = ap (λ xs. x ∷ xs) (set-middle front rest old new)

module _ (m : Master) (front rest : List ℕ) (pid new : ℕ) (not_upgraded : m.upgraded ≡ false)
    (table : m.worker_pids ≡ some (front ++ pid ∷ rest))
    (size : m.worker_count ≡ length (front ++ pid ∷ rest)) (first : All (λ p. p ≢ pid) front) where
  workers : workers_of m ≡ front ++ pid ∷ rest
  unfolding workers_of
  workers =
      ap (λ n. take n (pids_of m.worker_pids)) size
      ∙ ap (λ w. take (length (front ++ pid ∷ rest)) (pids_of w)) table
      ∙ take_all (front ++ pid ∷ rest)

  found : find_worker pid (workers_of m) 0 ≡ some (length front)
  found =
      ap (λ w. find_worker pid w 0) workers
      ∙ find_worker-middle front rest pid 0 first
      ∙ ap some (omega arith)

  reforked : (f : Fork) → respawn m (some pid) f ≡ respawn_at (some (length front)) f m
  unfolding respawn
  reforked f =
      ap (λ b. if b then done (master, m) else respawn_at (find_worker pid (workers_of m) 0) f m)
        not_upgraded
      ∙ ap (λ o. respawn_at o f m) found

  -- Before an upgrade, a dead worker of the table is forked again in its own place: in the parent its pid, and no other, is replaced in
  -- the table; the child takes over its worker id; a failed `fork` ends the master.
  pub respawn-same_slot :
      (respawn m (some pid) (in_parent new)
        ≡ done (master, record m { worker_pids = some (front ++ new ∷ rest) }))
      × (respawn m (some pid) in_child
          ≡ done (worker (length front), setup_worker_signal_handlers m))
      × (respawn m (some pid) fork_failed ≡ exited 1)
  unfolding respawn_at record_pid
  respawn-same_slot = (
    reforked (in_parent new)
        ∙ ap (λ w. done (master, record m { worker_pids = w }))
            (ap (λ w. assign_pid w (length front) new) table
              ∙ ap some (set-middle front rest pid new)),
    reforked in_child,
    reforked fork_failed,
  )
