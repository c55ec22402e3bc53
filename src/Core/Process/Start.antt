-- ===== src/Core/Process/Start.antt =====
-- The loop of `yta_fork_workers` (src/core/yta_process.c) that spawns the initial workers.
use yotta.Prelude.{
  ℕ, zero, suc, ◌+◌, ◌<◌, ◌≡◌, refl, sym, ap, ◌∙◌, some, List, [], ◌∷◌, ◌++◌, length, replicate,
  append-nil, append_assoc, length-append, arith, set,
}
use yotta.Core.Outcome.{done}
use yotta.Core.Process.{
  Master, Fork, in_child, in_parent, worker, master, assign_pid, record_pid, spawned, spawn,
  setup_worker_signal_handlers,
}
use yotta.Core.Process.Supervision.{set-middle}

-- `fork` returns these pids in the rounds from `i` on.
abbrev pub InParent : (ℕ → Fork) → ℕ → List ℕ → Type 0
InParent forks i [] = Unit
InParent forks i (pid ∷ pids) = (forks i ≡ in_parent pid) × InParent forks (suc i) pids

-- The master with a table of pids.
abbrev pub with_table : Master → List ℕ → Master
with_table m pids = record m { worker_pids = some pids }

spawn_round :
    (rounds : ℕ) (m : Master) (i pid : ℕ) (forks : ℕ → Fork)
    → forks i ≡ in_parent pid
    → spawn (suc rounds) m i forks ≡ spawn rounds (record_pid m i pid) (suc i) forks
unfolding spawn
spawn_round rounds m i pid forks e = rw (e, spawn) refl

spawn_child :
    (rounds : ℕ) (m : Master) (i : ℕ) (forks : ℕ → Fork)
    → forks i ≡ in_child
    → spawn (suc rounds) m i forks ≡ done (worker i, setup_worker_signal_handlers m)
unfolding spawn
spawn_child rounds m i forks e = rw (e, spawn) refl

record_pid-next :
    (m : Master) (front rest : List ℕ) (i pid : ℕ)
    → i ≡ length front
    → record_pid (with_table m (front ++ 0 ∷ rest)) i pid
      ≡ with_table m ((front ++ pid ∷ []) ++ rest)
unfolding record_pid assign_pid
record_pid-next m front rest i pid e =
    ap (λ k. with_table m (set (front ++ 0 ∷ rest) k pid)) e
    ∙ ap (with_table m) (set-middle front rest 0 pid ∙ sym (append_assoc front (pid ∷ []) rest))

spawn-from :
    (m : Master) (forks : ℕ → Fork) (front pids rest : List ℕ) (more i : ℕ)
    → i ≡ length front
    → InParent forks i pids
    → spawn
        (length pids + more)
        (with_table m (front ++ (replicate (length pids) 0 ++ rest)))
        i
        forks
      ≡ spawn more (with_table m (front ++ (pids ++ rest))) (i + length pids) forks
spawn-from m forks front [] rest more i e h =
    ap (λ k. spawn k (with_table m (front ++ rest)) i forks) (omega arith)
    ∙ ap (λ k. spawn more (with_table m (front ++ rest)) k forks) (omega arith)
spawn-from m forks front (pid ∷ pids) rest more i e (now, later) =
    let zeros = replicate (length pids) 0 ++ rest in
    ap (λ k. spawn k (with_table m (front ++ 0 ∷ zeros)) i forks) (omega arith)
    ∙ spawn_round (length pids + more) (with_table m (front ++ 0 ∷ zeros)) i pid forks now
    ∙ ap (λ t. spawn (length pids + more) t (suc i) forks) (record_pid-next m front zeros i pid e)
    ∙ spawn-from m forks (front ++ pid ∷ []) pids rest more (suc i)
        (omega (arith, length-append front (pid ∷ []))) later
    ∙ ap (λ t. spawn more (with_table m t) (suc i + length pids) forks)
        (append_assoc front (pid ∷ []) (pids ++ rest))
    ∙ ap (λ k. spawn more (with_table m (front ++ pid ∷ (pids ++ rest))) k forks) (omega arith)

spawned-master : (n : ℕ) → 0 < n → spawned n ≡ master
unfolding spawned
spawned-master zero h = absurd (omega arith)
spawned-master (suc n) h = refl

-- When every `fork` returns in the parent, for one worker at least, it stays the master, and the table has the pids in the order
-- of the worker ids.
pub spawn-master :
    (m : Master) (forks : ℕ → Fork) (pids : List ℕ)
    → 0 < length pids
    → InParent forks 0 pids
    → spawn (length pids) (with_table m (replicate (length pids) 0)) 0 forks
      ≡ done (master, with_table m pids)
unfolding spawn
spawn-master m forks pids some_worker forked =
    ap (λ k. spawn k (with_table m (replicate (length pids) 0)) 0 forks) (omega arith)
    ∙ ap (λ t. spawn (length pids + 0) (with_table m t) 0 forks)
        (sym (append-nil (replicate (length pids) 0)))
    ∙ spawn-from m forks [] pids [] 0 0 refl forked
    ∙ ap (λ r. done (r, with_table m (pids ++ []))) (spawned-master (0 + length pids) (omega arith))
    ∙ ap (λ t. done (master, with_table m t)) (append-nil pids)

-- The child that `fork` gives after some workers is the worker with their number as its id; it has the
-- workers' signal handlers, and forks no further.
pub spawn-worker :
    (m : Master) (forks : ℕ → Fork) (pids rest : List ℕ) (more : ℕ)
    → InParent forks 0 pids
    → forks (length pids) ≡ in_child
    → spawn (length pids + suc more) (with_table m (replicate (length pids) 0 ++ rest)) 0 forks
      ≡ done (worker (length pids), setup_worker_signal_handlers (with_table m (pids ++ rest)))
spawn-worker m forks pids rest more forked child =
    spawn-from m forks [] pids rest (suc more) 0 refl forked
    ∙ ap (λ k. spawn (suc more) (with_table m (pids ++ rest)) k forks)
        (let same : 0 + length pids ≡ length pids = omega arith in same)
    ∙ spawn_child more (with_table m (pids ++ rest)) (length pids) forks child
