-- ===== src/Core/Startup/Workers.antt =====
-- A whole run of `yta_run` of src/core/yta_event_loop.c that ends in a worker.
use yotta.Prelude.{inl, inr, ℕ, ◌<◌, ◌≡◌, sym, ap, Bool, some, none, List, Bytes, get_elem?, subst}
use yotta.Prelude.Int.{ℤ, pos, negsuc}
use yotta.Core.Outcome.{Outcome, done, or_fault}
use yotta.Core.Process.Table.Waiting.{yta_fork_workers-IsPlaced}
use yotta.Core.Process.{StartAnswers, Event, Master, worker, master, yta_fork_workers}
use yotta.Core.Reactor.{Reactor, Client}
use yotta.Core.Startup.{
  SocketAnswers, get_listen_fds, serve, Privilege, drop_root, fd_of_worker, RunAnswers,
}
use yotta.Core.Startup.Sockets.{IsListening, get_listen_fds-IsListening}

magnitude : ℤ → ℕ
magnitude (pos n) = n
magnitude (negsuc n) = n

worker-injective : {i j : ℕ} → worker i ≡ worker j → i ≡ j
worker-injective h = cc

-- With at least one worker, and no sockets handed over, every worker that goes on behind
-- yta_fork_workers, be it of the first ones or forked again, finds its socket in the table, and every call
-- up to listen has succeeded for it.
pub yta_fork_workers-IsListening :
    (memory : Bool) (answers : ℕ → SocketAnswers) (n : ℕ) (m m' : Master) (pidfile_path : Bytes)
    (fds : List ℤ) (a : StartAnswers) (events : List Event) (i : ℕ)
    → 0 < n
    → get_listen_fds none memory answers n ≡ done fds
    → yta_fork_workers m n pidfile_path fds a events ≡ done (worker i, m')
    → (fd : ℕ) × (fd_of_worker fds (worker i) ≡ done (pos fd)) × IsListening (answers i) fd
unfolding fd_of_worker
yta_fork_workers-IsListening memory answers n m m' pidfile_path fds a events i some_worker opened
      forked =
    elim (yta_fork_workers-IsPlaced n some_worker m pidfile_path fds a events (worker i, m')
      forked) [
        | inl (j, same, inside) ↦
            let here : i < n = subst (λ k. k < n) (sym (worker-injective same)) inside in
            let (fd, there, listening) =
              get_listen_fds-IsListening memory answers n i fds opened here in
            (fd, ap or_fault there, listening)
        | inr (no', _) ↦ absurd (let bad : worker i ≡ master = no' in cc)
      ]

module _ {U I C : Type 0} (client : Client U I C) where
  -- What a worker has done before it is found served: its rights are dropped, its socket is in the table.
  abbrev Served : RunAnswers → List ℤ → ℕ → List Privilege → Bool × Reactor U I C → Type 0
  Served a fds i rights result =
      (drop_root a.privileges ≡ done rights)
      × ((fd : ℕ) × (get_elem? fds i ≡ some (pos fd))
          × (serve client fd a.reactor a.loop_events ≡ done result))
