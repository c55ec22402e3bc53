-- ===== src/Core/Startup/Sockets.antt =====
-- Which listening socket a worker of src/core/yta_event_loop.c serves, at the start and after an upgrade.
use yotta.Prelude.{
  ℕ, zero, suc, ◌+◌, ◌<◌, ◌≡◌, ◌≢◌, refl, sym, ap, ◌∙◌, Bool, true, false, Option, some, none, List,
  [], ◌∷◌, ◌++◌, map, Bytes, get_elem?, length, arith,
}
use yotta.Prelude.Int.{ℤ, pos}
use yotta.Core.Outcome.{done, ◌>>=◌, >>=-eq-done, done-injective, or_fault}
use yotta.Core.ListenFds.{create_listen_fds_env, parse_listen_fds_env, prefix}
use yotta.Core.ListenFds.HandOver.{FiveDigits, parse-create}
use yotta.Core.Process.{
  Master, in_child, execve, rename, UpgradeAnswers, upgrade_handler, rename_and_fork, after_fork,
  env_of, old_pid,
}
use yotta.Core.Process.Supervision.{upgrade_handler-rename}
use yotta.Core.Reactor.{require}
use yotta.Core.Startup.{
  SocketAnswers, descriptor, make_listen_socket, set_nonblock, open_socket, open_sockets,
  get_listen_fds,
}

-- Every call for a socket has succeeded.
abbrev pub IsListening : SocketAnswers → ℕ → Type 0
IsListening a fd =
    (a.created ≡ some fd)
    × (a.resolved ≡ true)
    × (a.reuse_addr ≡ true)
    × (a.reuse_port ≡ true)
    × (a.bound ≡ true)
    × (a.flags_read ≡ true)
    × (a.flags_set ≡ true)
    × (a.listening ≡ true)

require-true : (b : Bool) {u : Unit {0}} → require b ≡ done u → b ≡ true
unfolding require
require-true true h = refl
require-true false h = cc

descriptor-some : (o : Option ℕ) {fd : ℕ} → descriptor o ≡ done fd → o ≡ some fd
unfolding descriptor
descriptor-some (some fd) h = ap some (done-injective h)
descriptor-some none h = cc

open_socket-IsListening :
    (a : SocketAnswers) (z : ℤ)
    → open_socket a ≡ done z
    → (fd : ℕ) × (z ≡ pos fd) × IsListening a fd
unfolding open_socket make_listen_socket set_nonblock
open_socket-IsListening a z h =
    let (fd, made, h₁) = >>=-eq-done (make_listen_socket a) _ h in
    let (_, nonblock, h₂) = >>=-eq-done (set_nonblock a.flags_read a.flags_set) _ h₁ in
    let (_, listens, h₃) = >>=-eq-done (require a.listening) _ h₂ in
    let (_, resolved, m₁) = >>=-eq-done (require a.resolved) _ made in
    let (fd', created, m₂) = >>=-eq-done (descriptor a.created) _ m₁ in
    let (_, addr, m₃) = >>=-eq-done (require a.reuse_addr) _ m₂ in
    let (_, port, m₄) = >>=-eq-done (require a.reuse_port) _ m₃ in
    let (_, bound, m₅) = >>=-eq-done (require a.bound) _ m₄ in
    let (_, read, n₁) = >>=-eq-done (require a.flags_read) _ nonblock in
    (
      fd,
      done-injective (sym h₃),
      (
        descriptor-some a.created created ∙ ap some (done-injective m₅),
        require-true _ resolved,
        require-true _ addr,
        require-true _ port,
        require-true _ bound,
        require-true _ read,
        require-true _ n₁,
        require-true _ listens,
      ),
    )

open_sockets-IsListening :
    (rounds i k : ℕ) (answers : ℕ → SocketAnswers) (fds : List ℤ)
    → open_sockets rounds i answers ≡ done fds
    → k < rounds
    → (fd : ℕ) × (get_elem? fds k ≡ some (pos fd)) × IsListening (answers (i + k)) fd
unfolding open_sockets
open_sockets-IsListening zero i k answers fds h lt = absurd (omega arith)
open_sockets-IsListening (suc rounds) i zero answers fds h lt =
    let (z, opened, h₁) = >>=-eq-done (open_socket (answers i)) _ h in
    let (rest, _, h₂) = >>=-eq-done (open_sockets rounds (suc i) answers) _ h₁ in
    let (fd, e, v) = open_socket-IsListening (answers i) z opened in
    let same : i + 0 ≡ i = omega arith in
    (fd, ap (λ l. get_elem? l 0) (sym (done-injective h₂)) ∙ ap some e, rw same v)
open_sockets-IsListening (suc rounds) i (suc k) answers fds h lt =
    let (z, opened, h₁) = >>=-eq-done (open_socket (answers i)) _ h in
    let (rest, more, h₂) = >>=-eq-done (open_sockets rounds (suc i) answers) _ h₁ in
    let (fd, e, v) = open_sockets-IsListening rounds (suc i) k answers rest more (omega arith) in
    let same : suc i + k ≡ i + suc k = omega arith in
    (fd, ap (λ l. get_elem? l (suc k)) (sym (done-injective h₂)) ∙ e, rw same at v)

-- With no sockets handed over, every worker has a socket of its own round of the loop, for which every
-- call has succeeded, the bound address and `listen` among them.
pub get_listen_fds-IsListening :
    (memory : Bool) (answers : ℕ → SocketAnswers) (worker_count k : ℕ) (fds : List ℤ)
    → get_listen_fds none memory answers worker_count ≡ done fds
    → k < worker_count
    → (fd : ℕ) × (get_elem? fds k ≡ some (pos fd)) × IsListening (answers k) fd
unfolding get_listen_fds
get_listen_fds-IsListening memory answers worker_count k fds h lt =
    let (_, _, h₁) = >>=-eq-done (require memory) _ h in
    let (fd, e, v) = open_sockets-IsListening worker_count 0 k answers fds h₁ lt in
    let same : 0 + k ≡ k = omega arith in (fd, e, rw same at v)

-- The answers of an upgrade that goes through, in the child.
abbrev pub upgrading : UpgradeAnswers
upgrading = record {
  allocated = true;
  rename_failed = false;
  forked = in_child;
  execve_failed = false;
}

-- The upgraded binary has the listening sockets of the old one, in the same order: the handler starts it
-- with an entry of the environment from whose value `get_listen_fds` reads the stored descriptors. They
-- are one for each worker, at least one, with at most five digits.
pub upgrade-keeps_sockets :
    (m : Master) (fds : List ℕ) (sockets : ℕ → SocketAnswers)
    → m.stored_listen_fds ≡ map pos fds
    → m.worker_count ≡ length fds
    → fds ≢ []
    → FiveDigits fds
    → (value : Bytes) × (m' : Master) × (upgrade_handler m upgrading ≡ done m')
      × (m'.effects
          ≡ execve (prefix ++ value)
            ∷ rename m.pidfile_to_delete (m.pidfile_to_delete ++ old_pid)
            ∷ m.effects)
      × (get_listen_fds (some value) true sockets m.worker_count ≡ done m.stored_listen_fds)
unfolding rename_and_fork after_fork env_of get_listen_fds require
upgrade-keeps_sockets m fds sockets stored count some_fd short =
    let (value, created, parsed) = parse-create fds some_fd short in
    let entry : create_listen_fds_env m.stored_listen_fds m.worker_count ≡ some (prefix ++ value) =
      ap (λ l. create_listen_fds_env l m.worker_count) stored
      ∙ ap (create_listen_fds_env (map pos fds)) count
      ∙ created in
    let renamed : Master = record m {
      pidfile_to_delete = m.pidfile_to_delete ++ old_pid;
      upgraded = true;
      effects = rename m.pidfile_to_delete (m.pidfile_to_delete ++ old_pid) ∷ m.effects;
    } in
    (
      value,
      record renamed { effects = execve (prefix ++ value) ∷ renamed.effects },
      upgrade_handler-rename m upgrading refl
          ∙ ap (λ o. env_of o >>= after_fork in_child false renamed) entry,
      refl,
      ap (λ l. or_fault (parse_listen_fds_env value l)) count
          ∙ ap or_fault parsed
          ∙ ap done (sym stored),
    )
