-- ===== src/Core/Reactor.antt =====
-- `struct loop_core` of src/core/yta_event_loop.c and the functions that change it: `cleanup_context`,
-- `accept_loop`, `serve_timers`, `serve_sockets` and the loop of `serve`. What the kernel reports and
-- answers comes with each event. Descriptors that were closed are recorded, last first, and the contexts that
-- were freed, as their close callback has left them.
pub mod Accounting
pub mod Serving
pub mod Soundness
pub mod Connections
use yotta.Prelude.{
  ℕ, suc, ◌+◌, ◌≡◌, Bool, true, false, not, ◌&&◌, ◌||◌, Option, none, some, List, [], ◌∷◌, ◌++◌,
  ◌==◌, if◌then◌else◌,
}
use yotta.Prelude.Int.{ℤ, pos, is_zero, increment, decrement}
use yotta.Core.Outcome.{Outcome, done, exited, aborted, faulted, ◌>>=◌}
use yotta.Core.Context.{Ctx, CallbackStatus, yta_ok, yta_exit, new_ctx}
use yotta.Core.Transfer.{
  LoopStatus, loop_continue, loop_again, loop_error, Answer, Sent, IoBehaviour, read_loop,
  write_loop,
}
use yotta.Core.Heap.{load, store, free}

pub record Reactor (U I C : Type 0) : Type 0 where
  pub listen_fd : ℕ
  pub listen_fd_ctx : ℕ
  pub socket_epoll_fd : ℕ
  pub timer_epoll_fd : ℕ
  pub signal_fd : ℕ
  pub master_epoll_fd : ℕ
  pub current_clients : ℤ
  pub terminated : Bool
  pub contexts : List (ℕ × Ctx U I C)
  pub closed : List ℤ
  pub ended : List (Ctx U I C)

-- What the calls of the client's callbacks do.
pub record Client (U I C : Type 0) : Type 0 where
  pub io : IoBehaviour U I C
  pub plain : C → Ctx U I C → Outcome (CallbackStatus × Ctx U I C)
  pub accept : Ctx U I C → Outcome (CallbackStatus × Ctx U I C)
  pub no_data : U

-- The flags of an `epoll_event`.
pub record Flags : Type 0 where
  pub epollerr : Bool
  pub epollrdhup : Bool
  pub epollhup : Bool
  pub epollin : Bool
  pub epollout : Bool

-- One round of the accept loop: the descriptor, whether `set_nonblock` and `setsockopt` succeed, the
-- address that `calloc` gives, and whether `epoll_ctl` succeeds. Where the list ends, `accept` fails.
pub record Accepted : Type 0 where
  pub infd : ℕ
  pub nonblock : Bool
  pub nodelay : Bool
  pub address : Option ℕ
  pub added : Bool

pub record TimerEvent : Type 0 where
  pub timer_ctx : ℕ
  pub timer_flags : Flags

pub record SocketEvent : Type 0 where
  pub socket_ctx : ℕ
  pub socket_flags : Flags
  pub accepts : List Accepted
  pub reads : List Answer
  pub writes : List Answer

-- `(EPOLLERR || EPOLLRDHUP) && !(EPOLLIN || EPOLLOUT)`
unfoldable pub is_hangup : Flags → Bool
is_hangup f = (f.epollerr || f.epollrdhup) && not (f.epollin || f.epollout)

-- `if (!status) exit(1);`
unfoldable pub require : Bool → Outcome (Unit {0})
require true = done tt
require false = exited 1

unfoldable pub allocated : Option ℕ → Outcome ℕ
allocated (some address) = done address
allocated none = exited 1

module _ {U I C : Type 0} (client : Client U I C) where
  unfoldable pub call_close : Option C → Ctx U I C → Outcome (Ctx U I C)
  call_close none ctx = done ctx
  call_close (some callback) ctx = do (status, ctx') ← client.plain callback ctx; done ctx'

  -- The descriptors that a context holds.
  unfoldable pub fds_of : Ctx U I C → List ℤ
  fds_of ctx = if is_zero ctx.timer_fd then pos ctx.fd ∷ [] else ctx.timer_fd ∷ pos ctx.fd ∷ []

  unfoldable pub cleanup_context : Reactor U I C → ℕ → Outcome (Reactor U I C)
  cleanup_context reactor address = do
    ctx ← load address reactor.contexts
    ctx' ← call_close ctx.close_callback ctx
    done (record reactor {
      contexts = free address reactor.contexts;
      current_clients = decrement reactor.current_clients;
      closed = fds_of ctx ++ reactor.closed;
      ended = ctx' ∷ reactor.ended;
    })

  -- The end of a round of `accept_loop`, by what the accept callback returned.
  unfoldable pub admit :
      Reactor U I C → ℕ → ℕ → Bool → CallbackStatus × Ctx U I C → Outcome (Reactor U I C)
  admit reactor infd address added (yta_exit, ctx) =
      done (record reactor { closed = pos infd ∷ reactor.closed })
  admit reactor infd address added (yta_ok, ctx) = do
    _ ← require added
    done (record reactor {
      contexts = (address, ctx) ∷ reactor.contexts;
      current_clients = increment reactor.current_clients;
    })

  unfoldable pub accept_round : Reactor U I C → Accepted → Outcome (Reactor U I C)
  accept_round reactor a = do
    _ ← require a.nonblock
    _ ← require a.nodelay
    address ← allocated a.address
    answer ← client.accept (new_ctx client.no_data a.infd)
    admit reactor a.infd address a.added answer

  unfoldable pub accept_loop : Reactor U I C → List Accepted → Outcome (Reactor U I C)
  accept_loop reactor [] = done reactor
  accept_loop reactor (a ∷ more) = do reactor' ← accept_round reactor a; accept_loop reactor' more

  -- One event of `serve_timers`.
  unfoldable pub fire_timer : Reactor U I C → ℕ → Option C → Ctx U I C → Outcome (Reactor U I C)
  fire_timer reactor address none ctx = faulted
  fire_timer reactor address (some callback) ctx = do
    (status, ctx') ← client.plain callback ctx
    let reactor' = record reactor { contexts = store address ctx' reactor.contexts }
    elim status [ yta_ok ↦ done reactor' | yta_exit ↦ cleanup_context reactor' address ]

  unfoldable pub serve_timer : Reactor U I C → TimerEvent → Outcome (Reactor U I C)
  serve_timer reactor event =
      if is_hangup event.timer_flags
      then cleanup_context reactor event.timer_ctx
      else if event.timer_flags.epollin
      then (do
        ctx ← load event.timer_ctx reactor.contexts
        fire_timer reactor event.timer_ctx ctx.timer_callback ctx)
      else aborted

  unfoldable pub serve_timers : Reactor U I C → List TimerEvent → Outcome (Reactor U I C)
  serve_timers reactor [] = done reactor
  serve_timers reactor (event ∷ events) = do
    reactor' ← serve_timer reactor event
    serve_timers reactor' events

  -- `if (events & EPOLLIN) status = read_loop(udata);`
  unfoldable pub do_reads : Bool → List Answer → Ctx U I C → Outcome (LoopStatus × Ctx U I C)
  do_reads epollin answers ctx =
      if epollin then read_loop client.io answers ctx else done (loop_continue, ctx)

  -- `if (events & EPOLLOUT && status == YTA_LOOP_CONTINUE) status = write_loop(udata);`
  unfoldable pub do_writes :
      Bool → LoopStatus → List Answer → Ctx U I C → Outcome (LoopStatus × Ctx U I C)
  do_writes epollout loop_continue answers ctx =
      if epollout
      then (do (status, ctx', sent) ← write_loop client.io answers ctx []; done (status, ctx'))
      else done (loop_continue, ctx)
  do_writes epollout loop_again answers ctx = done (loop_again, ctx)
  do_writes epollout loop_error answers ctx = done (loop_error, ctx)

  unfoldable pub close_on_error : LoopStatus → Reactor U I C → ℕ → Outcome (Reactor U I C)
  close_on_error loop_error reactor address = cleanup_context reactor address
  close_on_error loop_continue reactor address = done reactor
  close_on_error loop_again reactor address = done reactor

  -- The last branch of `serve_sockets`: reads, then writes, then the end of the connection on an error.
  unfoldable pub transfer : Reactor U I C → SocketEvent → Ctx U I C → Outcome (Reactor U I C)
  transfer reactor event ctx = do
    (status₁, ctx₁) ← do_reads event.socket_flags.epollin event.reads ctx
    (status₂, ctx₂) ← do_writes event.socket_flags.epollout status₁ event.writes ctx₁
    close_on_error status₂
        (record reactor { contexts = store event.socket_ctx ctx₂ reactor.contexts })
        event.socket_ctx

  -- One event of `serve_sockets`.
  unfoldable pub serve_socket : Reactor U I C → SocketEvent → Outcome (Reactor U I C)
  serve_socket reactor event =
      if is_hangup event.socket_flags then cleanup_context reactor event.socket_ctx else do
        udata ← load event.socket_ctx reactor.contexts
        if not reactor.terminated && reactor.listen_fd == udata.fd
            then accept_loop reactor event.accepts
            else transfer reactor event udata

  unfoldable pub serve_sockets : Reactor U I C → List SocketEvent → Outcome (Reactor U I C)
  serve_sockets reactor [] = done reactor
  serve_sockets reactor (event ∷ events) = do
    reactor' ← serve_socket reactor event
    serve_sockets reactor' events

-- What the outer `epoll_wait` reports, with what the inner one then reports.
pub data MasterEvent : Type 0 where
  sockets : List SocketEvent → MasterEvent
  timers : List TimerEvent → MasterEvent
  signal : MasterEvent

module _ {U I C : Type 0} (client : Client U I C) where
  -- The worker is ordered to terminate: `free(reactor.listen_fd_ctx)`.
  unfoldable pub terminate : Reactor U I C → Outcome (Reactor U I C)
  terminate reactor = do
    _ ← load reactor.listen_fd_ctx reactor.contexts
    done (record reactor {
      terminated = true;
      contexts = free reactor.listen_fd_ctx reactor.contexts;
    })

  unfoldable pub serve_event : Reactor U I C → MasterEvent → Outcome (Reactor U I C)
  serve_event reactor (sockets events) = serve_sockets client reactor events
  serve_event reactor (timers events) = serve_timers client reactor events
  serve_event reactor signal = terminate reactor

  -- `!reactor.terminated || reactor.current_clients`
  unfoldable pub keeps_serving : Reactor U I C → Bool
  keeps_serving reactor = not reactor.terminated || not (is_zero reactor.current_clients)

  -- The descriptors that `serve` closes at its end.
  unfoldable pub close_reactor : Reactor U I C → Reactor U I C
  close_reactor reactor = record reactor {
    closed =
        pos reactor.master_epoll_fd
        ∷ pos reactor.signal_fd
        ∷ pos reactor.timer_epoll_fd
        ∷ pos reactor.socket_epoll_fd
        ∷ reactor.closed;
  }

  -- The loop of `serve` over the events that come in; the result says whether it has ended.
  unfoldable pub serve_loop : Reactor U I C → List MasterEvent → Outcome (Bool × Reactor U I C)
  serve_loop reactor [] =
      if keeps_serving reactor then done (false, reactor) else done (true, close_reactor reactor)
  serve_loop reactor (event ∷ events) =
      if keeps_serving reactor
      then (do reactor' ← serve_event reactor event; serve_loop reactor' events)
      else done (true, close_reactor reactor)
