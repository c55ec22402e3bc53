-- ===== src/Core/Reactor/Connections/Whole.antt =====
-- Reads and writes of a connection in the event loop of src/core/yta_event_loop.c, and whole runs of it.
use yotta.Prelude.{
  ℕ, ◌≡◌, inl, inr, Bool, true, false, not, ◌&&◌, List, [], ◌∷◌, ◌==◌, Bool-cases, subst,
  if-eq-then, if-eq-else,
}
use yotta.Core.Outcome.{done, >>=-eq-done, done-injective}
use yotta.Core.Context.{Ctx}
use yotta.Core.Transfer.{LoopStatus, loop_continue, loop_again, loop_error, Answer, write_loop}
use yotta.Core.Transfer.Keeping.Writes.{write_loop-Holds}
use yotta.Core.Transfer.Keeping.{Keeps, ReadsFit, Holds, read_loop-Holds}
use yotta.Core.Heap.{load, store}
use yotta.Core.Heap.Everywhere.{All-load, All-store, All-free, All-free-store}
use yotta.Core.Reactor.{
  Reactor, Client, SocketEvent, MasterEvent, sockets, timers, signal, is_hangup, do_reads,
  do_writes, close_on_error, transfer, serve_socket, serve_sockets, terminate, serve_event,
  keeps_serving, close_reactor, serve_loop,
}
use yotta.Core.Reactor.Connections.{
  Protocol, SocketsFit, AnswersFit, AllFit, OfClient, Kept, cleaned, accept_loop-Kept,
  serve_timers-Kept,
}

module _ {U I C : Type 0} (client : Client U I C) (P : Ctx U I C → Type 0) (p : Protocol client P)
    (listen : ℕ) where
  -- The property, where the context is a client's.
  abbrev Due : ℕ → Ctx U I C → Type 0
  Due a ctx = OfClient P listen (a, ctx)

  abbrev AllKept : Reactor U I C → Type 0
  AllKept r = Kept P listen r

  due : (a : ℕ) → Keeps client.io (Due a)
  due a = record {
    reads = λ c ctx ctx' n q armed fits called other.
        p.transfers.reads c ctx ctx' n (q other) armed fits called;
    moves = λ ctx w q other. p.transfers.moves ctx w (q other);
    writes = λ c ctx ctx' buf n q armed called other.
        p.transfers.writes c ctx ctx' buf n (q other) armed called;
  }

  do_reads-Holds :
      (a : ℕ) (epollin : Bool) (answers : List Answer) (ctx : Ctx U I C)
      (result : LoopStatus × Ctx U I C)
      → Due a ctx
      → ReadsFit client.io answers ctx
      → do_reads client epollin answers ctx ≡ done result
      → Holds (Due a) result.0 result.1
  unfolding do_reads
  do_reads-Holds a true answers ctx result q fits h =
      read_loop-Holds client.io (Due a) (due a) answers ctx result q fits h
  do_reads-Holds a false answers ctx result q fits h =
      subst (λ r. Holds (Due a) r.0 r.1) (done-injective h) q

  do_writes-Holds :
      (a : ℕ) (epollout : Bool) (status : LoopStatus) (answers : List Answer) (ctx : Ctx U I C)
      (result : LoopStatus × Ctx U I C)
      → Holds (Due a) status ctx
      → do_writes client epollout status answers ctx ≡ done result
      → Holds (Due a) result.0 result.1
  unfolding do_writes
  do_writes-Holds a true loop_continue answers ctx result q h =
      let (r, run, h₁) = >>=-eq-done (write_loop client.io answers ctx []) _ h in
      subst (λ r. Holds (Due a) r.0 r.1) (done-injective h₁)
        (write_loop-Holds client.io (Due a) (due a) answers ctx [] r q run)
  do_writes-Holds a false loop_continue answers ctx result q h =
      subst (λ r. Holds (Due a) r.0 r.1) (done-injective h) q
  do_writes-Holds a epollout loop_again answers ctx result q h =
      subst (λ r. Holds (Due a) r.0 r.1) (done-injective h) q
  do_writes-Holds a epollout loop_error answers ctx result q h =
      subst (λ r. Holds (Due a) r.0 r.1) (done-injective h) tt

  close_on_error-Kept :
      (status : LoopStatus) (r r' : Reactor U I C) (a : ℕ) (ctx : Ctx U I C)
      → AllKept r
      → Holds (Due a) status ctx
      → close_on_error client status (record r { contexts = store a ctx r.contexts }) a ≡ done r'
      → AllKept r'
  unfolding close_on_error
  close_on_error-Kept loop_continue r r' a ctx v q h =
      subst AllKept (done-injective h) (All-store (OfClient P listen) a ctx r.contexts q v)
  close_on_error-Kept loop_again r r' a ctx v q h =
      subst AllKept (done-injective h) (All-store (OfClient P listen) a ctx r.contexts q v)
  close_on_error-Kept loop_error r r' a ctx v q h =
      cleaned client P p listen (record r { contexts = store a ctx r.contexts }) r' a
        (All-free-store (OfClient P listen) a ctx r.contexts v) h

  transfer-Kept :
      (r r' : Reactor U I C) (e : SocketEvent) (ctx : Ctx U I C)
      → AllKept r
      → Due e.socket_ctx ctx
      → ReadsFit client.io e.reads ctx
      → transfer client r e ctx ≡ done r'
      → AllKept r'
  unfolding transfer
  transfer-Kept r r' e ctx v q fits h =
      let a = e.socket_ctx in
      let (r₁, read, h₁) = >>=-eq-done (do_reads client e.socket_flags.epollin e.reads ctx) _ h in
      let (r₂, written, h₂) =
        >>=-eq-done (do_writes client e.socket_flags.epollout r₁.0 e.writes r₁.1) _ h₁ in
      close_on_error-Kept r₂.0 r r' a r₂.1 v
        (do_writes-Holds a e.socket_flags.epollout r₁.0 e.writes r₁.1 r₂
          (do_reads-Holds a e.socket_flags.epollin e.reads ctx r₁ q fits read) written)
        h₂

  serve_socket-Kept :
      (r r' : Reactor U I C) (e : SocketEvent)
      → AllKept r
      → ((ctx : Ctx U I C)
          → load e.socket_ctx r.contexts ≡ done ctx
          → ReadsFit client.io e.reads ctx)
      → serve_socket client r e ≡ done r'
      → AllKept r'
  unfolding serve_socket
  serve_socket-Kept r r' e v fits h = elim (Bool-cases (is_hangup e.socket_flags)) [
    | inl hup ↦
        cleaned client P p listen r r' e.socket_ctx
          (All-free (OfClient P listen) e.socket_ctx r.contexts v) (if-eq-then _ _ hup h)
    | inr up ↦
        let (ctx, loaded, h₁) =
          >>=-eq-done (load e.socket_ctx r.contexts) _ (if-eq-else _ _ up h) in
        elim (Bool-cases (not r.terminated && r.listen_fd == ctx.fd)) [
          | inl yes' ↦ accept_loop-Kept client P p listen r r' e.accepts v (if-eq-then _ _ yes' h₁)
          | inr no' ↦
              transfer-Kept r r' e ctx v
                (All-load (OfClient P listen) e.socket_ctx r.contexts v loaded) (fits ctx loaded)
                (if-eq-else _ _ no' h₁)
        ]
  ]

  serve_sockets-Kept :
      (r r' : Reactor U I C) (es : List SocketEvent)
      → AllKept r
      → SocketsFit client r es
      → serve_sockets client r es ≡ done r'
      → AllKept r'
  unfolding serve_sockets
  serve_sockets-Kept r r' [] v fits h = subst AllKept (done-injective h) v
  serve_sockets-Kept r r' (e ∷ es) v (fit, fits) h =
      let (r₁, first, h₁) = >>=-eq-done (serve_socket client r e) _ h in
      serve_sockets-Kept r₁ r' es (serve_socket-Kept r r₁ e v fit first) (fits r₁ first) h₁

  pub serve_event-Kept :
      (r r' : Reactor U I C) (event : MasterEvent)
      → AllKept r
      → AnswersFit client r event
      → serve_event client r event ≡ done r'
      → AllKept r'
  unfolding serve_event terminate
  serve_event-Kept r r' (sockets es) v fits h = serve_sockets-Kept r r' es v fits h
  serve_event-Kept r r' (timers es) v fits h = serve_timers-Kept client P p listen r r' es v h
  serve_event-Kept r r' signal v fits h =
      let (_, _, h₁) = >>=-eq-done (load r.listen_fd_ctx r.contexts) _ h in
      subst AllKept (done-injective h₁) (All-free (OfClient P listen) r.listen_fd_ctx r.contexts v)

  -- What the accept callback establishes and every callback keeps holds of every client's context behind
  -- every run of the loop, whatever the kernel reports, when read gives no more than was asked for.
  pub serve_loop-Kept :
      (r : Reactor U I C) (events : List MasterEvent) (result : Bool × Reactor U I C)
      → Kept P listen r
      → AllFit client r events
      → serve_loop client r events ≡ done result
      → Kept P listen result.1
  unfolding serve_loop close_reactor
  serve_loop-Kept r [] result v fits h = elim (Bool-cases (keeps_serving client r)) [
    | inl more ↦ subst (λ x. AllKept x.1) (done-injective (if-eq-then _ _ more h)) v
    | inr over ↦ subst (λ x. AllKept x.1) (done-injective (if-eq-else _ _ over h)) v
  ]
  serve_loop-Kept r (event ∷ events) result v (fit, fits) h =
      elim (Bool-cases (keeps_serving client r)) [
        | inl more ↦
            let (r₁, first, h₁) =
              >>=-eq-done (serve_event client r event) _ (if-eq-then _ _ more h) in
            serve_loop-Kept r₁ events result (serve_event-Kept r r₁ event v fit first)
              (fits r₁ first) h₁
        | inr over ↦ subst (λ x. AllKept x.1) (done-injective (if-eq-else _ _ over h)) v
      ]
