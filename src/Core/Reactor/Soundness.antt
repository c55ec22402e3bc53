-- ===== src/Core/Reactor/Soundness.antt =====
-- The event loop of src/core/yta_event_loop.c uses no freed memory, and does nothing else that C leaves
-- undefined, as long as the kernel reports only contexts that are still there.
pub mod Batch
pub mod Timers
pub mod Loop
use yotta.Prelude.{
  ℕ, ◌≡◌, ◌≢◌, refl, ◌∙◌, Bool, true, false, not, ◌&&◌, Option, none, some, List, [], ◌∷◌, ◌==◌,
  All, sym, subst,
}
use yotta.Core.Outcome.{Sound, Sound->>=, Sound-if, done-Sound, exited-Sound}
use yotta.Core.Context.{Ctx, CallbackStatus, yta_ok, yta_exit, new_ctx}
use yotta.Core.Transfer.{LoopStatus, loop_continue, loop_again, loop_error, Answer, write_loop}
use yotta.Core.Transfer.Soundness.{read_loop-Sound, write_loop-Sound}
use yotta.Core.Heap.{load, store}
use yotta.Core.Heap.Laws.{has, load-has, has-store}
use yotta.Core.Reactor.{
  Reactor, Client, Accepted, SocketEvent, is_hangup, require, allocated, call_close,
  cleanup_context, admit, accept_round, accept_loop, do_reads, do_writes, close_on_error, transfer,
  serve_socket,
}

-- No callback does anything that C leaves undefined.
pub record AllSound {U I C : Type 0} (client : Client U I C) : Type 0 where
  pub io_sound : (c : I) (ctx : Ctx U I C) (buf n : ℕ) → Sound (client.io c ctx buf n)
  pub plain_sound : (c : C) (ctx : Ctx U I C) → Sound (client.plain c ctx)
  pub accept_sound : (ctx : Ctx U I C) → Sound (client.accept ctx)

-- The context of an event is there.
abbrev pub IsLive : {U I C : Type 0} → Reactor U I C → ℕ → Type 0
IsLive r address = has address r.contexts ≡ true

-- No two events of one call of `epoll_wait` are about the same context.
abbrev pub Distinct : {E : Type 0} → (E → ℕ) → List E → Type 0
Distinct address_of [] = Unit
Distinct address_of (e ∷ es) = All (λ f. address_of e ≢ address_of f) es × Distinct address_of es

pub load-Sound :
    {V : Type 0} (a : ℕ) (heap : List (ℕ × V)) → has a heap ≡ true → Sound (load a heap)
load-Sound a heap live = let (v, e) = load-has a heap live in subst Sound (sym e) (done-Sound v)

module _ {U I C : Type 0} (client : Client U I C) (total : AllSound client) where
  call_close-Sound : (c : Option C) (ctx : Ctx U I C) → Sound (call_close client c ctx)
  unfolding call_close
  call_close-Sound none ctx = done-Sound _
  call_close-Sound (some c) ctx =
      Sound->>= (client.plain c ctx) _ (total.plain_sound c ctx) (λ r _. done-Sound _)

  pub cleanup_context-Sound :
      (r : Reactor U I C) (a : ℕ) → IsLive r a → Sound (cleanup_context client r a)
  unfolding cleanup_context
  cleanup_context-Sound r a live =
      Sound->>= (load a r.contexts) _ (load-Sound a r.contexts live) (λ ctx _.
        Sound->>= (call_close client ctx.close_callback ctx) _
          (call_close-Sound ctx.close_callback ctx) (λ _ _. done-Sound _))

  require-Sound : (b : Bool) → Sound (require b)
  unfolding require
  require-Sound true = done-Sound _
  require-Sound false = exited-Sound 1

  allocated-Sound : (o : Option ℕ) → Sound (allocated o)
  unfolding allocated
  allocated-Sound (some b) = done-Sound _
  allocated-Sound none = exited-Sound 1

  admit-Sound :
      (r : Reactor U I C) (fd address : ℕ) (added : Bool) (status : CallbackStatus)
      (ctx : Ctx U I C)
      → Sound (admit client r fd address added (status, ctx))
  unfolding admit
  admit-Sound r fd address added yta_exit ctx = done-Sound _
  admit-Sound r fd address added yta_ok ctx =
      Sound->>= (require added) _ (require-Sound added) (λ _ _. done-Sound _)

  accept_round-Sound : (r : Reactor U I C) (a : Accepted) → Sound (accept_round client r a)
  unfolding accept_round
  accept_round-Sound r a = Sound->>= (require a.nonblock) _ (require-Sound a.nonblock) λ _ _.
      Sound->>= (require a.nodelay) _ (require-Sound a.nodelay) λ _ _.
        Sound->>= (allocated a.address) _ (allocated-Sound a.address) λ place _.
          Sound->>= (client.accept (new_ctx client.no_data a.infd)) _
            (total.accept_sound (new_ctx client.no_data a.infd))
            λ answer _. admit-Sound r a.infd place a.added answer.0 answer.1

  accept_loop-Sound :
      (r : Reactor U I C) (rounds : List Accepted) → Sound (accept_loop client r rounds)
  unfolding accept_loop
  accept_loop-Sound r [] = done-Sound _
  accept_loop-Sound r (a ∷ more) =
      Sound->>= (accept_round client r a) _ (accept_round-Sound r a)
        (λ r' _. accept_loop-Sound r' more)

  do_reads-Sound :
      (epollin : Bool) (answers : List Answer) (ctx : Ctx U I C)
      → Sound (do_reads client epollin answers ctx)
  unfolding do_reads
  do_reads-Sound epollin answers ctx =
      Sound-if epollin (λ _. read_loop-Sound client.io total.io_sound answers ctx)
        (λ _. done-Sound _)

  do_writes-Sound :
      (epollout : Bool) (status : LoopStatus) (answers : List Answer) (ctx : Ctx U I C)
      → Sound (do_writes client epollout status answers ctx)
  unfolding do_writes
  do_writes-Sound epollout loop_continue answers ctx =
      Sound-if epollout
        (λ _.
          Sound->>= (write_loop client.io answers ctx []) _
            (write_loop-Sound client.io total.io_sound answers ctx []) (λ _ _. done-Sound _))
        (λ _. done-Sound _)
  do_writes-Sound epollout loop_again answers ctx = done-Sound _
  do_writes-Sound epollout loop_error answers ctx = done-Sound _

  close_on_error-Sound :
      (status : LoopStatus) (r : Reactor U I C) (a : ℕ)
      → IsLive r a
      → Sound (close_on_error client status r a)
  unfolding close_on_error
  close_on_error-Sound loop_error r a live = cleanup_context-Sound r a live
  close_on_error-Sound loop_continue r a live = done-Sound _
  close_on_error-Sound loop_again r a live = done-Sound _

  transfer-Sound :
      (r : Reactor U I C) (e : SocketEvent) (ctx : Ctx U I C)
      → IsLive r e.socket_ctx
      → Sound (transfer client r e ctx)
  unfolding transfer
  transfer-Sound r e ctx live =
      Sound->>= (do_reads client e.socket_flags.epollin e.reads ctx) _
        (do_reads-Sound e.socket_flags.epollin e.reads ctx)
        λ r₁ _.
          Sound->>= (do_writes client e.socket_flags.epollout r₁.0 e.writes r₁.1) _
            (do_writes-Sound e.socket_flags.epollout r₁.0 e.writes r₁.1)
            λ r₂ _.
              close_on_error-Sound r₂.0 (record r { contexts = store e.socket_ctx r₂.1 r.contexts })
                e.socket_ctx (has-store e.socket_ctx e.socket_ctx r₂.1 r.contexts ∙ live)

  pub serve_socket-Sound :
      (r : Reactor U I C) (e : SocketEvent)
      → IsLive r e.socket_ctx
      → Sound (serve_socket client r e)
  unfolding serve_socket
  serve_socket-Sound r e live =
      Sound-if (is_hangup e.socket_flags) (λ _. cleanup_context-Sound r e.socket_ctx live)
        (λ _.
          Sound->>= (load e.socket_ctx r.contexts) _ (load-Sound e.socket_ctx r.contexts live)
            (λ ctx _.
              Sound-if (not r.terminated && r.listen_fd == ctx.fd)
                (λ _. accept_loop-Sound r e.accepts) (λ _. transfer-Sound r e ctx live)))
