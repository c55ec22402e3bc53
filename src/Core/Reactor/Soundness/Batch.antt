-- ===== src/Core/Reactor/Soundness/Batch.antt =====
-- Events of one call of `epoll_wait` (src/core/yta_event_loop.c): serving one leaves the contexts of the
-- others.
use yotta.Prelude.{
  ℕ, ◌≡◌, ◌≢◌, sym, ap, ◌∙◌, inl, inr, Bool, true, not, ◌&&◌, List, [], ◌∷◌, ◌==◌, Bool-cases, All,
  arith, subst, if-eq-then, if-eq-else,
}
use yotta.Core.Outcome.{done, >>=-eq-done, done-injective, Sound, Sound->>=, done-Sound}
use yotta.Core.Context.{Ctx, CallbackStatus, yta_ok, yta_exit, new_ctx}
use yotta.Core.Transfer.{LoopStatus, loop_continue, loop_again, loop_error}
use yotta.Core.Heap.{load, store, free}
use yotta.Core.Heap.Laws.{has, has-store, has-free}
use yotta.Core.Reactor.{
  Reactor, Client, Accepted, SocketEvent, is_hangup, require, allocated, call_close,
  cleanup_context, admit, accept_round, accept_loop, do_reads, do_writes, close_on_error, transfer,
  serve_socket, serve_sockets,
}
use yotta.Core.Reactor.Soundness.{AllSound, IsLive, Distinct, serve_socket-Sound}

has-cons :
    {V : Type 0} (a b : ℕ) (v : V) (heap : List (ℕ × V))
    → has b heap ≡ true
    → has b ((a, v) ∷ heap) ≡ true
unfolding has
has-cons a b v heap h = ground arith

module _ {U I C : Type 0} (client : Client U I C) where
  pub cleanup_context-contexts :
      (r r' : Reactor U I C) (a : ℕ)
      → cleanup_context client r a ≡ done r'
      → r'.contexts ≡ free a r.contexts
  unfolding cleanup_context
  cleanup_context-contexts r r' a h =
      let (ctx, _, h₁) = >>=-eq-done (load a r.contexts) _ h in
      let (_, _, h₂) = >>=-eq-done (call_close client ctx.close_callback ctx) _ h₁ in
      ap (λ x. x.contexts) (sym (done-injective h₂))

  pub cleanup_context-IsLive :
      (r r' : Reactor U I C) (a b : ℕ)
      → cleanup_context client r a ≡ done r'
      → a ≢ b
      → IsLive r b
      → IsLive r' b
  cleanup_context-IsLive r r' a b h n live =
      ap (has b) (cleanup_context-contexts r r' a h) ∙ has-free a b r.contexts n ∙ live

  admit-IsLive :
      (r r' : Reactor U I C) (fd address b : ℕ) (added : Bool) (status : CallbackStatus)
      (ctx : Ctx U I C)
      → admit client r fd address added (status, ctx) ≡ done r'
      → IsLive r b
      → IsLive r' b
  unfolding admit
  admit-IsLive r r' fd address b added yta_exit ctx h live =
      subst (λ x. IsLive x b) (done-injective h) live
  admit-IsLive r r' fd address b added yta_ok ctx h live =
      let (_, _, h₁) = >>=-eq-done (require added) _ h in
      subst (λ x. IsLive x b) (done-injective h₁) (has-cons address b ctx r.contexts live)

  accept_loop-IsLive :
      (r r' : Reactor U I C) (rounds : List Accepted) (b : ℕ)
      → accept_loop client r rounds ≡ done r'
      → IsLive r b
      → IsLive r' b
  unfolding accept_loop accept_round
  accept_loop-IsLive r r' [] b h live = subst (λ x. IsLive x b) (done-injective h) live
  accept_loop-IsLive r r' (a ∷ more) b h live =
      let (r₁, first, h₁) = >>=-eq-done (accept_round client r a) _ h in
      let (_, _, f₁) = >>=-eq-done (require a.nonblock) _ first in
      let (_, _, f₂) = >>=-eq-done (require a.nodelay) _ f₁ in
      let (address, _, f₃) = >>=-eq-done (allocated a.address) _ f₂ in
      let (answer, _, f₄) = >>=-eq-done (client.accept (new_ctx client.no_data a.infd)) _ f₃ in
      accept_loop-IsLive r₁ r' more b h₁
        (admit-IsLive r r₁ a.infd address b a.added answer.0 answer.1 f₄ live)

  close_on_error-IsLive :
      (status : LoopStatus) (r r' : Reactor U I C) (a b : ℕ)
      → close_on_error client status r a ≡ done r'
      → a ≢ b
      → IsLive r b
      → IsLive r' b
  unfolding close_on_error
  close_on_error-IsLive loop_error r r' a b h n live = cleanup_context-IsLive r r' a b h n live
  close_on_error-IsLive loop_continue r r' a b h n live =
      subst (λ x. IsLive x b) (done-injective h) live
  close_on_error-IsLive loop_again r r' a b h n live =
      subst (λ x. IsLive x b) (done-injective h) live

  transfer-IsLive :
      (r r' : Reactor U I C) (e : SocketEvent) (ctx : Ctx U I C) (b : ℕ)
      → transfer client r e ctx ≡ done r'
      → e.socket_ctx ≢ b
      → IsLive r b
      → IsLive r' b
  unfolding transfer
  transfer-IsLive r r' e ctx b h n live =
      let (r₁, _, h₁) = >>=-eq-done (do_reads client e.socket_flags.epollin e.reads ctx) _ h in
      let (r₂, _, h₂) =
        >>=-eq-done (do_writes client e.socket_flags.epollout r₁.0 e.writes r₁.1) _ h₁ in
      close_on_error-IsLive r₂.0 (record r { contexts = store e.socket_ctx r₂.1 r.contexts }) r'
        e.socket_ctx b h₂ n (has-store e.socket_ctx b r₂.1 r.contexts ∙ live)

  serve_socket-IsLive :
      (r r' : Reactor U I C) (e : SocketEvent) (b : ℕ)
      → serve_socket client r e ≡ done r'
      → e.socket_ctx ≢ b
      → IsLive r b
      → IsLive r' b
  unfolding serve_socket
  serve_socket-IsLive r r' e b h n live = elim (Bool-cases (is_hangup e.socket_flags)) [
    | inl hup ↦ cleanup_context-IsLive r r' e.socket_ctx b (if-eq-then _ _ hup h) n live
    | inr up ↦
        let (ctx, _, h₁) = >>=-eq-done (load e.socket_ctx r.contexts) _ (if-eq-else _ _ up h) in
        elim (Bool-cases (not r.terminated && r.listen_fd == ctx.fd)) [
          | inl listens ↦ accept_loop-IsLive r r' e.accepts b (if-eq-then _ _ listens h₁) live
          | inr other ↦ transfer-IsLive r r' e ctx b (if-eq-else _ _ other h₁) n live
        ]
  ]

  others-IsLive :
      (r r' : Reactor U I C) (e : SocketEvent) (es : List SocketEvent)
      → serve_socket client r e ≡ done r'
      → All (λ f. e.socket_ctx ≢ f.socket_ctx) es
      → All (λ f. IsLive r f.socket_ctx) es
      → All (λ f. IsLive r' f.socket_ctx) es
  others-IsLive r r' e [] h n fits = tt
  others-IsLive r r' e (f ∷ es) h (n, ns) (live, fits) =
      (serve_socket-IsLive r r' e f.socket_ctx h n live, others-IsLive r r' e es h ns fits)

module _ {U I C : Type 0} (client : Client U I C) (total : AllSound client) where
  pub serve_sockets-Sound :
      (r : Reactor U I C) (es : List SocketEvent)
      → All (λ e. IsLive r e.socket_ctx) es
      → Distinct (λ e. e.socket_ctx) es
      → Sound (serve_sockets client r es)
  unfolding serve_sockets
  serve_sockets-Sound r [] fits apart = done-Sound _
  serve_sockets-Sound r (e ∷ es) (live, fits) (other, apart) =
      Sound->>= (serve_socket client r e) _ (serve_socket-Sound client total r e live)
        (λ r' h. serve_sockets-Sound r' es (others-IsLive client r r' e es h other fits) apart)
