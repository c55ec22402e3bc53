-- ===== src/Core/Reactor/Connections.antt =====
-- What the callbacks of a client keep of its connections, the event loop of src/core/yta_event_loop.c
-- keeps, over the whole life of a worker.
pub mod Whole
use yotta.Prelude.{
  ℕ, ◌≡◌, ◌≢◌, refl, inl, inr, Bool, Option, none, some, List, [], ◌∷◌, Bool-cases, subst,
  if-eq-then, if-eq-else, All,
}
use yotta.Core.Outcome.{Outcome, done, faulted, aborted, >>=-eq-done, done-injective}
use yotta.Core.Context.{Ctx, CallbackStatus, yta_ok, yta_exit, new_ctx}
use yotta.Core.Transfer.Keeping.{Keeps, ReadsFit}
use yotta.Core.Heap.{load, store, free}
use yotta.Core.Heap.Everywhere.{All-load, All-store, All-free, All-free-store}
use yotta.Core.Reactor.{
  Reactor, Client, Accepted, SocketEvent, TimerEvent, MasterEvent, sockets, timers, signal,
  is_hangup, require, allocated, call_close, cleanup_context, admit, accept_round, accept_loop,
  fire_timer, serve_timer, serve_timers, serve_socket, serve_event,
}

-- A property of contexts that holds when a client is accepted, and that every callback keeps.
pub record Protocol {U I C : Type 0} (client : Client U I C) (P : Ctx U I C → Type 0) : Type 0 where
  pub opens :
      (fd : ℕ) (ctx : Ctx U I C)
      → client.accept (new_ctx client.no_data fd) ≡ done (yta_ok, ctx)
      → P ctx
  pub transfers : Keeps client.io P
  pub fires :
      (c : C) (ctx ctx' : Ctx U I C)
      → P ctx
      → ctx.timer_callback ≡ some c
      → client.plain c ctx ≡ done (yta_ok, ctx')
      → P ctx'

-- An event whose answers fit what is armed when it is served.
module _ {U I C : Type 0} (client : Client U I C) where
  abbrev pub SocketsFit : Reactor U I C → List SocketEvent → Type 0
  SocketsFit r [] = Unit
  SocketsFit r (e ∷ es) =
      ((ctx : Ctx U I C) → load e.socket_ctx r.contexts ≡ done ctx → ReadsFit client.io e.reads ctx)
      × ((r' : Reactor U I C) → serve_socket client r e ≡ done r' → SocketsFit r' es)

  abbrev pub AnswersFit : Reactor U I C → MasterEvent → Type 0
  AnswersFit r (sockets es) = SocketsFit r es
  AnswersFit r (timers es) = Unit
  AnswersFit r signal = Unit

  abbrev pub AllFit : Reactor U I C → List MasterEvent → Type 0
  AllFit r [] = Unit
  AllFit r (event ∷ events) =
      AnswersFit r event
      × ((r' : Reactor U I C) → serve_event client r event ≡ done r' → AllFit r' events)

module _ {U I C : Type 0} (P : Ctx U I C → Type 0) (listen : ℕ) where
  -- The property of a context that is not at the place of the listening one.
  abbrev pub OfClient : ℕ × Ctx U I C → Type 0
  OfClient e = e.0 ≢ listen → P e.1

  abbrev pub Kept : Reactor U I C → Type 0
  Kept r = All OfClient r.contexts

module _ {U I C : Type 0} (client : Client U I C) (P : Ctx U I C → Type 0) (p : Protocol client P)
    (listen : ℕ) where
  pub cleaned :
      (r r' : Reactor U I C) (a : ℕ)
      → All (OfClient P listen) (free a r.contexts)
      → cleanup_context client r a ≡ done r'
      → Kept P listen r'
  unfolding cleanup_context
  cleaned r r' a v h =
      let (ctx, _, h₁) = >>=-eq-done (load a r.contexts) _ h in
      let (_, _, h₂) = >>=-eq-done (call_close client ctx.close_callback ctx) _ h₁ in
      subst (Kept P listen) (done-injective h₂) v

  admit-Kept :
      (r r' : Reactor U I C) (infd address : ℕ) (added : Bool) (answer : CallbackStatus × Ctx U I C)
      → client.accept (new_ctx client.no_data infd) ≡ done answer
      → Kept P listen r
      → admit client r infd address added answer ≡ done r'
      → Kept P listen r'
  unfolding admit
  admit-Kept r r' infd address added (yta_exit, ctx) opened v h =
      subst (Kept P listen) (done-injective h) v
  admit-Kept r r' infd address added (yta_ok, ctx) opened v h =
      let (_, _, h₁) = >>=-eq-done (require added) _ h in
      subst (Kept P listen) (done-injective h₁) ((λ _. p.opens infd ctx opened), v)

  accept_round-Kept :
      (r r' : Reactor U I C) (a : Accepted)
      → Kept P listen r
      → accept_round client r a ≡ done r'
      → Kept P listen r'
  unfolding accept_round
  accept_round-Kept r r' a v h =
      let (_, _, h₁) = >>=-eq-done (require a.nonblock) _ h in
      let (_, _, h₂) = >>=-eq-done (require a.nodelay) _ h₁ in
      let (address, _, h₃) = >>=-eq-done (allocated a.address) _ h₂ in
      let (answer, opened, h₄) = >>=-eq-done (client.accept (new_ctx client.no_data a.infd)) _ h₃ in
      admit-Kept r r' a.infd address a.added answer opened v h₄

  pub accept_loop-Kept :
      (r r' : Reactor U I C) (rounds : List Accepted)
      → Kept P listen r
      → accept_loop client r rounds ≡ done r'
      → Kept P listen r'
  unfolding accept_loop
  accept_loop-Kept r r' [] v h = subst (Kept P listen) (done-injective h) v
  accept_loop-Kept r r' (a ∷ more) v h =
      let (r₁, first, h₁) = >>=-eq-done (accept_round client r a) _ h in
      accept_loop-Kept r₁ r' more (accept_round-Kept r r₁ a v first) h₁

  fired :
      (r r' : Reactor U I C) (a : ℕ) (ctx ctx' : Ctx U I C) (c : C) (status : CallbackStatus)
      → Kept P listen r
      → OfClient P listen (a, ctx)
      → ctx.timer_callback ≡ some c
      → client.plain c ctx ≡ done (status, ctx')
      → elim status [
        | yta_ok ↦ done (record r { contexts = store a ctx' r.contexts })
        | yta_exit ↦ cleanup_context client (record r { contexts = store a ctx' r.contexts }) a
      ]
        ≡ done r'
      → Kept P listen r'
  fired r r' a ctx ctx' c yta_ok v q armed called h = subst (Kept P listen) (done-injective h) (
      All-store (OfClient P listen) a ctx' r.contexts
        (λ other. p.fires c ctx ctx' (q other) armed called) v)
  fired r r' a ctx ctx' c yta_exit v q armed called h =
      cleaned (record r { contexts = store a ctx' r.contexts }) r' a
        (All-free-store (OfClient P listen) a ctx' r.contexts v) h

  fire_timer-Kept :
      (r r' : Reactor U I C) (a : ℕ) (callback : Option C) (ctx : Ctx U I C)
      → Kept P listen r
      → OfClient P listen (a, ctx)
      → ctx.timer_callback ≡ callback
      → fire_timer client r a callback ctx ≡ done r'
      → Kept P listen r'
  unfolding fire_timer
  fire_timer-Kept r r' a none ctx v q armed h =
      absurd (let bad : ◌≡◌ {A = Outcome (Reactor U I C)} faulted (done r') = h in cc)
  fire_timer-Kept r r' a (some c) ctx v q armed h =
      let ((status, ctx'), called, h₁) = >>=-eq-done (client.plain c ctx) _ h in
      fired r r' a ctx ctx' c status v q armed called h₁

  serve_timer-Kept :
      (r r' : Reactor U I C) (e : TimerEvent)
      → Kept P listen r
      → serve_timer client r e ≡ done r'
      → Kept P listen r'
  unfolding serve_timer
  serve_timer-Kept r r' e v h = elim (Bool-cases (is_hangup e.timer_flags)) [
    | inl hup ↦
        cleaned r r' e.timer_ctx (All-free (OfClient P listen) e.timer_ctx r.contexts v)
          (if-eq-then _ _ hup h)
    | inr up ↦ elim (Bool-cases e.timer_flags.epollin) [
      | inl due ↦
          let (ctx, loaded, h₁) =
            >>=-eq-done (load e.timer_ctx r.contexts) _
              (if-eq-then _ _ due (if-eq-else _ _ up h)) in
          fire_timer-Kept r r' e.timer_ctx ctx.timer_callback ctx v
            (All-load (OfClient P listen) e.timer_ctx r.contexts v loaded) refl h₁
      | inr odd ↦ absurd (
          let bad : ◌≡◌ {A = Outcome (Reactor U I C)} aborted (done r') =
            if-eq-else _ _ odd (if-eq-else _ _ up h) in
          cc)
    ]
  ]

  pub serve_timers-Kept :
      (r r' : Reactor U I C) (es : List TimerEvent)
      → Kept P listen r
      → serve_timers client r es ≡ done r'
      → Kept P listen r'
  unfolding serve_timers
  serve_timers-Kept r r' [] v h = subst (Kept P listen) (done-injective h) v
  serve_timers-Kept r r' (e ∷ es) v h =
      let (r₁, first, h₁) = >>=-eq-done (serve_timer client r e) _ h in
      serve_timers-Kept r₁ r' es (serve_timer-Kept r r₁ e v first) h₁
