-- ===== src/Core/Reactor/Serving.antt =====
-- The loop of `serve` (src/core/yta_event_loop.c): the count of clients stays exact, and the loop ends
-- when the worker was ordered to terminate and the last context is freed.
use yotta.Prelude.{
  ℕ, ◌≡◌, ◌↔◌, refl, sym, ap, ◌∙◌, inl, inr, Bool, true, false, not, ◌&&◌, ◌||◌, List, [], ◌∷◌,
  ◌==◌, ==_iff, length, arith, All, Bool-cases, subst,
}
use yotta.Prelude.Int.{pos, is_zero}
use yotta.Core.Outcome.{done, >>=-eq-done, done-injective}
use yotta.Core.Context.{Ctx}
use yotta.Core.Heap.{load}
use yotta.Core.Heap.Laws.{has-load, length-free}
use yotta.Core.Reactor.{
  Reactor, Client, TimerEvent, SocketEvent, MasterEvent, sockets, timers, signal, is_hangup,
  serve_timers, serve_timer, serve_socket, serve_sockets, terminate, serve_event, keeps_serving,
  close_reactor, serve_loop,
}
use yotta.Core.Reactor.Accounting.{
  IsCounted, IsClients, SocketAllowed, TimerAllowed, cleanup_context-IsCounted,
  accept_loop-IsCounted, serve_timer-IsCounted, transfer-IsCounted,
}

module _ {U I C : Type 0} (client : Client U I C) (listen : ℕ) where
  -- A context that is not served as the listening one is a client's.
  not_listening :
      (t : Bool) (r : Reactor U I C) (a : ℕ) (ctx : Ctx U I C)
      → IsCounted listen t r
      → load a r.contexts ≡ done ctx
      → (not r.terminated && r.listen_fd == ctx.fd) ≡ false
      → IsClients listen t a
  not_listening true r a ctx v loaded h = inr refl
  not_listening false r a ctx v loaded h =
      let (listener, found, fd) = v.listening refl in
      inl (λ same.
        let one : ctx ≡ listener =
          done-injective (sym loaded ∙ ap (λ b. load b r.contexts) same ∙ found) in
        let equal : (r.listen_fd == ctx.fd) ≡ true =
          (==_iff r.listen_fd ctx.fd).1 (sym (ap (λ c. c.fd) one ∙ fd)) in
        ground (arith, v.phase))

  serve_socket-IsCounted :
      (t : Bool) (r r' : Reactor U I C) (e : SocketEvent)
      → SocketAllowed listen t e
      → IsCounted listen t r
      → serve_socket client r e ≡ done r'
      → IsCounted listen t r'
  unfolding serve_socket
  serve_socket-IsCounted t r r' e (errors, fresh) v h =
      elim (Bool-cases (is_hangup e.socket_flags)) [
        | inl hup ↦
            cleanup_context-IsCounted client listen t r r' e.socket_ctx v (errors hup) (rw hup at h)
        | inr up ↦
            let (ctx, loaded, h₁) = >>=-eq-done (load e.socket_ctx r.contexts) _ (rw up at h) in
            elim (Bool-cases (not r.terminated && r.listen_fd == ctx.fd)) [
              | inl yes' ↦
                  accept_loop-IsCounted client listen t r r' e.accepts fresh v (rw yes' at h₁)
              | inr no' ↦
                  transfer-IsCounted client listen t r r' e ctx
                    (not_listening t r e.socket_ctx ctx v loaded no') v (rw no' at h₁)
            ]
      ]

  serve_sockets-IsCounted :
      (t : Bool) (r r' : Reactor U I C) (es : List SocketEvent)
      → All (SocketAllowed listen t) es
      → IsCounted listen t r
      → serve_sockets client r es ≡ done r'
      → IsCounted listen t r'
  unfolding serve_sockets
  serve_sockets-IsCounted t r r' [] ok v h = subst (IsCounted listen t) (done-injective h) v
  serve_sockets-IsCounted t r r' (e ∷ es) (ok, more) v h =
      let (r₁, first, h₁) = >>=-eq-done (serve_socket client r e) _ h in
      serve_sockets-IsCounted t r₁ r' es more (serve_socket-IsCounted t r r₁ e ok v first) h₁

  serve_timers-IsCounted :
      (t : Bool) (r r' : Reactor U I C) (es : List TimerEvent)
      → All (TimerAllowed listen t) es
      → IsCounted listen t r
      → serve_timers client r es ≡ done r'
      → IsCounted listen t r'
  unfolding serve_timers
  serve_timers-IsCounted t r r' [] ok v h = subst (IsCounted listen t) (done-injective h) v
  serve_timers-IsCounted t r r' (e ∷ es) (ok, more) v h =
      let (r₁, first, h₁) = >>=-eq-done (serve_timer client r e) _ h in
      serve_timers-IsCounted t r₁ r' es more
        (serve_timer-IsCounted client listen t r r₁ e ok v first) h₁

  terminate-IsCounted :
      (r r' : Reactor U I C)
      → IsCounted listen false r
      → terminate client r ≡ done r'
      → IsCounted listen true r'
  unfolding terminate
  terminate-IsCounted r r' v h =
      let (ctx, loaded, h₁) = >>=-eq-done (load r.listen_fd_ctx r.contexts) _ h in
      subst (IsCounted listen true) (done-injective h₁) (record {
        listens_at = v.listens_at;
        phase = refl;
        exact =
            v.exact
            ∙ ap pos (
                omega
                  (arith, length-free r.listen_fd_ctx r.contexts (has-load _ r.contexts loaded)));
        listening = λ e. cc;
      })

-- What the kernel may report over time. The signal comes once.
abbrev pub Allowed : ℕ → Bool → List MasterEvent → Type 0
Allowed listen t [] = Unit
Allowed listen t (sockets es ∷ events) = All (SocketAllowed listen t) es × Allowed listen t events
Allowed listen t (timers es ∷ events) = All (TimerAllowed listen t) es × Allowed listen t events
Allowed listen t (signal ∷ events) = (t ≡ false) × Allowed listen true events

nil_of_length {ℓ} : {A : Type ℓ} (xs : List A) → length xs ≡ 0 → xs ≡ []
nil_of_length [] h = refl
nil_of_length (x ∷ xs) h = absurd (omega arith)

zero_of_is_zero : (n : ℕ) → not (is_zero (pos n)) ≡ false → n ≡ 0
zero_of_is_zero n h = ground arith

module _ {U I C : Type 0} (client : Client U I C) (listen : ℕ) where
  -- Where the count is exact, the condition of the loop fails exactly when the termination was ordered and
  -- every context is freed.
  pub keeps_serving_iff :
      (t : Bool) (r : Reactor U I C)
      → IsCounted listen t r
      → (keeps_serving client r ≡ false) ↔ ((t ≡ true) × (r.contexts ≡ []))
  unfolding keeps_serving
  keeps_serving_iff false r v = (λ h. ground (arith, v.phase), λ h. cc h.0)
  keeps_serving_iff true r v = (
    λ h. (
      refl,
      nil_of_length r.contexts (
          zero_of_is_zero (length r.contexts) (
            ap (λ c. not (is_zero c)) (sym v.exact)
            ∙ ap (λ b. not b || not (is_zero r.current_clients)) (sym v.phase)
            ∙ h)),
    ),
    λ h.
        ap (λ b. not b || not (is_zero r.current_clients)) v.phase
        ∙ ap (λ c. not (is_zero c)) (v.exact ∙ ap (λ xs. pos (length xs)) (h.1)),
  )

  serve_event-IsCounted :
      (t : Bool) (r r' : Reactor U I C) (event : MasterEvent) (events : List MasterEvent)
      → IsCounted listen t r
      → Allowed listen t (event ∷ events)
      → serve_event client r event ≡ done r'
      → (t' : Bool) × IsCounted listen t' r' × Allowed listen t' events
  unfolding serve_event
  serve_event-IsCounted t r r' (sockets es) events v (ok, more) h =
      (t, serve_sockets-IsCounted client listen t r r' es ok v h, more)
  serve_event-IsCounted t r r' (timers es) events v (ok, more) h =
      (t, serve_timers-IsCounted client listen t r r' es ok v h, more)
  serve_event-IsCounted t r r' signal events v (first, more) h = (
    true,
    terminate-IsCounted client listen r r' (subst (λ b. IsCounted listen b r) first v) h,
    more,
  )

  -- The result of a run: the count is exact, and a loop that has ended has freed every context.
  abbrev pub Drains : Bool × Reactor U I C → Type 0
  Drains result =
      (t : Bool) × IsCounted listen t result.1
      × (result.0 ≡ true → (t ≡ true) × (result.1.contexts ≡ []))

  stops :
      (t : Bool) (r : Reactor U I C)
      → IsCounted listen t r
      → keeps_serving client r ≡ false
      → Drains (true, close_reactor client r)
  unfolding close_reactor
  stops t r v h = (
    t,
    record { listens_at = v.listens_at; phase = v.phase; exact = v.exact; listening = v.listening },
    λ e. (keeps_serving_iff t r v).0 h,
  )

  -- From an exact count, in every run that ends in no exit, abort or fault, whatever the callbacks do and
  -- the kernel reports (no error on the listening descriptor, no memory twice, one signal), the count
  -- stays exact, and when the loop has ended the termination was ordered and no context is left.
  pub serve_loop-Drains :
      (t : Bool) (r : Reactor U I C) (events : List MasterEvent) (result : Bool × Reactor U I C)
      → IsCounted listen t r
      → Allowed listen t events
      → serve_loop client r events ≡ done result
      → Drains result
  unfolding serve_loop
  serve_loop-Drains t r [] result v ok h = elim (Bool-cases (keeps_serving client r)) [
    | inl more ↦ subst Drains (done-injective (rw more at h)) (t, v, λ e. cc)
    | inr over ↦ subst Drains (done-injective (rw over at h)) (stops t r v over)
  ]
  serve_loop-Drains t r (event ∷ events) result v ok h =
      elim (Bool-cases (keeps_serving client r)) [
        | inl more ↦
            let (r₁, first, h₁) = >>=-eq-done (serve_event client r event) _ (rw more at h) in
            let (t₁, v₁, ok₁) = serve_event-IsCounted t r r₁ event events v ok first in
            serve_loop-Drains t₁ r₁ events result v₁ ok₁ h₁
        | inr over ↦ subst Drains (done-injective (rw over at h)) (stops t r v over)
      ]
