-- ===== src/Core/Reactor/Accounting.antt =====
-- The count of clients of src/core/yta_event_loop.c, against the contexts that are allocated.
use yotta.Prelude.{
  ℕ, suc, ◌-◌, ◌≡◌, ◌≢◌, refl, sym, ap, ◌∙◌, ◌⊎◌, inl, inr, Bool, true, false, Option, none, some,
  List, [], ◌∷◌, if◌then◌else◌, length, arith, All, Bool-cases, subst,
}
use yotta.Prelude.Int.{pos, increment, decrement}
use yotta.Core.Outcome.{Outcome, done, aborted, >>=-eq-done, done-injective}
use yotta.Core.Context.{Ctx, CallbackStatus, yta_ok, yta_exit, new_ctx}
use yotta.Core.Transfer.{LoopStatus, loop_continue, loop_again, loop_error}
use yotta.Core.Heap.{load, store, free}
use yotta.Core.Heap.Laws.{
  has, has-load, length-store, length-free, has-free, length-has, load-store_ne, load-free_ne,
  load-cons_ne,
}
use yotta.Core.Reactor.{
  Reactor, Client, Accepted, TimerEvent, SocketEvent, is_hangup, require, allocated, call_close,
  cleanup_context, admit, accept_round, accept_loop, fire_timer, serve_timer, do_reads, do_writes,
  close_on_error, transfer,
}

decrement-pos : (n : ℕ) → n ≢ 0 → decrement (pos n) ≡ pos (n - 1)
decrement-pos n h = ground arith

-- How many of `n` contexts belong to clients: all but the one of the listening descriptor, which is
-- freed at the termination.
abbrev pub clients_among : Bool → ℕ → ℕ
clients_among terminated n = if terminated then n else n - 1

module _ {U I C : Type 0} where
  -- The count is exact, and until the termination the context at `listen` is that of the listening
  -- descriptor.
  pub record IsCounted (listen : ℕ) (terminated : Bool) (r : Reactor U I C) : Type 0 where
    pub listens_at : r.listen_fd_ctx ≡ listen
    pub phase : r.terminated ≡ terminated
    pub exact : r.current_clients ≡ pos (clients_among terminated (length r.contexts))
    pub listening :
        terminated ≡ false
        → (ctx : Ctx U I C) × (load listen r.contexts ≡ done ctx) × (ctx.fd ≡ r.listen_fd)

-- The context that an event is about is a client's.
abbrev pub IsClients : ℕ → Bool → ℕ → Type 0
IsClients listen terminated a = (a ≢ listen) ⊎ (terminated ≡ true)

-- The events that the kernel reports: no error on the listening descriptor, and no memory for a new
-- context that is still in use for that of the listening descriptor.
abbrev pub IsFresh : ℕ → Accepted → Type 0
IsFresh listen a = a.address ≢ some listen

abbrev pub SocketAllowed : ℕ → Bool → SocketEvent → Type 0
SocketAllowed listen terminated e =
    (is_hangup e.socket_flags ≡ true → IsClients listen terminated e.socket_ctx)
    × All (IsFresh listen) e.accepts

abbrev pub TimerAllowed : ℕ → Bool → TimerEvent → Type 0
TimerAllowed listen terminated e = IsClients listen terminated e.timer_ctx

module _ {U I C : Type 0} (client : Client U I C) (listen : ℕ) where
  -- Memory of other addresses stays as it is.
  elsewhere :
      (t : Bool) (r : Reactor U I C) (heap : List (ℕ × Ctx U I C))
      → (t ≡ false → load listen heap ≡ load listen r.contexts)
      → IsCounted listen t r
      → t ≡ false
      → (ctx : Ctx U I C) × (load listen heap ≡ done ctx) × (ctx.fd ≡ r.listen_fd)
  elsewhere t r heap same v e = let (ctx, loaded, fd) = v.listening e in (ctx, same e ∙ loaded, fd)

  stored :
      (t : Bool) (r : Reactor U I C) (a : ℕ) (ctx : Ctx U I C)
      → IsClients listen t a
      → IsCounted listen t r
      → IsCounted listen t (record r { contexts = store a ctx r.contexts })
  stored t r a ctx other v = record {
    listens_at = v.listens_at;
    phase = v.phase;
    exact = v.exact ∙ ap (λ n. pos (clients_among t n)) (sym (length-store a ctx r.contexts));
    listening =
        elsewhere t r (store a ctx r.contexts)
          (λ e. ground (arith, load-store_ne a listen ctx r.contexts)) v;
  }

  freed-count :
      (t : Bool) (r : Reactor U I C) (a : ℕ)
      → IsCounted listen t r
      → IsClients listen t a
      → has a r.contexts ≡ true
      → (clients_among t (length r.contexts) ≢ 0)
        × (clients_among t (length (free a r.contexts)) ≡ clients_among t (length r.contexts) - 1)
  freed-count true r a v other h = ground (arith, length-free a r.contexts)
  freed-count false r a v other h =
      let (ctx, loaded, fd) = v.listening refl in
      let alive = has-load listen r.contexts loaded in
      ground (
        arith,
        length-free a r.contexts,
        length-has listen (free a r.contexts),
        has-free a listen r.contexts,
      )

  pub cleanup_context-IsCounted :
      (t : Bool) (r r' : Reactor U I C) (a : ℕ)
      → IsCounted listen t r
      → IsClients listen t a
      → cleanup_context client r a ≡ done r'
      → IsCounted listen t r'
  unfolding cleanup_context
  cleanup_context-IsCounted t r r' a v other h =
      let (ctx, loaded, h₁) = >>=-eq-done (load a r.contexts) _ h in
      let (ctx', called, h₂) = >>=-eq-done (call_close client ctx.close_callback ctx) _ h₁ in
      let (some_client, count) = freed-count t r a v other (has-load a r.contexts loaded) in
      subst (IsCounted listen t) (done-injective h₂) (record {
        listens_at = v.listens_at;
        phase = v.phase;
        exact = ap decrement v.exact ∙ decrement-pos _ some_client ∙ ap pos (sym count);
        listening =
            elsewhere t r (free a r.contexts)
              (λ e. ground (arith, load-free_ne a listen r.contexts)) v;
      })

  one_more :
      (t : Bool) (r : Reactor U I C)
      → IsCounted listen t r
      → pos (suc (clients_among t (length r.contexts)))
        ≡ pos (clients_among t (suc (length r.contexts)))
  one_more true r v = refl
  one_more false r v =
      let (ctx, loaded, fd) = v.listening refl in
      ap pos (omega (arith, length-has listen r.contexts (has-load listen r.contexts loaded)))

  admitted :
      (t : Bool) (r : Reactor U I C) (address : ℕ) (ctx : Ctx U I C)
      → address ≢ listen
      → IsCounted listen t r
      → IsCounted listen t (record r {
        contexts = (address, ctx) ∷ r.contexts;
        current_clients = increment r.current_clients;
      })
  admitted t r address ctx fresh v = record {
    listens_at = v.listens_at;
    phase = v.phase;
    exact = ap increment v.exact ∙ one_more t r v;
    listening =
        elsewhere t r ((address, ctx) ∷ r.contexts)
          (λ e. load-cons_ne address listen ctx r.contexts fresh) v;
  }

  admit-IsCounted :
      (t : Bool) (r r' : Reactor U I C) (infd address : ℕ) (added : Bool)
      (answer : CallbackStatus × Ctx U I C)
      → address ≢ listen
      → IsCounted listen t r
      → admit client r infd address added answer ≡ done r'
      → IsCounted listen t r'
  unfolding admit
  admit-IsCounted t r r' infd address added (yta_exit, ctx) fresh v h =
      subst (IsCounted listen t) (done-injective h) (record {
        listens_at = v.listens_at;
        phase = v.phase;
        exact = v.exact;
        listening = v.listening;
      })
  admit-IsCounted t r r' infd address added (yta_ok, ctx) fresh v h =
      let (_, _, h₁) = >>=-eq-done (require added) _ h in
      subst (IsCounted listen t) (done-injective h₁) (admitted t r address ctx fresh v)

  allocated-some : (o : Option ℕ) (address : ℕ) → allocated o ≡ done address → o ≡ some address
  unfolding allocated
  allocated-some none address h = cc
  allocated-some (some b) address h = ap some (done-injective h)

  accept_round-IsCounted :
      (t : Bool) (r r' : Reactor U I C) (a : Accepted)
      → IsFresh listen a
      → IsCounted listen t r
      → accept_round client r a ≡ done r'
      → IsCounted listen t r'
  unfolding accept_round
  accept_round-IsCounted t r r' a fresh v h =
      let (_, _, h₁) = >>=-eq-done (require a.nonblock) _ h in
      let (_, _, h₂) = >>=-eq-done (require a.nodelay) _ h₁ in
      let (address, got, h₃) = >>=-eq-done (allocated a.address) _ h₂ in
      let (answer, _, h₄) = >>=-eq-done (client.accept (new_ctx client.no_data a.infd)) _ h₃ in
      admit-IsCounted t r r' a.infd address a.added answer
        (λ e. fresh (allocated-some a.address address got ∙ ap some e)) v h₄

  pub accept_loop-IsCounted :
      (t : Bool) (r r' : Reactor U I C) (accepts : List Accepted)
      → All (IsFresh listen) accepts
      → IsCounted listen t r
      → accept_loop client r accepts ≡ done r'
      → IsCounted listen t r'
  unfolding accept_loop
  accept_loop-IsCounted t r r' [] fresh v h = subst (IsCounted listen t) (done-injective h) v
  accept_loop-IsCounted t r r' (a ∷ accepts) (fresh, more) v h =
      let (r₁, first, h₁) = >>=-eq-done (accept_round client r a) _ h in
      accept_loop-IsCounted t r₁ r' accepts more (accept_round-IsCounted t r r₁ a fresh v first) h₁

  fire_timer-IsCounted :
      (t : Bool) (r r' : Reactor U I C) (a : ℕ) (callback : Option C) (ctx : Ctx U I C)
      → IsClients listen t a
      → IsCounted listen t r
      → fire_timer client r a callback ctx ≡ done r'
      → IsCounted listen t r'
  unfolding fire_timer
  fire_timer-IsCounted t r r' a none ctx other v h = cc
  fire_timer-IsCounted t r r' a (some callback) ctx other v h =
      let ((status, ctx'), _, h₁) = >>=-eq-done (client.plain callback ctx) _ h in go status ctx' h₁
    where
      go :
          (status : CallbackStatus) (ctx' : Ctx U I C)
          → elim status [
            | yta_ok ↦ done (record r { contexts = store a ctx' r.contexts })
            | yta_exit ↦ cleanup_context client (record r { contexts = store a ctx' r.contexts }) a
          ]
            ≡ done r'
          → IsCounted listen t r'
      go yta_ok ctx' e = subst (IsCounted listen t) (done-injective e) (stored t r a ctx' other v)
      go yta_exit ctx' e = cleanup_context-IsCounted t _ r' a (stored t r a ctx' other v) other e

  pub serve_timer-IsCounted :
      (t : Bool) (r r' : Reactor U I C) (e : TimerEvent)
      → TimerAllowed listen t e
      → IsCounted listen t r
      → serve_timer client r e ≡ done r'
      → IsCounted listen t r'
  unfolding serve_timer
  serve_timer-IsCounted t r r' e other v h = elim (Bool-cases (is_hangup e.timer_flags)) [
    | inl hup ↦ cleanup_context-IsCounted t r r' e.timer_ctx v other (rw hup at h)
    | inr up ↦ elim (Bool-cases e.timer_flags.epollin) [
      | inl fired ↦
          let (ctx, _, h₁) =
            >>=-eq-done (load e.timer_ctx r.contexts) _ (rw fired at (rw up at h)) in
          fire_timer-IsCounted t r r' e.timer_ctx ctx.timer_callback ctx other v h₁
      | inr odd ↦
          let bad : ◌≡◌ {A = Outcome (Reactor U I C)} aborted (done r') = rw odd at (rw up at h) in
          cc
    ]
  ]

  close_on_error-IsCounted :
      (t : Bool) (status : LoopStatus) (r r' : Reactor U I C) (a : ℕ)
      → IsClients listen t a
      → IsCounted listen t r
      → close_on_error client status r a ≡ done r'
      → IsCounted listen t r'
  unfolding close_on_error
  close_on_error-IsCounted t loop_error r r' a other v h =
      cleanup_context-IsCounted t r r' a v other h
  close_on_error-IsCounted t loop_continue r r' a other v h =
      subst (IsCounted listen t) (done-injective h) v
  close_on_error-IsCounted t loop_again r r' a other v h =
      subst (IsCounted listen t) (done-injective h) v

  pub transfer-IsCounted :
      (t : Bool) (r r' : Reactor U I C) (e : SocketEvent) (ctx : Ctx U I C)
      → IsClients listen t e.socket_ctx
      → IsCounted listen t r
      → transfer client r e ctx ≡ done r'
      → IsCounted listen t r'
  unfolding transfer
  transfer-IsCounted t r r' e ctx other v h =
      let ((status₁, ctx₁), _, h₁) =
        >>=-eq-done (do_reads client e.socket_flags.epollin e.reads ctx) _ h in
      let ((status₂, ctx₂), _, h₂) =
        >>=-eq-done (do_writes client e.socket_flags.epollout status₁ e.writes ctx₁) _ h₁ in
      close_on_error-IsCounted t status₂ _ r' e.socket_ctx other
        (stored t r e.socket_ctx ctx₂ other v) h₂
