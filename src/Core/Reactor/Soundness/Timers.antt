-- ===== src/Core/Reactor/Soundness/Timers.antt =====
-- `serve_timers` of src/core/yta_event_loop.c uses contexts and callbacks that are there.
use yotta.Prelude.{
  ℕ, ◌≡◌, ◌≢◌, sym, ap, ◌∙◌, inl, inr, Option, none, some, List, [], ◌∷◌, Bool-cases, All,
  if-eq-then, if-eq-else,
}
use yotta.Core.Outcome.{
  Outcome, done, faulted, aborted, >>=-eq-done, done-injective, Sound, Sound->>=, Sound-if,
  done-Sound, aborted-Sound,
}
use yotta.Core.Context.{Ctx, CallbackStatus, yta_ok, yta_exit}
use yotta.Core.Heap.{load, store}
use yotta.Core.Heap.Laws.{has-load, has-store, load-store_ne, load-free_ne}
use yotta.Core.Reactor.{
  Reactor, Client, TimerEvent, is_hangup, cleanup_context, fire_timer, serve_timer, serve_timers,
}
use yotta.Core.Reactor.Soundness.{AllSound, IsLive, Distinct, load-Sound, cleanup_context-Sound}
use yotta.Core.Reactor.Soundness.Batch.{cleanup_context-contexts}

-- The event of a timer: its context is there with its callback.
abbrev pub TimerFits : {U I C : Type 0} → Reactor U I C → TimerEvent → Type 0
TimerFits {U} {I} {C} r e =
    (ctx : Ctx U I C) × (c : C) × (load e.timer_ctx r.contexts ≡ done ctx)
    × (ctx.timer_callback ≡ some c)

module _ {U I C : Type 0} (client : Client U I C) (total : AllSound client) where
  after_timer :
      (status : CallbackStatus) (r : Reactor U I C) (a : ℕ)
      → IsLive r a
      → Sound (elim status [ yta_ok ↦ done r | yta_exit ↦ cleanup_context client r a ])
  after_timer yta_ok r a live = done-Sound _
  after_timer yta_exit r a live = cleanup_context-Sound client total r a live

  fire_timer-Sound :
      (r : Reactor U I C) (a : ℕ) (callback : Option C) (c : C) (ctx : Ctx U I C)
      → callback ≡ some c
      → IsLive r a
      → Sound (fire_timer client r a callback ctx)
  unfolding fire_timer
  fire_timer-Sound r a none c ctx e live =
      absurd (let bad : ◌≡◌ {A = Option C} none (some c) = e in cc)
  fire_timer-Sound r a (some d) c ctx e live =
      Sound->>= (client.plain d ctx) _ (total.plain_sound d ctx) (λ s _.
        after_timer s.0 (record r { contexts = store a s.1 r.contexts }) a
          (has-store a a s.1 r.contexts ∙ live))

  serve_timer-Sound :
      (r : Reactor U I C) (e : TimerEvent) → TimerFits r e → Sound (serve_timer client r e)
  unfolding serve_timer
  serve_timer-Sound r e (ctx, c, loaded, callback) =
      let live = has-load e.timer_ctx r.contexts loaded in
      Sound-if (is_hangup e.timer_flags)
        (λ _. cleanup_context-Sound client total r e.timer_ctx live)
        (λ up.
          Sound-if e.timer_flags.epollin
            (λ _.
              Sound->>= (load e.timer_ctx r.contexts) _ (load-Sound e.timer_ctx r.contexts live)
                (λ ctx' same.
                  fire_timer-Sound r e.timer_ctx ctx'.timer_callback c ctx'
                    (ap (λ x. x.timer_callback) (done-injective (sym same ∙ loaded)) ∙ callback)
                    live))
            (λ off. aborted-Sound))

module _ {U I C : Type 0} (client : Client U I C) where
  after_timer-load :
      (status : CallbackStatus) (r r' : Reactor U I C) (a b : ℕ)
      → elim status [ yta_ok ↦ done r | yta_exit ↦ cleanup_context client r a ] ≡ done r'
      → a ≢ b
      → load b r'.contexts ≡ load b r.contexts
  after_timer-load yta_ok r r' a b h n = ap (λ x. load b x.contexts) (done-injective (sym h))
  after_timer-load yta_exit r r' a b h n =
      ap (load b) (cleanup_context-contexts client r r' a h) ∙ load-free_ne a b r.contexts n

  fire_timer-load :
      (r r' : Reactor U I C) (a b : ℕ) (callback : Option C) (ctx : Ctx U I C)
      → fire_timer client r a callback ctx ≡ done r'
      → a ≢ b
      → load b r'.contexts ≡ load b r.contexts
  unfolding fire_timer
  fire_timer-load r r' a b none ctx h n =
      absurd (let bad : ◌≡◌ {A = Outcome (Reactor U I C)} faulted (done r') = h in cc)
  fire_timer-load r r' a b (some c) ctx h n =
      let (s, _, h₁) = >>=-eq-done (client.plain c ctx) _ h in
      after_timer-load s.0 (record r { contexts = store a s.1 r.contexts }) r' a b h₁ n
      ∙ load-store_ne a b s.1 r.contexts n

  serve_timer-load :
      (r r' : Reactor U I C) (e : TimerEvent) (b : ℕ)
      → serve_timer client r e ≡ done r'
      → e.timer_ctx ≢ b
      → load b r'.contexts ≡ load b r.contexts
  unfolding serve_timer
  serve_timer-load r r' e b h n = elim (Bool-cases (is_hangup e.timer_flags)) [
    | inl hup ↦
        ap (load b) (cleanup_context-contexts client r r' e.timer_ctx (if-eq-then _ _ hup h))
        ∙ load-free_ne e.timer_ctx b r.contexts n
    | inr up ↦ elim (Bool-cases e.timer_flags.epollin) [
      | inl fired ↦
          let (ctx, _, h₁) =
            >>=-eq-done (load e.timer_ctx r.contexts) _
              (if-eq-then _ _ fired (if-eq-else _ _ up h)) in
          fire_timer-load r r' e.timer_ctx b ctx.timer_callback ctx h₁ n
      | inr off ↦ absurd (
          let bad : ◌≡◌ {A = Outcome (Reactor U I C)} aborted (done r') =
            if-eq-else _ _ off (if-eq-else _ _ up h) in
          cc)
    ]
  ]

  others-TimerFits :
      (r r' : Reactor U I C) (e : TimerEvent) (es : List TimerEvent)
      → serve_timer client r e ≡ done r'
      → All (λ f. e.timer_ctx ≢ f.timer_ctx) es
      → All (TimerFits r) es
      → All (TimerFits r') es
  others-TimerFits r r' e [] h n fits = tt
  others-TimerFits r r' e (f ∷ es) h (n, ns) ((ctx, c, loaded, callback), fits) = (
    (ctx, c, serve_timer-load r r' e f.timer_ctx h n ∙ loaded, callback),
    others-TimerFits r r' e es h ns fits,
  )

module _ {U I C : Type 0} (client : Client U I C) (total : AllSound client) where
  pub serve_timers-Sound :
      (r : Reactor U I C) (es : List TimerEvent)
      → All (TimerFits r) es
      → Distinct (λ e. e.timer_ctx) es
      → Sound (serve_timers client r es)
  unfolding serve_timers
  serve_timers-Sound r [] fits apart = done-Sound _
  serve_timers-Sound r (e ∷ es) (fit, fits) (other, apart) =
      Sound->>= (serve_timer client r e) _ (serve_timer-Sound client total r e fit)
        (λ r' h. serve_timers-Sound r' es (others-TimerFits client r r' e es h other fits) apart)
