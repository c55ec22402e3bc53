-- ===== src/Core/Reactor/Soundness/Loop.antt =====
-- The loop of `serve` (src/core/yta_event_loop.c) over time: no freed memory is used.
use yotta.Prelude.{◌≡◌, List, [], ◌∷◌, All}
use yotta.Core.Outcome.{done, Sound, Sound->>=, done-Sound}
use yotta.Core.Heap.{load}
use yotta.Core.Reactor.{
  Reactor, Client, MasterEvent, sockets, timers, signal, terminate, serve_event,
}
use yotta.Core.Reactor.Soundness.{AllSound, IsLive, Distinct, load-Sound}
use yotta.Core.Reactor.Soundness.Batch.{serve_sockets-Sound}
use yotta.Core.Reactor.Soundness.Timers.{TimerFits, serve_timers-Sound}

-- What the kernel reports at a time is about different contexts that are there; the signal comes while the
-- context of the listening descriptor is there.
abbrev pub EventFits : {U I C : Type 0} → Reactor U I C → MasterEvent → Type 0
EventFits r (sockets es) = All (λ e. IsLive r e.socket_ctx) es × Distinct (λ e. e.socket_ctx) es
EventFits r (timers es) = All (TimerFits r) es × Distinct (λ e. e.timer_ctx) es
EventFits r signal = IsLive r r.listen_fd_ctx

module _ {U I C : Type 0} (client : Client U I C) where
  -- Every event fits the reactor that the events before it have left.
  abbrev pub Feasible : Reactor U I C → List MasterEvent → Type 0
  Feasible r [] = Unit
  Feasible r (event ∷ events) =
      EventFits r event
      × ((r' : Reactor U I C) → serve_event client r event ≡ done r' → Feasible r' events)

module _ {U I C : Type 0} (client : Client U I C) (total : AllSound client) where
  pub serve_event-Sound :
      (r : Reactor U I C) (event : MasterEvent)
      → EventFits r event
      → Sound (serve_event client r event)
  unfolding serve_event terminate
  serve_event-Sound r (sockets es) (fits, apart) = serve_sockets-Sound client total r es fits apart
  serve_event-Sound r (timers es) (fits, apart) = serve_timers-Sound client total r es fits apart
  serve_event-Sound r signal live =
      Sound->>= (load r.listen_fd_ctx r.contexts) _ (load-Sound r.listen_fd_ctx r.contexts live)
        (λ _ _. done-Sound _)
