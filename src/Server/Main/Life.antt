-- ===== src/Server/Main/Life.antt =====
-- The server of src/yotta.cpp in the event loop of src/core: what its connections are like, in every run
-- of a worker from its first call on.
use yotta.Prelude.{ℕ, ◌≡◌, refl, sym, ap, ◌∙◌, some, some-injective, List, [], ◌∷◌, subst, All}
use yotta.Core.Outcome.{Outcome, done, done-injective, >>=-eq-done}
use yotta.Core.Context.{CallbackStatus, yta_ok, yta_exit, new_ctx}
use yotta.Core.Reactor.{Reactor, serve_event}
use yotta.Core.Reactor.Connections.{Protocol, AnswersFit, Kept, OfClient}
use yotta.Core.Reactor.Connections.Whole.{serve_event-Kept}
use yotta.Core.Startup.{ReactorAnswers, create_reactor}
use yotta.Core.Startup.Ready.{created-IsInitial}
use yotta.Server.State.{UserData, IoCallback, Callback, Connection, http_cleanup, timer_callback}
use yotta.Server.Handler.{Env, plain}
use yotta.Server.Handler.Phases.{InPhase}
use yotta.Server.Handler.Phases.Callbacks.{io-Keeps, accept_callback_http-InPhase}
use yotta.Server.Main.{AcceptAnswers, Moment, http_client, serve_moments}

module _ (env : Env) (accepted : AcceptAnswers) where
  opens-InPhase :
      (fd : ℕ) (ctx : Connection)
      → (http_client env accepted).accept (new_ctx (http_client env accepted).no_data fd)
        ≡ done (yta_ok, ctx)
      → InPhase ctx
  unfolding http_client new_ctx
  opens-InPhase fd ctx h = accept_callback_http-InPhase (accepted fd).0 (accepted fd).1 _ ctx refl h

  exit-ends :
      {c c' : Connection}
      → ◌≡◌ {A = Outcome (CallbackStatus × Connection)} (done (yta_exit, c)) (done (yta_ok, c'))
      → InPhase c'
  exit-ends h = absurd (let bad : yta_exit ≡ yta_ok = ap (λ r. r.0) (done-injective h) in cc)

  -- A timer that fires ends its connection.
  fires-InPhase :
      (c : Callback) (ctx ctx' : Connection) → plain c ctx ≡ done (yta_ok, ctx') → InPhase ctx'
  unfolding plain
  fires-InPhase http_cleanup ctx ctx' h = exit-ends h
  fires-InPhase timer_callback ctx ctx' h = exit-ends h

  http-Protocol : Protocol (http_client env accepted) InPhase
  unfolding http_client
  http-Protocol = record {
    opens = opens-InPhase;
    transfers = io-Keeps env;
    fires = λ c ctx ctx' _ _ h. fires-InPhase c ctx ctx' h;
  }

-- In every moment, read gives no more than was asked for.
abbrev pub MomentsFit : Reactor UserData IoCallback Callback → List Moment → Type 0
MomentsFit r [] = Unit
MomentsFit r (m ∷ ms) =
    AnswersFit (http_client m.env m.accepted) r m.event
    × ((r' : Reactor UserData IoCallback Callback)
        → serve_event (http_client m.env m.accepted) r m.event ≡ done r'
        → MomentsFit r' ms)

serve_moments-Kept :
    (address : ℕ) (r r' : Reactor UserData IoCallback Callback) (ms : List Moment)
    → Kept InPhase address r
    → MomentsFit r ms
    → serve_moments r ms ≡ done r'
    → Kept InPhase address r'
unfolding serve_moments
serve_moments-Kept address r r' [] v fits h = subst (Kept InPhase address) (done-injective h) v
serve_moments-Kept address r r' (m ∷ ms) v (fit, fits) h =
    let client = http_client m.env m.accepted in
    let (r₁, first, h₁) = >>=-eq-done (serve_event client r m.event) _ h in
    let protocol = http-Protocol m.env m.accepted in
    serve_moments-Kept address r₁ r' ms
      (serve_event-Kept client InPhase protocol address r r₁ m.event v fit first) (fits r₁ first) h₁

-- In every run of a worker of the server that goes through, from the reactor that it has created on, with
-- other surroundings at every event, whatever the kernel reports when read gives no more than was asked
-- for, and whatever is in the requests and the file system: every connection that is left waits for a
-- request, with the free rest of its buffer armed and no file open, or its response goes out, or its file,
-- and then nothing is read; and its cleanup and its timer are set.
pub serve_moments-InPhase :
    (env : Env) (accepted : AcceptAnswers) (fd : ℕ) (a : ReactorAnswers) (address : ℕ)
    (r r' : Reactor UserData IoCallback Callback) (ms : List Moment)
    → a.ctx_address ≡ some address
    → create_reactor (http_client env accepted) fd a ≡ done r
    → MomentsFit r ms
    → serve_moments r ms ≡ done r'
    → Kept InPhase address r'
serve_moments-InPhase env accepted fd a address r r' ms placed created fits h =
    let v = created-IsInitial (http_client env accepted) fd a r created in
    let here : r.listen_fd_ctx ≡ address = some-injective (sym v.placed ∙ placed) in
    let only : Kept InPhase address r =
      subst (All (OfClient InPhase address)) (sym v.no_client)
        ((λ other. absurd (other here)), tt) in
    serve_moments-Kept address r r' ms only fits h
