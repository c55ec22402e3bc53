-- ===== src/Core/Startup/Ready.antt =====
-- The reactor that `create_reactor` of src/core/yta_event_loop.c sets up, and a whole run of `serve`.
use yotta.Prelude.{
  subst, ◌⊎◌, some-injective, ℕ, ◌≡◌, refl, sym, ap, ◌∙◌, inl, inr, Bool, true, false, ◌&&◌, Option,
  some, none, List, [], ◌∷◌, ==_self,
}
use yotta.Prelude.Int.{pos}
use yotta.Core.Outcome.{Outcome, done, exited, >>=-eq-done, done-injective, ◌>>=◌}
use yotta.Core.Context.{new_ctx}
use yotta.Core.Heap.{load}
use yotta.Core.Reactor.{Reactor, Client, MasterEvent, require, allocated}
use yotta.Core.Reactor.Accounting.{IsCounted}
use yotta.Core.Reactor.Serving.{Allowed, Drains, serve_loop-Drains}
use yotta.Core.Startup.{ReactorAnswers, descriptor, create_reactor, serve}

abbrev is_some {ℓ} : {A : Type ℓ} → Option A → Bool
is_some none = false
is_some (some a) = true

-- Whether every call has succeeded.
abbrev pub every_call : ReactorAnswers → Bool
every_call a =
    is_some a.socket_epoll
    && (is_some a.ctx_address
        && (a.listen_added
            && (is_some a.timer_epoll
                && (a.set_emptied
                    && (a.set_filled
                        && (a.mask_set
                            && (is_some a.signal_fd
                                && (is_some a.master_epoll
                                    && (a.socket_added && (a.timer_added && a.signal_added))))))))))

-- A step that goes on with a result of this kind, or ends the process with the code 1.
abbrev Goes : {A : Type 0} → (A → Type 0) → Bool → Outcome A → Type 0
Goes {A} P true m = (a : A) × (m ≡ done a) × P a
Goes P false m = m ≡ exited 1

abbrev Any : {A : Type 0} → A → Type 0
Any a = Unit

module _ {A B : Type 0} (P : A → Type 0) (Q : B → Type 0) where
  Goes->>= :
      (b c : Bool) (m : Outcome A) (f : A → Outcome B)
      → Goes P b m
      → ((a : A) → P a → Goes Q c (f a))
      → Goes Q (b && c) (m >>= f)
  Goes->>= true true m f (a, e, p) k = let (b, e', q) = k a p in (b, ap (λ r. r >>= f) e ∙ e', q)
  Goes->>= true false m f (a, e, p) k = ap (λ r. r >>= f) e ∙ k a p
  Goes->>= false c m f e k = ap (λ r. r >>= f) e

  Goes-last :
      (b : Bool) (m : Outcome A) (g : A → B)
      → Goes P b m
      → ((a : A) → P a → Q (g a))
      → Goes Q b (m >>= λ a. done (g a))
  Goes-last true m g (a, e, p) q = (g a, ap (λ r. r >>= λ a. done (g a)) e, q a p)
  Goes-last false m g e q = ap (λ r. r >>= λ a. done (g a)) e

descriptor-Goes : (fd : Option ℕ) → Goes Any (is_some fd) (descriptor fd)
unfolding descriptor
descriptor-Goes none = refl
descriptor-Goes (some fd) = (fd, refl, tt)

allocated-Goes :
    (address : Option ℕ) → Goes (λ a. address ≡ some a) (is_some address) (allocated address)
unfolding allocated
allocated-Goes none = refl
allocated-Goes (some address) = (address, refl, refl)

require-Goes : (ok : Bool) → Goes Any ok (require ok)
unfolding require
require-Goes true = (tt, refl, tt)
require-Goes false = refl

-- What a step did, and with what: it went on, or the process ended.
abbrev pub Outcomes : {A : Type 0} → (A → Type 0) → Bool → Outcome A → Type 0
Outcomes {A} P b m = ((b ≡ true) × ((a : A) × (m ≡ done a) × P a)) ⊎ ((b ≡ false) × (m ≡ exited 1))

Goes-Outcomes :
    {A : Type 0} (P : A → Type 0) (b : Bool) (m : Outcome A) → Goes P b m → Outcomes P b m
Goes-Outcomes P true m h = inl (refl, h)
Goes-Outcomes P false m h = inr (refl, h)

module _ {U I C : Type 0} (client : Client U I C) (fd : ℕ) (a : ReactorAnswers) where
  -- The reactor at its start: no client is counted, and the only context is that of the listening
  -- descriptor.
  pub record IsInitial (r : Reactor U I C) : Type 0 where
    pub counted : IsCounted r.listen_fd_ctx false r
    pub placed : a.ctx_address ≡ some r.listen_fd_ctx
    pub listens : r.listen_fd ≡ fd
    pub no_client : r.contexts ≡ (r.listen_fd_ctx, new_ctx client.no_data fd) ∷ []

  initial :
      (sockets address timers signals whole : ℕ)
      → a.ctx_address ≡ some address
      → IsInitial (record {
        listen_fd = fd;
        listen_fd_ctx = address;
        socket_epoll_fd = sockets;
        timer_epoll_fd = timers;
        signal_fd = signals;
        master_epoll_fd = whole;
        current_clients = pos 0;
        terminated = false;
        contexts = (address, new_ctx client.no_data fd) ∷ [];
        closed = [];
        ended = [];
      })
  unfolding load new_ctx
  initial sockets address timers signals whole placed = record {
    counted = record {
      listens_at = refl;
      phase = refl;
      exact = refl;
      listening = λ e. (new_ctx client.no_data fd, rw (==_self address) refl, refl);
    };
    placed = placed;
    listens = refl;
    no_client = refl;
  }

  create_reactor-Goes : Goes IsInitial (every_call a) (create_reactor client fd a)
  unfolding create_reactor
  create_reactor-Goes = Goes->>= Any IsInitial _ _ _ _ (descriptor-Goes a.socket_epoll) λ sockets _.
      Goes->>= _ IsInitial _ _ _ _ (allocated-Goes a.ctx_address) λ address placed.
        Goes->>= Any IsInitial _ _ _ _ (require-Goes a.listen_added) λ _ _.
          Goes->>= Any IsInitial _ _ _ _ (descriptor-Goes a.timer_epoll) λ timers _.
            Goes->>= Any IsInitial _ _ _ _ (require-Goes a.set_emptied) λ _ _.
              Goes->>= Any IsInitial _ _ _ _ (require-Goes a.set_filled) λ _ _.
                Goes->>= Any IsInitial _ _ _ _ (require-Goes a.mask_set) λ _ _.
                  Goes->>= Any IsInitial _ _ _ _ (descriptor-Goes a.signal_fd) λ signals _.
                    Goes->>= Any IsInitial _ _ _ _ (descriptor-Goes a.master_epoll) λ whole _.
                      Goes->>= Any IsInitial _ _ _ _ (require-Goes a.socket_added) λ _ _.
                        Goes->>= Any IsInitial _ _ _ _ (require-Goes a.timer_added) λ _ _.
                          Goes-last Any IsInitial _ _ _ (require-Goes a.signal_added)
                            λ _ _. initial sockets address timers signals whole placed

  -- The code goes on exactly when every call succeeds, and then the reactor is at its start; where a call
  -- fails the process ends with the code 1.
  pub create_reactor-Outcomes : Outcomes IsInitial (every_call a) (create_reactor client fd a)
  create_reactor-Outcomes = Goes-Outcomes IsInitial (every_call a) _ create_reactor-Goes

  pub created-IsInitial : (r : Reactor U I C) → create_reactor client fd a ≡ done r → IsInitial r
  created-IsInitial r h = elim create_reactor-Outcomes [
    | inl (_, (r', e, v)) ↦ subst IsInitial (done-injective (sym e ∙ h)) v
    | inr (_, e) ↦
        absurd (let bad : ◌≡◌ {A = Outcome (Reactor U I C)} (exited 1) (done r) = sym e ∙ h in cc)
  ]

  -- A whole run of a worker, from its first system call on, whatever the callbacks do and the kernel
  -- reports (no error on the listening descriptor, no memory twice, one signal): where it goes through,
  -- the count is exact, and when the loop has ended the termination was ordered and no context is left.
  pub serve-Drains :
      (address : ℕ) (events : List MasterEvent) (result : Bool × Reactor U I C)
      → a.ctx_address ≡ some address
      → Allowed address false events
      → serve client fd a events ≡ done result
      → Drains client address result
  unfolding serve
  serve-Drains address events result e ok h =
      let (r, created, run) = >>=-eq-done (create_reactor client fd a) _ h in
      let v = created-IsInitial r created in
      let here : r.listen_fd_ctx ≡ address = some-injective (sym v.placed ∙ e) in
      serve_loop-Drains client address false r events result
        (subst (λ x. IsCounted x false r) here v.counted) ok run
