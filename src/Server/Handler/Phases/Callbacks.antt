-- ===== src/Server/Handler/Phases/Callbacks.antt =====
-- The callbacks of src/yotta.cpp, from phase to phase of a connection.
use yotta.Prelude.{
  ℕ, ◌≤◌, ◌≡◌, refl, sym, ap, subst, ◌∙◌, ◌⊎◌, inl, inr, Option, none, some, some-injective,
  Bool-cases, if-eq-then, if-eq-else, arith,
}
use yotta.Prelude.Int.{ℤ, is_zero}
use yotta.Core.Outcome.{Outcome, done, exited, >>=-eq-done, done-injective}
use yotta.Core.Context.{yta_ok, yta_exit, async_timer, set_close_callback, TimerAnswers}
use yotta.Core.Transfer.Keeping.{Keeps}
use yotta.Server.State.{
  UserData, Connection, IoCallback, Callback, read_callback_http, write_header_callback,
  http_finish_callback, timer_callback,
}
use yotta.Server.Handler.{Env, io, accept_callback_http}
use yotta.Server.Handler.Phases.{
  IsGuarded, InPhase, accept_logic-InPhase, finish_request-Leaves, write_header-Leaves,
  read_request-Leaves,
}

pub none_some : {A : Type 0} {o : Option A} {a : A} {B : Type 0} → o ≡ none → o ≡ some a → B
none_some {A} {a} e h = absurd (let bad : ◌≡◌ {A = Option A} none (some a) = sym e ∙ h in cc)

reads-InPhase :
    (env : Env) (c : IoCallback) (ctx ctx' : Connection) (n : ℕ)
    → InPhase ctx
    → ctx.read_callback ≡ some c
    → n ≤ ctx.to_read
    → io env c (record ctx { read_callback = none }) ctx.read_buf n ≡ done (yta_ok, ctx')
    → InPhase ctx'
unfolding io
reads-InPhase env read_callback_http ctx ctx' n (g, inl (v, w, _, no_file)) armed fits h =
    read_request-Leaves env (record ctx { read_callback = none }) ctx.read_buf n g refl w v.behind
      (omega (arith, v.rest)) no_file yta_ok ctx' h
reads-InPhase env write_header_callback ctx ctx' n (g, inl (v, w, _, no_file)) armed fits h =
    absurd
      (let bad : some read_callback_http ≡ some write_header_callback = sym v.armed ∙ armed in cc)
reads-InPhase env http_finish_callback ctx ctx' n (g, inl (v, w, _, no_file)) armed fits h =
    absurd
      (let bad : some read_callback_http ≡ some http_finish_callback = sym v.armed ∙ armed in cc)
reads-InPhase env c ctx ctx' n (g, inr (inl (r, _, _))) armed fits h = none_some r armed
reads-InPhase env c ctx ctx' n (g, inr (inr (r, _, _))) armed fits h = none_some r armed

-- The callback of a write, after the response or after the file.
sent-InPhase :
    (env : Env) (c : IoCallback) (ctx ctx' : Connection) (buf n : ℕ)
    → IsGuarded ctx
    → ctx.read_callback ≡ none
    → (c ≡ write_header_callback) ⊎ (c ≡ http_finish_callback)
    → io env c (record ctx { write_callback = none }) buf n ≡ done (yta_ok, ctx')
    → InPhase ctx'
unfolding io
sent-InPhase env write_header_callback ctx ctx' buf n g r which h =
    write_header-Leaves env (record ctx { write_callback = none }) g r refl yta_ok ctx' h
sent-InPhase env http_finish_callback ctx ctx' buf n g r which h =
    finish_request-Leaves env (record ctx { write_callback = none }) g refl yta_ok ctx' h
sent-InPhase env read_callback_http ctx ctx' buf n g r (inl e) h = cc
sent-InPhase env read_callback_http ctx ctx' buf n g r (inr e) h = cc

writes-InPhase :
    (env : Env) (c : IoCallback) (ctx ctx' : Connection) (buf n : ℕ)
    → InPhase ctx
    → ctx.write_callback ≡ some c
    → io env c (record ctx { write_callback = none }) buf n ≡ done (yta_ok, ctx')
    → InPhase ctx'
writes-InPhase env c ctx ctx' buf n (g, inl (_, w, _, _)) armed h = none_some w armed
writes-InPhase env c ctx ctx' buf n (g, inr (inl (r, w, _))) armed h =
    sent-InPhase env c ctx ctx' buf n g r (inl (some-injective (sym armed ∙ w))) h
writes-InPhase env c ctx ctx' buf n (g, inr (inr (r, w, _))) armed h =
    sent-InPhase env c ctx ctx' buf n g r (inr (some-injective (sym armed ∙ w))) h

moves-InPhase :
    (ctx : Connection) (w : ℕ) → InPhase ctx → InPhase (record ctx { already_written = w })
moves-InPhase ctx n (g, inl (v, w, open', no_file)) = (
  g,
  inl (
    record { armed = v.armed; behind = v.behind; rest = v.rest; some_room = v.some_room },
    w,
    open',
    no_file,
  ),
)
moves-InPhase ctx n (g, inr v) = (g, inr v)

-- The read and write callbacks keep a connection in a phase, or end it.
pub io-Keeps : (env : Env) → Keeps (io env) InPhase
io-Keeps env = record {
  reads = reads-InPhase env;
  moves = moves-InPhase;
  writes = writes-InPhase env;
}

-- The timer is set, and what the connection does is as before.
async_timer-sets :
    (ctx ctx' : Connection) (callback : Callback) (timer : TimerAnswers)
    → async_timer ctx callback timer ≡ done ctx'
    → (ctx'.timer_callback ≡ some callback)
      × (ctx'.close_callback ≡ ctx.close_callback)
      × (ctx'.write_callback ≡ ctx.write_callback)
unfolding async_timer
async_timer-sets ctx ctx' callback timer h = elim (Bool-cases (is_zero ctx.timer_fd)) [
  | inl fresh ↦ elim (Bool-cases timer.added) [
    | inl ok ↦ same_fields (done-injective (sym (if-eq-then _ _ ok (if-eq-then _ _ fresh h))))
    | inr bad ↦ absurd (
        let odd : ◌≡◌ {A = Outcome Connection} (exited 1) (done ctx') =
          if-eq-else _ _ bad (if-eq-then _ _ fresh h) in
        cc)
  ]
  | inr set ↦ same_fields (done-injective (sym (if-eq-else _ _ set h)))
]
  where
    same_fields :
        {fd : ℤ}
        → ctx' ≡ record ctx { timer_callback = some callback; timer_fd = fd }
        → (ctx'.timer_callback ≡ some callback)
          × (ctx'.close_callback ≡ ctx.close_callback)
          × (ctx'.write_callback ≡ ctx.write_callback)
    same_fields e =
        (ap (λ c. c.timer_callback) e, ap (λ c. c.close_callback) e, ap (λ c. c.write_callback) e)

-- Every new connection waits for its first request.
pub accept_callback_http-InPhase :
    (timer : TimerAnswers) (memory : Option UserData) (ctx ctx' : Connection)
    → ctx.write_callback ≡ none
    → accept_callback_http timer memory ctx ≡ done (yta_ok, ctx')
    → InPhase ctx'
unfolding accept_callback_http set_close_callback
accept_callback_http-InPhase timer none ctx ctx' w h =
    absurd (let bad : yta_exit ≡ yta_ok = ap (λ r. r.0) (done-injective h) in cc)
accept_callback_http-InPhase timer (some u) ctx ctx' w h =
    let (armed, set, h₁) = >>=-eq-done (async_timer _ timer_callback timer) _ h in
    let (t, c, w') = async_timer-sets _ armed timer_callback timer set in
    subst InPhase (ap (λ r. r.1) (done-injective h₁)) (accept_logic-InPhase armed u (c, t) (w' ∙ w))
