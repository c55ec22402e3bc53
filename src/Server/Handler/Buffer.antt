-- ===== src/Server/Handler/Buffer.antt =====
-- The request buffer of src/yotta.cpp: every read that a connection arms stays within it.
pub mod Kept
use yotta.Prelude.{
  ℕ, ◌+◌, ◌-◌, ◌%◌, ◌≤◌, ◌<◌, ◌≡◌, refl, sym, ap, subst, ◌∙◌, ◌⊎◌, inl, inr, true, false, some,
  arith, ◌==◌, if◌then◌else◌, Bool-cases, if-eq-then, if-eq-else,
}
use yotta.Core.Outcome.{Outcome, done, exited, >>=-eq-done, done-injective}
use yotta.Core.Context.{CallbackStatus, yta_ok, size_mod, async_read, async_write}
use yotta.Server.State.{
  UserData, Connection, read_callback_http, write_header_callback, accept_logic, max_buffer_size,
  reset,
}
use yotta.Server.Handler.{
  Env, finish_request, store_parsed, handle_parsed, after_parse, read_request, close_file,
}
use yotta.Server.Handler.Buffer.Kept.{handle_parsed-SameBuffer}

-- The connection waits for the rest of a request: what is armed is the free rest of the buffer.
pub record IsReading (ctx : Connection) : Type 0 where
  pub armed : ctx.read_callback ≡ some read_callback_http
  pub behind : ctx.read_buf ≡ ctx.user_data.buf + ctx.user_data.counter
  pub rest : ctx.user_data.counter + ctx.to_read ≡ max_buffer_size
  pub some_room : 0 < ctx.to_read

-- The connection has armed its response.
abbrev pub IsResponding : Connection → Type 0
IsResponding ctx =
    (ctx.write_callback ≡ some write_header_callback) × (ctx.user_data.finalized ≡ true)

pub accept_logic-IsReading : (ctx : Connection) (u : UserData) → IsReading (accept_logic ctx u)
unfolding accept_logic async_read reset
accept_logic-IsReading ctx u = record {
  armed = refl;
  behind = omega arith;
  rest = omega arith;
  some_room = omega arith;
}

status_and_ctx :
    (status status' : CallbackStatus) (ctx ctx' : Connection)
    → ◌≡◌ {A = Outcome (CallbackStatus × Connection)} (done (status, ctx)) (done (status', ctx'))
    → (status ≡ status') × (ctx ≡ ctx')
status_and_ctx status status' ctx ctx' h =
    let same = done-injective h in (ap (λ r. r.0) same, ap (λ r. r.1) same)

finish_request-IsReading :
    (env : Env) (ctx ctx' : Connection) (status : CallbackStatus)
    → finish_request env ctx ≡ done (status, ctx')
    → (status ≡ yta_ok) × IsReading ctx'
unfolding finish_request
finish_request-IsReading env ctx ctx' status h = elim (Bool-cases (env.set_cork false)) [
  | inl e ↦
      let (s, c) = status_and_ctx _ status _ ctx' (rw e at h) in
      (sym s, subst IsReading c (accept_logic-IsReading ctx (close_file ctx.user_data)))
  | inr e ↦ absurd (
      let bad : ◌≡◌ {A = Outcome (CallbackStatus × Connection)} (exited 1) (done (status, ctx')) =
        rw e at h in
      cc)
]

pub armed_rest :
    (ctx : Connection) (buf read : ℕ)
    → buf + read ≡ ctx.user_data.buf + ctx.user_data.counter
    → ctx.user_data.counter < max_buffer_size
    → IsReading
        (async_read ctx read_callback_http (buf + read) (max_buffer_size - ctx.user_data.counter))
unfolding async_read
armed_rest ctx buf read place room = record {
  armed = refl;
  behind = place;
  rest = omega arith;
  some_room = omega arith;
}

-- Both ways on from a request that is not answered yet.
request-IsReading :
    (env : Env) (ctx ctx' : Connection) (buf read : ℕ) (status : CallbackStatus)
    → buf + read ≡ ctx.user_data.buf + ctx.user_data.counter
    → ctx.user_data.counter ≤ max_buffer_size
    → ◌≡◌ {A = Outcome (CallbackStatus × Connection)}
        (if ctx.user_data.counter == max_buffer_size
          then finish_request env ctx
          else done (
            yta_ok,
            async_read ctx read_callback_http
                (buf + read)
                (max_buffer_size - ctx.user_data.counter),
          ))
        (done (status, ctx'))
    → (status ≡ yta_ok) × IsReading ctx'
request-IsReading env ctx ctx' buf read status place room h =
    elim (Bool-cases (ctx.user_data.counter == max_buffer_size)) [
      | inl e ↦ finish_request-IsReading env ctx ctx' status (if-eq-then _ _ e h)
      | inr e ↦
          let (s, c) = status_and_ctx _ status _ ctx' (if-eq-else _ _ e h) in
          (sym s, subst IsReading c (armed_rest ctx buf read place (ground arith)))
    ]

responding :
    (env : Env) (ctx ctx' : Connection) (status : CallbackStatus)
    → IsResponding ctx
    → ◌≡◌ {A = Outcome (CallbackStatus × Connection)}
        (if env.set_cork true then done (yta_ok, ctx) else exited 1)
        (done (status, ctx'))
    → (status ≡ yta_ok) × IsResponding ctx'
responding env ctx ctx' status r h = elim (Bool-cases (env.set_cork true)) [
  | inl e ↦
      let (s, c) = status_and_ctx _ status _ ctx' (rw e at h) in (sym s, subst IsResponding c r)
  | inr e ↦ absurd (
      let bad : ◌≡◌ {A = Outcome (CallbackStatus × Connection)} (exited 1) (done (status, ctx')) =
        rw e at h in
      cc)
]

after_parse-IsReading :
    (env : Env) (ctx ctx' : Connection) (buf read : ℕ) (u : UserData) (status : CallbackStatus)
    → buf + read ≡ u.buf + u.counter
    → u.counter ≤ max_buffer_size
    → after_parse env ctx buf read u ≡ done (status, ctx')
    → (status ≡ yta_ok) × (IsReading ctx' ⊎ IsResponding ctx')
unfolding after_parse async_write
after_parse-IsReading env ctx ctx' buf read u status place room h = elim (Bool-cases u.finalized) [
  | inl e ↦
      let (s, r) =
        responding env
          (async_write (record ctx { user_data = u }) write_header_callback u.response_buf
            u.response_size)
          ctx' status (refl, e) (if-eq-then _ _ e h) in
      (s, inr r)
  | inr e ↦
      let (s, r) =
        request-IsReading env (record ctx { user_data = u }) ctx' buf read status place room
          (if-eq-else _ _ e h) in
      (s, inl r)
]

pub small : (n : ℕ) → n ≤ max_buffer_size → n % size_mod ≡ n
small n h = omega arith

-- After any number of bytes that fit what was armed, the callback leaves the connection with its
-- response armed, or reading on within the buffer; it never ends the connection.
pub read_request-IsReading :
    (env : Env) (ctx ctx' : Connection) (n : ℕ) (status : CallbackStatus)
    → IsReading ctx
    → n ≤ ctx.to_read
    → read_request env ctx ctx.read_buf n ≡ done (status, ctx')
    → (status ≡ yta_ok) × (IsReading ctx' ⊎ IsResponding ctx')
unfolding read_request store_parsed
read_request-IsReading env ctx ctx' n status v fits h =
    let (u', parsed, h₁) = >>=-eq-done (handle_parsed env _ _) _ h in
    let (b, c) = handle_parsed-SameBuffer env _ _ u' parsed in
    let counted : u'.counter ≡ ctx.user_data.counter + n =
      c ∙ small (ctx.user_data.counter + n) (omega (arith, v.rest)) in
    after_parse-IsReading env ctx ctx' ctx.read_buf n u' status
      (let place = v.behind in omega arith) (omega (arith, v.rest)) h₁
