-- ===== src/Server/Handler/Phases.antt =====
-- The life of a connection of src/yotta.cpp: it waits for a request, its response goes out, its file is
-- sent, and it waits again. Its callbacks keep it in one of these phases.
pub mod Callbacks
use yotta.Prelude.{
  ℕ, ◌+◌, ◌≤◌, ◌≡◌, refl, sym, ap, subst, ◌∙◌, ◌⊎◌, inl, inr, Bool, true, false, none, some, ◌==◌,
  if◌then◌else◌, arith,
}
use yotta.Core.Outcome.{Outcome, done, exited, or_fault, >>=-eq-done, done-injective}
use yotta.Core.Context.{CallbackStatus, yta_ok, async_read, async_write, async_sendfile}
use yotta.Server.State.{
  UserData, Connection, write_header_callback, http_finish_callback, http_cleanup, timer_callback,
  return_400, finish_with, accept_logic, max_buffer_size, reset,
}
use yotta.Server.Url.{parse_url}
use yotta.Server.Headers.Returned.{parse_headers-returned}
use yotta.Server.Handler.{
  Env, ParseStatus, malformed, incomplete, complete, close_file, finish_request, write_header,
  store_parsed, handle_parsed, after_parse, read_request,
}
use yotta.Server.Handler.Buffer.{IsReading, accept_logic-IsReading, armed_rest, small}
use yotta.Server.Handler.Buffer.Kept.{handle_parsed-SameBuffer}

-- However the connection ends, its file is closed, and its timer is set.
abbrev pub IsGuarded : Connection → Type 0
IsGuarded ctx =
    (ctx.close_callback ≡ some http_cleanup) × (ctx.timer_callback ≡ some timer_callback)

-- The free rest of the request buffer is armed, nothing is being sent, and no file is open.
abbrev pub IsAwaiting : Connection → Type 0
IsAwaiting ctx =
    IsReading ctx
    × (ctx.write_callback ≡ none)
    × (ctx.user_data.finalized ≡ false)
    × (ctx.user_data.file_fd ≡ 0)

-- The response goes out, and nothing is read.
abbrev pub IsAnswering : Connection → Type 0
IsAnswering ctx =
    (ctx.read_callback ≡ none)
    × (ctx.write_callback ≡ some write_header_callback)
    × (ctx.user_data.finalized ≡ true)

-- The file goes out behind its response, and nothing is read.
abbrev pub IsSending : Connection → Type 0
IsSending ctx =
    (ctx.read_callback ≡ none)
    × (ctx.write_callback ≡ some http_finish_callback)
    × (ctx.user_data.content ≡ true)

abbrev pub InPhase : Connection → Type 0
InPhase ctx = IsGuarded ctx × (IsAwaiting ctx ⊎ IsAnswering ctx ⊎ IsSending ctx)

-- A callback that returns has left the connection in a phase.
abbrev pub Leaves : Outcome (CallbackStatus × Connection) → Type 0
Leaves m = (status : CallbackStatus) (ctx' : Connection) → m ≡ done (status, ctx') → InPhase ctx'

done-Leaves :
    (status : CallbackStatus) (ctx : Connection) → InPhase ctx → Leaves (done (status, ctx))
done-Leaves status ctx v status' ctx' h = subst InPhase (ap (λ r. r.1) (done-injective h)) v

exited-Leaves : (code : ℕ) → Leaves (exited code)
exited-Leaves code status ctx' h = absurd (
    let bad : ◌≡◌ {A = Outcome (CallbackStatus × Connection)} (exited code) (done (status, ctx')) =
      h in
    cc)

if-Leaves :
    (b : Bool) (x y : Outcome (CallbackStatus × Connection))
    → (b ≡ true → Leaves x)
    → (b ≡ false → Leaves y)
    → Leaves (if b then x else y)
if-Leaves true x y k l = k refl
if-Leaves false x y k l = l refl

pub accept_logic-InPhase :
    (ctx : Connection) (u : UserData)
    → IsGuarded ctx
    → ctx.write_callback ≡ none
    → InPhase (accept_logic ctx u)
unfolding accept_logic async_read reset
accept_logic-InPhase ctx u g w = (g, inl (accept_logic-IsReading ctx u, w, refl, refl))

pub finish_request-Leaves :
    (env : Env) (ctx : Connection)
    → IsGuarded ctx
    → ctx.write_callback ≡ none
    → Leaves (finish_request env ctx)
unfolding finish_request
finish_request-Leaves env ctx g w =
    if-Leaves (env.set_cork false) _ _
      (λ _. done-Leaves yta_ok _ (accept_logic-InPhase ctx (close_file ctx.user_data) g w))
      (λ _. exited-Leaves 1)

pub write_header-Leaves :
    (env : Env) (ctx : Connection)
    → IsGuarded ctx
    → ctx.read_callback ≡ none
    → ctx.write_callback ≡ none
    → Leaves (write_header env ctx)
unfolding write_header async_sendfile
write_header-Leaves env ctx g r w =
    if-Leaves ctx.user_data.content _ _ (λ e. done-Leaves yta_ok _ (g, inr (inr (r, refl, e))))
      (λ _. finish_request-Leaves env ctx g w)

-- Behind the parser the request is answered, or is as it was.
handle_parsed-cases :
    (env : Env) (status : ParseStatus) (u u' : UserData)
    → handle_parsed env status u ≡ done u'
    → (u'.finalized ≡ true) ⊎ (u' ≡ u)
unfolding handle_parsed return_400 finish_with
handle_parsed-cases env malformed u u' h = inl (ap (λ x. x.finalized) (sym (done-injective h)))
handle_parsed-cases env incomplete u u' h = inr (sym (done-injective h))
handle_parsed-cases env complete u u' h =
    let (u₁, _, h₁) = >>=-eq-done (or_fault (parse_url env.files u.parser.path u)) _ h in
    inl (parse_headers-returned env.dates u₁ u' h₁)

after_parse-Leaves :
    (env : Env) (ctx : Connection) (buf read : ℕ) (u : UserData)
    → IsGuarded ctx
    → ctx.read_callback ≡ none
    → ctx.write_callback ≡ none
    → buf + read ≡ u.buf + u.counter
    → u.counter ≤ max_buffer_size
    → (u.finalized ≡ true) ⊎ (u.file_fd ≡ 0)
    → Leaves (after_parse env ctx buf read u)
unfolding after_parse async_write async_read
after_parse-Leaves env ctx buf read u g r w place room no_file =
    if-Leaves u.finalized _ _
      (λ answered.
        if-Leaves (env.set_cork true) _ _
          (λ _. done-Leaves yta_ok _ (g, inr (inl (r, refl, answered)))) (λ _. exited-Leaves 1))
      (λ open'.
        if-Leaves (u.counter == max_buffer_size) _ _
          (λ _. finish_request-Leaves env (record ctx { user_data = u }) g w)
          (λ free'. done-Leaves yta_ok _ (
            g,
            inl (
              armed_rest (record ctx { user_data = u }) buf read place (ground arith),
              w,
              open',
              elim no_file [
                | inl answered ↦ absurd (let bad : true ≡ false = sym answered ∙ open' in cc)
                | inr none' ↦ none'
              ],
            ),
          )))

-- The parser has run on a request that the connection waits for.
pub read_request-Leaves :
    (env : Env) (ctx : Connection) (buf n : ℕ)
    → IsGuarded ctx
    → ctx.read_callback ≡ none
    → ctx.write_callback ≡ none
    → buf ≡ ctx.user_data.buf + ctx.user_data.counter
    → ctx.user_data.counter + n ≤ max_buffer_size
    → ctx.user_data.file_fd ≡ 0
    → Leaves (read_request env ctx buf n)
unfolding read_request store_parsed
read_request-Leaves env ctx buf n g r w place room no_file status ctx' h =
    let (u', parsed, h₁) = >>=-eq-done (handle_parsed env _ _) _ h in
    let (b, c) = handle_parsed-SameBuffer env _ _ u' parsed in
    let counted : u'.counter ≡ ctx.user_data.counter + n =
      c ∙ small (ctx.user_data.counter + n) room in
    after_parse-Leaves env ctx buf n u' g r w (omega arith) (omega arith)
      (elim (handle_parsed-cases env _ _ u' parsed) [
        | inl answered ↦ inl answered
        | inr same ↦ inr (ap (λ x. x.file_fd) same ∙ no_file)
      ])
      status ctx' h₁
