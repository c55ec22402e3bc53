-- ===== src/Server/Handler.antt =====
-- The callbacks of src/yotta.cpp: reading a request, sending the response and the file, the next
-- request, and the end of a connection. `phr_parse_request`, the parser of another project, is a
-- parameter: its result for the bytes that the connection's reads up to this one have brought (named by the
-- number of the read), their count, the count before, and the room for headers.
pub mod Buffer
pub mod Descriptors
pub mod Answers
pub mod Phases
pub mod Size
use yotta.Prelude.{
  ℕ, zero, suc, ◌+◌, ◌-◌, ◌%◌, Bool, true, false, not, ◌&&◌, ◌||◌, Option, none, some, List, [],
  ◌∷◌, Bytes, length, ltb, ◌==◌, if◌then◌else◌,
}
use yotta.Core.Outcome.{Outcome, done, exited, or_fault, ◌>>=◌}
use yotta.Core.Context.{
  Ctx, CallbackStatus, yta_ok, yta_exit, size_mod, async_read, async_write, async_sendfile,
  async_timer, set_close_callback, TimerAnswers,
}
use yotta.Core.Transfer.{IoBehaviour}
use yotta.Server.State.{
  UserData, ParserData, Header, Connection, IoCallback, Callback, read_callback_http,
  write_header_callback, http_finish_callback, http_cleanup, timer_callback, return_400,
  accept_logic, max_buffer_size,
}
use yotta.Server.Url.{Files, parse_url}
use yotta.Server.Headers.{Dates, parse_headers}

pub data ParseStatus : Type 0 where
  malformed incomplete complete : ParseStatus

-- What `phr_parse_request` returns and stores.
pub record Parsed : Type 0 where
  pub status : ParseStatus
  pub path : Bytes
  pub headers : List Header
  pub num_headers : ℕ

-- The surroundings of a callback: the parser, the file system, the dates, and `setsockopt`.
pub record Env : Type 0 where
  pub phr_parse_request : ℕ → ℕ → ℕ → ℕ → Parsed
  pub files : Files
  pub dates : Dates
  pub set_cork : Bool → Bool

-- `close(udata->file_fd)` if a file is open.
unfoldable pub close_file : UserData → UserData
close_file u =
    if u.file_fd == 0
    then u
    else record u { closed_files = u.file_fd ∷ u.closed_files; file_fd = 0 }

unfoldable pub finish_request : Env → Connection → Outcome (CallbackStatus × Connection)
finish_request env ctx =
    if env.set_cork false
    then done (yta_ok, accept_logic ctx (close_file ctx.user_data))
    else exited 1

unfoldable pub write_header : Env → Connection → Outcome (CallbackStatus × Connection)
write_header env ctx =
    let u = ctx.user_data in
    if u.content
    then done (yta_ok, async_sendfile ctx http_finish_callback u.file_fd u.file_size u.offset)
    else finish_request env ctx

-- What the parser has stored.
unfoldable pub store_parsed : Parsed → UserData → UserData
store_parsed p u = record u {
  parser = record { path = p.path; headers = p.headers; num_headers = p.num_headers };
}

unfoldable pub handle_parsed : Env → ParseStatus → UserData → Outcome UserData
handle_parsed env malformed u = done (return_400 u)
handle_parsed env incomplete u = done u
handle_parsed env complete u = do
  u' ← or_fault (parse_url env.files u.parser.path u)
  parse_headers env.dates u'

-- `read_callback_http` behind the parser: respond, give up on a full buffer, or read on.
unfoldable pub after_parse :
    Env → Connection → ℕ → ℕ → UserData → Outcome (CallbackStatus × Connection)
after_parse env ctx buf read u =
    let ctx' = record ctx { user_data = u } in
    if u.finalized
    then (if env.set_cork true
        then done (yta_ok, async_write ctx' write_header_callback u.response_buf u.response_size)
        else exited 1)
    else if u.counter == max_buffer_size
    then finish_request env ctx'
    else done
        (yta_ok, async_read ctx' read_callback_http (buf + read) (max_buffer_size - u.counter))

unfoldable pub read_request : Env → Connection → ℕ → ℕ → Outcome (CallbackStatus × Connection)
read_request env ctx buf read = do
  let u = ctx.user_data
  let counter = (u.counter + read) % size_mod
  let parsed = env.phr_parse_request u.reads counter u.counter u.parser.num_headers
  let u₁ = record u { counter = counter; reads = suc u.reads }
  u' ← handle_parsed env parsed.status (store_parsed parsed u₁)
  after_parse env ctx buf read u'

-- The `yta_io_callback`s by their names.
unfoldable pub io : Env → IoBehaviour UserData IoCallback Callback
io env read_callback_http ctx buf n = read_request env ctx buf n
io env write_header_callback ctx buf n = write_header env ctx
io env http_finish_callback ctx buf n = finish_request env ctx

-- The `yta_callback`s: the end of a connection and the timeout.
unfoldable pub plain : Callback → Connection → Outcome (CallbackStatus × Connection)
plain http_cleanup ctx = done (yta_exit, record ctx { user_data = close_file ctx.user_data })
plain timer_callback ctx = done (yta_exit, ctx)

-- `accept_callback_http`, on the memory that `new` gives, if it does.
unfoldable pub accept_callback_http :
    TimerAnswers → Option UserData → Connection → Outcome (CallbackStatus × Connection)
accept_callback_http timer none ctx = done (yta_exit, ctx)
accept_callback_http timer (some u) ctx = do
  ctx' ←
      async_timer (set_close_callback (record ctx { user_data = u }) http_cleanup) timer_callback
        timer
  done (yta_ok, accept_logic ctx' u)
