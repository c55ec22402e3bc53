-- ===== src/Server/Main/Sending.antt =====
-- The answer to a request of src/yotta.cpp on its way through `write_loop` of src/core/yta_event_loop.c.
use yotta.Prelude.{
  ℕ, ◌+◌, ◌%◌, ◌<◌, ◌≡◌, refl, sym, ap, ◌∙◌, true, false, none, some, List, [], ◌∷◌, ◌++◌,
  append-nil, map, arith, All, if◌then◌else◌,
}
use yotta.Core.Outcome.{Outcome, done, ◌>>=◌}
use yotta.Core.Context.{
  CallbackStatus, yta_ok, size_mod, basic_data, sendfile_data, async_read, async_write,
  async_sendfile,
}
use yotta.Core.Transfer.{loop_continue, count, Sent, Progress, status_of, go_on, write_loop}
use yotta.Core.Transfer.Writing.{sum, parts, finished, write_loop-parts, write_loop-idle}
use yotta.Server.State.{
  UserData, Connection, IoCallback, Callback, write_header_callback, http_finish_callback,
  accept_logic, reset,
}
use yotta.Server.Handler.{Env, close_file, finish_request, write_header, io}
use yotta.Server.Handler.Buffer.{IsReading, accept_logic-IsReading}

-- The connection waits for its next request, in the state that these answers leave.
abbrev pub HasReset : UserData → Connection → Type 0
HasReset u ctx =
    IsReading ctx × (ctx.write_callback ≡ none) × (ctx.user_data ≡ reset (close_file u))

module _ (env : Env) (uncorked : env.set_cork false ≡ true) where
  abbrev Sends : Outcome (Progress UserData IoCallback Callback) → UserData → List Sent → Type 0
  Sends m u sent = (ctx' : Connection) × (m ≡ done (loop_continue, ctx', sent)) × HasReset u ctx'

  finish_request-done :
      (ctx : Connection)
      → finish_request env ctx ≡ done (yta_ok, accept_logic ctx (close_file ctx.user_data))
  unfolding finish_request
  finish_request-done ctx = rw uncorked refl

  -- The last transfer of an answer, in parts.
  last-Sends :
      (n : ℕ) (ns : List ℕ) (ctx : Connection) (log : List Sent)
      → ctx.write_callback ≡ some http_finish_callback
      → All (λ m. 0 < m) (n ∷ ns)
      → ctx.already_written + sum (n ∷ ns) ≡ ctx.to_write
      → ctx.to_write < size_mod
      → Sends
          (write_loop (io env) (map count (n ∷ ns)) ctx log)
          ctx.user_data
          (log ++ parts ctx.fd ctx.wdata ctx.already_written (n ∷ ns))
  unfolding io finished accept_logic async_read go_on status_of
  last-Sends n ns ctx log e pos total fits =
      let sent = log ++ parts ctx.fd ctx.wdata ctx.already_written (n ∷ ns) in
      let ctx' = accept_logic (finished ctx) (close_file ctx.user_data) in
      (
        ctx',
        ap (λ l. write_loop (io env) l ctx log) (sym (append-nil (map count (n ∷ ns))))
            ∙ write_loop-parts (io env) n ns [] ctx http_finish_callback log e pos total fits
            ∙ ap
                (λ (m : Outcome (CallbackStatus × Connection)).
                  m >>= λ r. go_on (io env) (status_of r.0) r.1 sent (write_loop (io env) []))
                (finish_request-done (finished ctx))
            ∙ write_loop-idle (io env) ctx' sent refl,
        (accept_logic-IsReading (finished ctx) (close_file ctx.user_data), refl, refl),
      )

  -- An answer with a file, whose response and file the kernel takes in any parts of at least one byte, goes
  -- out whole: first the response from its buffer, then the bytes of the file from the offset on, as many
  -- as the file size says, one behind the other; then the file is closed and the connection waits for its
  -- next request. The sizes are those of the type size_t, and the socket is uncorked.
  pub answer-Sends :
      (ctx : Connection) (h : ℕ) (hs : List ℕ) (f : ℕ) (fs : List ℕ)
      → ctx.user_data.content ≡ true
      → All (λ m. 0 < m) (h ∷ hs)
      → sum (h ∷ hs) ≡ ctx.user_data.response_size
      → ctx.user_data.response_size < size_mod
      → All (λ m. 0 < m) (f ∷ fs)
      → sum (f ∷ fs) ≡ ctx.user_data.file_size
      → ctx.user_data.file_size + ctx.user_data.offset < size_mod
      → Sends
          (write_loop
            (io env)
            (map count (h ∷ hs) ++ map count (f ∷ fs))
            (async_write ctx write_header_callback ctx.user_data.response_buf
              ctx.user_data.response_size)
            [])
          ctx.user_data
          (parts ctx.fd (basic_data ctx.user_data.response_buf) 0 (h ∷ hs)
            ++ parts ctx.fd (sendfile_data ctx.user_data.file_fd) ctx.user_data.offset (f ∷ fs))
  unfolding io finished async_write async_sendfile go_on status_of write_header
  answer-Sends ctx h hs f fs content hpos htotal hfits fpos ftotal ffits =
      let u = ctx.user_data in
      let first = async_write ctx write_header_callback u.response_buf u.response_size in
      let second =
        async_sendfile (finished first) http_finish_callback u.file_fd u.file_size u.offset in
      let sent = parts ctx.fd (basic_data u.response_buf) 0 (h ∷ hs) in
      let no_wrap : (u.file_size + u.offset) % size_mod ≡ u.file_size + u.offset = omega arith in
      let (ctx', run, reset') = last-Sends f fs second sent refl fpos (omega arith) (omega arith) in
      (
        ctx',
        write_loop-parts (io env) h hs (map count (f ∷ fs)) first write_header_callback [] refl hpos
              (omega arith) hfits
            ∙ ap
                (λ b.
                  (if b then done (yta_ok, second) else finish_request env (finished first))
                  >>= λ r.
                      go_on (io env) (status_of r.0) r.1 sent
                        (write_loop (io env) (map count (f ∷ fs))))
                content
            ∙ run,
        reset',
      )
