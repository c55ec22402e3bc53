-- ===== src/Core/Transfer.antt =====
-- `read_loop`, `write_handle_basic`, `write_handle_sendfile` and `write_loop` of
-- src/core/yta_event_loop.c. The kernel's answers to the calls of one run are a list; where it ends
-- the kernel has nothing more and answers `EAGAIN`.
pub mod Writing
pub mod Soundness
pub mod Keeping
use yotta.Prelude.{
  ℕ, suc, ◌+◌, ◌-◌, ◌%◌, ◌≡◌, Bool, true, false, Option, none, some, List, [], ◌∷◌, ◌++◌, ◌==◌,
  if◌then◌else◌,
}
use yotta.Core.Outcome.{Outcome, done, aborted, faulted, ◌>>=◌}
use yotta.Core.Context.{
  Ctx, CallbackStatus, yta_ok, yta_exit, WriteType, basic_wtype, sendfile_wtype, WriteData,
  basic_data, sendfile_data, size_mod,
}

pub data LoopStatus : Type 0 where
  loop_continue loop_again loop_error : LoopStatus

-- The result of `read`, `write` or `sendfile`: a count, -1 with `EAGAIN`, or -1 with another `errno`.
pub data Answer : Type 0 where
  count : ℕ → Answer
  eagain : Answer
  failed : Answer

-- A part that the kernel took: its descriptor, its place in the buffer or file, and its length.
pub record Sent : Type 0 where
  pub to_fd : ℕ
  pub source : WriteData
  pub from : ℕ
  pub bytes : ℕ

-- What a call of an `yta_io_callback` does with the context, the buffer and the count.
abbrev pub IoBehaviour : Type 0 → Type 0 → Type 0 → Type 0
IoBehaviour U I C = I → Ctx U I C → ℕ → ℕ → Outcome (CallbackStatus × Ctx U I C)

abbrev pub Progress : Type 0 → Type 0 → Type 0 → Type 0
Progress U I C = LoopStatus × Ctx U I C × List Sent

-- `if (callback(…) != YTA_OK) return YTA_LOOP_ERROR;`
unfoldable pub status_of : CallbackStatus → LoopStatus
status_of yta_ok = loop_continue
status_of yta_exit = loop_error

-- `wdata.basic_data.write_buf`
buffer_of : WriteData → ℕ
buffer_of (basic_data buf) = buf
buffer_of (sendfile_data fd) = fd

module _ {U I C : Type 0} (call : IoBehaviour U I C) where
  -- One round of `read_loop`; `next` is the loop from the next round on.
  unfoldable pub read_round :
      Option I
      → Answer
      → Ctx U I C
      → (Ctx U I C → Outcome (LoopStatus × Ctx U I C))
      → Outcome (LoopStatus × Ctx U I C)
  read_round none answer ctx next = done (loop_continue, ctx)
  read_round (some callback) failed ctx next = done (loop_error, ctx)
  read_round (some callback) eagain ctx next = done (loop_continue, ctx)
  read_round (some callback) (count n) ctx next = if n == 0 then done (loop_error, ctx) else do
    (status, ctx') ← call callback (record ctx { read_callback = none }) ctx.read_buf n
    elim status [ yta_ok ↦ next ctx' | yta_exit ↦ done (loop_error, ctx') ]

  unfoldable pub read_loop : List Answer → Ctx U I C → Outcome (LoopStatus × Ctx U I C)
  unfolding read_round
  read_loop [] ctx = done (loop_continue, ctx)
  read_loop (answer ∷ answers) ctx = read_round ctx.read_callback answer ctx (read_loop answers)

  -- `already_written == to_write`: the callback is taken off, and called with `buf`.
  complete : Option I → Ctx U I C → ℕ → List Sent → Outcome (Progress U I C)
  complete none ctx buf log = faulted
  complete (some callback) ctx buf log = do
    (status, ctx') ← call callback (record ctx { write_callback = none }) buf ctx.already_written
    done (status_of status, ctx', log)

  -- The bytes that the kernel took are added; `buf` is what the callback is given.
  account : ℕ → Ctx U I C → ℕ → List Sent → Outcome (Progress U I C)
  unfolding complete
  account n ctx buf log =
      let ctx' = record ctx { already_written = (ctx.already_written + n) % size_mod } in
      let log' =
        log
        ++ record { to_fd = ctx.fd; source = ctx.wdata; from = ctx.already_written; bytes = n }
          ∷ [] in
      if ctx'.already_written == ctx'.to_write
      then complete ctx'.write_callback ctx' buf log'
      else done (loop_continue, ctx', log')

  unfoldable pub write_handle_basic : Answer → Ctx U I C → List Sent → Outcome (Progress U I C)
  unfolding account buffer_of
  write_handle_basic failed ctx log = done (loop_error, ctx, log)
  write_handle_basic eagain ctx log = done (loop_again, ctx, log)
  write_handle_basic (count n) ctx log =
      if n == 0 then aborted else account n ctx (buffer_of ctx.wdata) log

  unfoldable pub write_handle_sendfile : Answer → Ctx U I C → List Sent → Outcome (Progress U I C)
  unfolding account
  write_handle_sendfile failed ctx log = done (loop_error, ctx, log)
  write_handle_sendfile eagain ctx log = done (loop_again, ctx, log)
  write_handle_sendfile (count n) ctx log = if n == 0 then aborted else account n ctx 0 log

  unfoldable pub write_handle :
      WriteType → Answer → Ctx U I C → List Sent → Outcome (Progress U I C)
  unfolding write_handle_basic write_handle_sendfile
  write_handle basic_wtype answer ctx log = write_handle_basic answer ctx log
  write_handle sendfile_wtype answer ctx log = write_handle_sendfile answer ctx log

  -- `while (status == YTA_LOOP_CONTINUE && udata->write_callback)` behind one round.
  unfoldable pub go_on :
      LoopStatus
      → Ctx U I C
      → List Sent
      → (Ctx U I C → List Sent → Outcome (Progress U I C))
      → Outcome (Progress U I C)
  go_on loop_continue ctx log next = next ctx log
  go_on loop_again ctx log next = done (loop_again, ctx, log)
  go_on loop_error ctx log next = done (loop_error, ctx, log)

  -- One round of `write_loop`, entered with the status `YTA_LOOP_CONTINUE`.
  unfoldable pub write_round :
      Option I
      → Answer
      → Ctx U I C
      → List Sent
      → (Ctx U I C → List Sent → Outcome (Progress U I C))
      → Outcome (Progress U I C)
  unfolding go_on
  write_round none answer ctx log next = done (loop_continue, ctx, log)
  write_round (some callback) answer ctx log next = do
    (status, ctx', log') ← write_handle ctx.wtype answer ctx log
    go_on status ctx' log' next

  -- Where the answers end the kernel takes nothing more.
  out_of_room : Option I → Ctx U I C → List Sent → Outcome (Progress U I C)
  out_of_room none ctx log = done (loop_continue, ctx, log)
  out_of_room (some callback) ctx log = done (loop_again, ctx, log)

  unfoldable pub write_loop : List Answer → Ctx U I C → List Sent → Outcome (Progress U I C)
  unfolding write_round out_of_room
  write_loop [] ctx log = out_of_room ctx.write_callback ctx log
  write_loop (answer ∷ answers) ctx log =
      write_round ctx.write_callback answer ctx log (write_loop answers)
