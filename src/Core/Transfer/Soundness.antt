-- ===== src/Core/Transfer/Soundness.antt =====
-- `read_loop` and `write_loop` of src/core/yta_event_loop.c do nothing that C leaves undefined, if their
-- callbacks do not.
use yotta.Prelude.{ℕ, ◌+◌, ◌%◌, ◌≡◌, refl, Option, none, some, List, [], ◌∷◌, ◌==◌}
use yotta.Core.Outcome.{Outcome, done, Sound, Sound->>=, Sound-if, done-Sound, aborted-Sound}
use yotta.Core.Context.{
  Ctx, CallbackStatus, yta_ok, yta_exit, WriteType, basic_wtype, sendfile_wtype, size_mod,
}
use yotta.Core.Transfer.{
  LoopStatus, loop_continue, loop_again, loop_error, Answer, count, eagain, failed, Sent,
  IoBehaviour, Progress, read_round, read_loop, complete, account, write_handle_basic,
  write_handle_sendfile, write_handle, go_on, write_round, out_of_room, write_loop,
}

module _ {U I C : Type 0} (call : IoBehaviour U I C)
    (returning : (c : I) (ctx : Ctx U I C) (buf n : ℕ) → Sound (call c ctx buf n)) where
  after_callback :
      (status : CallbackStatus) (ctx : Ctx U I C)
      (next : Ctx U I C → Outcome (LoopStatus × Ctx U I C))
      → ((ctx' : Ctx U I C) → Sound (next ctx'))
      → Sound (elim status [ yta_ok ↦ next ctx | yta_exit ↦ done (loop_error, ctx) ])
  after_callback yta_ok ctx next k = k ctx
  after_callback yta_exit ctx next k = done-Sound _

  read_round-Sound :
      (callback : Option I) (answer : Answer) (ctx : Ctx U I C)
      (next : Ctx U I C → Outcome (LoopStatus × Ctx U I C))
      → ((ctx' : Ctx U I C) → Sound (next ctx'))
      → Sound (read_round call callback answer ctx next)
  unfolding read_round
  read_round-Sound none answer ctx next k = done-Sound _
  read_round-Sound (some c) failed ctx next k = done-Sound _
  read_round-Sound (some c) eagain ctx next k = done-Sound _
  read_round-Sound (some c) (count n) ctx next k =
      Sound-if (n == 0) (λ _. done-Sound _)
        (λ _.
          Sound->>= (call c (record ctx { read_callback = none }) ctx.read_buf n) _
            (returning c (record ctx { read_callback = none }) ctx.read_buf n)
            (λ r _. after_callback r.0 r.1 next k))

  pub read_loop-Sound :
      (answers : List Answer) (ctx : Ctx U I C) → Sound (read_loop call answers ctx)
  unfolding read_loop
  read_loop-Sound [] ctx = done-Sound _
  read_loop-Sound (answer ∷ answers) ctx =
      read_round-Sound ctx.read_callback answer ctx _ (read_loop-Sound answers)

  complete-Sound :
      (callback : Option I) (c : I) (ctx : Ctx U I C) (buf : ℕ) (log : List Sent)
      → callback ≡ some c
      → Sound (complete call callback ctx buf log)
  unfolding complete
  complete-Sound none c ctx buf log e =
      absurd (let bad : ◌≡◌ {A = Option I} none (some c) = e in cc)
  complete-Sound (some d) c ctx buf log e =
      Sound->>= (call d (record ctx { write_callback = none }) buf ctx.already_written) _
        (returning d (record ctx { write_callback = none }) buf ctx.already_written)
        (λ r _. done-Sound _)

  account-Sound :
      (n : ℕ) (c : I) (ctx : Ctx U I C) (buf : ℕ) (log : List Sent)
      → ctx.write_callback ≡ some c
      → Sound (account call n ctx buf log)
  unfolding account
  account-Sound n c ctx buf log e =
      Sound-if ((ctx.already_written + n) % size_mod == ctx.to_write)
        (λ _. complete-Sound ctx.write_callback c _ buf _ e) (λ _. done-Sound _)

  write_handle-Sound :
      (wtype : WriteType) (answer : Answer) (c : I) (ctx : Ctx U I C) (log : List Sent)
      → ctx.write_callback ≡ some c
      → Sound (write_handle call wtype answer ctx log)
  unfolding write_handle write_handle_basic write_handle_sendfile
  write_handle-Sound basic_wtype failed c ctx log e = done-Sound _
  write_handle-Sound basic_wtype eagain c ctx log e = done-Sound _
  write_handle-Sound basic_wtype (count n) c ctx log e =
      Sound-if (n == 0) (λ _. aborted-Sound) (λ _. account-Sound n c ctx _ log e)
  write_handle-Sound sendfile_wtype failed c ctx log e = done-Sound _
  write_handle-Sound sendfile_wtype eagain c ctx log e = done-Sound _
  write_handle-Sound sendfile_wtype (count n) c ctx log e =
      Sound-if (n == 0) (λ _. aborted-Sound) (λ _. account-Sound n c ctx _ log e)

  go_on-Sound :
      (status : LoopStatus) (ctx : Ctx U I C) (log : List Sent)
      (next : Ctx U I C → List Sent → Outcome (Progress U I C))
      → ((ctx' : Ctx U I C) (log' : List Sent) → Sound (next ctx' log'))
      → Sound (go_on call status ctx log next)
  unfolding go_on
  go_on-Sound loop_continue ctx log next k = k ctx log
  go_on-Sound loop_again ctx log next k = done-Sound _
  go_on-Sound loop_error ctx log next k = done-Sound _

  write_round-Sound :
      (callback : Option I) (answer : Answer) (ctx : Ctx U I C) (log : List Sent)
      (next : Ctx U I C → List Sent → Outcome (Progress U I C))
      → ctx.write_callback ≡ callback
      → ((ctx' : Ctx U I C) (log' : List Sent) → Sound (next ctx' log'))
      → Sound (write_round call callback answer ctx log next)
  unfolding write_round
  write_round-Sound none answer ctx log next e k = done-Sound _
  write_round-Sound (some c) answer ctx log next e k =
      Sound->>= (write_handle call ctx.wtype answer ctx log) _
        (write_handle-Sound ctx.wtype answer c ctx log e) (λ r _. go_on-Sound r.0 r.1 r.2 next k)

  out_of_room-Sound :
      (callback : Option I) (ctx : Ctx U I C) (log : List Sent)
      → Sound (out_of_room call callback ctx log)
  unfolding out_of_room
  out_of_room-Sound none ctx log = done-Sound _
  out_of_room-Sound (some c) ctx log = done-Sound _

  pub write_loop-Sound :
      (answers : List Answer) (ctx : Ctx U I C) (log : List Sent)
      → Sound (write_loop call answers ctx log)
  unfolding write_loop
  write_loop-Sound [] ctx log = out_of_room-Sound ctx.write_callback ctx log
  write_loop-Sound (answer ∷ answers) ctx log =
      write_round-Sound ctx.write_callback answer ctx log _ refl
        (λ ctx' log'. write_loop-Sound answers ctx' log')
