-- ===== src/Core/Transfer/Keeping/Writes.antt =====
-- What the callbacks of a connection keep, `write_loop` of src/core/yta_event_loop.c keeps.
use yotta.Prelude.{
  ℕ, ◌+◌, ◌%◌, ◌≡◌, refl, inl, inr, Option, none, some, List, [], ◌∷◌, ◌==◌, if◌then◌else◌,
  Bool-cases, subst, if-eq-then, if-eq-else,
}
use yotta.Core.Outcome.{Outcome, done, faulted, aborted, >>=-eq-done, done-injective}
use yotta.Core.Context.{
  Ctx, CallbackStatus, yta_ok, yta_exit, size_mod, WriteType, basic_wtype, sendfile_wtype,
}
use yotta.Core.Transfer.{
  LoopStatus, loop_continue, loop_again, loop_error, Answer, count, eagain, failed, Sent,
  IoBehaviour, Progress, status_of, complete, account, write_handle_basic, write_handle_sendfile,
  write_handle, go_on, write_round, out_of_room, write_loop,
}
use yotta.Core.Transfer.Keeping.{Keeps, Holds}

module _ {U I C : Type 0} (call : IoBehaviour U I C) (P : Ctx U I C → Type 0)
    (p : Keeps call P) where
  write_end :
      {r result : Progress U I C}
      → done r ≡ done result
      → Holds P r.0 r.1
      → Holds P result.0 result.1
  write_end h v = subst (λ r. Holds P r.0 r.1) (done-injective h) v

  complete-Holds :
      (callback : Option I) (ctx : Ctx U I C) (buf : ℕ) (log : List Sent) (result : Progress U I C)
      → ctx.write_callback ≡ callback
      → P ctx
      → complete call callback ctx buf log ≡ done result
      → Holds P result.0 result.1
  unfolding complete status_of
  complete-Holds none ctx buf log result e v h =
      absurd (let bad : ◌≡◌ {A = Outcome (Progress U I C)} faulted (done result) = h in cc)
  complete-Holds (some c) ctx buf log result e v h =
      let ((status, ctx'), called, h₁) = >>=-eq-done (call c _ buf ctx.already_written) _ h in
      write_end h₁ (go status ctx' called)
    where
      go :
          (status : CallbackStatus) (ctx' : Ctx U I C)
          → call c (record ctx { write_callback = none }) buf ctx.already_written
            ≡ done (status, ctx')
          → Holds P (status_of status) ctx'
      go yta_ok ctx' called = p.writes c ctx ctx' buf ctx.already_written v e called
      go yta_exit ctx' called = tt

  account-Holds :
      (n : ℕ) (ctx : Ctx U I C) (buf : ℕ) (log : List Sent) (result : Progress U I C)
      → P ctx
      → account call n ctx buf log ≡ done result
      → Holds P result.0 result.1
  unfolding account
  account-Holds n ctx buf log result v h =
      let w = (ctx.already_written + n) % size_mod in
      let v' = p.moves ctx w v in
      elim (Bool-cases (w == ctx.to_write)) [
        | inl e ↦
            complete-Holds ctx.write_callback (record ctx { already_written = w }) buf _ result refl
              v' (if-eq-then _ _ e h)
        | inr e ↦ write_end (if-eq-else _ _ e h) v'
      ]

  counted-Holds :
      (n : ℕ) (ctx : Ctx U I C) (buf : ℕ) (log : List Sent) (result : Progress U I C)
      → P ctx
      → (if n == 0 then aborted else account call n ctx buf log) ≡ done result
      → Holds P result.0 result.1
  counted-Holds n ctx buf log result v h = elim (Bool-cases (n == 0)) [
    | inl e ↦ absurd (
        let bad : ◌≡◌ {A = Outcome (Progress U I C)} aborted (done result) = if-eq-then _ _ e h in
        cc)
    | inr e ↦ account-Holds n ctx buf log result v (if-eq-else _ _ e h)
  ]

  write_handle-Holds :
      (wtype : WriteType) (answer : Answer) (ctx : Ctx U I C) (log : List Sent)
      (result : Progress U I C)
      → P ctx
      → write_handle call wtype answer ctx log ≡ done result
      → Holds P result.0 result.1
  unfolding write_handle write_handle_basic write_handle_sendfile
  write_handle-Holds basic_wtype failed ctx log result v h = write_end h tt
  write_handle-Holds basic_wtype eagain ctx log result v h = write_end h v
  write_handle-Holds basic_wtype (count n) ctx log result v h = counted-Holds n ctx _ log result v h
  write_handle-Holds sendfile_wtype failed ctx log result v h = write_end h tt
  write_handle-Holds sendfile_wtype eagain ctx log result v h = write_end h v
  write_handle-Holds sendfile_wtype (count n) ctx log result v h =
      counted-Holds n ctx 0 log result v h

  go_on-Holds :
      (status : LoopStatus) (ctx : Ctx U I C) (log : List Sent)
      (next : Ctx U I C → List Sent → Outcome (Progress U I C)) (result : Progress U I C)
      → Holds P status ctx
      → (P ctx → next ctx log ≡ done result → Holds P result.0 result.1)
      → go_on call status ctx log next ≡ done result
      → Holds P result.0 result.1
  unfolding go_on
  go_on-Holds loop_continue ctx log next result v k h = k v h
  go_on-Holds loop_again ctx log next result v k h = write_end h v
  go_on-Holds loop_error ctx log next result v k h = write_end h tt

  write_round-Holds :
      (callback : Option I) (answer : Answer) (ctx : Ctx U I C) (log : List Sent)
      (next : Ctx U I C → List Sent → Outcome (Progress U I C)) (result : Progress U I C)
      → P ctx
      → ((ctx' : Ctx U I C) (log' : List Sent)
          → P ctx'
          → next ctx' log' ≡ done result
          → Holds P result.0 result.1)
      → write_round call callback answer ctx log next ≡ done result
      → Holds P result.0 result.1
  unfolding write_round
  write_round-Holds none answer ctx log next result v k h = write_end h v
  write_round-Holds (some c) answer ctx log next result v k h =
      let (r, handled, h₁) = >>=-eq-done (write_handle call ctx.wtype answer ctx log) _ h in
      go_on-Holds r.0 r.1 r.2 next result (write_handle-Holds ctx.wtype answer ctx log r v handled)
        (λ v'. k r.1 r.2 v') h₁

  out_of_room-Holds :
      (callback : Option I) (ctx : Ctx U I C) (log : List Sent) (result : Progress U I C)
      → P ctx
      → out_of_room call callback ctx log ≡ done result
      → Holds P result.0 result.1
  unfolding out_of_room
  out_of_room-Holds none ctx log result v h = write_end h v
  out_of_room-Holds (some c) ctx log result v h = write_end h v

  pub write_loop-Holds :
      (answers : List Answer) (ctx : Ctx U I C) (log : List Sent) (result : Progress U I C)
      → P ctx
      → write_loop call answers ctx log ≡ done result
      → Holds P result.0 result.1
  unfolding write_loop
  write_loop-Holds [] ctx log result v h = out_of_room-Holds ctx.write_callback ctx log result v h
  write_loop-Holds (answer ∷ answers) ctx log result v h =
      write_round-Holds ctx.write_callback answer ctx log _ result v
        (λ ctx' log' v' rest. write_loop-Holds answers ctx' log' result v' rest) h
