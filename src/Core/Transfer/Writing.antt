-- ===== src/Core/Transfer/Writing.antt =====
-- What `write_loop` of src/core/yta_event_loop.c does with partial writes.
use yotta.Prelude.{
  ℕ, ◌+◌, ◌%◌, ◌<◌, ◌≡◌, refl, ap, ◌∙◌, false, none, some, List, [], ◌∷◌, ◌++◌, ◌==◌, map, arith,
  All, append_assoc, ==_self,
}
use yotta.Core.Outcome.{Outcome, done, ◌>>=◌, >>=_assoc}
use yotta.Core.Context.{Ctx, WriteType, basic_wtype, sendfile_wtype, WriteData, size_mod}
use yotta.Core.Transfer.{
  loop_continue, Answer, count, Sent, IoBehaviour, Progress, status_of, write_loop, write_handle,
  write_round, go_on, out_of_room, account, buffer_of,
}

abbrev pub sum : List ℕ → ℕ
sum [] = 0
sum (n ∷ ns) = n + sum ns

-- The parts of a transfer, one behind the other.
pub parts : ℕ → WriteData → ℕ → List ℕ → List Sent
parts fd source from [] = []
parts fd source from (n ∷ ns) =
    record { to_fd = fd; source = source; from = from; bytes = n } ∷ parts fd source (from + n) ns

module _ {U I C : Type 0} where
  -- The buffer that the callback of a finished transfer is given.
  pub given : Ctx U I C → ℕ
  given ctx = elim ctx.wtype [ basic_wtype ↦ buffer_of ctx.wdata | sendfile_wtype ↦ 0 ]

  unfoldable pub finished : Ctx U I C → Ctx U I C
  finished ctx = record ctx { already_written = ctx.to_write; write_callback = none }

module _ {U I C : Type 0} (call : IoBehaviour U I C) where
  account-part :
      (n : ℕ) (ctx : Ctx U I C) (buf : ℕ) (log : List Sent)
      → ctx.already_written + n < ctx.to_write
      → ctx.to_write < size_mod
      → account call n ctx buf log
        ≡ done (
          loop_continue,
          record ctx { already_written = ctx.already_written + n },
          log
              ++ record {
                to_fd = ctx.fd;
                source = ctx.wdata;
                from = ctx.already_written;
                bytes = n;
              }
                ∷ [],
        )
  unfolding account
  account-part n ctx buf log more fits =
      let same : (ctx.already_written + n) % size_mod ≡ ctx.already_written + n = omega arith in
      let differ : (ctx.already_written + n == ctx.to_write) ≡ false = ground arith in
      rw (same, differ)

  account-end :
      (n : ℕ) (ctx : Ctx U I C) (buf : ℕ) (log : List Sent) (callback : I)
      → ctx.write_callback ≡ some callback
      → ctx.already_written + n ≡ ctx.to_write
      → ctx.to_write < size_mod
      → account call n ctx buf log ≡ (do
        (status, ctx') ← call callback (finished ctx) buf ctx.to_write
        done (
          status_of status,
          ctx',
          log
              ++ record {
                to_fd = ctx.fd;
                source = ctx.wdata;
                from = ctx.already_written;
                bytes = n;
              }
                ∷ [],
        ))
  unfolding account finished
  account-end n ctx buf log callback e end fits =
      let same : (ctx.already_written + n) % size_mod ≡ ctx.to_write = omega arith in
      rw (same, ==_self, e)

  write_handle-count :
      (w : WriteType) (n : ℕ) (ctx : Ctx U I C) (log : List Sent)
      → 0 < n
      → write_handle call w (count n) ctx log
        ≡ account call n ctx (elim w [ basic_wtype ↦ buffer_of ctx.wdata | sendfile_wtype ↦ 0 ]) log
  unfolding write_handle
  write_handle-count basic_wtype n ctx log h = ground arith
  write_handle-count sendfile_wtype n ctx log h = ground arith

  write_loop-cons :
      (n : ℕ) (answers : List Answer) (ctx : Ctx U I C) (callback : I) (log : List Sent)
      → ctx.write_callback ≡ some callback
      → 0 < n
      → write_loop call (count n ∷ answers) ctx log ≡ (do
        (status, ctx', log') ← account call n ctx (given ctx) log
        go_on call status ctx' log' (write_loop call answers))
  unfolding write_loop write_round given
  write_loop-cons n answers ctx callback log e pos =
      ap (λ cb. write_round call cb (count n) ctx log (write_loop call answers)) e
      ∙ ap
          (λ (m : Outcome (Progress U I C)).
            m >>= λ r. go_on call r.0 r.1 r.2 (write_loop call answers))
          (write_handle-count ctx.wtype n ctx log pos)

  -- One answer that leaves something to write.
  write_loop-part :
      (n : ℕ) (answers : List Answer) (ctx : Ctx U I C) (callback : I) (log : List Sent)
      → ctx.write_callback ≡ some callback
      → 0 < n
      → ctx.already_written + n < ctx.to_write
      → ctx.to_write < size_mod
      → write_loop call (count n ∷ answers) ctx log
        ≡ write_loop call answers
            (record ctx { already_written = ctx.already_written + n })
            (log
              ++ record {
                to_fd = ctx.fd;
                source = ctx.wdata;
                from = ctx.already_written;
                bytes = n;
              }
                ∷ [])
  write_loop-part n answers ctx callback log e pos more fits =
      write_loop-cons n answers ctx callback log e pos
      ∙ rw (account-part n ctx (given ctx) log more fits) (unfold go_on in refl)

  -- However the kernel splits what is left of a transfer, whose end is a `size_t`, into parts of at least
  -- one byte, the parts follow one another without a gap, the callback is called once, with the whole
  -- count, and the loop goes on with what it armed.
  pub write_loop-parts :
      (n : ℕ) (ns : List ℕ) (answers : List Answer) (ctx : Ctx U I C) (callback : I)
      (log : List Sent)
      → ctx.write_callback ≡ some callback
      → All (λ m. 0 < m) (n ∷ ns)
      → ctx.already_written + sum (n ∷ ns) ≡ ctx.to_write
      → ctx.to_write < size_mod
      → write_loop call (map count (n ∷ ns) ++ answers) ctx log ≡ (do
        (status, ctx') ← call callback (finished ctx) (given ctx) ctx.to_write
        go_on call
            (status_of status)
            ctx'
            (log ++ parts ctx.fd ctx.wdata ctx.already_written (n ∷ ns))
            (write_loop call answers))
  unfolding parts
  write_loop-parts n [] answers ctx callback log e (pos, _) total fits =
      write_loop-cons n answers ctx callback log e pos
      ∙ rw (account-end n ctx (given ctx) log callback e (omega arith) fits)
          (>>=_assoc (call callback (finished ctx) (given ctx) ctx.to_write) _ _)
  write_loop-parts n (m ∷ ns) answers ctx callback log e (pos, more) total fits =
      let ctx' = record ctx { already_written = ctx.already_written + n } in
      let part : Sent = record {
        to_fd = ctx.fd;
        source = ctx.wdata;
        from = ctx.already_written;
        bytes = n;
      } in
      write_loop-part n (map count (m ∷ ns) ++ answers) ctx callback log e pos (omega arith) fits
      ∙ write_loop-parts m ns answers ctx' callback (log ++ part ∷ []) e more (omega arith) fits
      ∙ unfold finished given in
        ap
          (λ sent. call callback (finished ctx) (given ctx) ctx.to_write >>= λ r.
            go_on call (status_of r.0) r.1 sent (write_loop call answers))
          (append_assoc log (part ∷ []) (parts ctx.fd ctx.wdata (ctx.already_written + n) (m ∷ ns)))

  -- With nothing to write, and no answer left, the loop is over.
  pub write_loop-idle :
      (ctx : Ctx U I C) (log : List Sent)
      → ctx.write_callback ≡ none
      → write_loop call [] ctx log ≡ done (loop_continue, ctx, log)
  unfolding write_loop out_of_room
  write_loop-idle ctx log e = ap (λ cb. out_of_room call cb ctx log) e
