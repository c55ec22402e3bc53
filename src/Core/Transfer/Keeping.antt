-- ===== src/Core/Transfer/Keeping.antt =====
-- What the callbacks of one connection keep, `read_loop` and `write_loop` of src/core/yta_event_loop.c
-- keep, unless the connection ends.
pub mod Writes
use yotta.Prelude.{
  ℕ, ◌≤◌, ◌≡◌, refl, ap, ◌∙◌, inl, inr, Option, none, some, List, [], ◌∷◌, ◌==◌, Bool-cases, subst,
  if-eq-then, if-eq-else,
}
use yotta.Core.Outcome.{Outcome, done, >>=-eq-done, done-injective}
use yotta.Core.Context.{Ctx, CallbackStatus, yta_ok, yta_exit}
use yotta.Core.Transfer.{
  LoopStatus, loop_continue, loop_again, loop_error, Answer, count, eagain, failed, IoBehaviour,
  read_round, read_loop,
}

-- A property of contexts that every call of a callback keeps which does not end the connection. `read`
-- gives no more bytes than were asked for.
pub record Keeps {U I C : Type 0} (call : IoBehaviour U I C) (P : Ctx U I C → Type 0) : Type 0 where
  pub reads :
      (c : I) (ctx ctx' : Ctx U I C) (n : ℕ)
      → P ctx
      → ctx.read_callback ≡ some c
      → n ≤ ctx.to_read
      → call c (record ctx { read_callback = none }) ctx.read_buf n ≡ done (yta_ok, ctx')
      → P ctx'
  pub moves : (ctx : Ctx U I C) (w : ℕ) → P ctx → P (record ctx { already_written = w })
  pub writes :
      (c : I) (ctx ctx' : Ctx U I C) (buf n : ℕ)
      → P ctx
      → ctx.write_callback ≡ some c
      → call c (record ctx { write_callback = none }) buf n ≡ done (yta_ok, ctx')
      → P ctx'

module _ {U I C : Type 0} (call : IoBehaviour U I C) where
  -- An answer of `read` that fits what is armed; `more` is what the later ones have to fit.
  abbrev pub Fits : Answer → Ctx U I C → (Ctx U I C → Type 0) → Type 0
  Fits (count n) ctx more =
      (n ≤ ctx.to_read)
      × ((c : I) (ctx' : Ctx U I C)
          → ctx.read_callback ≡ some c
          → call c (record ctx { read_callback = none }) ctx.read_buf n ≡ done (yta_ok, ctx')
          → more ctx')
  Fits eagain ctx more = Unit
  Fits failed ctx more = Unit

  abbrev pub ReadsFit : List Answer → Ctx U I C → Type 0
  ReadsFit [] ctx = Unit
  ReadsFit (answer ∷ answers) ctx = Fits answer ctx (ReadsFit answers)

-- The property behind a loop; an error ends the connection.
abbrev pub Holds : {X : Type 0} → (X → Type 0) → LoopStatus → X → Type 0
Holds P loop_continue ctx = P ctx
Holds P loop_again ctx = P ctx
Holds P loop_error ctx = Unit

module _ {U I C : Type 0} (call : IoBehaviour U I C) (P : Ctx U I C → Type 0)
    (p : Keeps call P) where
  read_end :
      {r result : LoopStatus × Ctx U I C}
      → done r ≡ done result
      → Holds P r.0 r.1
      → Holds P result.0 result.1
  read_end h v = subst (λ r. Holds P r.0 r.1) (done-injective h) v

  after_read :
      (status : CallbackStatus) (ctx : Ctx U I C)
      (next : Ctx U I C → Outcome (LoopStatus × Ctx U I C)) (result : LoopStatus × Ctx U I C)
      → (status ≡ yta_ok → next ctx ≡ done result → Holds P result.0 result.1)
      → elim status [ yta_ok ↦ next ctx | yta_exit ↦ done (loop_error, ctx) ] ≡ done result
      → Holds P result.0 result.1
  after_read yta_ok ctx next result k h = k refl h
  after_read yta_exit ctx next result k h = read_end h tt

  read_round-Holds :
      (callback : Option I) (answer : Answer) (ctx : Ctx U I C)
      (next : Ctx U I C → Outcome (LoopStatus × Ctx U I C)) (more : Ctx U I C → Type 0)
      (result : LoopStatus × Ctx U I C)
      → ctx.read_callback ≡ callback
      → P ctx
      → Fits call answer ctx more
      → ((ctx' : Ctx U I C)
          → P ctx'
          → more ctx'
          → next ctx' ≡ done result
          → Holds P result.0 result.1)
      → read_round call callback answer ctx next ≡ done result
      → Holds P result.0 result.1
  unfolding read_round
  read_round-Holds none answer ctx next more result e v fits k h = read_end h v
  read_round-Holds (some c) failed ctx next more result e v fits k h = read_end h tt
  read_round-Holds (some c) eagain ctx next more result e v fits k h = read_end h v
  read_round-Holds (some c) (count n) ctx next more result e v (fits, later) k h =
      elim (Bool-cases (n == 0)) [
        | inl z ↦ read_end (if-eq-then _ _ z h) tt
        | inr nz ↦
            let (answer, called, h₁) =
              >>=-eq-done (call c _ ctx.read_buf n) _ (if-eq-else _ _ nz h) in
            after_read answer.0 answer.1 next result
              (λ ok rest.
                let same = called ∙ ap (λ s. done (s, answer.1)) ok in
                k answer.1 (p.reads c ctx answer.1 n v e fits same) (later c answer.1 e same) rest)
              h₁
      ]

  pub read_loop-Holds :
      (answers : List Answer) (ctx : Ctx U I C) (result : LoopStatus × Ctx U I C)
      → P ctx
      → ReadsFit call answers ctx
      → read_loop call answers ctx ≡ done result
      → Holds P result.0 result.1
  unfolding read_loop
  read_loop-Holds [] ctx result v fits h = read_end h v
  read_loop-Holds (answer ∷ answers) ctx result v fits h =
      read_round-Holds ctx.read_callback answer ctx _ (ReadsFit call answers) result refl v fits
        (λ ctx' v' fits' rest. read_loop-Holds answers ctx' result v' fits' rest) h
