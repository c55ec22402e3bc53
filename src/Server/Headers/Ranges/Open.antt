-- ===== src/Server/Headers/Ranges/Open.antt =====
-- `handle_range` of src/yotta.cpp for the ranges `bytes=a-` that are open at the end.
use yotta.Prelude.{
  ℕ, suc, ◌+◌, ◌-◌, ◌^◌, ◌<◌, ◌%◌, ◌≡◌, refl, ap, Bool, ◌∙◌, true, false, [], ◌∷◌, ◌++◌, Bytes,
  codes, length, leb, arith, if◌then◌else◌,
}
use yotta.Prelude.Int.{pos, negsuc, ◌+ℤ◌, ◌-ℤ◌, wrap, leb_ℤ}
use yotta.Core.Outcome.{done}
use yotta.Core.Context.{size_mod}
use yotta.Core.Decimal.{print_decimal}
use yotta.Core.Decimal.RoundTrip.{print_decimal-cons}
use yotta.Server.State.{UserData}
use yotta.Server.Headers.{
  Dates, stoi, range_end, checked_end, checked_start, respond_206, range_parts, handle_range,
}
use yotta.Server.Headers.Ranges.{
  range_text, handle_range-parts, stoi-print_decimal, checked_start-pos, wrap-length, answer_206,
  answer_206-fits, printed-206, small_mod,
}
use yotta.Server.Headers.Lengths.{last_byte_of}
use yotta.Http.Response.{serve_206}

range_parts-open :
    (dates : Dates) (first : Bytes) (a : ℕ) (u : UserData)
    → 0 < length first
    → stoi first ≡ done (pos a)
    → 0 < u.file_stat.st_size
    → u.file_stat.st_size < 2 ^ 31
    → range_parts dates first (b'-' ∷ []) u
      ≡ answer_206 dates
          (checked_start (pos a))
          (checked_end (pos a) (pos (u.file_stat.st_size - 1)) u.file_stat.st_size)
          u
unfolding range_parts range_end
range_parts-open dates [] a u h e some_byte small = absurd (omega arith)
range_parts-open dates (c ∷ first) a u h e some_byte small =
    rw (e, last_byte_of u.file_stat.st_size some_byte small) refl

if_same {ℓ} : {A : Type ℓ} (b : Bool) (x : A) → (if b then x else x) ≡ x
if_same true x = refl
if_same false x = refl

checked_end-open :
    (a size : ℕ)
    → 0 < size
    → size < 2 ^ 31
    → checked_end (pos a) (pos (size - 1)) size ≡ pos (size - 1)
unfolding checked_end
checked_end-open a size h k =
    let x = pos (size - 1) in
    ap (λ l. let end = if leb_ℤ x (pos a) then l else x in if leb_ℤ (pos size) end then l else end)
      (last_byte_of size h k)
    ∙ ap (λ end. if leb_ℤ (pos size) end then x else end) (if_same (leb_ℤ x (pos a)) x)
    ∙ if_same (leb_ℤ (pos size) x) x

-- The answer to a range `bytes=a-`.
abbrev open_response : Dates → ℕ → UserData → UserData
open_response dates a u =
    let last = pos (u.file_stat.st_size - 1) in
    respond_206 dates (pos a) last (last -ℤ pos a +ℤ pos 1) u

handle_range-open_run :
    (dates : Dates) (a : ℕ) (u : UserData)
    → a < 2 ^ 31
    → 0 < u.file_stat.st_size
    → u.file_stat.st_size < 2 ^ 31
    → handle_range dates (range_text a []) u ≡ done (open_response dates a u)
handle_range-open_run dates a u fits some_byte small =
    let (c, s, shape) = print_decimal-cons a in
    handle_range-parts dates a [] u
    ∙ range_parts-open dates (print_decimal a) a u (omega (arith, ap length shape))
        (stoi-print_decimal a fits) some_byte small
    ∙ ap (λ e. answer_206 dates (checked_start (pos a)) e u)
        (checked_end-open a u.file_stat.st_size some_byte small)
    ∙ ap (λ t. answer_206 dates t (pos (u.file_stat.st_size - 1)) u) (checked_start-pos a)
    ∙ answer_206-fits dates a (u.file_stat.st_size - 1) u fits (omega arith)

-- A range `bytes=a-` in decimal, with a below the size of the file and that below 2 ^ 31, is answered with
-- 206, with this range and its length in the response: what is sent is from the byte a to the end of the
-- file.
pub handle_range-open :
    (dates : Dates) (a : ℕ) (u : UserData)
    → a < u.file_stat.st_size
    → u.file_stat.st_size < 2 ^ 31
    → (u' : UserData) × (handle_range dates (codes "bytes=" ++ (print_decimal a ++ b'-' ∷ [])) u
        ≡ done u')
      × (u'.offset ≡ a)
      × (u'.offset + u'.file_size ≡ u.file_stat.st_size)
      × (u'.response
          ≡ serve_206
              (u.file_stat.st_size - a)
              (dates.print_date u.file_stat.st_mtime)
              a
              (u.file_stat.st_size - 1)
              u.file_stat.st_size)
      × (u'.response_size ≡ length u'.response)
      × (u'.content ≡ true)
      × (u'.finalized ≡ true)
unfolding respond_206
handle_range-open dates a u inside small =
    let size = u.file_stat.st_size in
    let sized = wrap-length a (size - 1) (omega arith) (omega arith) in
    (
      open_response dates a u,
      handle_range-open_run dates a u (omega arith) (omega arith) small,
      omega arith,
      omega (arith, sized),
      printed-206 (dates.print_date u.file_stat.st_mtime) size (sized ∙ omega arith)
          (small_mod a (omega arith)) (small_mod (size - 1) (omega arith)),
      refl,
      refl,
      refl,
    )

below : (x y : ℕ) → x < y → pos x -ℤ pos y ≡ negsuc (y - x - 1)
below x y h = let e : leb y x ≡ false = ground arith in ground arith

next_up : (n : ℕ) → negsuc (suc n) +ℤ pos 1 ≡ negsuc n
next_up n = let e : leb (suc (suc n)) 1 ≡ false = ground arith in ground arith

beyond-length :
    (a size : ℕ)
    → 0 < size
    → size < a
    → a < 2 ^ 31
    → wrap size_mod (pos (size - 1) -ℤ pos a +ℤ pos 1) ≡ size_mod - (a - size)
beyond-length a size h k l =
    let far : a - (size - 1) - 1 ≡ suc (a - size - 1) = omega arith in
    let distance : (a - size - 1) % size_mod ≡ a - size - 1 = omega arith in
    ap (λ z. wrap size_mod (z +ℤ pos 1)) (below (size - 1) a (omega arith) ∙ ap negsuc far)
    ∙ ap (wrap size_mod) (next_up (a - size - 1))
    ∙ ap (λ n. size_mod - 1 - n) distance
    ∙ omega arith

-- A range `bytes=a-` in decimal whose start is behind the end of a file that is not empty, all below
-- 2 ^ 31, is not refused: it is answered with 206, from the byte a on to the last byte of the file, with a
-- length that is 2 ^ 64 less the distance from the end, and which the response gives.
pub handle_range-beyond :
    (dates : Dates) (a : ℕ) (u : UserData)
    → 0 < u.file_stat.st_size
    → u.file_stat.st_size < a
    → a < 2 ^ 31
    → (u' : UserData) × (handle_range dates (codes "bytes=" ++ (print_decimal a ++ b'-' ∷ [])) u
        ≡ done u')
      × (u'.offset ≡ a)
      × (u'.file_size ≡ size_mod - (a - u.file_stat.st_size))
      × (u'.response
          ≡ serve_206
              (size_mod - (a - u.file_stat.st_size))
              (dates.print_date u.file_stat.st_mtime)
              a
              (u.file_stat.st_size - 1)
              u.file_stat.st_size)
      × (u'.content ≡ true)
unfolding respond_206
handle_range-beyond dates a u some_byte beyond small =
    let size = u.file_stat.st_size in
    let sized = beyond-length a size some_byte beyond small in
    (
      open_response dates a u,
      handle_range-open_run dates a u small some_byte (omega arith),
      omega arith,
      sized,
      printed-206 (dates.print_date u.file_stat.st_mtime) size sized (small_mod a (omega arith))
          (small_mod (size - 1) (omega arith)),
      refl,
    )
