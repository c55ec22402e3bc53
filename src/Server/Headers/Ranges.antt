-- ===== src/Server/Headers/Ranges.antt =====
-- `handle_range` of src/yotta.cpp for the ranges `bytes=a-b` that lie in the file.
pub mod Open
use yotta.Prelude.{
  ℕ, suc, ◌+◌, ◌-◌, ◌^◌, ◌≤◌, ◌<◌, ◌%◌, ◌≡◌, refl, sym, ap, ◌∙◌, true, false, [], ◌∷◌, ◌++◌, Bytes,
  codes, length, length-append, drop, ltb, leb, arith, append-nil, if◌then◌else◌, ◌==◌,
}
use yotta.Prelude.Int.{ℤ, pos, ◌+ℤ◌, ◌-ℤ◌, wrap}
use yotta.Core.Outcome.{Outcome, done, ◌>>=◌}
use yotta.Core.Context.{size_mod}
use yotta.Core.Decimal.{print_decimal, is_digit, is_space, scan_digits}
use yotta.Core.Decimal.RoundTrip.{
  IsDigits, print_decimal-IsDigits, print_decimal-cons, scan-print_decimal,
}
use yotta.Http.Response.{serve_206}
use yotta.Server.Headers.Lengths.{range_length-Fits, Fits-pos}
use yotta.Server.State.{UserData, return_400}
use yotta.Server.Url.{bytes_eq}
use yotta.Server.Headers.{
  Dates, in_int, starts_with_digit, stoi_signed, stoi_sign, stoi, split_dash, range_end,
  checked_end, checked_start, range_length, respond_206, range_parts, handle_range,
}

in_int-small : (n : ℕ) → n < 2 ^ 31 → in_int (pos n) ≡ done (pos n)
unfolding in_int
in_int-small n h = ground arith

stoi-digit :
    (c : ℕ) (s : Bytes)
    → (b'0' ≤ c) × (c ≤ b'9')
    → stoi (c ∷ s) ≡ in_int (pos (scan_digits 0 (c ∷ s)))
unfolding stoi stoi_sign stoi_signed starts_with_digit is_space is_digit
stoi-digit c s h = ground arith

pub stoi-print_decimal : (n : ℕ) → n < 2 ^ 31 → stoi (print_decimal n) ≡ done (pos n)
stoi-print_decimal n h =
    let (c, s, shape) = print_decimal-cons n in
    let digits : IsDigits (c ∷ s) = rw shape at (print_decimal-IsDigits n) in
    let scanned : scan_digits 0 (print_decimal n) ≡ n =
      ap (scan_digits 0) (sym (append-nil (print_decimal n))) ∙ scan-print_decimal n [] tt in
    ap stoi shape
    ∙ stoi-digit c s digits.0
    ∙ ap (λ t. in_int (pos (scan_digits 0 t))) (sym shape)
    ∙ ap (λ k. in_int (pos k)) scanned
    ∙ in_int-small n h

split_dash-digits : (s rest : Bytes) → IsDigits s → split_dash (s ++ b'-' ∷ rest) ≡ (s, b'-' ∷ rest)
unfolding split_dash
split_dash-digits [] rest h = refl
split_dash-digits (c ∷ s) rest (hc, h) =
    let other : (c == b'-') ≡ false = ground arith in rw (other, split_dash-digits s rest h)

-- The text of a range, with what is behind the dash.
abbrev pub range_text : ℕ → Bytes → Bytes
range_text a last = codes "bytes=" ++ (print_decimal a ++ b'-' ∷ last)

pub handle_range-parts :
    (dates : Dates) (a : ℕ) (last : Bytes) (u : UserData)
    → handle_range dates (range_text a last) u ≡ range_parts dates (print_decimal a) (b'-' ∷ last) u
unfolding handle_range bytes_eq
handle_range-parts dates a last u =
    let (c, s, shape_a) = print_decimal-cons a in
    let long : ltb (length (range_text a last)) 8 ≡ false =
      ground (arith, length-append (print_decimal a) (b'-' ∷ last), ap length shape_a) in
    ap
      (λ r.
        if r
        then done (return_400 u)
        else (let (first, rest) = split_dash (drop 6 (range_text a last)) in
            range_parts dates first rest u))
      long
    ∙ ap (λ (r : Bytes × Bytes). range_parts dates r.0 r.1 u)
        (split_dash-digits (print_decimal a) last (print_decimal-IsDigits a))

-- The answer 206 to checked values.
abbrev pub answer_206 : Dates → ℤ → ℤ → UserData → Outcome UserData
answer_206 dates start end u =
    range_length start end >>= λ count. done (respond_206 dates start end count u)

pub answer_206-fits :
    (dates : Dates) (a b : ℕ) (u : UserData)
    → a < 2 ^ 31
    → suc b < 2 ^ 31
    → answer_206 dates (pos a) (pos b) u
      ≡ done (respond_206 dates (pos a) (pos b) (pos b -ℤ pos a +ℤ pos 1) u)
answer_206-fits dates a b u h k =
    ap (λ m. m >>= λ count. done (respond_206 dates (pos a) (pos b) count u))
      (range_length-Fits (pos a) (pos b) (Fits-pos a b h k))

range_parts-values :
    (dates : Dates) (first last : Bytes) (a b : ℕ) (u : UserData)
    → 0 < length first
    → 0 < length last
    → stoi first ≡ done (pos a)
    → stoi last ≡ done (pos b)
    → range_parts dates first (b'-' ∷ last) u
      ≡ answer_206 dates (checked_start (pos a)) (checked_end (pos a) (pos b) u.file_stat.st_size) u
unfolding range_parts range_end
range_parts-values dates [] last a b u h k ea eb = absurd (omega arith)
range_parts-values dates (c ∷ first) [] a b u h k ea eb = absurd (omega arith)
range_parts-values dates (c ∷ first) (d ∷ last) a b u h k ea eb = rw (ea, eb) refl

checked_end-inside : (a b size : ℕ) → a < b → b < size → checked_end (pos a) (pos b) size ≡ pos b
unfolding checked_end
checked_end-inside a b size h k = ground arith

pub checked_start-pos : (a : ℕ) → checked_start (pos a) ≡ pos a
unfolding checked_start
checked_start-pos a = ground arith

pub small_mod : (n : ℕ) → n < 2 ^ 31 → n % size_mod ≡ n
small_mod n h = omega arith

pub printed-206 :
    {n n' a a' b b' : ℕ} (date : Bytes) (size : ℕ)
    → n ≡ n'
    → a ≡ a'
    → b ≡ b'
    → serve_206 n date a b size ≡ serve_206 n' date a' b' size
printed-206 date size e f g = cc

-- The length of a range, in `size_t`.
pub wrap-length :
    (a b : ℕ) → a ≤ b → b < 2 ^ 31 → wrap size_mod (pos b -ℤ pos a +ℤ pos 1) ≡ suc b - a
wrap-length a b h k = let ordered : leb a b ≡ true = ground arith in ground arith

-- A range `bytes=a-b` in decimal, with `a` below `b`, `b` below the size of the file and that below
-- 2 ^ 31, is answered with 206, with this range and its length in the response: what is sent is from the
-- byte `a` to the byte `b`, both included.
pub handle_range-inside :
    (dates : Dates) (a b : ℕ) (u : UserData)
    → a < b
    → b < u.file_stat.st_size
    → u.file_stat.st_size < 2 ^ 31
    → (u' : UserData) × (handle_range dates
          (codes "bytes=" ++ (print_decimal a ++ b'-' ∷ print_decimal b))
          u
        ≡ done u')
      × (u'.offset ≡ a)
      × (u'.offset + u'.file_size ≡ suc b)
      × (u'.response
          ≡ serve_206 (suc b - a) (dates.print_date u.file_stat.st_mtime) a b u.file_stat.st_size)
      × (u'.response_size ≡ length u'.response)
      × (u'.content ≡ true)
      × (u'.finalized ≡ true)
unfolding respond_206
handle_range-inside dates a b u order inside small =
    let (c, s, shape_a) = print_decimal-cons a in
    let (d, t, shape_b) = print_decimal-cons b in
    let run =
      handle_range-parts dates a (print_decimal b) u
      ∙ range_parts-values dates (print_decimal a) (print_decimal b) a b u
          (omega (arith, ap length shape_a)) (omega (arith, ap length shape_b))
          (stoi-print_decimal a (omega arith)) (stoi-print_decimal b (omega arith))
      ∙ ap (λ e. answer_206 dates (checked_start (pos a)) e u)
          (checked_end-inside a b u.file_stat.st_size order inside)
      ∙ ap (λ s. answer_206 dates s (pos b) u) (checked_start-pos a)
      ∙ answer_206-fits dates a b u (omega arith) (omega arith) in
    let sized = wrap-length a b (omega arith) (omega arith) in
    (
      respond_206 dates (pos a) (pos b) (pos b -ℤ pos a +ℤ pos 1) u,
      run,
      omega arith,
      omega (arith, sized),
      printed-206 (dates.print_date u.file_stat.st_mtime) u.file_stat.st_size sized
          (small_mod a (omega arith)) (small_mod b (omega arith)),
      refl,
      refl,
      refl,
    )
