-- ===== src/Http/Response/Size.antt =====
-- How long the texts of src/http/yta_http.cpp are.
use yotta.Prelude.{
  ℕ, zero, suc, ◌+◌, ◌*◌, ◌/◌, ◌%◌, ◌^◌, ◌≤◌, ◌<◌, ◌≡◌, inl, inr, true, [], ◌∷◌, ◌++◌, Bytes, codes,
  length, length-append, ◌==◌, ==_iff, Bool-cases, arith,
}
use native.Mathlib.Numerals.{unary_clauses}
use yotta.Core.Decimal.{print_digits, print_decimal}
use yotta.Http.Response.{crlf, linefeed, serve_200, serve_206}

power : (k : ℕ) → 10 ^ suc k ≡ 10 ^ k * 10
power k = simp unary_clauses (omega arith)

tenth : (n m : ℕ) → n < m * 10 → n / 10 < m
tenth n m h = omega arith

-- A number of at most k + 1 digits.
digits_room :
    (fuel n k : ℕ) (out : Bytes)
    → n < 10 ^ suc k
    → length (print_digits fuel n out) ≤ suc k + length out
unfolding print_digits
digits_room zero n k out small = omega arith
digits_room (suc fuel) n zero out small =
    let none' : n / 10 ≡ 0 = omega arith in
    let e : (n / 10 == 0) ≡ true = (==_iff (n / 10) 0).1 none' in rw e (omega arith)
digits_room (suc fuel) n (suc k) out small = elim (Bool-cases (n / 10 == 0)) [
  | inl e ↦ rw e (omega arith)
  | inr e ↦ rw e (
      omega (
        arith,
        digits_room fuel (n / 10) k ((b'0' + n % 10) ∷ out)
            (tenth n (10 ^ suc k) (rw (power (suc k)) at small)),
      ))
]

-- A `size_t` in decimal.
decimal_room : (n : ℕ) → n < 2 ^ 64 → length (print_decimal n) ≤ 20
unfolding print_decimal
decimal_room n small = omega (arith, digits_room (suc n) n 19 [] (omega arith))

append_room : (xs ys : Bytes) (a b : ℕ) → length xs ≤ a → length ys ≤ b → length (xs ++ ys) ≤ a + b
append_room xs ys a b h k = omega (arith, length-append xs ys)

-- The ends of the two texts.
abbrev typed : Bytes → Bytes
typed mime = crlf ++ (codes "Content-Type: " ++ (mime ++ linefeed))

abbrev sized : ℕ → Bytes → Bytes
sized n mime = crlf ++ (codes "Content-Length: " ++ (print_decimal n ++ typed mime))

-- The texts with a date of `strftime`, which has 511 bytes at most, and numbers of the type `size_t`, fit
-- the response buffer.
pub serve_200-room :
    (n : ℕ) (date mime : Bytes)
    → n < 2 ^ 64
    → length date ≤ 511
    → length mime ≤ 80
    → length (serve_200 n date mime) ≤ 2048
unfolding serve_200
serve_200-room n date mime small short known =
    let end = append_room mime linefeed 80 4 known (omega arith) in
    let middle =
      append_room (print_decimal n) (typed mime) 20 100 (decimal_room n small)
        (omega (arith, end)) in
    omega (arith, append_room date (sized n mime) 511 138 short (omega (arith, middle)))

abbrev counted : ℕ → Bytes
counted n = crlf ++ (codes "Content-Length: " ++ (print_decimal n ++ linefeed))

abbrev ranged : ℕ → ℕ → ℕ → ℕ → Bytes
ranged n first last size =
    crlf
    ++ (codes "Content-Range: bytes "
        ++ (print_decimal first
            ++ (b'-' ∷ print_decimal last ++ (b'/' ∷ print_decimal size ++ counted n))))

pub serve_206-room :
    (n : ℕ) (date : Bytes) (first last size : ℕ)
    → n < 2 ^ 64
    → length date ≤ 511
    → first < 2 ^ 64
    → last < 2 ^ 64
    → size < 2 ^ 64
    → length (serve_206 n date first last size) ≤ 2048
unfolding serve_206
serve_206-room n date first last size small short f l s =
    let end = append_room (print_decimal n) linefeed 20 4 (decimal_room n small) (omega arith) in
    let sizes =
      append_room (print_decimal size) (counted n) 20 42 (decimal_room size s)
        (omega (arith, end)) in
    let lasts =
      append_room (print_decimal last) (b'/' ∷ print_decimal size ++ counted n) 20 63
        (decimal_room last l) (omega (arith, sizes)) in
    let firsts =
      append_room (print_decimal first)
        (b'-' ∷ print_decimal last ++ (b'/' ∷ print_decimal size ++ counted n)) 20 84
        (decimal_room first f) (omega (arith, lasts)) in
    omega (arith, append_room date (ranged n first last size) 511 127 short (omega (arith, firsts)))
