-- ===== src/Core/Decimal.antt =====
-- What src/core uses of the C library on decimal numbers: `sprintf` with `%d`, and `atoi`.
pub mod RoundTrip
use yotta.Prelude.{
  ℕ, zero, suc, ◌+◌, ◌-◌, ◌*◌, ◌/◌, ◌%◌, Bool, ◌&&◌, ◌||◌, [], ◌∷◌, Bytes, leb, ◌==◌, if◌then◌else◌,
}
use yotta.Prelude.Int.{ℤ, pos, negsuc, negate}

-- The last digits first; the fuel is more than the number.
unfoldable pub print_digits : ℕ → ℕ → Bytes → Bytes
print_digits zero n out = out
print_digits (suc fuel) n out =
    let rest = print_digits fuel (n / 10) ((b'0' + n % 10) ∷ out) in
    if n / 10 == 0 then (b'0' + n % 10) ∷ out else rest

unfoldable pub print_decimal : ℕ → Bytes
unfolding print_digits
print_decimal n = print_digits (suc n) n []

-- `%d` of an `int`.
unfoldable pub print_int : ℤ → Bytes
unfolding print_decimal
print_int (pos n) = print_decimal n
print_int (negsuc n) = b'-' ∷ print_decimal (suc n)

unfoldable pub is_digit : ℕ → Bool
is_digit c = leb b'0' c && leb c b'9'

unfoldable pub scan_digits : ℕ → Bytes → ℕ
unfolding is_digit
scan_digits n [] = n
scan_digits n (c ∷ s) = if is_digit c then scan_digits (n * 10 + (c - b'0')) s else n

-- Blanks are skipped, and one sign is read.
unfoldable pub is_space : ℕ → Bool
is_space c = c == b' ' || (leb 9 c && leb c 13)

unfoldable pub scan_signed : Bytes → ℤ
unfolding scan_digits
scan_signed [] = pos 0
scan_signed (c ∷ s) =
    if c == b'-'
    then negate (scan_digits 0 s)
    else if c == b'+'
    then pos (scan_digits 0 s)
    else pos (scan_digits 0 (c ∷ s))

unfoldable pub atoi : Bytes → ℤ
unfolding is_space scan_signed
atoi [] = pos 0
atoi (c ∷ s) = if is_space c then atoi s else scan_signed (c ∷ s)
