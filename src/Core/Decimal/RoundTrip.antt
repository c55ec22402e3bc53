-- ===== src/Core/Decimal/RoundTrip.antt =====
-- `atoi` reads what `sprintf` has printed (src/core/yta_process.c).
use yotta.Prelude.{
  ℕ, zero, suc, ◌+◌, ◌*◌, ◌/◌, ◌%◌, ◌≤◌, ◌<◌, ◌≡◌, refl, sym, ap, ◌∙◌, false, [], ◌∷◌, ◌++◌, Bytes,
  ◌==◌, arith, All, length, Bool-cases, inl, inr,
}
use yotta.Prelude.Int.{pos}
use yotta.Core.Decimal.{print_digits, print_decimal, is_digit, scan_digits, atoi}

abbrev pub IsDigits : Bytes → Type 0
IsDigits = All (λ c. (b'0' ≤ c) × (c ≤ b'9'))

print_digits-append :
    (fuel n : ℕ) (out rest : Bytes)
    → print_digits fuel n out ++ rest ≡ print_digits fuel n (out ++ rest)
unfolding print_digits
print_digits-append zero n out rest = refl
print_digits-append (suc fuel) n out rest =
    ground (arith, print_digits-append fuel (n / 10) ((b'0' + n % 10) ∷ out) rest)

print_digits-IsDigits :
    (fuel n : ℕ) (out : Bytes) → IsDigits out → IsDigits (print_digits fuel n out)
unfolding print_digits
print_digits-IsDigits zero n out h = h
print_digits-IsDigits (suc fuel) n out h = elim (Bool-cases (n / 10 == 0)) [
  | inl e ↦ rw e ((omega arith, omega arith), h)
  | inr e ↦
      rw e (
        print_digits-IsDigits fuel (n / 10) ((b'0' + n % 10) ∷ out) ((omega arith, omega arith), h))
]

scan-print_digits :
    (fuel n : ℕ) (out : Bytes)
    → n < fuel
    → scan_digits 0 (print_digits fuel n out) ≡ scan_digits n out
unfolding print_digits scan_digits
scan-print_digits zero n out h = absurd (omega arith)
scan-print_digits (suc fuel) n out h =
    ground (arith, scan-print_digits fuel (n / 10) ((b'0' + n % 10) ∷ out))

-- A printed number is made of digits.
pub print_decimal-IsDigits : (n : ℕ) → IsDigits (print_decimal n)
unfolding print_decimal
print_decimal-IsDigits n = print_digits-IsDigits (suc n) n [] tt

-- What may follow a number.
abbrev pub EndsNumber : Bytes → Type 0
EndsNumber [] = Unit
EndsNumber (c ∷ s) = is_digit c ≡ false

scan-ends : (n : ℕ) (rest : Bytes) → EndsNumber rest → scan_digits n rest ≡ n
unfolding scan_digits
scan-ends n [] h = refl
scan-ends n (c ∷ rest) h = rw h

atoi-digit :
    (c : ℕ) (s : Bytes) → (b'0' ≤ c) × (c ≤ b'9') → atoi (c ∷ s) ≡ pos (scan_digits 0 (c ∷ s))
unfolding atoi
atoi-digit c s h = ground arith

-- The first digit of a printed number.
print_digits-cons :
    (fuel n d : ℕ) (out : Bytes) → (c : ℕ) × (s : Bytes) × (print_digits fuel n (d ∷ out) ≡ c ∷ s)
unfolding print_digits
print_digits-cons zero n d out = (d, out, refl)
print_digits-cons (suc fuel) n d out = elim (Bool-cases (n / 10 == 0)) [
  | inl e ↦ (b'0' + n % 10, d ∷ out, rw e)
  | inr e ↦
      let (c, s, shape) = print_digits-cons fuel (n / 10) (b'0' + n % 10) (d ∷ out) in
      (c, s, rw e shape)
]

pub print_decimal-cons : (n : ℕ) → (c : ℕ) × (s : Bytes) × (print_decimal n ≡ c ∷ s)
unfolding print_decimal print_digits
print_decimal-cons n = elim (Bool-cases (n / 10 == 0)) [
  | inl e ↦ (b'0' + n % 10, [], rw e)
  | inr e ↦
      let (c, s, shape) = print_digits-cons n (n / 10) (b'0' + n % 10) [] in (c, s, rw e shape)
]

pub scan-print_decimal :
    (n : ℕ) (rest : Bytes) → EndsNumber rest → scan_digits 0 (print_decimal n ++ rest) ≡ n
unfolding print_decimal
scan-print_decimal n rest h =
    ap (scan_digits 0) (print_digits-append (suc n) n [] rest)
    ∙ scan-print_digits (suc n) n rest (omega arith)
    ∙ scan-ends n rest h

-- A printed number is read back, whatever follows it but a digit.
pub atoi-print_decimal :
    (n : ℕ) (rest : Bytes) → EndsNumber rest → atoi (print_decimal n ++ rest) ≡ pos n
atoi-print_decimal n rest h =
    let (c, s, shape) = print_decimal-cons n in
    let digits : IsDigits (c ∷ s) = rw shape at (print_decimal-IsDigits n) in
    ap (λ t. atoi (t ++ rest)) shape
    ∙ atoi-digit c (s ++ rest) digits.0
    ∙ ap (λ t. pos (scan_digits 0 (t ++ rest))) (sym shape)
    ∙ ap pos (scan-print_decimal n rest h)

-- The largest number of so many digits and one more.
pub all_nines : ℕ → ℕ
all_nines zero = 9
all_nines (suc k) = 10 * all_nines k + 9

length-print_digits :
    (k fuel n : ℕ) (out : Bytes)
    → n ≤ all_nines k
    → length (print_digits fuel n out) ≤ suc k + length out
unfolding print_digits all_nines
length-print_digits k zero n out h = omega arith
length-print_digits zero (suc fuel) n out h = ground arith
length-print_digits (suc k) (suc fuel) n out h =
    ground (arith, length-print_digits k fuel (n / 10) ((b'0' + n % 10) ∷ out))

-- Five digits are enough below 100000.
pub length-print_decimal : (n : ℕ) → n < 100000 → length (print_decimal n) ≤ 5
unfolding print_decimal all_nines
length-print_decimal n h = length-print_digits 4 (suc n) n [] (omega arith)
