-- ===== src/Server/Headers/Lengths.antt =====
-- `end_value - start_value + 1` in `handle_range` of src/yotta.cpp: for files below 2 ^ 31 bytes no step of
-- it overflows.
use yotta.Prelude.{
  ℕ, zero, suc, ◌+◌, ◌-◌, ◌^◌, ◌<◌, ◌%◌, ◌≡◌, refl, ap, ◌∙◌, Bool, true, false, ltb, leb, arith,
  subst, sym, if◌then◌else◌, inl, inr, Bool-cases,
}
use yotta.Prelude.Int.{ℤ, pos, negsuc, sub_ℕ, ◌+ℤ◌, ◌-ℤ◌, to_int, leb_ℤ}
use yotta.Core.Outcome.{done, ◌>>=◌}
use yotta.Server.Headers.{int_value, range_length, checked_start, checked_end}

-- A value of the type `int`.
abbrev pub IsInt : ℤ → Type 0
IsInt (pos n) = n < 2 ^ 31
IsInt (negsuc n) = n < 2 ^ 31

int_value-IsInt : (z : ℤ) → IsInt z → int_value z ≡ done z
unfolding int_value
int_value-IsInt (pos n) h = ground arith
int_value-IsInt (negsuc n) h = ground arith

minus_one : (size : ℕ) → 0 < size → pos size -ℤ pos 1 ≡ pos (size - 1)
minus_one size h = let e : leb 1 size ≡ true = ground arith in ground arith

to_int-pos : (n : ℕ) → n < 2 ^ 31 → to_int (pos n) ≡ pos n
to_int-pos n h =
    let w : n % 2 ^ 32 ≡ n = omega arith in
    let e : ltb n (2 ^ 31) ≡ true = ground arith in rw (w, e) refl

pub last_byte_of :
    (size : ℕ) → 0 < size → size < 2 ^ 31 → to_int (pos size -ℤ pos 1) ≡ pos (size - 1)
last_byte_of size h k = ap to_int (minus_one size h) ∙ to_int-pos (size - 1) (omega arith)

IsInt-sub_ℕ : (a b : ℕ) → a < b + 2 ^ 31 → b < suc (a + 2 ^ 31) → IsInt (sub_ℕ a b)
IsInt-sub_ℕ a b h k = elim (Bool-cases (leb b a)) [
  | inl e ↦ rw e (ground arith)
  | inr e ↦ rw e (ground arith)
]

-- A value that is not the largest one.
abbrev IsBelow : ℤ → Type 0
IsBelow (pos n) = suc n < 2 ^ 31
IsBelow (negsuc n) = n < 2 ^ 31

IsInt-next : (z : ℤ) → IsBelow z → IsInt (z +ℤ pos 1)
IsInt-next (pos n) h = IsInt-sub_ℕ (n + 1) 0 (omega arith) (omega arith)
IsInt-next (negsuc n) h = IsInt-sub_ℕ (0 + 1) (suc n + 0) (omega arith) (omega arith)

IsInt-IsBelow : (z : ℤ) → IsBelow z → IsInt z
IsInt-IsBelow (pos n) h = omega arith
IsInt-IsBelow (negsuc n) h = h

IsBelow-sub_ℕ : (a b : ℕ) → suc a < b + 2 ^ 31 → b < suc (a + 2 ^ 31) → IsBelow (sub_ℕ a b)
IsBelow-sub_ℕ a b h k = elim (Bool-cases (leb b a)) [
  | inl e ↦ rw e (ground arith)
  | inr e ↦ rw e (ground arith)
]

-- The difference is a value of the type that is not the largest one.
abbrev pub Fits : ℤ → ℤ → Type 0
Fits start end = IsBelow (end -ℤ start)

pub range_length-Fits :
    (start end : ℤ) → Fits start end → range_length start end ≡ done (end -ℤ start +ℤ pos 1)
unfolding range_length
range_length-Fits start end h =
    ap (λ m. m >>= λ d. int_value (d +ℤ pos 1))
      (int_value-IsInt (end -ℤ start) (IsInt-IsBelow (end -ℤ start) h))
    ∙ int_value-IsInt (end -ℤ start +ℤ pos 1) (IsInt-next (end -ℤ start) h)

pub Fits-pos : (a b : ℕ) → a < 2 ^ 31 → suc b < 2 ^ 31 → Fits (pos a) (pos b)
Fits-pos a b h k = IsBelow-sub_ℕ (b + 0) (0 + a) (omega arith) (omega arith)

Fits-negative : (k : ℕ) → k < 2 ^ 31 → Fits (pos 0) (negsuc k)
Fits-negative k h = IsBelow-sub_ℕ (0 + 0) (suc k + 0) (omega arith) (omega arith)

start-pos : (a : ℕ) → checked_start (pos a) ≡ pos a
unfolding checked_start
start-pos a = ground arith

start-negsuc : (k : ℕ) → checked_start (negsuc k) ≡ pos 0
unfolding checked_start
start-negsuc k = ground arith

Fits-start :
    (z end : ℤ) → ((a : ℕ) → a < 2 ^ 31 → Fits (pos a) end) → IsInt z → Fits (checked_start z) end
Fits-start (pos a) end fits h = subst (λ s. Fits s end) (sym (start-pos a)) (fits a h)
Fits-start (negsuc k) end fits h =
    subst (λ s. Fits s end) (sym (start-negsuc k)) (fits 0 (omega arith))

-- The last byte of the file, also that of an empty one.
Fits-last : (a size : ℕ) → a < 2 ^ 31 → size < 2 ^ 31 → Fits (pos a) (to_int (pos size -ℤ pos 1))
Fits-last a zero h k = IsBelow-sub_ℕ (0 + 0) (1 + a) (omega arith) (omega arith)
Fits-last a (suc size) h k =
    subst (Fits (pos a)) (sym (last_byte_of (suc size) (omega arith) k))
      (Fits-pos a (suc size - 1) h (omega arith))

pub last-IsInt : (size : ℕ) → size < 2 ^ 31 → IsInt (to_int (pos size -ℤ pos 1))
last-IsInt zero h = omega arith
last-IsInt (suc size) h = subst IsInt (sym (last_byte_of (suc size) (omega arith) h)) (omega arith)

-- An end that is kept lies behind the start and in the file.
Fits-kept :
    (z end : ℤ) (size : ℕ)
    → IsInt z
    → IsInt end
    → size < 2 ^ 31
    → leb_ℤ end z ≡ false
    → leb_ℤ (pos size) end ≡ false
    → Fits (checked_start z) end
Fits-kept z (pos b) size h k small behind inside =
    let below : suc b < 2 ^ 31 = ground arith in
    Fits-start z (pos b) (λ a fits. Fits-pos a b fits below) h
Fits-kept (pos a) (negsuc n) size h k small behind inside = absurd (ground arith)
Fits-kept (negsuc j) (negsuc n) size h k small behind inside =
    subst (λ s. Fits s (negsuc n)) (sym (start-negsuc j)) (Fits-negative n k)

if-holds {ℓ κ} :
    {A : Type ℓ} (P : A → Type κ) (b : Bool) {x y : A}
    → P x
    → (b ≡ false → P y)
    → P (if b then x else y)
if-holds P true p q = p
if-holds P false p q = q refl

-- The length of the range does not overflow.
pub checked-Fits :
    (z end : ℤ) (size : ℕ)
    → IsInt z
    → IsInt end
    → size < 2 ^ 31
    → Fits (checked_start z) (checked_end z end size)
unfolding checked_end
checked-Fits z end size h k small =
    let last = to_int (pos size -ℤ pos 1) in
    let P = Fits (checked_start z) in
    let at_last : P last = Fits-start z last (λ a fits. Fits-last a size fits small) h in
    if-holds P (leb_ℤ (pos size) (if leb_ℤ end z then last else end)) at_last (
      if-holds (λ e. leb_ℤ (pos size) e ≡ false → P e) (leb_ℤ end z) (λ _. at_last)
        (λ behind inside. Fits-kept z end size h k small behind inside))
