-- ===== src/Server/Headers/Answers.antt =====
-- How `parse_headers` of src/yotta.cpp can end.
use yotta.Prelude.{
  ℕ, ◌≡◌, refl, ap, ◌∙◌, ◌⊎◌, inl, inr, Bool, true, false, List, [], ◌∷◌, Bytes, Bool-cases,
  Option-cases, if◌then◌else◌, ◌==◌, ◌++◌, ◌&&◌, ◌<◌, ◌^◌, ◌-◌, arith,
}
use yotta.Prelude.Int.{ℤ, pos, negsuc, negate, leb_ℤ, ltb_ℤ}
use yotta.Core.Outcome.{Outcome, done, aborted, ◌>>=◌}
use yotta.Core.Decimal.{is_space}
use yotta.Server.State.{UserData, Header, return_400, return_304, finish_with}
use yotta.Server.Headers.{
  Dates, in_int, stoi_signed, stoi_sign, stoi, range_end, respond_206, checked_start, checked_end,
  range_parts, handle_range, handle_if_modified_since, handle_header, respond_200, respond,
  header_loop, parse_headers,
}
use yotta.Server.Headers.Lengths.{IsInt, last-IsInt, range_length-Fits, checked-Fits}

-- The code ends in an exception that nothing catches, or with a result of this kind.
abbrev pub AbortsOr {ℓ κ} : {A : Type ℓ} → (A → Type κ) → Outcome A → Type (ℓ ⊔ κ)
AbortsOr {A} P m = (m ≡ aborted) ⊎ ((a : A) × (m ≡ done a) × P a)

if-AbortsOr {ℓ κ} :
    {A : Type ℓ} (P : A → Type κ) (b : Bool) {x y : Outcome A}
    → AbortsOr P x
    → AbortsOr P y
    → AbortsOr P (if b then x else y)
if-AbortsOr P true h k = h
if-AbortsOr P false h k = k

split-AbortsOr {ℓ κ} :
    {A : Type ℓ} (P : A → Type κ) (b : Bool) {x y : Outcome A}
    → (b ≡ true → AbortsOr P x)
    → (b ≡ false → AbortsOr P y)
    → AbortsOr P (if b then x else y)
split-AbortsOr P true h k = h refl
split-AbortsOr P false h k = k refl

bind-AbortsOr {ℓ κ ι θ} :
    {A : Type ℓ} {B : Type ι} (P : A → Type κ) (Q : B → Type θ) (m : Outcome A) (f : A → Outcome B)
    → AbortsOr P m
    → ((a : A) → P a → AbortsOr Q (f a))
    → AbortsOr Q (m >>= f)
bind-AbortsOr P Q m f (inl e) k = inl (ap (λ r. r >>= f) e)
bind-AbortsOr P Q m f (inr (a, e, p)) k = elim (k a p) [
  | inl e' ↦ inl (ap (λ r. r >>= f) e ∙ e')
  | inr (b, e', q) ↦ inr (b, ap (λ r. r >>= f) e ∙ e', q)
]

abbrev Number : ℤ → Type 0
Number z = IsInt z

in_range-IsInt :
    (z : ℤ) → (leb_ℤ (negsuc (2 ^ 31 - 1)) z && ltb_ℤ z (pos (2 ^ 31))) ≡ true → IsInt z
in_range-IsInt (pos n) h = ground arith
in_range-IsInt (negsuc n) h = ground arith

in_int-AbortsOr : (z : ℤ) → AbortsOr Number (in_int z)
unfolding in_int
in_int-AbortsOr z = elim (Bool-cases (leb_ℤ (negsuc (2 ^ 31 - 1)) z && ltb_ℤ z (pos (2 ^ 31)))) [
  | inl e ↦ rw e (inr (z, refl, in_range-IsInt z e))
  | inr e ↦ rw e (inl refl)
]

stoi_signed-AbortsOr : (sign : ℕ → ℤ) (s : Bytes) → AbortsOr Number (stoi_signed sign s)
unfolding stoi_signed
stoi_signed-AbortsOr sign s = if-AbortsOr Number _ (in_int-AbortsOr _) (inl refl)

stoi_sign-AbortsOr : (s : Bytes) → AbortsOr Number (stoi_sign s)
unfolding stoi_sign
stoi_sign-AbortsOr [] = inl refl
stoi_sign-AbortsOr (c ∷ s) =
    if-AbortsOr Number (c == b'-') (stoi_signed-AbortsOr negate s) (
      if-AbortsOr Number (c == b'+') (stoi_signed-AbortsOr pos s)
        (stoi_signed-AbortsOr pos (c ∷ s)))

stoi-AbortsOr : (s : Bytes) → AbortsOr Number (stoi s)
unfolding stoi
stoi-AbortsOr [] = inl refl
stoi-AbortsOr (c ∷ s) =
    if-AbortsOr Number (is_space c) (stoi-AbortsOr s) (stoi_sign-AbortsOr (c ∷ s))

range_end-AbortsOr : (s : Bytes) (size : ℕ) → size < 2 ^ 31 → AbortsOr Number (range_end s size)
unfolding range_end
range_end-AbortsOr [] size small = inr (_, refl, last-IsInt size small)
range_end-AbortsOr (c ∷ s) size small = stoi-AbortsOr (c ∷ s)

-- The size of the file is a value of the type `int`.
abbrev pub IsSmall : UserData → Type 0
IsSmall u = u.file_stat.st_size < 2 ^ 31

-- A response is set.
abbrev pub IsAnswered : UserData → Type 0
IsAnswered u = u.finalized ≡ true

pub return_400-IsAnswered : (u : UserData) → IsAnswered (return_400 u)
unfolding return_400 finish_with
return_400-IsAnswered u = refl

range_parts-AbortsOr :
    (dates : Dates) (first last : Bytes) (u : UserData)
    → IsSmall u
    → AbortsOr IsAnswered (range_parts dates first last u)
unfolding range_parts respond_206
range_parts-AbortsOr dates first [] u small = inr (return_400 u, refl, return_400-IsAnswered u)
range_parts-AbortsOr dates [] (d ∷ last) u small = inr (return_400 u, refl, return_400-IsAnswered u)
range_parts-AbortsOr dates (c ∷ first) (d ∷ last) u small =
    bind-AbortsOr Number IsAnswered (stoi (c ∷ first)) _ (stoi-AbortsOr (c ∷ first)) (λ start h.
      bind-AbortsOr Number IsAnswered (range_end last u.file_stat.st_size) _
        (range_end-AbortsOr last u.file_stat.st_size small)
        (λ end k.
          let size = u.file_stat.st_size in
          inr (
            _,
            ap
                (λ m. m >>= λ count.
                  done
                    (respond_206 dates (checked_start start) (checked_end start end size) count u))
                (range_length-Fits (checked_start start) (checked_end start end size)
                  (checked-Fits start end size h k small)),
            refl,
          )))

handle_range-AbortsOr :
    (dates : Dates) (value : Bytes) (u : UserData)
    → IsSmall u
    → AbortsOr IsAnswered (handle_range dates value u)
unfolding handle_range
handle_range-AbortsOr dates value u small =
    if-AbortsOr IsAnswered _ (inr (return_400 u, refl, return_400-IsAnswered u)) (
      if-AbortsOr IsAnswered _ (inr (return_400 u, refl, return_400-IsAnswered u))
        (range_parts-AbortsOr dates _ _ u small))

-- A handler that says it is done has set a response; else the file is as before.
abbrev DoneIsAnswered : Bool × UserData → Type 0
DoneIsAnswered (true, u) = IsAnswered u
DoneIsAnswered (false, u) = IsSmall u

when_old-IsAnswered :
    (b : Bool) (u : UserData)
    → IsSmall u
    → DoneIsAnswered (if b then (true, return_304 u) else (false, u))
unfolding return_304 finish_with
when_old-IsAnswered true u small = refl
when_old-IsAnswered false u small = small

if_modified_since-IsAnswered :
    (dates : Dates) (value behind : Bytes) (u : UserData)
    → IsSmall u
    → DoneIsAnswered (handle_if_modified_since dates value behind u)
unfolding handle_if_modified_since
if_modified_since-IsAnswered dates value behind u small =
    elim (Option-cases (dates.parse_date (value ++ behind))) [
      | inl e ↦ rw (e, handle_if_modified_since) (return_400-IsAnswered u)
      | inr (time, e) ↦
          rw (e, handle_if_modified_since)
            (when_old-IsAnswered (leb_ℤ (pos u.file_stat.st_mtime) time) u small)
    ]

handle_header-AbortsOr :
    (dates : Dates) (h : Header) (u : UserData)
    → IsSmall u
    → AbortsOr DoneIsAnswered (handle_header dates h u)
unfolding handle_header
handle_header-AbortsOr dates (name, (value, behind)) u small =
    if-AbortsOr DoneIsAnswered _
      (inr (
        handle_if_modified_since dates value behind u,
        refl,
        if_modified_since-IsAnswered dates value behind u small,
      ))
      (if-AbortsOr DoneIsAnswered _
        (bind-AbortsOr IsAnswered DoneIsAnswered (handle_range dates value u) _
          (handle_range-AbortsOr dates value u small) (λ u' h. inr ((true, u'), refl, h)))
        (inr ((false, u), refl, small)))

pub respond-IsAnswered : (dates : Dates) (u : UserData) → IsAnswered (respond dates u)
unfolding respond respond_200
respond-IsAnswered dates u = elim (Bool-cases u.finalized) [
  | inl e ↦ ap (λ b. (if b then u else respond_200 dates u).finalized) e ∙ e
  | inr e ↦ ap (λ b. (if b then u else respond_200 dates u).finalized) e
]

after_header-AbortsOr :
    (r : Bool × UserData) (next : Outcome UserData)
    → DoneIsAnswered r
    → (IsSmall r.1 → AbortsOr IsAnswered next)
    → AbortsOr IsAnswered (if r.0 then done r.1 else next)
after_header-AbortsOr (true, u) next d k = inr (u, refl, d)
after_header-AbortsOr (false, u) next d k = k d

header_loop-AbortsOr :
    (dates : Dates) (hs : List Header) (u : UserData)
    → (u.finalized ≡ false → IsSmall u)
    → AbortsOr IsAnswered (header_loop dates hs u)
unfolding header_loop
header_loop-AbortsOr dates [] u small = inr (respond dates u, refl, respond-IsAnswered dates u)
header_loop-AbortsOr dates (h ∷ hs) u small =
    split-AbortsOr IsAnswered u.finalized (λ e. inr (u, refl, e))
      (λ e.
        bind-AbortsOr DoneIsAnswered IsAnswered (handle_header dates h u) _
          (handle_header-AbortsOr dates h u (small e))
          (λ r d.
            after_header-AbortsOr r _ d
              (λ small'. header_loop-AbortsOr dates hs r.1 (λ _. small'))))

-- Whatever the headers are, unless the file to be sent has 2 ^ 31 bytes or more, the code either ends in an
-- exception of `std::stoi`, which nothing catches, or returns with a response set; no `int` overflows.
pub parse_headers-answers :
    (dates : Dates) (u : UserData)
    → (u.finalized ≡ false → u.file_stat.st_size < 2 ^ 31)
    → (parse_headers dates u ≡ aborted)
      ⊎ ((u' : UserData) × (parse_headers dates u ≡ done u') × (u'.finalized ≡ true))
unfolding parse_headers
parse_headers-answers dates u small = header_loop-AbortsOr dates _ u small
