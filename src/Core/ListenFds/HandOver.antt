-- ===== src/Core/ListenFds/HandOver.antt =====
-- The descriptors that `create_listen_fds_env` of src/core/yta_process.c writes are those that
-- `parse_listen_fds_env` of the upgraded binary reads.
use yotta.Prelude.{
  ℕ, zero, suc, ◌+◌, ◌*◌, ◌≤◌, ◌<◌, ◌≡◌, ◌≢◌, refl, sym, ap, ◌∙◌, false, List, [], ◌∷◌, ◌++◌,
  append_assoc, append-nil, some, map, Bytes, arith, All, length, length-append, length-map,
  map-append, get_elem?, replicate,
}
use yotta.Prelude.Int.{ℤ, pos}
use yotta.Core.Decimal.{print_decimal, print_int, is_digit, atoi}
use yotta.Core.Decimal.RoundTrip.{
  IsDigits, print_decimal-IsDigits, atoi-print_decimal, print_decimal-cons, length-print_decimal,
}
use yotta.Core.ListenFds.{
  print_at, prefix, env_size, print_fds, create_listen_fds_env, skip_token, assign, parse_tokens,
  parse_listen_fds_env,
}

-- Every number with a blank behind it.
pub with_blanks : List ℕ → Bytes
with_blanks [] = []
with_blanks (n ∷ ns) = print_decimal n ++ b' ' ∷ with_blanks ns

abbrev pub FiveDigits : List ℕ → Type 0
FiveDigits = All (λ n. n < 100000)

get_elem?-middle {ℓ} :
    {A : Type ℓ} (front : List A) (x : A) (rest : List A)
    → get_elem? (front ++ x ∷ rest) (length front) ≡ some x
get_elem?-middle [] x rest = refl
get_elem?-middle (y ∷ front) x rest = get_elem?-middle front x rest

length-snoc {ℓ} : {A : Type ℓ} (xs : List A) (x : A) → length (xs ++ x ∷ []) ≡ suc (length xs)
length-snoc xs x = omega (arith, length-append xs (x ∷ []))

print_at-fits :
    (size : ℕ) (text more : Bytes)
    → length text + length more + 1 ≤ size
    → print_at size text more ≡ some (text ++ more)
unfolding print_at
print_at-fits size text more h = ground arith

token : ℕ → Bytes
token n = print_decimal n ++ b' ' ∷ []

length-token : (n : ℕ) → n < 100000 → length (token n) ≤ 6
unfolding token
length-token n h =
    omega (arith, length-append (print_decimal n) (b' ' ∷ []), length-print_decimal n h)

token-append : (n : ℕ) (rest : Bytes) → token n ++ rest ≡ print_decimal n ++ b' ' ∷ rest
unfolding token
token-append n rest = append_assoc (print_decimal n) (b' ' ∷ []) rest

print_fds-step :
    (size rounds i : ℕ) (fds : List ℤ) (text : Bytes) (fd : ℕ)
    → get_elem? fds i ≡ some (pos fd)
    → length text + length (token fd) + 1 ≤ size
    → print_fds size (suc rounds) i fds text ≡ print_fds size rounds (suc i) fds (text ++ token fd)
unfolding print_fds token print_int
print_fds-step size rounds i fds text fd e h = rw (e, print_at-fits size text (token fd) h)

print_fds_lem :
    (ns : List ℕ) (front tail : List ℤ) (size : ℕ) (text : Bytes)
    → FiveDigits ns
    → length text + 6 * length ns + 1 ≤ size
    → (print_fds size (length ns) (length front) (front ++ (map pos ns ++ tail)) text
        ≡ some (text ++ with_blanks ns))
      × (length (text ++ with_blanks ns) ≤ length text + 6 * length ns)
unfolding with_blanks
print_fds_lem [] front tail size text h fits = (
  unfold print_fds in ap some (sym (append-nil text)),
  omega (arith, ap length (append-nil text)),
)
print_fds_lem (n ∷ ns) front tail size text (hn, h) fits =
    let short = length-token n hn in
    let longer = length-append text (token n) in
    let (done, bound) =
      print_fds_lem ns (front ++ pos n ∷ []) tail size (text ++ token n) h (omega arith) in
    let same : (text ++ token n) ++ with_blanks ns
        ≡ text ++ (print_decimal n ++ b' ' ∷ with_blanks ns) =
      append_assoc text (token n) (with_blanks ns) ∙ ap (λ t. text ++ t) (token-append n _) in
    (
      print_fds-step size (length ns) (length front) (front ++ pos n ∷ (map pos ns ++ tail)) text n
            (get_elem?-middle front (pos n) (map pos ns ++ tail)) (omega arith)
          ∙ ap (λ fds. print_fds size (length ns) (suc (length front)) fds (text ++ token n))
              (sym (append_assoc front (pos n ∷ []) (map pos ns ++ tail)))
          ∙ ap
              (λ i.
                print_fds size (length ns) i ((front ++ pos n ∷ []) ++ (map pos ns ++ tail))
                  (text ++ token n))
              (sym (length-snoc front (pos n)))
          ∙ done
          ∙ ap some same,
      omega (arith, ap length same),
    )

-- The text behind the `=`.
pub env_value : List ℕ → ℕ → Bytes
env_value ns last = with_blanks ns ++ print_decimal last

create_lem :
    (ns : List ℕ) (last : ℕ)
    → FiveDigits ns
    → last < 100000
    → create_listen_fds_env (map pos ns ++ pos last ∷ []) (suc (length ns))
      ≡ some (prefix ++ env_value ns last)
unfolding create_listen_fds_env env_value print_int
create_lem ns last h hl =
    let size = env_size (suc (length ns)) in
    let room : size ≡ 17 + 6 * length ns = unfold env_size in omega arith in
    let (done, bound) = print_fds_lem ns [] (pos last ∷ []) size prefix h (omega arith) in
    let start = print_at-fits size [] prefix (omega arith) in
    let end =
      print_at-fits size (prefix ++ with_blanks ns) (print_decimal last)
        (omega (arith, length-print_decimal last hl)) in
    let found : get_elem? (map pos ns ++ pos last ∷ []) (length ns) ≡ some (pos last) =
      ap (get_elem? (map pos ns ++ pos last ∷ [])) (sym (length-map pos ns))
      ∙ get_elem?-middle (map pos ns) (pos last) [] in
    rw (start, done, found, end)
      (ap some (append_assoc prefix (with_blanks ns) (print_decimal last)))

-- Reading.
skip-digits : (s rest : Bytes) → IsDigits s → skip_token (s ++ b' ' ∷ rest) ≡ b' ' ∷ rest
unfolding skip_token
skip-digits [] rest h = refl
skip-digits (c ∷ s) rest (hc, h) = ground (arith, skip-digits s rest h)

skip-last : (s : Bytes) → IsDigits s → skip_token s ≡ []
unfolding skip_token
skip-last [] h = refl
skip-last (c ∷ s) (hc, h) = ground (arith, skip-last s h)

assign-middle :
    (front rest : List ℤ) (old v : ℤ)
    → assign (length front) v (front ++ old ∷ rest) ≡ some (front ++ v ∷ rest)
unfolding assign
assign-middle [] rest old v = refl
assign-middle (x ∷ front) rest old v = rw (assign-middle front rest old v)

-- One round of the loop, behind which the text ends or goes on.
parse-end :
    (fuel i : ℕ) (fds fds' : List ℤ) (v : ℤ) (c : ℕ) (s : Bytes)
    → atoi (c ∷ s) ≡ v
    → assign i v fds ≡ some fds'
    → skip_token (c ∷ s) ≡ []
    → parse_tokens (suc fuel) (c ∷ s) i fds ≡ some fds'
unfolding parse_tokens
parse-end fuel i fds fds' v c s value assigned skipped = rw (value, assigned, skipped)

parse-more :
    (fuel i : ℕ) (fds fds' : List ℤ) (v : ℤ) (blank : ℕ) (rest : Bytes) (c : ℕ) (s : Bytes)
    → atoi (c ∷ s) ≡ v
    → assign i v fds ≡ some fds'
    → skip_token (c ∷ s) ≡ blank ∷ rest
    → parse_tokens (suc fuel) (c ∷ s) i fds ≡ parse_tokens fuel rest (suc i) fds'
unfolding parse_tokens
parse-more fuel i fds fds' v blank rest c s value assigned skipped = rw (value, assigned, skipped)

blank_ends : (rest : Bytes) → is_digit b' ' ≡ false
unfolding is_digit
blank_ends rest = refl

parse-last :
    (fuel last : ℕ) (front : List ℤ)
    → parse_tokens (suc fuel) (print_decimal last) (length front) (front ++ pos 0 ∷ [])
      ≡ some (front ++ pos last ∷ [])
parse-last fuel last front =
    let (c, s, shape) = print_decimal-cons last in
    let value : atoi (print_decimal last) ≡ pos last =
      ap atoi (sym (append-nil (print_decimal last))) ∙ atoi-print_decimal last [] tt in
    ap (λ t. parse_tokens (suc fuel) t (length front) (front ++ pos 0 ∷ [])) shape
    ∙ parse-end fuel (length front) _ _ (pos last) c s (ap atoi (sym shape) ∙ value)
        (assign-middle front [] (pos 0) (pos last))
        (ap skip_token (sym shape) ∙ skip-last (print_decimal last) (print_decimal-IsDigits last))

parse-next :
    (fuel n : ℕ) (front tail : List ℤ) (rest : Bytes)
    → parse_tokens
        (suc fuel)
        (print_decimal n ++ b' ' ∷ rest)
        (length front)
        (front ++ pos 0 ∷ tail)
      ≡ parse_tokens fuel rest (suc (length front)) (front ++ pos n ∷ tail)
parse-next fuel n front tail rest =
    let (c, s, shape) = print_decimal-cons n in
    let same : print_decimal n ++ b' ' ∷ rest ≡ c ∷ (s ++ b' ' ∷ rest) =
      ap (λ t. t ++ b' ' ∷ rest) shape in
    ap (λ t. parse_tokens (suc fuel) t (length front) (front ++ pos 0 ∷ tail)) same
    ∙ parse-more fuel (length front) _ _ (pos n) b' ' rest c (s ++ b' ' ∷ rest)
        (ap atoi (sym same) ∙ atoi-print_decimal n (b' ' ∷ rest) (blank_ends rest))
        (assign-middle front tail (pos 0) (pos n))
        (ap skip_token (sym same) ∙ skip-digits (print_decimal n) rest (print_decimal-IsDigits n))

abbrev zeros : ℕ → List ℤ
zeros n = replicate n (pos 0)

env_value-cons :
    (n : ℕ) (ns : List ℕ) (last : ℕ)
    → env_value (n ∷ ns) last ≡ print_decimal n ++ b' ' ∷ env_value ns last
unfolding env_value with_blanks
env_value-cons n ns last =
    append_assoc (print_decimal n) (b' ' ∷ with_blanks ns) (print_decimal last)

parse_lem :
    (ns : List ℕ) (last fuel : ℕ) (front : List ℤ)
    → length ns < fuel
    → parse_tokens fuel (env_value ns last) (length front) (front ++ zeros (suc (length ns)))
      ≡ some (front ++ map pos (ns ++ last ∷ []))
parse_lem ns last zero front h = absurd (omega arith)
parse_lem [] last (suc fuel) front h = unfold env_value with_blanks in parse-last fuel last front
parse_lem (n ∷ ns) last (suc fuel) front h =
    ap (λ t. parse_tokens (suc fuel) t (length front) (front ++ zeros (suc (suc (length ns)))))
      (env_value-cons n ns last)
    ∙ parse-next fuel n front (zeros (suc (length ns))) (env_value ns last)
    ∙ ap (parse_tokens fuel (env_value ns last) (suc (length front)))
        (sym (append_assoc front (pos n ∷ []) (zeros (suc (length ns)))))
    ∙ ap
        (λ i.
          parse_tokens fuel (env_value ns last) i
            ((front ++ pos n ∷ []) ++ zeros (suc (length ns))))
        (sym (length-snoc front (pos n)))
    ∙ parse_lem ns last fuel (front ++ pos n ∷ []) (omega arith)
    ∙ ap some (append_assoc front (pos n ∷ []) (map pos (ns ++ last ∷ [])))

print_decimal-pos : (n : ℕ) → 0 < length (print_decimal n)
print_decimal-pos n = let (c, s, shape) = print_decimal-cons n in omega (arith, ap length shape)

-- The fuel of the loop over the tokens is enough.
length-env_value : (ns : List ℕ) (last : ℕ) → length ns < length (env_value ns last)
unfolding env_value with_blanks
length-env_value [] last = print_decimal-pos last
length-env_value (n ∷ ns) last = omega (
  arith,
  length-env_value ns last,
  ap length (append_assoc (print_decimal n) (b' ' ∷ with_blanks ns) (print_decimal last)),
  length-append (print_decimal n) (b' ' ∷ (with_blanks ns ++ print_decimal last)),
)

split_last : (fds : List ℕ) → fds ≢ [] → (ns : List ℕ) × (last : ℕ) × (fds ≡ ns ++ last ∷ [])
split_last [] h = absurd (h refl)
split_last (n ∷ []) h = ([], n, refl)
split_last (n ∷ m ∷ fds) h =
    let (ns, last, e) = split_last (m ∷ fds) (λ z. cc) in (n ∷ ns, last, ap (λ xs. n ∷ xs) e)

FiveDigits-split :
    (ns : List ℕ) (last : ℕ) → FiveDigits (ns ++ last ∷ []) → FiveDigits ns × (last < 100000)
FiveDigits-split [] last h = (tt, h.0)
FiveDigits-split (n ∷ ns) last (hn, h) = let (h₁, h₂) = FiveDigits-split ns last h in ((hn, h₁), h₂)

-- Descriptors of at most five digits, at least one, fit the buffer of the environment entry, one for each worker, and
-- the upgraded binary reads the same descriptors from the text behind the `=`.
pub parse-create :
    (fds : List ℕ)
    → fds ≢ []
    → FiveDigits fds
    → (value : Bytes) × (create_listen_fds_env (map pos fds) (length fds) ≡ some (prefix ++ value))
      × (parse_listen_fds_env value (length fds) ≡ some (map pos fds))
parse-create fds h five =
    let (ns, last, e) = split_last fds h in
    let (five₁, five₂) = FiveDigits-split ns last (rw e at five) in
    rw (e, length-snoc)
      (
        env_value ns last,
        ap (λ fds. create_listen_fds_env fds (suc (length ns))) (map-append pos ns (last ∷ []))
            ∙ create_lem ns last five₁ five₂,
        unfold parse_listen_fds_env in
            parse_lem ns last (length (env_value ns last)) [] (length-env_value ns last),
      )
