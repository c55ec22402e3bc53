-- ===== src/Server/Url/Names.antt =====
-- Which name `parse_url` of src/yotta.cpp opens for a path with no `..`.
use yotta.Prelude.{
  ℕ, zero, suc, ◌-◌, ◌≤◌, ◌≡◌, refl, sym, ap, ◌∙◌, Bool, true, false, not, ◌&&◌, Option, none, some,
  some-injective, [], ◌∷◌, ◌++◌, reverse, append_assoc, append-nil, Bytes, codes, length,
  length-reverse, replicate, length-replicate, ◌==◌, ==_iff, if◌then◌else◌, All, subst, arith,
  ◌>>=◌,
}
use mathlib.Core.List.{reverse-cons, reverse-append}
use yotta.Http.CleanPath.{Output, slash, dot, put, put_at, clean_path, written}
use yotta.Http.CleanPath.Spec.{clean_spec}
use yotta.Http.CleanPath.Correctness.{clean_path-eq-clean_spec}
use yotta.Http.CleanPath.Fresh.{
  IsZero, IsFreshBehind, NoParent, put-KeepsFresh, >>=-eq-some, clean_path-KeepsFresh,
}
use yotta.Server.State.{max_url_size}
use yotta.Server.Url.{
  last_byte, prepend_dot, last_written, put_all, put_nul, restore_slash, append_index, normalize,
  c_string, opened_name,
}
use yotta.Server.Url.Serving.{normalize-some}

-- The specification: the cleaned path below the current directory, with its trailing slash, and with
-- the index of a directory.
unfoldable pub with_slash : Bytes → Bytes → Bytes
with_slash path s = if last_byte path == slash && not (length s == 2) then s ++ slash ∷ [] else s

unfoldable pub with_index : Bytes → Bytes
with_index s = if last_byte s == slash then s ++ codes "index.html" else s

unfoldable pub name_of : Bytes → Bytes
unfolding with_slash with_index
name_of path = with_index (with_slash path (dot ∷ clean_spec path))

-- The bytes that are written, with nothing but zeros behind them.
abbrev Shows : Output → Bytes → Type 0
Shows o s = (reverse o.before ≡ s) × IsFreshBehind o

put_at-before :
    (c : ℕ) (before after : Bytes) (o' : Output)
    → put_at before after c ≡ some o'
    → o'.before ≡ c ∷ before
unfolding put_at
put_at-before c before [] o' h = absurd (let bad : ◌≡◌ {A = Option Output} none (some o') = h in cc)
put_at-before c before (old ∷ after) o' h = ap (λ o. o.before) (sym (some-injective h))

put-Shows :
    (c : ℕ) (o o' : Output) (s : Bytes) → Shows o s → put c o ≡ some o' → Shows o' (s ++ c ∷ [])
unfolding put
put-Shows c o o' s (shown, v) h = (
  ap reverse (put_at-before c o.before o.after o' h)
      ∙ reverse-cons c o.before
      ∙ ap (λ t. t ++ c ∷ []) shown,
  put-KeepsFresh c o v o' h,
)

put_all-Shows :
    (t : Bytes) (o o' : Output) (s : Bytes) → Shows o s → put_all t o ≡ some o' → Shows o' (s ++ t)
unfolding put_all
put_all-Shows [] o o' s (shown, v) h =
    subst (λ x. Shows x (s ++ [])) (some-injective h) (shown ∙ sym (append-nil s), v)
put_all-Shows (c ∷ t) o o' s v h =
    let (o₁, wrote, h₁) = >>=-eq-some (put c o) _ h in
    let (shown, fresh) = put_all-Shows t o₁ o' (s ++ c ∷ []) (put-Shows c o o₁ s v wrote) h₁ in
    (shown ∙ append_assoc s (c ∷ []) t, fresh)

put_nul-Shows : (o o' : Output) (s : Bytes) → Shows o s → put_nul o ≡ some o' → Shows o' s
unfolding put_nul
put_nul-Shows o o' s (shown, v) h =
    let (o₁, wrote, h₁) = >>=-eq-some (put 0 o) _ h in
    subst (λ x. Shows x s) (some-injective h₁) (shown, (refl, put-KeepsFresh 0 o v o₁ wrote))

if-Shows :
    (b : Bool) (x y : Option Output) (s t : Bytes) (o' : Output)
    → (x ≡ some o' → Shows o' s)
    → (y ≡ some o' → Shows o' t)
    → (if b then x else y) ≡ some o'
    → Shows o' (if b then s else t)
if-Shows true x y s t o' k l h = k h
if-Shows false x y s t o' k l h = l h

restore_slash-Shows :
    (path : Bytes) (o o' : Output) (s : Bytes)
    → Shows o s
    → restore_slash path o ≡ some o'
    → Shows o' (with_slash path s)
unfolding restore_slash with_slash
restore_slash-Shows path o o' s v h =
    let same : length o.before ≡ length s = sym (length-reverse o.before) ∙ ap length v.0 in
    if-Shows (last_byte path == slash && not (length s == 2)) (put slash o) (some o)
      (s ++ slash ∷ []) s o' (put-Shows slash o o' s v)
      (λ e. subst (λ x. Shows x s) (some-injective e) v)
      (ap (λ n. if last_byte path == slash && not (n == 2) then put slash o else some o) (sym same)
        ∙ h)

last_byte-append : (s : Bytes) (c : ℕ) → last_byte (s ++ c ∷ []) ≡ c
unfolding last_byte
last_byte-append [] c = refl
last_byte-append (d ∷ []) c = refl
last_byte-append (d ∷ e ∷ s) c = last_byte-append (e ∷ s) c

last_written-reverse :
    (before after : Bytes)
    → last_written (record { before = before; after = after }) ≡ last_byte (reverse before)
unfolding last_written last_byte
last_written-reverse [] after = refl
last_written-reverse (c ∷ before) after =
    sym (ap last_byte (reverse-cons c before) ∙ last_byte-append (reverse before) c)

append_index-Shows :
    (o o' : Output) (s : Bytes) → Shows o s → append_index o ≡ some o' → Shows o' (with_index s)
unfolding append_index with_index
append_index-Shows o o' s v h =
    let same : last_written o ≡ last_byte s =
      last_written-reverse o.before o.after ∙ ap last_byte v.0 in
    if-Shows (last_byte s == slash) (put_all (codes "index.html") o >>= put_nul) (some o)
      (s ++ codes "index.html") s o'
      (λ e.
        let (o₁, wrote, e₁) = >>=-eq-some (put_all (codes "index.html") o) _ e in
        put_nul-Shows o₁ o' (s ++ codes "index.html")
          (put_all-Shows (codes "index.html") o o₁ s v wrote) e₁)
      (λ e. subst (λ x. Shows x s) (some-injective e) v)
      (ap (λ n. if n == slash then (put_all (codes "index.html") o >>= put_nul) else some o)
          (sym same)
        ∙ h)

-- Zeros behind a text are not read.
c_string-zeros : (s after : Bytes) → All IsZero after → c_string (s ++ after) ≡ c_string s
unfolding c_string
c_string-zeros [] [] v = refl
c_string-zeros [] (c ∷ after) (z, v) = let e : (c == 0) ≡ true = (==_iff c 0).1 z in rw e refl
c_string-zeros (c ∷ s) after v = ap (λ t. if c == 0 then [] else c ∷ t) (c_string-zeros s after v)

zeros-IsZero : (n : ℕ) → All IsZero (replicate n 0)
zeros-IsZero zero = tt
zeros-IsZero (suc n) = (refl, zeros-IsZero n)

-- For a path that has no element `..`, and that is let through by its length, the name that is opened is
-- that of the specification, up to a NUL in the path: the cleaned path below the current directory, with
-- a trailing slash as the path has it, and with index.html behind a slash. Of the buffer that clean_path
-- has written to, no byte behind the end is read.
pub opened_name-eq-name_of :
    (path : Bytes)
    → NoParent path
    → length path ≤ max_url_size - 20
    → (o : Output) × (normalize path ≡ some o) × (opened_name o ≡ c_string (name_of path))
unfolding normalize prepend_dot written opened_name name_of
opened_name-eq-name_of path n short =
    let buffer = replicate (max_url_size - 1) 0 in
    let room : length buffer ≡ max_url_size - 1 = length-replicate {A = ℕ} (max_url_size - 1) 0 in
    let (o, run) = normalize-some path short in
    let (o₀, cleaned, run₁) = >>=-eq-some (clean_path path buffer) _ run in
    let (o₁, restored, run₂) = >>=-eq-some (restore_slash path (prepend_dot o₀)) _ run₁ in
    let (o', run', shown, _, _) = clean_path-eq-clean_spec path buffer (omega arith) in
    let same : o' ≡ o₀ = some-injective (sym run' ∙ cleaned) in
    let fresh = clean_path-KeepsFresh path buffer n (zeros-IsZero (max_url_size - 1)) o₀ cleaned in
    let started : Shows (prepend_dot o₀) (dot ∷ clean_spec path) = (
      reverse-append o₀.before (dot ∷ []) ∙ ap (λ t. dot ∷ t) (ap written (sym same) ∙ shown),
      fresh,
    ) in
    let (final, zeros) =
      append_index-Shows o₁ o (with_slash path (dot ∷ clean_spec path))
        (restore_slash-Shows path (prepend_dot o₀) o₁ (dot ∷ clean_spec path) started restored)
        run₂ in
    (o, run, c_string-zeros (reverse o.before) o.after zeros ∙ ap c_string final)
