-- ===== src/Server/Url/Serving.antt =====
-- `parse_url` of src/yotta.cpp: its path buffer is never overrun, and what it leaves open.
use yotta.Prelude.{
  ℕ, suc, ◌+◌, ◌-◌, ◌≤◌, ◌<◌, ◌≡◌, refl, ap, ◌∙◌, ◌⊎◌, inl, inr, true, not, ◌&&◌, ◌||◌, Option,
  none, some, [], ◌∷◌, ◌++◌, Bytes, codes, length, replicate, length-replicate, length-append,
  arith, ltb, ◌==◌, if◌then◌else◌, Bool-cases, ◌>>=◌,
}
use yotta.Http.CleanPath.{Output, put, put_at, slash, dot}
use yotta.Http.CleanPath.Correctness.{clean_path-eq-clean_spec}
use yotta.Server.State.{UserData, Stat, max_url_size, return_404, finish_with}
use yotta.Server.Url.{
  Files, before_query, last_byte, prepend_dot, last_written, put_all, put_nul, restore_slash,
  append_index, normalize, opened_name, stat_file, open_file, parse_url,
}

-- The bytes of a buffer, and the room behind the pointer.
abbrev size : Output → ℕ
size o = length o.before + length o.after

put_at-fits :
    (c : ℕ) (before after : Bytes)
    → 0 < length after
    → (o' : Output) × (put_at before after c ≡ some o')
      × (size o' ≡ length before + length after)
      × (length after ≡ suc (length o'.after))
unfolding put_at
put_at-fits c b [] h = absurd (omega arith)
put_at-fits c b (x ∷ a) h = (record { before = c ∷ b; after = a }, refl, omega arith, omega arith)

put-fits :
    (c : ℕ) (o : Output)
    → 0 < length o.after
    → (o' : Output) × (put c o ≡ some o')
      × (size o' ≡ size o)
      × (length o.after ≡ suc (length o'.after))
unfolding put
put-fits c o h = put_at-fits c o.before o.after h

put_all-fits :
    (s : Bytes) (o : Output)
    → length s ≤ length o.after
    → (o' : Output) × (put_all s o ≡ some o')
      × (size o' ≡ size o)
      × (length o.after ≡ length s + length o'.after)
unfolding put_all
put_all-fits [] o h = (o, refl, refl, omega arith)
put_all-fits (c ∷ s) o h =
    let (o₁, e₁, s₁, a₁) = put-fits c o (omega arith) in
    let (o₂, e₂, s₂, a₂) = put_all-fits s o₁ (omega arith) in
    (o₂, ap (λ r. r >>= put_all s) e₁ ∙ e₂, s₂ ∙ s₁, omega arith)

put_nul-fits :
    (o : Output) → 0 < length o.after → (o' : Output) × (put_nul o ≡ some o') × (size o' ≡ size o)
unfolding put_nul
put_nul-fits o h =
    let (o', e, s, a) = put-fits 0 o h in
    (
      record o { after = 0 ∷ o'.after },
      ap (λ r. r >>= λ o'. some (record o { after = 0 ∷ o'.after })) e,
      omega arith,
    )

restore_slash-fits :
    (path : Bytes) (o : Output)
    → 0 < length o.after
    → (o' : Output) × (restore_slash path o ≡ some o')
      × (size o' ≡ size o)
      × (length o.after ≤ suc (length o'.after))
unfolding restore_slash
restore_slash-fits path o h =
    elim (Bool-cases (last_byte path == slash && not (length o.before == 2))) [
      | inl e ↦
          let (o', e', s', a') = put-fits slash o h in
          (o', ap (λ b. if b then put slash o else some o) e ∙ e', s', omega arith)
      | inr e ↦ (o, ap (λ b. if b then put slash o else some o) e, refl, omega arith)
    ]

append_index-fits :
    (o : Output)
    → 10 < length o.after
    → (o' : Output) × (append_index o ≡ some o') × (size o' ≡ size o)
unfolding append_index
append_index-fits o h = elim (Bool-cases (last_written o == slash)) [
  | inl e ↦
      let (o₁, e₁, s₁, a₁) = put_all-fits (codes "index.html") o (omega arith) in
      let (o₂, e₂, s₂) = put_nul-fits o₁ (omega arith) in
      (
        o₂,
        ap (λ b. if b then (put_all (codes "index.html") o >>= put_nul) else some o) e
            ∙ ap (λ r. r >>= put_nul) e₁
            ∙ e₂,
        s₂ ∙ s₁,
      )
  | inr e ↦
      (o, ap (λ b. if b then (put_all (codes "index.html") o >>= put_nul) else some o) e, refl)
]

-- The name that is opened fits the buffer of `max_url_size` bytes for every path that is let through.
normalize-fits :
    (path : Bytes)
    → length path ≤ max_url_size - 20
    → (o : Output) × (normalize path ≡ some o) × (size o ≡ max_url_size)
unfolding normalize prepend_dot
normalize-fits path h =
    let buffer = replicate (max_url_size - 1) 0 in
    let room : length buffer ≡ max_url_size - 1 = length-replicate {A = ℕ} (max_url_size - 1) 0 in
    let (o, e, _, short, total) = clean_path-eq-clean_spec path buffer (omega arith) in
    let counted : length (o.before ++ dot ∷ []) ≡ length o.before + 1 =
      length-append o.before (dot ∷ []) in
    let (o₁, e₁, s₁, a₁) = restore_slash-fits path (prepend_dot o) (omega arith) in
    let (o₂, e₂, s₂) = append_index-fits o₁ (omega arith) in
    (
      o₂,
      ap (λ r. r >>= λ o. restore_slash path (prepend_dot o) >>= append_index) e
          ∙ ap (λ r. r >>= append_index) e₁
          ∙ e₂,
      s₂ ∙ s₁ ∙ omega arith,
    )

pub normalize-some :
    (path : Bytes) → length path ≤ max_url_size - 20 → (o : Output) × (normalize path ≡ some o)
normalize-some path h = let (o, run, _) = normalize-fits path h in (o, run)

-- What a request for a file leaves behind: the regular file that `open` gave for the normalised name.
abbrev pub Serves : Files → Bytes → UserData → Type 0
Serves files url u =
    (o : Output) × (fd : ℕ) × (st : Stat) × (normalize (before_query url) ≡ some o)
    × (files.open_path (opened_name o) ≡ some fd)
    × (files.fstat fd ≡ some st)
    × (st.is_regular ≡ true)
    × (u.file_fd ≡ fd)
    × (u.file_size ≡ st.st_size)
    × (u.file_stat ≡ st)

stat_file-serves :
    (fd : ℕ) (st : Stat) (view : Bytes) (u : UserData)
    → st.is_regular ≡ true
    → (let u' = stat_file (some st) fd view u in
        (u'.file_fd ≡ fd) × (u'.file_size ≡ st.st_size) × (u'.file_stat ≡ st))
unfolding stat_file
stat_file-serves fd st view u regular = rw regular (refl, refl, refl)

return_404-finalized : (u : UserData) → (return_404 u).finalized ≡ true
unfolding return_404 finish_with
return_404-finalized u = refl

module _ (files : Files) (url : Bytes) (u : UserData) (o : Output)
    (n : normalize (before_query url) ≡ some o) where
  stat_file-outcome :
      (fd : ℕ) (st : Option Stat)
      → files.open_path (opened_name o) ≡ some fd
      → files.fstat fd ≡ st
      → (let u' = stat_file st fd o.before u in (u'.finalized ≡ true) ⊎ Serves files url u')
  unfolding stat_file
  stat_file-outcome fd none opened e = inl (return_404-finalized _)
  stat_file-outcome fd (some st) opened e = elim (Bool-cases st.is_regular) [
    | inl r ↦
        let (a, b, c) = stat_file-serves fd st o.before u r in
        inr (o, fd, st, n, opened, e, r, a, b, c)
    | inr r ↦ inl (rw (r, stat_file) (return_404-finalized _))
  ]

  open_file-outcome :
      (fd : Option ℕ)
      → files.open_path (opened_name o) ≡ fd
      → (let u' = open_file files fd o.before u in (u'.finalized ≡ true) ⊎ Serves files url u')
  unfolding open_file
  open_file-outcome none e = inl (return_404-finalized u)
  open_file-outcome (some fd) e = stat_file-outcome fd (files.fstat fd) e refl

-- For every path, however long, the code returns without a write past its path buffer; then either a
-- response is set already, or the regular file that `open` gave for the normalised name is open, with
-- its size.
pub parse_url-returns :
    (files : Files) (url : Bytes) (u : UserData)
    → (u' : UserData) × (parse_url files url u ≡ some u')
      × ((u'.finalized ≡ true) ⊎ Serves files url u')
unfolding parse_url
parse_url-returns files url u =
    elim (Bool-cases
      (ltb (max_url_size - 20) (length (before_query url)) || length (before_query url) == 0)) [
        | inl e ↦ (return_404 u, rw e refl, inl (return_404-finalized u))
        | inr e ↦
            let (o, n, _) = normalize-fits (before_query url) (ground arith) in
            (
              open_file files (files.open_path (opened_name o)) o.before u,
              rw (e, n) refl,
              open_file-outcome files url u o n (files.open_path (opened_name o)) refl,
            )
      ]
