-- ===== src/Server/Handler/Size.antt =====
-- The response of a request in src/yotta.cpp fits the response buffer.
pub mod Answers
use yotta.Prelude.{
  ℕ, ◌-◌, ◌≤◌, ◌<◌, ◌≡◌, refl, subst, inl, inr, Bool, true, false, ◌&&◌, ◌||◌, Option, none, some,
  some-injective, List, [], ◌∷◌, Bytes, codes, length, reverse, drop, ltb, leb, ◌==◌, if◌then◌else◌,
  Bool-cases, Option-cases, arith,
}
use yotta.Core.Context.{size_mod}
use yotta.Http.Response.{serve_304, serve_400, serve_404}
use yotta.Server.State.{
  UserData, Stat, finish_with, return_400, return_404, return_304, max_buffer_size, max_url_size,
}
use yotta.Server.Url.{
  Files, parse_url, open_file, stat_file, before_query, normalize, content_type, find_type,
  mime_types, bytes_eq, rfind,
}
use yotta.Server.Headers.{Dates}

-- A response that is set fits the buffer; what the response is printed from has the size of its type.
pub record IsSized (u : UserData) : Type 0 where
  pub fits : u.finalized ≡ true → length u.response ≤ max_buffer_size
  pub counted : u.finalized ≡ true → u.response_size ≡ length u.response
  pub typed : length u.extension ≤ 80
  pub file : u.file_size < size_mod
  pub stat : u.file_stat.st_size < size_mod

-- What `strftime` and `fstat` give: at most 511 bytes, and a size of a file.
pub record Documented (files : Files) (dates : Dates) : Type 0 where
  pub dated : (time : ℕ) → length (dates.print_date time) ≤ 511
  pub sized : (fd : ℕ) (st : Stat) → files.fstat fd ≡ some st → st.st_size < size_mod

finish_with-IsSized :
    (text : Bytes) (u : UserData)
    → length text ≤ max_buffer_size
    → IsSized u
    → IsSized (finish_with text u)
unfolding finish_with
finish_with-IsSized text u room v = record {
  fits = λ _. room;
  counted = λ _. refl;
  typed = v.typed;
  file = v.file;
  stat = v.stat;
}

pub return_400-IsSized : (u : UserData) → IsSized u → IsSized (return_400 u)
unfolding return_400 serve_400
return_400-IsSized u v = finish_with-IsSized serve_400 u (omega arith) v

return_404-IsSized : (u : UserData) → IsSized u → IsSized (return_404 u)
unfolding return_404 serve_404
return_404-IsSized u v = finish_with-IsSized serve_404 u (omega arith) v

pub return_304-IsSized : (u : UserData) → IsSized u → IsSized (return_304 u)
unfolding return_304 serve_304
return_304-IsSized u v = finish_with-IsSized serve_304 u (omega arith) v

-- Every known type of a file is a short text.
abbrev all_short : List (Bytes × Bytes) → Bool
all_short [] = true
all_short ((ending, mime) ∷ types) = leb (length mime) 80 && all_short types

find_type-short :
    (ending : Bytes) (types : List (Bytes × Bytes))
    → all_short types ≡ true
    → length (find_type ending types) ≤ 80
unfolding find_type
find_type-short ending [] h = omega arith
find_type-short ending ((e, mime) ∷ types) h = elim (Bool-cases (bytes_eq e ending)) [
  | inl same ↦ rw same (ground arith)
  | inr other ↦ rw other (find_type-short ending types (ground arith))
]

-- What holds on both branches.
pub either_way {ℓ κ} :
    {A : Type ℓ} (P : A → Type κ) (b : Bool) {x y : A} → P x → P y → P (if b then x else y)
either_way P true p q = p
either_way P false p q = q

mime_types-short : all_short mime_types ≡ true
unfolding mime_types
mime_types-short = refl

abbrev Short : Bytes → Type 0
Short s = length s ≤ 80

content_type-Short : (before : Bytes) → Short (content_type before)
unfolding content_type
content_type-Short before =
    let plain : Short (codes "text/plain") = omega arith in
    either_way Short (ltb (rfind b'/' before) (rfind b'.' before))
      {x = find_type (drop (rfind b'.' before) (reverse before)) mime_types}
      {y = codes "text/plain"}
      (find_type-short (drop (rfind b'.' before) (reverse before)) mime_types mime_types-short)
      plain

module _ (files : Files) (dates : Dates) (documented : Documented files dates) where
  stat_file-IsSized :
      (st : Option Stat) (ffd : ℕ) (view : Bytes) (u : UserData)
      → files.fstat ffd ≡ st
      → IsSized u
      → IsSized (stat_file st ffd view u)
  unfolding stat_file
  stat_file-IsSized none ffd view u e v =
      return_404-IsSized _ (record {
        fits = v.fits;
        counted = v.counted;
        typed = v.typed;
        file = v.file;
        stat = v.stat;
      })
  stat_file-IsSized (some st) ffd view u e v =
      either_way IsSized st.is_regular
        (record {
          fits = v.fits;
          counted = v.counted;
          typed = content_type-Short view;
          file = documented.sized ffd st e;
          stat = documented.sized ffd st e;
        })
        (return_404-IsSized _ (record {
          fits = v.fits;
          counted = v.counted;
          typed = v.typed;
          file = v.file;
          stat = v.stat;
        }))

  open_file-IsSized :
      (fd : Option ℕ) (view : Bytes) (u : UserData)
      → IsSized u
      → IsSized (open_file files fd view u)
  unfolding open_file
  open_file-IsSized none view u v = return_404-IsSized u v
  open_file-IsSized (some ffd) view u v = stat_file-IsSized (files.fstat ffd) ffd view u refl v

  pub parse_url-IsSized :
      (url : Bytes) (u u' : UserData) → IsSized u → parse_url files url u ≡ some u' → IsSized u'
  unfolding parse_url
  parse_url-IsSized url u u' v h =
      elim (Bool-cases
        (ltb (max_url_size - 20) (length (before_query url)) || length (before_query url) == 0)) [
          | inl e ↦ subst IsSized (some-injective (rw e at h)) (return_404-IsSized u v)
          | inr e ↦ elim (Option-cases (normalize (before_query url))) [
            | inl none' ↦
                absurd (
                  let bad : ◌≡◌ {A = Option UserData} none (some u') = rw none' at (rw e at h) in
                  cc)
            | inr (o, some') ↦
                subst IsSized (some-injective (rw some' at (rw e at h)))
                  (open_file-IsSized _ o.before u v)
          ]
        ]
