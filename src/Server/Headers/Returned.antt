-- ===== src/Server/Headers/Returned.antt =====
-- What `parse_headers` of src/yotta.cpp leaves when it returns, for files of every size.
use yotta.Prelude.{
  ◌≡◌, refl, inl, inr, Bool, true, false, not, List, [], ◌∷◌, ◌++◌, Bytes, codes, length, take, ltb,
  Option-cases, if◌then◌else◌,
}
use yotta.Prelude.Int.{ℤ, pos, leb_ℤ}
use yotta.Core.Outcome.{Yields, done-Yields, if-Yields, bind-Yields, split-Yields}
use yotta.Server.State.{UserData, Header, return_304, finish_with}
use yotta.Server.Url.{bytes_eq}
use yotta.Server.Headers.{
  Dates, parse_headers, header_loop, handle_header, handle_if_modified_since, handle_range,
  respond_206, range_length, range_parts, range_end, stoi,
}
use yotta.Server.Headers.Answers.{IsAnswered, return_400-IsAnswered, respond-IsAnswered}

abbrev Any : ℤ → Type 0
Any z = Unit

range_parts-returned :
    (dates : Dates) (first rest : Bytes) (u : UserData)
    → Yields IsAnswered (range_parts dates first rest u)
unfolding range_parts respond_206
range_parts-returned dates first [] u = done-Yields IsAnswered _ (return_400-IsAnswered u)
range_parts-returned dates [] (d ∷ last) u = done-Yields IsAnswered _ (return_400-IsAnswered u)
range_parts-returned dates (c ∷ first) (d ∷ last) u =
    bind-Yields IsAnswered Any (stoi (c ∷ first)) _ (λ _ _. tt)
      λ start _.
        bind-Yields IsAnswered Any (range_end last u.file_stat.st_size) _ (λ _ _. tt)
          λ end _.
            bind-Yields IsAnswered Any (range_length _ _) _ (λ _ _. tt)
              λ count _. done-Yields IsAnswered _ refl

handle_range-returned :
    (dates : Dates) (value : Bytes) (u : UserData) → Yields IsAnswered (handle_range dates value u)
unfolding handle_range
handle_range-returned dates value u =
    let refused = done-Yields IsAnswered _ (return_400-IsAnswered u) in
    if-Yields IsAnswered (ltb (length value) 8) _ _ refused (
      if-Yields IsAnswered (not (bytes_eq (take 6 value) (codes "bytes="))) _ _ refused
        (range_parts-returned dates _ _ u))

-- A handler that says it is done has set a response.
abbrev Finishes : Bool × UserData → Type 0
Finishes r = r.0 ≡ true → IsAnswered r.1

when_old-Finishes :
    (b : Bool) (u : UserData) → Finishes (if b then (true, return_304 u) else (false, u))
unfolding return_304 finish_with
when_old-Finishes true u e = refl
when_old-Finishes false u e = absurd (let bad : false ≡ true = e in cc)

if_modified_since-Finishes :
    (dates : Dates) (value behind : Bytes) (u : UserData)
    → Finishes (handle_if_modified_since dates value behind u)
unfolding handle_if_modified_since
if_modified_since-Finishes dates value behind u =
    elim (Option-cases (dates.parse_date (value ++ behind))) [
      | inl e ↦ rw (e, handle_if_modified_since) (λ d. return_400-IsAnswered u)
      | inr (time, e) ↦
          rw (e, handle_if_modified_since)
            (when_old-Finishes (leb_ℤ (pos u.file_stat.st_mtime) time) u)
    ]

handle_header-returned :
    (dates : Dates) (h : Header) (u : UserData) → Yields Finishes (handle_header dates h u)
unfolding handle_header
handle_header-returned dates (name, (value, behind)) u =
    if-Yields Finishes (bytes_eq name (codes "If-Modified-Since")) _ _
      (done-Yields Finishes _ (if_modified_since-Finishes dates value behind u))
      (if-Yields Finishes (bytes_eq name (codes "Range")) _ _
        (bind-Yields Finishes IsAnswered (handle_range dates value u) _
          (handle_range-returned dates value u)
          (λ u' answered. done-Yields Finishes (true, u') (λ _. answered)))
        (done-Yields Finishes (false, u) (λ e. absurd (let bad : false ≡ true = e in cc))))

header_loop-returned :
    (dates : Dates) (hs : List Header) (u : UserData) → Yields IsAnswered (header_loop dates hs u)
unfolding header_loop
header_loop-returned dates [] u = done-Yields IsAnswered _ (respond-IsAnswered dates u)
header_loop-returned dates (h ∷ hs) u =
    split-Yields IsAnswered u.finalized (λ e. done-Yields IsAnswered u e)
      (λ _.
        bind-Yields IsAnswered Finishes (handle_header dates h u) _
          (handle_header-returned dates h u)
          (λ r finishes.
            split-Yields IsAnswered r.0 (λ e. done-Yields IsAnswered r.1 (finishes e))
              (λ _. header_loop-returned dates hs r.1)))

pub parse_headers-returned :
    (dates : Dates) (u : UserData) → Yields IsAnswered (parse_headers dates u)
unfolding parse_headers
parse_headers-returned dates u = header_loop-returned dates _ u
