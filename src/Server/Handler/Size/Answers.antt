-- ===== src/Server/Handler/Size/Answers.antt =====
-- The answers of src/yotta.cpp to the headers of a request, and to the whole request, by their length.
use yotta.Prelude.{
  ◌<◌, ◌≡◌, refl, inl, inr, Bool, true, false, not, List, [], ◌∷◌, Bytes, codes, length, take, ltb,
  ◌++◌, Option-cases, arith,
}
use yotta.Prelude.Int.{ℤ, pos, negsuc, wrap, leb_ℤ}
use yotta.Core.Outcome.{
  done, or_fault, or_fault-done, >>=-eq-done, Yields, done-Yields, if-Yields, bind-Yields,
}
use yotta.Core.Context.{size_mod}
use yotta.Http.Response.Size.{serve_200-room, serve_206-room}
use yotta.Server.State.{UserData, Header, return_304}
use yotta.Server.Url.{Files, parse_url, bytes_eq}
use yotta.Server.Headers.{
  Dates, parse_headers, header_loop, handle_header, handle_if_modified_since, handle_range,
  respond_200, respond_206, range_length, range_parts, respond, range_end, stoi,
}
use yotta.Server.Handler.{Env, ParseStatus, malformed, incomplete, complete, handle_parsed}
use yotta.Server.Handler.Size.{
  IsSized, Documented, return_400-IsSized, return_304-IsSized, either_way, parse_url-IsSized,
}

module _ (files : Files) (dates : Dates) (documented : Documented files dates) where
  wrap-small : (z : ℤ) → wrap size_mod z < size_mod
  wrap-small (pos n) = omega arith
  wrap-small (negsuc n) = omega arith

  respond_206-IsSized :
      (start end count : ℤ) (u : UserData)
      → IsSized u
      → IsSized (respond_206 dates start end count u)
  unfolding respond_206
  respond_206-IsSized start end count u v = record {
    fits = λ _.
        serve_206-room _ (dates.print_date u.file_stat.st_mtime) _ _ u.file_stat.st_size
          (wrap-small _) (documented.dated u.file_stat.st_mtime) (wrap-small _) (wrap-small _)
          v.stat;
    counted = λ _. refl;
    typed = v.typed;
    file = wrap-small _;
    stat = v.stat;
  }

  respond_200-IsSized : (u : UserData) → IsSized u → IsSized (respond_200 dates u)
  unfolding respond_200
  respond_200-IsSized u v = record {
    fits = λ _.
        serve_200-room u.file_size (dates.print_date u.file_stat.st_mtime) u.extension v.file
          (documented.dated u.file_stat.st_mtime) v.typed;
    counted = λ _. refl;
    typed = v.typed;
    file = v.file;
    stat = v.stat;
  }

  Any : ℤ → Type 0
  Any z = Unit

  range_parts-Yields :
      (first rest : Bytes) (u : UserData)
      → IsSized u
      → Yields IsSized (range_parts dates first rest u)
  unfolding range_parts Any
  range_parts-Yields first [] u v = done-Yields IsSized _ (return_400-IsSized u v)
  range_parts-Yields [] (d ∷ last) u v = done-Yields IsSized _ (return_400-IsSized u v)
  range_parts-Yields (c ∷ first) (d ∷ last) u v =
      bind-Yields IsSized Any (stoi (c ∷ first)) _ (λ _ _. tt)
        λ start _.
          bind-Yields IsSized Any (range_end last u.file_stat.st_size) _ (λ _ _. tt)
            λ end _.
              bind-Yields IsSized Any (range_length _ _) _ (λ _ _. tt)
                λ count _. done-Yields IsSized _ (respond_206-IsSized _ _ _ u v)

  handle_range-Yields :
      (value : Bytes) (u : UserData) → IsSized u → Yields IsSized (handle_range dates value u)
  unfolding handle_range
  handle_range-Yields value u v =
      let refused = done-Yields IsSized _ (return_400-IsSized u v) in
      if-Yields IsSized (ltb (length value) 8) _ _ refused (
        if-Yields IsSized (not (bytes_eq (take 6 value) (codes "bytes="))) _ _ refused
          (range_parts-Yields _ _ u v))

  abbrev SecondIsSized : Bool × UserData → Type 0
  SecondIsSized r = IsSized r.1

  if_modified_since-IsSized :
      (value behind : Bytes) (u : UserData)
      → IsSized u
      → IsSized (handle_if_modified_since dates value behind u).1
  unfolding handle_if_modified_since
  if_modified_since-IsSized value behind u v =
      elim (Option-cases (dates.parse_date (value ++ behind))) [
        | inl e ↦ rw (e, handle_if_modified_since) (return_400-IsSized u v)
        | inr (time, e) ↦
            rw (e, handle_if_modified_since)
              (either_way SecondIsSized (leb_ℤ (pos u.file_stat.st_mtime) time)
                {x = (true, return_304 u)} {y = (false, u)} (return_304-IsSized u v) v)
      ]

  handle_header-Yields :
      (h : Header) (u : UserData) → IsSized u → Yields SecondIsSized (handle_header dates h u)
  unfolding handle_header
  handle_header-Yields (name, (value, behind)) u v =
      if-Yields SecondIsSized (bytes_eq name (codes "If-Modified-Since")) _ _
        (done-Yields SecondIsSized _ (if_modified_since-IsSized value behind u v))
        (if-Yields SecondIsSized (bytes_eq name (codes "Range")) _ _
          (bind-Yields SecondIsSized IsSized (handle_range dates value u) _
            (handle_range-Yields value u v) (λ u' v'. done-Yields SecondIsSized (true, u') v'))
          (done-Yields SecondIsSized (false, u) v))

  header_loop-Yields :
      (hs : List Header) (u : UserData) → IsSized u → Yields IsSized (header_loop dates hs u)
  unfolding header_loop respond
  header_loop-Yields [] u v =
      done-Yields IsSized _ (either_way IsSized u.finalized v (respond_200-IsSized u v))
  header_loop-Yields (h ∷ hs) u v = if-Yields IsSized u.finalized _ _ (done-Yields IsSized u v) (
      bind-Yields IsSized SecondIsSized (handle_header dates h u) _ (handle_header-Yields h u v)
        (λ r v'.
          if-Yields IsSized r.0 _ _ (done-Yields IsSized r.1 v') (header_loop-Yields hs r.1 v')))

-- Whatever a request is, its handling leaves a response, if one is set, that fits the buffer of 2048
-- bytes and is counted exactly, and a type and sizes to print that have their bounds, if that held before;
-- a date of strftime has 511 bytes at most, and the size of a file is below 2 ^ 64.
pub handle_parsed-IsSized :
    (env : Env) (status : ParseStatus) (u u' : UserData)
    → Documented env.files env.dates
    → IsSized u
    → handle_parsed env status u ≡ done u'
    → IsSized u'
unfolding handle_parsed parse_headers
handle_parsed-IsSized env malformed u u' documented v h =
    done-Yields IsSized _ (return_400-IsSized u v) u' h
handle_parsed-IsSized env incomplete u u' documented v h = done-Yields IsSized u v u' h
handle_parsed-IsSized env complete u u' documented v h =
    let (u₁, parsed, h₁) = >>=-eq-done (or_fault (parse_url env.files u.parser.path u)) _ h in
    let v₁ =
      parse_url-IsSized env.files env.dates documented u.parser.path u u₁ v
        (or_fault-done _ parsed) in
    header_loop-Yields env.files env.dates documented _ u₁ v₁ u' h₁
