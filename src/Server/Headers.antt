-- ===== src/Server/Headers.antt =====
-- `handle_if_modified_since`, `handle_range` and `parse_headers` of src/yotta.cpp. `strptime` with
-- `timegm`, and the text of a date by `strftime`, are parameters; `strptime` is not told where the value
-- ends and reads on in the buffer.
pub mod Lengths
pub mod Ranges
pub mod Answers
pub mod Returned
use yotta.Prelude.{
  ℕ, ◌-◌, ◌^◌, Bool, true, false, not, ◌&&◌, Option, none, some, List, [], ◌∷◌, ◌++◌, Bytes, codes,
  length, drop, take, ltb, leb, ◌==◌, if◌then◌else◌,
}
use yotta.Prelude.Int.{ℤ, pos, negsuc, negate, ◌+ℤ◌, ◌-ℤ◌, ltb_ℤ, leb_ℤ, wrap, to_int}
use yotta.Core.Outcome.{Outcome, done, aborted, faulted, ◌>>=◌}
use yotta.Core.Context.{size_mod}
use yotta.Core.Decimal.{is_digit, is_space, scan_digits}
use yotta.Http.Response.{serve_200, serve_206}
use yotta.Server.State.{UserData, Header, return_400, return_304}
use yotta.Server.Url.{bytes_eq}

pub record Dates : Type 0 where
  pub parse_date : Bytes → Option ℤ
  pub print_date : ℕ → Bytes

unfoldable pub handle_if_modified_since : Dates → Bytes → Bytes → UserData → Bool × UserData
handle_if_modified_since dates value behind u = elim (dates.parse_date (value ++ behind)) [
  | none ↦ (true, return_400 u)
  | some time ↦ if leb_ℤ (pos u.file_stat.st_mtime) time then (true, return_304 u) else (false, u)
]

starts_with_digit : Bytes → Bool
starts_with_digit [] = false
starts_with_digit (c ∷ s) = is_digit c

-- A number in the range of `int`, or `std::out_of_range`; nothing in the program catches it.
unfoldable pub in_int : ℤ → Outcome ℤ
in_int z = if leb_ℤ (negsuc (2 ^ 31 - 1)) z && ltb_ℤ z (pos (2 ^ 31)) then done z else aborted

-- `std::stoi`: blanks, a sign, and at least one digit, or `std::invalid_argument`.
stoi_signed : (ℕ → ℤ) → Bytes → Outcome ℤ
unfolding starts_with_digit
stoi_signed sign s = if starts_with_digit s then in_int (sign (scan_digits 0 s)) else aborted

stoi_sign : Bytes → Outcome ℤ
unfolding stoi_signed
stoi_sign [] = aborted
stoi_sign (c ∷ s) =
    if c == b'-'
    then stoi_signed negate s
    else if c == b'+'
    then stoi_signed pos s
    else stoi_signed pos (c ∷ s)

unfoldable pub stoi : Bytes → Outcome ℤ
unfolding stoi_sign
stoi [] = aborted
stoi (c ∷ s) = if is_space c then stoi s else stoi_sign (c ∷ s)

-- `std::find(iter, end, '-')`: the part before the separator and the part from it on.
unfoldable pub split_dash : Bytes → Bytes × Bytes
split_dash [] = ([], [])
split_dash (c ∷ s) =
    if c == b'-' then ([], c ∷ s) else (let (first, rest) = split_dash s in (c ∷ first, rest))

-- The end of the range before the sanity checks.
unfoldable pub range_end : Bytes → ℕ → Outcome ℤ
range_end [] st_size = done (to_int (pos st_size -ℤ pos 1))
range_end (c ∷ s) st_size = stoi (c ∷ s)

-- The sanity checks on the two values, against the size of the file.
unfoldable pub checked_end : ℤ → ℤ → ℕ → ℤ
checked_end start_value end_value st_size =
    let last = to_int (pos st_size -ℤ pos 1) in
    let end = if leb_ℤ end_value start_value then last else end_value in
    if leb_ℤ (pos st_size) end then last else end

unfoldable pub checked_start : ℤ → ℤ
checked_start start_value = if ltb_ℤ start_value (pos 0) then pos 0 else start_value

-- The value of an expression of the type `int`, whose overflow is undefined.
unfoldable pub int_value : ℤ → Outcome ℤ
int_value z = if leb_ℤ (negsuc (2 ^ 31 - 1)) z && ltb_ℤ z (pos (2 ^ 31)) then done z else faulted

-- `end_value - start_value + 1`
unfoldable pub range_length : ℤ → ℤ → Outcome ℤ
range_length start_value end_value = do
  difference ← int_value (end_value -ℤ start_value)
  int_value (difference +ℤ pos 1)

-- The answer 206. `size_t` fields take the value of an `int` modulo 2 ^ 64.
unfoldable pub respond_206 : Dates → ℤ → ℤ → ℤ → UserData → UserData
respond_206 dates start end count u =
    let file_size = wrap size_mod count in
    let text =
      serve_206 file_size (dates.print_date u.file_stat.st_mtime) (wrap size_mod start)
        (wrap size_mod end) u.file_stat.st_size in
    record u {
      file_size = file_size;
      offset = wrap size_mod start;
      response = text;
      response_size = length text;
      content = true;
      finalized = true;
    }

-- The value behind `bytes=`, cut at the first dash.
unfoldable pub range_parts : Dates → Bytes → Bytes → UserData → Outcome UserData
range_parts dates first [] u = done (return_400 u)
range_parts dates [] (dash ∷ last) u = done (return_400 u)
range_parts dates (c ∷ first) (dash ∷ last) u = do
  start_value ← stoi (c ∷ first)
  end_value ← range_end last u.file_stat.st_size
  let start = checked_start start_value
  let end = checked_end start_value end_value u.file_stat.st_size
  count ← range_length start end
  done (respond_206 dates start end count u)

unfoldable pub handle_range : Dates → Bytes → UserData → Outcome UserData
handle_range dates value u =
    if ltb (length value) 8
    then done (return_400 u)
    else if not (bytes_eq (take 6 value) (codes "bytes="))
    then done (return_400 u)
    else (let (first, rest) = split_dash (drop 6 value) in range_parts dates first rest u)

-- `header_callbacks.find(header)` and the call of what is found; the result is `done`.
unfoldable pub handle_header : Dates → Header → UserData → Outcome (Bool × UserData)
handle_header dates (name, (value, behind)) u =
    if bytes_eq name (codes "If-Modified-Since")
    then done (handle_if_modified_since dates value behind u)
    else if bytes_eq name (codes "Range")
    then (do u' ← handle_range dates value u; done (true, u'))
    else done (false, u)

unfoldable pub respond_200 : Dates → UserData → UserData
respond_200 dates u =
    let text = serve_200 u.file_size (dates.print_date u.file_stat.st_mtime) u.extension in
    record u { response = text; response_size = length text; content = true; finalized = true }

-- `if (!udata->finalized)` behind the loop.
unfoldable pub respond : Dates → UserData → UserData
respond dates u = if u.finalized then u else respond_200 dates u

unfoldable pub header_loop : Dates → List Header → UserData → Outcome UserData
header_loop dates [] u = done (respond dates u)
header_loop dates (h ∷ hs) u = if u.finalized then done u else do
  (finished, u') ← handle_header dates h u
  if finished then done u' else header_loop dates hs u'

unfoldable pub parse_headers : Dates → UserData → Outcome UserData
parse_headers dates u = header_loop dates (take u.parser.num_headers u.parser.headers) u
