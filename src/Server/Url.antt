-- ===== src/Server/Url.antt =====
-- `parse_url` of src/yotta.cpp: from the path of a request to the file that is opened. `open` and
-- `fstat` are parameters. A write past the buffer for the normalised path is `none`.
pub mod Serving
pub mod Names
use yotta.Prelude.{
  ℕ, zero, suc, ◌-◌, ◌^◌, Bool, true, false, not, ◌&&◌, ◌||◌, Option, none, some, List, [], ◌∷◌,
  ◌++◌, reverse, Bytes, codes, length, replicate, drop, ltb, ◌==◌, if◌then◌else◌, ◌>>=◌,
}
use yotta.Http.CleanPath.{Output, put, clean_path, slash, dot}
use yotta.Server.State.{UserData, Stat, return_404, max_url_size}

-- The file system: a descriptor for a name, and what `fstat` says of a descriptor.
pub record Files : Type 0 where
  pub open_path : Bytes → Option ℕ
  pub fstat : ℕ → Option Stat

-- `std::find(path, path + length, '?')` ends the path.
unfoldable pub before_query : Bytes → Bytes
before_query [] = []
before_query (c ∷ path) = if c == b'?' then [] else c ∷ before_query path

unfoldable pub last_byte : Bytes → ℕ
last_byte [] = 0
last_byte (c ∷ []) = c
last_byte (c ∷ d ∷ path) = last_byte (d ∷ path)

-- The whole buffer, with `.` in front of what `clean_path` has written.
unfoldable pub prepend_dot : Output → Output
prepend_dot o = record o { before = o.before ++ dot ∷ [] }

-- `normalized_path[new_length - 1]`
unfoldable pub last_written : Output → ℕ
last_written o = elim o.before [ [] ↦ 0 | c ∷ before ↦ c ]

unfoldable pub put_all : Bytes → Output → Option Output
put_all [] o = some o
put_all (c ∷ s) o = do o' ← put c o; put_all s o'

-- A write at the pointer that does not move it.
unfoldable pub put_nul : Output → Option Output
unfolding put
put_nul o = do o' ← put 0 o; some (record o { after = 0 ∷ o'.after })

-- The trailing slash that `clean_path` has taken off.
unfoldable pub restore_slash : Bytes → Output → Option Output
restore_slash path o =
    if last_byte path == slash && not (length o.before == 2) then put slash o else some o

-- `index.html` with its NUL behind a slash; the NUL is not counted.
unfoldable pub append_index : Output → Option Output
append_index o =
    if last_written o == slash then (do o' ← put_all (codes "index.html") o; put_nul o') else some o

-- The buffer of `max_url_size` zeros with the normalised path in it.
unfoldable pub normalize : Bytes → Option Output
normalize path = do
  o ← clean_path path (replicate (max_url_size - 1) 0)
  o₁ ← restore_slash path (prepend_dot o)
  append_index o₁

-- What a C function reads of a buffer: the bytes before the first NUL.
unfoldable pub c_string : Bytes → Bytes
c_string [] = []
c_string (c ∷ s) = if c == 0 then [] else c ∷ c_string s

unfoldable pub opened_name : Output → Bytes
unfolding c_string
opened_name o = c_string (reverse o.before ++ o.after)

-- `npos` of a `string_view`.
abbrev pub npos : ℕ
npos = 2 ^ 64 - 1

-- `rfind`, over the bytes last first.
unfoldable pub rfind : ℕ → Bytes → ℕ
rfind c [] = npos
rfind c (d ∷ before) = if d == c then length before else rfind c before

unfoldable pub bytes_eq : Bytes → Bytes → Bool
bytes_eq [] [] = true
bytes_eq [] (d ∷ t) = false
bytes_eq (c ∷ s) [] = false
bytes_eq (c ∷ s) (d ∷ t) = c == d && bytes_eq s t

unfoldable pub mime_types : List (Bytes × Bytes)
mime_types =
    (codes ".html", codes "text/html")
    ∷ (codes ".css", codes "text/css")
    ∷ (codes ".png", codes "image/png")
    ∷ (codes ".jpg", codes "image/jpeg")
    ∷ (codes ".jpeg", codes "image/jpeg")
    ∷ (codes ".svg", codes "image/svg+xml")
    ∷ (codes ".gif", codes "image/gif")
    ∷ (codes ".ico", codes "image/x-icon")
    ∷ (codes ".txt", codes "text/plain")
    ∷ (codes ".doc", codes "application/msword")
    ∷ (
      codes ".docx",
      codes "application/vnd.openxmlformats-officedocument.wordprocessingml.document",
    )
    ∷ (codes ".csv", codes "text/csv")
    ∷ (codes ".js", codes "application/x-javascript")
    ∷ (codes ".json", codes "application/json")
    ∷ (codes ".pdf", codes "application/pdf")
    ∷ (codes ".zip", codes "application/zip")
    ∷ (codes ".gz", codes "application/gzip")
    ∷ (codes ".woff", codes "application/font-woff")
    ∷ (codes ".woff2", codes "application/font-woff2")
    ∷ (codes ".opus", codes "audio/opus")
    ∷ (codes ".mp4", codes "video/mp4")
    ∷ (codes ".mpeg", codes "video/mpeg")
    ∷ (codes ".mpg", codes "video/mpeg")
    ∷ (codes ".mp3", codes "audio/mpeg")
    ∷ []

unfoldable pub find_type : Bytes → List (Bytes × Bytes) → Bytes
unfolding bytes_eq
find_type ending [] = codes "text/plain"
find_type ending ((e, mime) ∷ types) = if bytes_eq e ending then mime else find_type ending types

-- The type of the file at `path_view`, which is the written part of the buffer.
unfoldable pub content_type : Bytes → Bytes
unfolding rfind mime_types find_type
content_type before =
    let filetype_begin = rfind dot before in
    if ltb (rfind slash before) filetype_begin
    then find_type (drop filetype_begin (reverse before)) mime_types
    else codes "text/plain"

-- The file is open: its status decides.
unfoldable pub stat_file : Option Stat → ℕ → Bytes → UserData → UserData
stat_file none ffd view u = return_404 (record u { closed_files = ffd ∷ u.closed_files })
stat_file (some st) ffd view u =
    if st.is_regular
    then record u {
      extension = content_type view;
      file_fd = ffd;
      file_size = st.st_size;
      file_stat = st;
    }
    else return_404 (record u { closed_files = ffd ∷ u.closed_files })

unfoldable pub open_file : Files → Option ℕ → Bytes → UserData → UserData
unfolding stat_file
open_file files none view u = return_404 u
open_file files (some ffd) view u = stat_file (files.fstat ffd) ffd view u

unfoldable pub parse_url : Files → Bytes → UserData → Option UserData
parse_url files url u =
    let path = before_query url in
    if ltb (max_url_size - 20) (length path) || length path == 0
    then some (return_404 u)
    else do o ← normalize path; some (open_file files (files.open_path (opened_name o)) o.before u)
