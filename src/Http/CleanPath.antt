-- ===== src/Http/CleanPath.antt =====
-- `clean_path` of src/http/yta_http.cpp. The output pointer is a place in the caller's buffer: the
-- bytes before it, last first, and the bytes from it on, stale ones included. A write past the end
-- of the buffer is a fault, `none`. The unread part of the path stands for the index `r`.
pub mod Spec
pub mod Steps
pub mod Rendering
pub mod Loop
pub mod Refinement
pub mod Show
pub mod Correctness
pub mod Confinement
pub mod Fresh
pub mod Idempotence
use yotta.Prelude.{
  ℕ, zero, suc, Bool, true, false, not, ◌&&◌, ◌||◌, Option, none, some, [], ◌∷◌, reverse, Bytes,
  length, ltb, ◌==◌, if◌then◌else◌, ◌>>=◌,
}

abbrev pub slash : ℕ
slash = b'/'

abbrev pub dot : ℕ
dot = b'.'

pub record Output : Type 0 where
  pub before : Bytes
  pub after : Bytes

-- `*output++ = c`
unfoldable pub put_at : Bytes → Bytes → ℕ → Option Output
put_at before [] c = none
put_at before (old ∷ after) c = some (record { before = c ∷ before; after = after })

unfoldable pub put : ℕ → Output → Option Output
unfolding put_at
put c o = put_at o.before o.after c

-- `output - normalized_path`
abbrev pub offset : Output → ℕ
offset o = length o.before

-- `r == length || path[r] == '/'` at the place `r` of the unread part
unfoldable pub at_boundary : Bytes → Bool
at_boundary [] = true
at_boundary (c ∷ rest) = c == slash

-- `path[r] == '.' && (r + 1 == length || path[r + 1] == '/')` behind the first byte
unfoldable pub is_dot : ℕ → Bytes → Bool
unfolding at_boundary
is_dot c rest = c == dot && at_boundary rest

-- `path[r] == '.' && path[r + 1] == '.' && (r + 2 == length || path[r + 2] == '/')`
unfoldable pub is_dotdot : ℕ → Bytes → Bool
unfolding at_boundary
is_dotdot c [] = false
is_dotdot c (d ∷ rest) = c == dot && (d == dot && at_boundary rest)

-- `while (output - normalized_path > dotdot && *output != '/') --output;` where `c` is `*output`.
unfoldable pub back_up : ℕ → Bytes → ℕ → Bytes → Output
back_up dotdot [] c after = record { before = []; after = c ∷ after }
back_up dotdot (b ∷ before) c after =
    let further = back_up dotdot before b (c ∷ after) in
    if ltb dotdot (length (b ∷ before)) && not (c == slash)
    then further
    else record { before = b ∷ before; after = c ∷ after }

-- The `..` branch: back up over the last element, or add `..` if the path is relative and there is
-- nothing to back up over. The first result is the new `dotdot`.
back_up_from : ℕ → Bytes → Bytes → Output
unfolding back_up
back_up_from dotdot [] after = record { before = []; after = after }
back_up_from dotdot (b ∷ before) after = back_up dotdot before b after

add_dotdot : Output → Option (ℕ × Output)
unfolding put
add_dotdot o = do
  sep ← if ltb 0 (offset o) then put slash o else some o
  one ← put dot sep
  two ← put dot one
  some (offset two, two)

unfoldable pub parent : Bool → ℕ → Output → Option (ℕ × Output)
unfolding back_up_from add_dotdot
parent rooted dotdot o =
    if ltb dotdot (offset o)
    then some (dotdot, back_up_from dotdot o.before o.after)
    else if not rooted
    then add_dotdot o
    else some (dotdot, o)

-- The separator in front of an element.
unfoldable pub separate : Bool → Output → Option Output
unfolding put
separate rooted o =
    if (rooted && not (offset o == 1)) || (not rooted && not (offset o == 0))
    then put slash o
    else some o

-- `for (; r < length && path[r] != '/'; ++r) *output++ = path[r];` with the unread rest.
unfoldable pub copy_element : Bytes → Output → Option (Bytes × Output)
unfolding put
copy_element [] o = some ([], o)
copy_element (c ∷ path) o =
    if c == slash then some (c ∷ path, o) else do o' ← put c o; copy_element path o'

-- The unread part behind the second dot.
abbrev pub rest_of : Bytes → Bytes
rest_of [] = []
rest_of (d ∷ path) = path

-- The loop `while (r < length)`; `none` also if the fuel runs out. A call that is handed on as a
-- function waits until its branch is taken.
unfoldable pub clean_loop : ℕ → Bool → Bytes → ℕ → Output → Option Output
clean_loop fuel rooted [] dotdot o = some o
clean_loop zero rooted (c ∷ path) dotdot o = none
clean_loop (suc fuel) rooted (c ∷ path) dotdot o =
    let skip = clean_loop fuel rooted path dotdot o in
    if c == slash
    then skip
    else if is_dot c path
    then skip
    else if is_dotdot c path
    then (do
      (dotdot', o') ← parent rooted dotdot o
      clean_loop fuel rooted (rest_of path) dotdot' o')
    else (do
      o₁ ← separate rooted o
      (path', o₂) ← copy_element (c ∷ path) o₁
      clean_loop fuel rooted path' dotdot o₂)

-- `if (output - normalized_path == 0) *output++ = '.';`
unfoldable pub finish : Output → Option Output
unfolding put
finish o = if offset o == 0 then put dot o else some o

unfoldable pub is_rooted : Bytes → Bool
is_rooted [] = false
is_rooted (c ∷ path) = c == slash

-- The result is the buffer with the final place of the output pointer, whose offset the source
-- returns. The fuel is the length of the path: every round of the loop reads a byte.
unfoldable pub clean_path : Bytes → Bytes → Option Output
clean_path [] buffer = put dot (record { before = []; after = buffer })
clean_path (c ∷ path) buffer =
    if is_rooted (c ∷ path)
    then (do
      o ← put slash (record { before = []; after = buffer })
      o' ← clean_loop (length path) true path 1 o
      finish o')
    else (do
      o ← clean_loop (length (c ∷ path)) false (c ∷ path) 0 (record { before = []; after = buffer })
      finish o)

-- The bytes that the source returns the number of.
unfoldable pub written : Output → Bytes
written o = reverse o.before
