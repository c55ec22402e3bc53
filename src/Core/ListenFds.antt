-- ===== src/Core/ListenFds.antt =====
-- `create_listen_fds_env` and `parse_listen_fds_env` of src/core/yta_process.c: how the descriptors of
-- the listening sockets pass through the environment to an upgraded binary. A write past a buffer is
-- `none`.
pub mod HandOver
use yotta.Prelude.{
  ℕ, zero, suc, ◌+◌, ◌-◌, ◌*◌, Bool, Option, none, some, List, [], ◌∷◌, ◌++◌, Bytes, codes, length,
  get_elem?, replicate, leb, ◌==◌, if◌then◌else◌, ◌>>=◌,
}
use yotta.Prelude.Int.{ℤ, pos}
use yotta.Core.Decimal.{print_int, atoi}

-- `sprintf` behind the text that is there, with the final NUL, in a buffer of `size` bytes.
unfoldable pub print_at : ℕ → Bytes → Bytes → Option Bytes
print_at size text more =
    if leb (length text + length more + 1) size then some (text ++ more) else none

abbrev pub prefix : Bytes
prefix = codes "listen_fds="

-- `sizeof("listen_fds=") + worker_count * 5 + worker_count - 1`
unfoldable pub env_size : ℕ → ℕ
env_size worker_count = length prefix + 1 + worker_count * 5 + worker_count - 1

-- `for (int i = 0; i < worker_count - 1; i++)`, with the rounds that are left.
unfoldable pub print_fds : ℕ → ℕ → ℕ → List ℤ → Bytes → Option Bytes
unfolding print_at
print_fds size zero i listen_fds text = some text
print_fds size (suc rounds) i listen_fds text = do
  fd ← get_elem? listen_fds i
  text' ← print_at size text (print_int fd ++ b' ' ∷ [])
  print_fds size rounds (suc i) listen_fds text'

unfoldable pub create_listen_fds_env : List ℤ → ℕ → Option Bytes
unfolding print_at print_fds env_size
create_listen_fds_env listen_fds zero = none
create_listen_fds_env listen_fds (suc before_last) = do
  let size = env_size (suc before_last)
  text ← print_at size [] prefix
  text' ← print_fds size before_last 0 listen_fds text
  fd ← get_elem? listen_fds before_last
  print_at size text' (print_int fd)

-- `while (*cur != '\0' && *cur != ' ') ++cur;`
unfoldable pub skip_token : Bytes → Bytes
skip_token [] = []
skip_token (c ∷ s) = if c == b' ' then c ∷ s else skip_token s

-- `listen_fds[fd_iter] = fd`
unfoldable pub assign : ℕ → ℤ → List ℤ → Option (List ℤ)
assign i fd [] = none
assign zero fd (old ∷ fds) = some (fd ∷ fds)
assign (suc i) fd (old ∷ fds) = do fds' ← assign i fd fds; some (old ∷ fds')

-- The loop over the tokens; at its head `iter` is `cur`. The fuel is the length of the text.
unfoldable pub parse_tokens : ℕ → Bytes → ℕ → List ℤ → Option (List ℤ)
parse_tokens fuel [] i fds = some fds
parse_tokens zero (c ∷ s) i fds = none
parse_tokens (suc fuel) (c ∷ s) i fds = do
  fds' ← assign i (atoi (c ∷ s)) fds
  elim (skip_token (c ∷ s)) [ [] ↦ some fds' | blank ∷ rest ↦ parse_tokens fuel rest (suc i) fds' ]

unfoldable pub parse_listen_fds_env : Bytes → ℕ → Option (List ℤ)
unfolding skip_token assign parse_tokens
parse_listen_fds_env text fd_count = parse_tokens (length text) text 0 (replicate fd_count (pos 0))
