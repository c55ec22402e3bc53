-- ===== src/Server/Options.antt =====
-- `argument_options` and `get_program_opts` of src/args.h. What `getopt` gives, one call after the other,
-- is a list: the option letter, or `?`, and the text of its argument.
pub mod Last
use yotta.Prelude.{ℕ, Bool, true, false, List, [], ◌∷◌, Bytes, codes, ◌==◌, if◌then◌else◌}
use yotta.Prelude.Int.{ℤ, pos}
use yotta.Core.Decimal.{atoi}

pub record Options : Type 0 where
  pub daemonize : Bool
  pub pid_file : Bytes
  pub port : Bytes
  pub host : Bytes
  pub workers : ℤ

abbrev pub default_options : Options
default_options = record {
  daemonize = false;
  pid_file = codes "/tmp/yotta.pid";
  port = codes "8080";
  host = codes "::";
  workers = pos 4;
}

-- The `switch`, without what it prints; an option that is none of these changes nothing.
unfoldable pub set_option : Options → ℕ → Bytes → Options
set_option options opt optarg =
    if opt == b'g'
    then record options { daemonize = true }
    else if opt == b'i'
    then record options { pid_file = optarg }
    else if opt == b'p'
    then record options { port = optarg }
    else if opt == b'h'
    then record options { host = optarg }
    else if opt == b'w'
    then record options { workers = atoi optarg }
    else options

-- The `while`, from the options that are read already.
unfoldable pub read_options : Options → List (ℕ × Bytes) → Options
read_options options [] = options
read_options options ((opt, optarg) ∷ more) = read_options (set_option options opt optarg) more

unfoldable pub get_program_opts : List (ℕ × Bytes) → Options
get_program_opts given = read_options default_options given
