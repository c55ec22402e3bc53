-- ===== src/Tests/Server.antt =====
-- The request handlers of src/yotta.cpp at concrete inputs.
use yotta.Prelude.{
  ◌+◌, ◌-◌, ◌≡◌, ◌++◌, ◌⊎◌, refl, ap, ℕ, true, false, Option, some, none, [], ◌∷◌, Bytes, codes,
  map, arith, length, some-injective,
}
use yotta.Core.Outcome.{aborted, done}
use yotta.Core.Context.{CallbackStatus, yta_exit, yta_ok, new_ctx, async_read}
use yotta.Http.CleanPath.{
  Output, clean_path, clean_loop, finish, is_rooted, is_dot, is_dotdot, parent, separate,
  copy_element, put, put_at, at_boundary,
}
use yotta.Server.State.{
  UserData, Stat, Connection, empty_parser, accept_logic, reset, read_callback_http, http_cleanup,
  max_buffer_size,
}
use yotta.Server.Headers.{handle_range, parse_headers}
use yotta.Server.Headers.Answers.{parse_headers-answers}
use yotta.Server.Handler.Answers.{complete-answers}
use yotta.Http.Response.{serve_206}
use yotta.Server.Headers.Ranges.{handle_range-inside}
use yotta.Core.Decimal.{print_decimal}
use yotta.Server.Url.{
  Files, before_query, last_byte, prepend_dot, last_written, put_all, put_nul, restore_slash,
  append_index, normalize, c_string, opened_name, parse_url, open_file, stat_file, content_type,
  find_type, rfind, bytes_eq, mime_types,
}
use yotta.Server.Url.Serving.{Serves, parse_url-returns}
use yotta.Server.Handler.{
  complete, Env, incomplete, close_file, finish_request, plain, handle_parsed, store_parsed,
  after_parse, read_request,
}
use yotta.Server.Handler.Descriptors.{
  given_files, HasClosed, finish-HasClosed, opened_by, listed, parse_url-given,
}
use yotta.Server.Handler.Buffer.{IsReading, IsResponding, read_request-IsReading}

abbrev or_empty : Option Output → Bytes
or_empty none = []
or_empty (some o) = opened_name o

-- The name that `open` is given for a path.
abbrev opened : Bytes → Bytes
opened path = or_empty (normalize path)

-- The bytes that were written before a `..` are still behind the end of a shorter path, and the last
-- path leads out of the served directory.
opened_names :
    map opened (
      codes "/"
      ∷ codes "/abc"
      ∷ codes "/abc/"
      ∷ codes "/abc/def/.."
      ∷ codes "/abc/def/../x"
      ∷ codes "a/secret/../.."
      ∷ [])
    ≡ codes "./index.html"
      ∷ codes "./abc"
      ∷ codes "./abc/index.html"
      ∷ codes "./abc/def"
      ∷ codes "./abc/xef"
      ∷ codes "../secret"
      ∷ []
unfolding clean_path clean_loop finish is_rooted is_dot is_dotdot parent separate copy_element put
    put_at at_boundary last_byte prepend_dot last_written put_all put_nul restore_slash append_index
    normalize c_string opened_name
opened_names = refl

abbrev pub page : Stat
page = record { is_regular = true; st_size = 120; st_mtime = 1000 }

-- Every name opens the same page.
abbrev pub one_page : Files
one_page = record { open_path = λ name. some 9; fstat = λ fd. some page }

abbrev pub fresh : UserData
fresh = record {
  counter = 0;
  buf = 4096;
  response_buf = 8192;
  response = [];
  finalized = false;
  response_size = 0;
  content = false;
  extension = [];
  file_fd = 0;
  file_size = 0;
  offset = 0;
  parser = record { path = []; headers = []; num_headers = 30 };
  file_stat = page;
  closed_files = [];
  reads = 0;
}

parse_url-returns_example :
    (u' : UserData) × (parse_url one_page (codes "/a/./b?q=1") fresh ≡ some u')
    × ((u'.finalized ≡ true) ⊎ Serves one_page (codes "/a/./b?q=1") u')
parse_url-returns_example = parse_url-returns one_page (codes "/a/./b?q=1") fresh

-- A parser that always waits for more.
abbrev pub surroundings : Env
surroundings = record {
  phr_parse_request = λ reads counter before room. record {
    status = incomplete;
    path = [];
    headers = [];
    num_headers = 0;
  };
  files = one_page;
  dates = record { parse_date = λ text. none; print_date = λ time. [] };
  set_cork = λ on. true;
}

unfoldable waiting : Connection
unfolding accept_logic reset async_read new_ctx empty_parser
waiting = accept_logic (new_ctx fresh 8) fresh

unfoldable five_bytes_later : Connection
unfolding async_read
five_bytes_later =
    async_read
      (record waiting {
        user_data = record waiting.user_data {
          counter = 5;
          reads = 1;
          parser = record { path = []; headers = []; num_headers = 0 };
        };
      })
      read_callback_http (4096 + 5) (max_buffer_size - 5)

waiting-IsReading : IsReading waiting
unfolding waiting
waiting-IsReading = record { armed = refl; behind = refl; rest = refl; some_room = omega arith }

five_bytes : read_request surroundings waiting waiting.read_buf 5 ≡ done (yta_ok, five_bytes_later)
unfolding waiting five_bytes_later read_request handle_parsed store_parsed after_parse async_read
five_bytes = refl

read_request-IsReading_example :
    (yta_ok ≡ yta_ok) × (IsReading five_bytes_later ⊎ IsResponding five_bytes_later)
unfolding waiting
read_request-IsReading_example =
    read_request-IsReading surroundings waiting five_bytes_later 5 yta_ok waiting-IsReading
      (omega arith) five_bytes

-- The bytes 10 to 99 of a page of 120.
handle_range-inside_example :
    (u' : UserData) × (handle_range surroundings.dates
        (codes "bytes=" ++ (print_decimal 10 ++ b'-' ∷ print_decimal 99))
        fresh
      ≡ done u')
    × (u'.offset ≡ 10)
    × (u'.offset + u'.file_size ≡ 100)
    × (u'.response ≡ serve_206 90 [] 10 99 120)
    × (u'.response_size ≡ length u'.response)
    × (u'.content ≡ true)
    × (u'.finalized ≡ true)
handle_range-inside_example =
    handle_range-inside surroundings.dates 10 99 fresh (omega arith) (omega arith) (omega arith)

-- A connection that sends the file 9.
abbrev serving : Connection
serving = new_ctx (record fresh { file_fd = 9 }) 8

abbrev served : CallbackStatus × Connection
served = (yta_ok, accept_logic serving (close_file serving.user_data))

abbrev left : CallbackStatus × Connection
left = (yta_exit, record serving { user_data = close_file serving.user_data })

served_run : finish_request surroundings serving ≡ done served
unfolding finish_request
served_run = refl

left_run : plain http_cleanup serving ≡ done left
unfolding plain
left_run = refl

finish-HasClosed_example :
    HasClosed (given_files serving.user_data) served.1
    × HasClosed (given_files serving.user_data) left.1
finish-HasClosed_example = finish-HasClosed surroundings serving served left served_run left_run

abbrev pub or_zero : Option ℕ → ℕ
or_zero none = 0
or_zero (some n) = n

abbrev pub page_open : UserData
page_open = record fresh {
  extension = codes "text/plain";
  file_fd = 9;
  file_size = 120;
  file_stat = page;
}

pub page_run : parse_url one_page (codes "/page") fresh ≡ some page_open
unfolding clean_path clean_loop finish is_rooted is_dot is_dotdot parent separate copy_element put
    put_at at_boundary before_query last_byte prepend_dot last_written put_all put_nul restore_slash
    append_index normalize c_string opened_name parse_url open_file stat_file content_type find_type
    rfind bytes_eq mime_types
page_run = refl

parse_url-given_example :
    given_files page_open ≡ listed (opened_by one_page (codes "/page")) ++ given_files fresh
parse_url-given_example =
    parse_url-given one_page (codes "/page") fresh page_open
      (λ name fd e. omega (arith, ap or_zero e)) refl page_run

abbrev ranged : UserData
ranged = record page_open {
  parser = record {
    path = codes "/page";
    headers = (codes "Range", (codes "bytes=10-x", [])) ∷ [];
    num_headers = 1;
  };
}

parse_headers-answers_example :
    (parse_headers surroundings.dates ranged ≡ aborted)
    ⊎ ((u' : UserData) × (parse_headers surroundings.dates ranged ≡ done u')
        × (u'.finalized ≡ true))
parse_headers-answers_example = parse_headers-answers surroundings.dates ranged (λ _. omega arith)

complete-answers_example :
    (handle_parsed surroundings complete ranged ≡ aborted)
    ⊎ ((u' : UserData) × (handle_parsed surroundings complete ranged ≡ done u')
        × (u'.finalized ≡ true))
complete-answers_example = complete-answers surroundings ranged (λ fd st e.
    let same : page.st_size ≡ st.st_size = ap (λ s. s.st_size) (some-injective e) in omega arith)
