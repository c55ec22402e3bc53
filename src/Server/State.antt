-- ===== src/Server/State.antt =====
-- `user_data` and `parser_data` of src/yotta.cpp, the names of its callbacks, and the answers that a
-- request can be finished with at once. What the source keeps by its address (the two buffers) is the
-- address here, and what it has put into the response buffer is the text. `closed_files` and `reads` are
-- records of what has happened: the files closed, last first, and how often bytes were read.
use yotta.Prelude.{ℕ, Bool, true, false, List, [], Bytes, length}
use yotta.Core.Context.{Ctx, async_read}
use yotta.Http.Response.{serve_304, serve_400, serve_404}

abbrev pub max_url_size : ℕ
max_url_size = 1024

abbrev pub max_headers : ℕ
max_headers = 30

abbrev pub max_buffer_size : ℕ
max_buffer_size = 2048

-- A header: its name, its value, and what is behind the value in the buffer.
abbrev pub Header : Type 0
Header = Bytes × (Bytes × Bytes)

pub record ParserData : Type 0 where
  pub path : Bytes
  pub headers : List Header
  pub num_headers : ℕ

-- What the source reads of `struct stat`.
pub record Stat : Type 0 where
  pub is_regular : Bool
  pub st_size : ℕ
  pub st_mtime : ℕ

pub record UserData : Type 0 where
  pub counter : ℕ
  pub buf : ℕ
  pub response_buf : ℕ
  pub response : Bytes
  pub finalized : Bool
  pub response_size : ℕ
  pub content : Bool
  pub extension : Bytes
  pub file_fd : ℕ
  pub file_size : ℕ
  pub offset : ℕ
  pub parser : ParserData
  pub file_stat : Stat
  pub closed_files : List ℕ
  pub reads : ℕ

pub data IoCallback : Type 0 where
  read_callback_http write_header_callback http_finish_callback : IoCallback

pub data Callback : Type 0 where
  http_cleanup timer_callback : Callback

abbrev pub Connection : Type 0
Connection = Ctx UserData IoCallback Callback

-- A response with no content.
unfoldable pub finish_with : Bytes → UserData → UserData
finish_with text u = record u {
  response = text;
  response_size = length text;
  content = false;
  finalized = true;
}

unfoldable pub return_400 : UserData → UserData
return_400 u = finish_with serve_400 u

unfoldable pub return_404 : UserData → UserData
return_404 u = finish_with serve_404 u

unfoldable pub return_304 : UserData → UserData
return_304 u = finish_with serve_304 u

unfoldable pub empty_parser : ParserData
empty_parser = record { path = []; headers = []; num_headers = max_headers }

-- The state for the next request of the connection.
unfoldable pub reset : UserData → UserData
reset u = record u { parser = empty_parser; counter = 0; finalized = false; file_fd = 0 }

unfoldable pub accept_logic : Connection → UserData → Connection
accept_logic ctx u =
    async_read (record ctx { user_data = reset u }) read_callback_http u.buf max_buffer_size
