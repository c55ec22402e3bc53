-- ===== src/Lib.antt =====
-- yotta, a static file server over an epoll loop: a model of its C and C++ code and what holds of it.
--
-- The program has four parts. A master process (src/core/yta_process.c) forks workers and forks dead
-- ones again; it ends them on a signal, and hands its listening sockets over to a new binary through
-- the environment. Each worker runs an event loop (src/core/yta_event_loop.c) that accepts connections
-- and calls back when a read, a write or a timer of a connection is done. The server (src/yotta.cpp)
-- consists of such callbacks: it reads a request, finds the file and sends the response and the file.
-- It cleans the path and prints the responses by src/http/yta_http.cpp.
--
-- - Prelude: shared tests, list operations and integers. Core/Outcome is the result of code that can
--   end the process, fail an assertion or do what C leaves undefined.
-- - Http/CleanPath is `clean_path`. The output buffer is a zipper: the bytes before the output pointer
--   and the old bytes from it on. Http/CleanPath/Spec tells without a buffer what it computes; Steps,
--   Rendering, Loop, Refinement and Show lead to Correctness; Confinement, Idempotence and Fresh follow
--   from it. Http/Response is `serve_200` to `serve_404`, and Http/Response/Size is about their length.
-- - Core/Context is `struct yta_ctx` with `yta_async_read` and its like; Core/Transfer is `read_loop` and
--   `write_loop`; Core/Heap and Core/Reactor are `struct loop_core` with `accept_loop`, `serve_timers`,
--   `serve_sockets`, `cleanup_context` and the loop of `serve`; Core/Reactor/Accounting and
--   Core/Reactor/Serving are about its count of clients, Core/Reactor/Soundness (with Batch, Timers and
--   Loop) about what C leaves undefined, Core/Reactor/Connections (with Whole) about what a client
--   keeps of its connections. Below Core/Transfer, Writing is about the parts of a transfer, Soundness
--   and Keeping (with Writes) are what those two use.
-- - Core/Startup is how a process comes up: `make_listen_socket`, `set_nonblock`, `get_listen_fds`,
--   `create_reactor`, `drop_root`, the whole of `serve`, and `yta_run`. Ready, Privileges, Sockets and
--   Workers below it are about them.
-- - Core/Decimal is `%d` and `atoi`, Core/ListenFds the entry of the environment, Core/Process the rest
--   of src/core/yta_process.c; Core/Process/Start is about its first workers,
--   Core/Process/Supervision about its signals and the workers that die, and Core/Process/Table (with
--   Waiting) about their table.
-- - Server/State is `user_data`, Server/Url is `parse_url`, Server/Headers is `handle_if_modified_since`,
--   `handle_range` and `parse_headers`, and Server/Handler the callbacks, from `accept_callback_http` to
--   `http_cleanup`. Server/Url/Serving, Server/Url/Names,
--   Server/Headers/Lengths, Server/Headers/Ranges (with Open), Server/Headers/Answers, Server/Headers/Returned and, below Server/Handler, Buffer, Answers,
--   Descriptors, Phases (with Callbacks) and Size (with Answers) are about them.
-- - Server/Options is src/args.h, and Server/Main is `main`, where the server becomes a client of the event
--   loop; Server/Main/Life, Server/Main/Safety, Server/Main/Sending and
--   Server/Main/Timeout are about the two together.
-- - Tests has runs at concrete inputs, those of src/http/test/http_test.cpp among them.
--
-- A client of the event loop is a parameter: its callbacks are names, and what they do is a function.
-- What the kernel answers (descriptors, counts, events, memory) comes in as arguments, in lists where
-- it is asked repeatedly. The parser of requests, the file system and the conversions of dates are
-- parameters of the server, and others at every event of `serve_moments`. Where the parts are composed, what an accepted connection is given (its timer
-- and its memory) is a function of its descriptor.
--
-- Fuel: the loop of `clean_path` has the length of the path, since every round reads a byte; the loop
-- over the tokens of the environment entry the length of the text, since every token has a byte;
-- `size_t` arithmetic is modulo 2 ^ 64 and `int` that of 32 bits where the code converts; where an `int`
-- expression overflows, the code faults.
--
-- Not modelled: what is printed on the standard streams, `getopt` (what it gives is an argument),
-- src/picohttpparser, a copy of another project, and the bytes of a request, which only that parser reads.
pub mod Prelude
pub mod Http
pub mod Core
pub mod Server
pub mod Tests
