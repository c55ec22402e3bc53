-- ===== src/Tests/Request.antt =====
-- A whole request of src/yotta.cpp at a concrete input.
use yotta.Prelude.{
  some, true, ◌≡◌, refl, ap, some-injective, [], ◌∷◌, ◌++◌, map, codes, length, arith, ◌+◌, ◌-◌,
  ◌^◌,
}
use yotta.Core.Outcome.{done}
use yotta.Http.Response.{serve_206}
use yotta.Server.State.{UserData}
use yotta.Server.Url.{parse_url}
use yotta.Server.Headers.Ranges.Open.{handle_range-open, handle_range-beyond}
use yotta.Core.Decimal.{print_decimal}
use yotta.Server.Headers.{handle_range, parse_headers, header_loop, respond, respond_200}
use yotta.Server.Handler.{handle_parsed, complete}
use yotta.Server.Handler.Size.{IsSized, Documented}
use yotta.Server.Handler.Size.Answers.{handle_parsed-IsSized}
use yotta.Http.CleanPath.{
  clean_path, clean_loop, finish, is_rooted, is_dot, is_dotdot, parent, separate, copy_element, put,
  put_at, at_boundary,
}
use yotta.Server.Url.{
  before_query, last_byte, prepend_dot, last_written, put_all, put_nul, restore_slash, append_index,
  normalize, c_string, opened_name, open_file, stat_file, content_type, find_type, rfind, bytes_eq,
  mime_types,
}
use yotta.Core.Context.{new_ctx, async_write, basic_data, sendfile_data}
use yotta.Core.Transfer.{loop_continue, count, write_loop}
use yotta.Core.Transfer.Writing.{parts}
use yotta.Server.State.{Connection, write_header_callback}
use yotta.Server.Handler.{io}
use yotta.Server.Main.Sending.{HasReset, answer-Sends}
use yotta.Http.CleanPath.{Output}
use yotta.Http.CleanPath.Spec.{components, cons_head, is_parent}
use yotta.Http.CleanPath.Fresh.{NoParent}
use yotta.Server.Url.Names.{name_of, opened_name-eq-name_of}
use yotta.Tests.Server.{fresh, page, page_open, surroundings}

abbrev asked : UserData
asked = record fresh { parser = record { path = codes "/page"; headers = []; num_headers = 0 } }

abbrev answered : UserData
answered = respond_200 surroundings.dates (record page_open { parser = asked.parser })

answered_run : handle_parsed surroundings complete asked ≡ done answered
unfolding handle_parsed parse_headers header_loop respond clean_path clean_loop finish is_rooted
    is_dot is_dotdot parent separate copy_element put put_at at_boundary before_query last_byte
    prepend_dot last_written put_all put_nul restore_slash append_index normalize c_string
    opened_name parse_url open_file stat_file content_type find_type rfind bytes_eq mime_types
answered_run = refl

asked-IsSized : IsSized asked
asked-IsSized = record {
  fits = λ e. cc;
  counted = λ e. cc;
  typed = omega arith;
  file = omega arith;
  stat = omega arith;
}

documented : Documented surroundings.files surroundings.dates
documented = record {
  dated = λ time. omega arith;
  sized = λ fd st e.
      let same : page.st_size ≡ st.st_size = ap (λ s. s.st_size) (some-injective e) in omega arith;
}

handle_parsed-IsSized_example : IsSized answered
handle_parsed-IsSized_example =
    handle_parsed-IsSized surroundings complete asked answered documented asked-IsSized answered_run

-- A response of 100 bytes and the bytes 10 to 119 of the page.
abbrev ready : Connection
ready =
    new_ctx
      (record fresh {
        content = true;
        finalized = true;
        response_size = 100;
        file_fd = 9;
        file_size = 110;
        offset = 10;
      })
      8

answer-Sends_example :
    (ctx' : Connection) × (write_loop
        (io surroundings)
        (map count (60 ∷ 40 ∷ []) ++ map count (100 ∷ 10 ∷ []))
        (async_write ready write_header_callback 8192 100)
        []
      ≡ done (
        loop_continue,
        ctx',
        parts 8 (basic_data 8192) 0 (60 ∷ 40 ∷ []) ++ parts 8 (sendfile_data 9) 10 (100 ∷ 10 ∷ []),
      ))
    × HasReset ready.user_data ctx'
unfolding new_ctx
answer-Sends_example =
    answer-Sends surroundings refl ready 60 (40 ∷ []) 100 (10 ∷ []) refl
      (omega arith, (omega arith, tt)) refl (omega arith) (omega arith, (omega arith, tt)) refl
      (omega arith)

inner-NoParent : NoParent (codes "/a/./b/")
unfolding components cons_head is_parent
inner-NoParent = (refl, (refl, (refl, (refl, (refl, tt)))))

opened_name-eq-name_of_example :
    (o : Output) × (normalize (codes "/a/./b/") ≡ some o)
    × (opened_name o ≡ c_string (name_of (codes "/a/./b/")))
opened_name-eq-name_of_example =
    opened_name-eq-name_of (codes "/a/./b/") inner-NoParent (omega arith)

-- The page from the byte 10 on, and from behind its end on.
handle_range-open_example :
    (u' : UserData) × (handle_range surroundings.dates
        (codes "bytes=" ++ (print_decimal 10 ++ b'-' ∷ []))
        fresh
      ≡ done u')
    × (u'.offset ≡ 10)
    × (u'.offset + u'.file_size ≡ 120)
    × (u'.response ≡ serve_206 110 [] 10 119 120)
    × (u'.response_size ≡ length u'.response)
    × (u'.content ≡ true)
    × (u'.finalized ≡ true)
handle_range-open_example =
    handle_range-open surroundings.dates 10 fresh (omega arith) (omega arith)

handle_range-beyond_example :
    (u' : UserData) × (handle_range surroundings.dates
        (codes "bytes=" ++ (print_decimal 200 ++ b'-' ∷ []))
        fresh
      ≡ done u')
    × (u'.offset ≡ 200)
    × (u'.file_size ≡ 2 ^ 64 - 80)
    × (u'.response ≡ serve_206 (2 ^ 64 - 80) [] 200 119 120)
    × (u'.content ≡ true)
handle_range-beyond_example =
    handle_range-beyond surroundings.dates 200 fresh (omega arith) (omega arith) (omega arith)
