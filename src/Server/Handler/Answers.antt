-- ===== src/Server/Handler/Answers.antt =====
-- What `read_callback_http` of src/yotta.cpp does with a request that is complete.
use yotta.Prelude.{◌≡◌, ap, ◌∙◌, ◌⊎◌, inl, inr, true, false, ℕ, some, Bytes, ◌<◌, ◌^◌, subst, sym}
use yotta.Core.Outcome.{done, aborted, or_fault, ◌>>=◌}
use yotta.Server.State.{UserData, Stat}
use yotta.Server.Url.Serving.{Serves, parse_url-returns}
use yotta.Server.Headers.{parse_headers}
use yotta.Server.Headers.Answers.{parse_headers-answers}
use yotta.Server.Handler.{Env, complete, handle_parsed}

-- The file that is to be sent is one that the file system gave.
small-opened :
    (url : Bytes) (env : Env) (u : UserData)
    → ((fd : ℕ) (st : Stat) → env.files.fstat fd ≡ some st → st.st_size < 2 ^ 31)
    → (u.finalized ≡ true) ⊎ Serves env.files url u
    → u.finalized ≡ false
    → u.file_stat.st_size < 2 ^ 31
small-opened url env u small (inl done') open' =
    absurd (let bad : true ≡ false = sym done' ∙ open' in cc)
small-opened url env u small (inr (o, fd, st, n, opened, found, r, a, b, c)) open' =
    subst (λ (s : Stat). s.st_size < 2 ^ 31) (sym c) (small fd st found)

-- A request that the parser takes for complete, whatever its path and its headers are, never writes past
-- a buffer of the path, and overflows no `int`, where the files have less than 2 ^ 31 bytes: the code ends
-- in an exception of `std::stoi`, which nothing catches, or returns with a response set.
pub complete-answers :
    (env : Env) (u : UserData)
    → ((fd : ℕ) (st : Stat) → env.files.fstat fd ≡ some st → st.st_size < 2 ^ 31)
    → (handle_parsed env complete u ≡ aborted)
      ⊎ ((u' : UserData) × (handle_parsed env complete u ≡ done u') × (u'.finalized ≡ true))
unfolding handle_parsed
complete-answers env u small =
    let (u₁, parsed, opened) = parse_url-returns env.files u.parser.path u in
    let step = ap (λ o. or_fault o >>= parse_headers env.dates) parsed in
    elim (parse_headers-answers env.dates u₁ (small-opened _ env u₁ small opened)) [
      | inl e ↦ inl (step ∙ e)
      | inr (u₂, e, answered) ↦ inr (u₂, step ∙ e, answered)
    ]
