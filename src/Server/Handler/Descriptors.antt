-- ===== src/Server/Handler/Descriptors.antt =====
-- The descriptors of the files that a connection of src/yotta.cpp has open and has closed.
use yotta.Prelude.{
  ℕ, ◌≡◌, ◌≢◌, ◌==◌, ==_iff, refl, sym, ap, ◌∙◌, inl, inr, false, Option, some, none, List, [], ◌∷◌,
  ◌++◌, Bytes, length, ltb, ◌||◌, ◌-◌, Bool-cases, ◌>>=◌, Option-cases, if-eq-then, if-eq-else,
  if◌then◌else◌, subst, arith,
}
use yotta.Core.Outcome.{done, exited, done-injective, or_fault}
use yotta.Core.Context.{CallbackStatus, async_read}
use yotta.Server.State.{
  UserData, max_url_size, Stat, return_404, finish_with, Connection, http_cleanup, reset,
  accept_logic,
}
use yotta.Server.Url.{Files, stat_file, open_file, parse_url, before_query, normalize, opened_name}
use yotta.Server.Handler.{Env, close_file, finish_request, plain}

-- The file that is open, if one is; 0 stands for none.
abbrev pub held : UserData → List ℕ
held u = if u.file_fd == 0 then [] else u.file_fd ∷ []

-- Every descriptor that the connection was given, the open one first.
abbrev pub given_files : UserData → List ℕ
given_files u = held u ++ u.closed_files

closed : UserData → UserData
closed u = record u { closed_files = u.file_fd ∷ u.closed_files; file_fd = 0 }

pub close_file-given :
    (u : UserData) → ((close_file u).file_fd ≡ 0) × ((close_file u).closed_files ≡ given_files u)
unfolding close_file closed
close_file-given u = elim (Bool-cases (u.file_fd == 0)) [
  | inl e ↦
      let same = ap (λ b. if b then u else closed u) e in
      (
        ap (λ v. v.file_fd) same ∙ (==_iff u.file_fd 0).0 e,
        ap (λ v. v.closed_files) same
            ∙ ap (λ b. (if b then [] else u.file_fd ∷ []) ++ u.closed_files) (sym e),
      )
  | inr e ↦
      let same = ap (λ b. if b then u else closed u) e in
      (
        ap (λ v. v.file_fd) same,
        ap (λ v. v.closed_files) same
            ∙ ap (λ b. (if b then [] else u.file_fd ∷ []) ++ u.closed_files) (sym e),
      )
]

-- The connection holds no file, and has closed exactly these.
abbrev pub HasClosed : List ℕ → Connection → Type 0
HasClosed files ctx = (ctx.user_data.file_fd ≡ 0) × (ctx.user_data.closed_files ≡ files)

of_result :
    (files : List ℕ) (a b : CallbackStatus × Connection)
    → HasClosed files a.1
    → done a ≡ done b
    → HasClosed files b.1
of_result files a b h same = subst (λ r. HasClosed files r.1) (done-injective same) h

-- The end of a response and the end of a connection, when they return, close the file that is open, if
-- one is, and no file a second time.
pub finish-HasClosed :
    (env : Env) (ctx : Connection) (finished cleaned : CallbackStatus × Connection)
    → finish_request env ctx ≡ done finished
    → plain http_cleanup ctx ≡ done cleaned
    → HasClosed (given_files ctx.user_data) finished.1
      × HasClosed (given_files ctx.user_data) cleaned.1
unfolding finish_request plain accept_logic reset async_read
finish-HasClosed env ctx finished cleaned f c =
    let (none_open, all_closed) = close_file-given ctx.user_data in
    (
      elim (Bool-cases (env.set_cork false)) [
        | inl e ↦
            of_result (given_files ctx.user_data) _ finished (refl, all_closed) (if-eq-then _ _ e f)
        | inr e ↦ absurd (let bad : exited 1 ≡ done finished = if-eq-else _ _ e f in cc)
      ],
      of_result (given_files ctx.user_data) _ cleaned (none_open, all_closed) c,
    )

held-none : (u : UserData) → u.file_fd ≡ 0 → given_files u ≡ u.closed_files
held-none u e = ap (λ fd. (if fd == 0 then [] else fd ∷ []) ++ u.closed_files) e

held-some :
    (fd : ℕ) (files : List ℕ) → fd ≢ 0 → (if fd == 0 then [] else fd ∷ []) ++ files ≡ fd ∷ files
held-some fd files n =
    let differ : (fd == 0) ≡ false = ground arith in
    ap (λ b. (if b then [] else fd ∷ []) ++ files) differ

-- A file that was refused behind `open` is closed at once.
refused-given :
    (fd : ℕ) (u : UserData)
    → u.file_fd ≡ 0
    → given_files (return_404 (record u { closed_files = fd ∷ u.closed_files }))
      ≡ fd ∷ given_files u
unfolding return_404 finish_with
refused-given fd u e =
    held-none (record u { closed_files = fd ∷ u.closed_files }) e
    ∙ ap (λ fds. fd ∷ fds) (sym (held-none u e))

stat_file-given :
    (st : Option Stat) (fd : ℕ) (view : Bytes) (u : UserData)
    → u.file_fd ≡ 0
    → fd ≢ 0
    → given_files (stat_file st fd view u) ≡ fd ∷ given_files u
unfolding stat_file
stat_file-given none fd view u e n = refused-given fd u e
stat_file-given (some st) fd view u e n = elim (Bool-cases st.is_regular) [
  | inl r ↦ rw r (held-some fd u.closed_files n ∙ ap (λ fds. fd ∷ fds) (sym (held-none u e)))
  | inr r ↦ rw r (refused-given fd u e)
]

-- The descriptor that `open` gives for a path, where the path is let through and `open` succeeds.
abbrev pub opened_by : Files → Bytes → Option ℕ
opened_by files url =
    if ltb (max_url_size - 20) (length (before_query url)) || length (before_query url) == 0
    then none
    else (normalize (before_query url) >>= λ o. files.open_path (opened_name o))

abbrev pub listed : Option ℕ → List ℕ
listed none = []
listed (some fd) = fd ∷ []

not_found-given : (u : UserData) → given_files (return_404 u) ≡ given_files u
unfolding return_404 finish_with
not_found-given u = refl

open_file-given :
    (files : Files) (view : Bytes) (u : UserData) (fd : Option ℕ)
    → ((taken : ℕ) → fd ≡ some taken → taken ≢ 0)
    → u.file_fd ≡ 0
    → given_files (open_file files fd view u) ≡ listed fd ++ given_files u
unfolding open_file
open_file-given files view u none real e = not_found-given u
open_file-given files view u (some fd) real e =
    stat_file-given (files.fstat fd) fd view u e (real fd refl)

-- When a connection holds no file, and `open` never gives the descriptor of the standard input, then
-- behind `parse_url` exactly the file that `open` gave, if it gave one, is held or already closed, once.
pub parse_url-given :
    (files : Files) (url : Bytes) (u u' : UserData)
    → ((name : Bytes) (fd : ℕ) → files.open_path name ≡ some fd → fd ≢ 0)
    → u.file_fd ≡ 0
    → parse_url files url u ≡ some u'
    → given_files u' ≡ listed (opened_by files url) ++ given_files u
unfolding parse_url
parse_url-given files url u u' real e h =
    elim (Bool-cases
      (ltb (max_url_size - 20) (length (before_query url)) || length (before_query url) == 0)) [
        | inl long ↦
            ap given_files (sym (done-injective (ap or_fault (if-eq-then _ _ long h))))
            ∙ not_found-given u
            ∙ ap
                (λ b.
                  listed (
                    if b
                    then none
                    else (normalize (before_query url) >>= λ o. files.open_path (opened_name o)))
                  ++ given_files u)
                (sym long)
        | inr fits ↦ elim (Option-cases (normalize (before_query url))) [
          | inl none' ↦ absurd (
              let bad : ◌≡◌ {A = Option UserData} none (some u') =
                rw none' at (if-eq-else _ _ fits h) in
              cc)
          | inr (o, some') ↦
              ap given_files
                (sym (done-injective (ap or_fault (rw some' at (if-eq-else _ _ fits h)))))
              ∙ open_file-given files o.before u (files.open_path (opened_name o))
                  (real (opened_name o)) e
              ∙ ap (λ r. listed (r >>= λ o. files.open_path (opened_name o)) ++ given_files u)
                  (sym some')
              ∙ ap
                  (λ b.
                    listed (
                      if b
                      then none
                      else (normalize (before_query url) >>= λ o. files.open_path (opened_name o)))
                    ++ given_files u)
                  (sym fits)
        ]
      ]
