-- ===== src/Server/Handler/Buffer/Kept.antt =====
-- What the handlers of a request in src/yotta.cpp leave as it is: the request buffer and its count.
use yotta.Prelude.{
  ℕ, ◌-◌, ◌≡◌, refl, ap, subst, ◌∙◌, inl, inr, Bool, not, Option, none, some, List, [], ◌∷◌, Bytes,
  length, ltb, ◌==◌, if◌then◌else◌, Bool-cases, if-eq-else, Option-cases, ◌++◌, ◌||◌, take, codes,
}
use yotta.Prelude.Int.{pos, leb_ℤ}
use yotta.Core.Outcome.{Outcome, done, or_fault, >>=-eq-done, done-injective, or_fault-done}
use yotta.Server.State.{
  UserData, Stat, Header, finish_with, return_400, return_404, return_304, max_url_size,
}
use yotta.Server.Url.{Files, parse_url, open_file, stat_file, before_query, normalize, bytes_eq}
use yotta.Server.Headers.{
  Dates, parse_headers, header_loop, handle_header, handle_if_modified_since, handle_range,
  respond_200, respond_206, range_length, range_parts, respond, range_end, stoi,
}
use yotta.Server.Handler.{Env, ParseStatus, malformed, incomplete, complete, handle_parsed}

-- What the handlers of a request leave alone.
abbrev pub SameBuffer : UserData → UserData → Type 0
SameBuffer u u' = (u'.buf ≡ u.buf) × (u'.counter ≡ u.counter)

finish_with-SameBuffer : (text : Bytes) (u : UserData) → SameBuffer u (finish_with text u)
unfolding finish_with
finish_with-SameBuffer text u = (refl, refl)

stat_file-SameBuffer :
    (st : Option Stat) (ffd : ℕ) (view : Bytes) (u : UserData)
    → SameBuffer u (stat_file st ffd view u)
unfolding stat_file return_404 finish_with
stat_file-SameBuffer none ffd view u = (refl, refl)
stat_file-SameBuffer (some st) ffd view u = elim (Bool-cases st.is_regular) [
  | inl e ↦ rw e (refl, refl)
  | inr e ↦ rw e (refl, refl)
]

open_file-SameBuffer :
    (files : Files) (fd : Option ℕ) (view : Bytes) (u : UserData)
    → SameBuffer u (open_file files fd view u)
unfolding open_file
open_file-SameBuffer files none view u = unfold return_404 in finish_with-SameBuffer _ u
open_file-SameBuffer files (some ffd) view u = stat_file-SameBuffer (files.fstat ffd) ffd view u

parse_url-SameBuffer :
    (files : Files) (url : Bytes) (u u' : UserData)
    → parse_url files url u ≡ some u'
    → SameBuffer u u'
unfolding parse_url
parse_url-SameBuffer files url u u' h =
    elim (Bool-cases
      (ltb (max_url_size - 20) (length (before_query url)) || length (before_query url) == 0)) [
        | inl e ↦
            subst (SameBuffer u) (done-injective (ap or_fault (rw e at h)))
              (unfold return_404 in finish_with-SameBuffer _ u)
        | inr e ↦ elim (Option-cases (normalize (before_query url))) [
          | inl none' ↦
              absurd
                (let bad : ◌≡◌ {A = Option UserData} none (some u') = rw none' at (rw e at h) in cc)
          | inr (o, some') ↦
              subst (SameBuffer u) (done-injective (ap or_fault (rw some' at (rw e at h))))
                (open_file-SameBuffer files _ o.before u)
        ]
      ]

range_parts-SameBuffer :
    (dates : Dates) (first rest : Bytes) (u u' : UserData)
    → range_parts dates first rest u ≡ done u'
    → SameBuffer u u'
unfolding range_parts
range_parts-SameBuffer dates first [] u u' h =
    subst (SameBuffer u) (done-injective h) (unfold return_400 in finish_with-SameBuffer _ u)
range_parts-SameBuffer dates [] (d ∷ last) u u' h =
    subst (SameBuffer u) (done-injective h) (unfold return_400 in finish_with-SameBuffer _ u)
range_parts-SameBuffer dates (c ∷ first) (d ∷ last) u u' h =
    let (start, _, h₁) = >>=-eq-done (stoi (c ∷ first)) _ h in
    let (end, _, h₂) = >>=-eq-done (range_end last u.file_stat.st_size) _ h₁ in
    let (count, _, h₃) = >>=-eq-done (range_length _ _) _ h₂ in
    subst (SameBuffer u) (done-injective h₃) (unfold respond_206 in (refl, refl))

handle_range-SameBuffer :
    (dates : Dates) (value : Bytes) (u u' : UserData)
    → handle_range dates value u ≡ done u'
    → SameBuffer u u'
unfolding handle_range
handle_range-SameBuffer dates value u u' h = elim (Bool-cases (ltb (length value) 8)) [
  | inl e ↦
      subst (SameBuffer u) (done-injective (rw e at h))
        (unfold return_400 in finish_with-SameBuffer _ u)
  | inr e ↦ elim (Bool-cases (not (bytes_eq (take 6 value) (codes "bytes=")))) [
    | inl e' ↦
        subst (SameBuffer u) (done-injective (rw e' at (rw e at h)))
          (unfold return_400 in finish_with-SameBuffer _ u)
    | inr e' ↦ range_parts-SameBuffer dates _ _ u u' (rw e' at (rw e at h))
  ]
]

handle_if_modified_since-SameBuffer :
    (dates : Dates) (value behind : Bytes) (u : UserData)
    → SameBuffer u (handle_if_modified_since dates value behind u).1
unfolding handle_if_modified_since return_400 return_304 finish_with
handle_if_modified_since-SameBuffer dates value behind u =
    elim (Option-cases (dates.parse_date (value ++ behind))) [
      | inl e ↦ rw (e, handle_if_modified_since) (refl, refl)
      | inr (time, e) ↦ elim (Bool-cases (leb_ℤ (pos u.file_stat.st_mtime) time)) [
        | inl t ↦ rw (e, t, handle_if_modified_since) (refl, refl)
        | inr t ↦ rw (e, t, handle_if_modified_since) (refl, refl)
      ]
    ]

handle_header-SameBuffer :
    (dates : Dates) (h : Header) (u : UserData) (r : Bool × UserData)
    → handle_header dates h u ≡ done r
    → SameBuffer u r.1
unfolding handle_header
handle_header-SameBuffer dates (name, (value, behind)) u r h =
    elim (Bool-cases (bytes_eq name (codes "If-Modified-Since"))) [
      | inl e ↦
          subst (λ (x : Bool × UserData). SameBuffer u x.1) (done-injective (rw e at h))
            (handle_if_modified_since-SameBuffer dates value behind u)
      | inr e ↦ elim (Bool-cases (bytes_eq name (codes "Range"))) [
        | inl e' ↦
            let (u', ranged, h₁) =
              >>=-eq-done (handle_range dates value u) _ (rw e' at (rw e at h)) in
            subst (λ (x : Bool × UserData). SameBuffer u x.1) (done-injective h₁)
              (handle_range-SameBuffer dates value u u' ranged)
        | inr e' ↦
            subst (λ (x : Bool × UserData). SameBuffer u x.1)
              (done-injective (rw e' at (rw e at h))) (refl, refl)
      ]
    ]

respond-SameBuffer : (dates : Dates) (u : UserData) → SameBuffer u (respond dates u)
unfolding respond respond_200
respond-SameBuffer dates u = elim (Bool-cases u.finalized) [
  | inl e ↦ rw e (refl, refl)
  | inr e ↦ rw e (refl, refl)
]

-- The rest of the loop behind one header.
abbrev after_header : Dates → List Header → Bool × UserData → Outcome UserData
after_header dates hs (finished, u) = if finished then done u else header_loop dates hs u

header_loop-SameBuffer :
    (dates : Dates) (hs : List Header) (u u' : UserData)
    → header_loop dates hs u ≡ done u'
    → SameBuffer u u'
unfolding header_loop
header_loop-SameBuffer dates [] u u' h =
    subst (SameBuffer u) (done-injective h) (respond-SameBuffer dates u)
header_loop-SameBuffer dates (x ∷ hs) u u' h = elim (Bool-cases u.finalized) [
  | inl e ↦ subst (SameBuffer u) (done-injective (rw e at h)) (refl, refl)
  | inr e ↦
      let ((finished, u₁), first, h₁) =
        >>=-eq-done (handle_header dates x u) (after_header dates hs) (if-eq-else _ _ e h) in
      let same = handle_header-SameBuffer dates x u (finished, u₁) first in
      elim (Bool-cases finished) [
        | inl f ↦ subst (SameBuffer u) (done-injective (rw f at h₁)) same
        | inr f ↦
            let (b, c) = header_loop-SameBuffer dates hs u₁ u' (rw f at h₁) in
            (b ∙ same.0, c ∙ same.1)
      ]
]

parse_headers-SameBuffer :
    (dates : Dates) (u u' : UserData) → parse_headers dates u ≡ done u' → SameBuffer u u'
unfolding parse_headers
parse_headers-SameBuffer dates u u' h = header_loop-SameBuffer dates _ u u' h

pub handle_parsed-SameBuffer :
    (env : Env) (s : ParseStatus) (u u' : UserData)
    → handle_parsed env s u ≡ done u'
    → SameBuffer u u'
unfolding handle_parsed
handle_parsed-SameBuffer env malformed u u' h =
    subst (SameBuffer u) (done-injective h) (unfold return_400 in finish_with-SameBuffer _ u)
handle_parsed-SameBuffer env incomplete u u' h =
    subst (SameBuffer u) (done-injective h) (refl, refl)
handle_parsed-SameBuffer env complete u u' h =
    let (u₁, parsed, h₁) = >>=-eq-done (or_fault (parse_url env.files u.parser.path u)) _ h in
    let same = parse_url-SameBuffer env.files u.parser.path u u₁ (or_fault-done _ parsed) in
    let (b, c) = parse_headers-SameBuffer env.dates u₁ u' h₁ in (b ∙ same.0, c ∙ same.1)
