-- ===== src/Http/CleanPath/Confinement.antt =====
-- Where the path that `clean_path` of src/http/yta_http.cpp writes can lead.
use yotta.Prelude.{
  suc, ◌≤◌, ◌≡◌, sym, true, some, List, [], ◌∷◌, reverse, Bytes, length, All, All-append, arith,
  subst,
}
use mathlib.Core.List.{reverse-cons}
use yotta.Http.CleanPath.{Output, clean_path, written, slash}
use yotta.Http.CleanPath.Spec.{
  IsElement, components, resolve_all, start, join, show, rooted_path, clean_spec,
}
use yotta.Http.CleanPath.Correctness.{
  clean_path-eq-clean_spec, components-NoSlash, resolve_all-IsProper,
}

pub All-reverse {ℓ κ} : {A : Type ℓ} (P : A → Type κ) (xs : List A) → All P xs → All P (reverse xs)
All-reverse P [] h = h
All-reverse P (x ∷ xs) (hx, h) =
    subst (All P) (sym (reverse-cons x xs))
      (All-append P (reverse xs) (x ∷ []) (All-reverse P xs h) (hx, tt))

-- A path that begins with a slash, in a buffer that is large enough, is written as a slash and proper
-- names joined by slashes: none is empty, `.` or `..`, and none has a slash, so it cannot lead upwards.
pub clean_path-stays_below :
    (path buffer : Bytes)
    → suc (length path) ≤ length buffer
    → (o : Output) × (names : List Bytes) × (clean_path (slash ∷ path) buffer ≡ some o)
      × (written o ≡ slash ∷ join names)
      × All IsElement names
unfolding clean_spec rooted_path show
clean_path-stays_below path buffer room =
    let (o, run, shown, _, _) = clean_path-eq-clean_spec (slash ∷ path) buffer (omega arith) in
    let place = resolve_all true start (components (slash ∷ path)) in
    (
      o,
      reverse place.open_elements,
      run,
      shown,
      All-reverse IsElement place.open_elements (
          resolve_all-IsProper true start (components (slash ∷ path))
            (components-NoSlash (slash ∷ path)) tt),
    )
