-- ===== src/Http/CleanPath/Fresh.antt =====
-- A path with no `..` leaves the rest of the buffer of `clean_path` (src/http/yta_http.cpp) as it was.
use yotta.Prelude.{
  ℕ, zero, suc, ◌≡◌, ◌≢◌, refl, sym, ap, ◌∙◌, inl, inr, Bool, true, false, not, ◌&&◌, ◌||◌, Option,
  none, some, some-injective, [], ◌∷◌, Bytes, length, ◌==◌, if◌then◌else◌, Bool-cases, if-eq-then,
  if-eq-else, All, subst, ◌>>=◌,
}
use yotta.Http.CleanPath.{
  Output, slash, dot, put, put_at, offset, at_boundary, is_dot, is_dotdot, separate, copy_element,
  clean_loop, finish, is_rooted, clean_path,
}
use yotta.Http.CleanPath.Spec.{components, is_parent}
use yotta.Http.CleanPath.Steps.{
  element_of, behind, following, components-element, behind-at_boundary,
}
use yotta.Http.CleanPath.Loop.{element-is_dot, element-is_dotdot}

abbrev pub IsZero : ℕ → Type 0
IsZero c = c ≡ 0

-- Behind the output pointer there is nothing but zeros.
abbrev pub IsFreshBehind : Output → Type 0
IsFreshBehind o = All IsZero o.after

-- No element of the path leads up.
abbrev pub NoParent : Bytes → Type 0
NoParent path = All (λ w. is_parent w ≡ false) (components path)

-- What a step that succeeds keeps.
abbrev pub KeepsFresh : Option Output → Type 0
KeepsFresh r = (o : Output) → r ≡ some o → IsFreshBehind o

pub >>=-eq-some :
    {A B : Type 0} (m : Option A) (f : A → Option B) {b : B}
    → (m >>= f) ≡ some b
    → (a : A) × (m ≡ some a) × (f a ≡ some b)
>>=-eq-some none f {b} h = cc
>>=-eq-some (some a) f h = (a, refl, h)

put_at-KeepsFresh :
    (c : ℕ) (before after : Bytes) → All IsZero after → KeepsFresh (put_at before after c)
unfolding put_at
put_at-KeepsFresh c before [] v o' h =
    absurd (let bad : ◌≡◌ {A = Option Output} none (some o') = h in cc)
put_at-KeepsFresh c before (old ∷ after) (z, v) o' h = subst IsFreshBehind (some-injective h) v

pub put-KeepsFresh : (c : ℕ) (o : Output) → IsFreshBehind o → KeepsFresh (put c o)
unfolding put
put-KeepsFresh c o v = put_at-KeepsFresh c o.before o.after v

pub if-KeepsFresh :
    (b : Bool) {x y : Option Output} → KeepsFresh x → KeepsFresh y → KeepsFresh (if b then x else y)
if-KeepsFresh true h k = h
if-KeepsFresh false h k = k

pub same-KeepsFresh : (o : Output) → IsFreshBehind o → KeepsFresh (some o)
same-KeepsFresh o v o' h = subst IsFreshBehind (some-injective h) v

none-KeepsFresh : KeepsFresh none
none-KeepsFresh o h = cc

separate-KeepsFresh :
    (rooted : Bool) (o : Output) → IsFreshBehind o → KeepsFresh (separate rooted o)
unfolding separate
separate-KeepsFresh rooted o v =
    if-KeepsFresh ((rooted && not (offset o == 1)) || (not rooted && not (offset o == 0)))
      (put-KeepsFresh slash o v) (same-KeepsFresh o v)

finish-KeepsFresh : (o : Output) → IsFreshBehind o → KeepsFresh (finish o)
unfolding finish
finish-KeepsFresh o v = if-KeepsFresh (offset o == 0) (put-KeepsFresh dot o v) (same-KeepsFresh o v)

copy_element-fresh :
    (path : Bytes) (o : Output) (path' : Bytes) (o' : Output)
    → IsFreshBehind o
    → copy_element path o ≡ some (path', o')
    → (path' ≡ behind path) × IsFreshBehind o'
unfolding copy_element behind
copy_element-fresh [] o path' o' v h =
    let same = some-injective h in
    (sym (ap (λ r. r.0) same), subst (λ (r : Bytes × Output). IsFreshBehind r.1) same v)
copy_element-fresh (c ∷ path) o path' o' v h = elim (Bool-cases (c == slash)) [
  | inl e ↦
      let same = some-injective (if-eq-then _ _ e h) in
      (
        sym (ap (λ r. r.0) same) ∙ rw e refl,
        subst (λ (r : Bytes × Output). IsFreshBehind r.1) same v,
      )
  | inr e ↦
      let (o₁, wrote, h₁) = >>=-eq-some (put c o) _ (if-eq-else _ _ e h) in
      let (b, v') = copy_element-fresh path o₁ path' o' (put-KeepsFresh c o v o₁ wrote) h₁ in
      (b ∙ rw e refl, v')
]

following-components :
    (path : Bytes)
    → at_boundary path ≡ true
    → All (λ w. is_parent w ≡ false) (following path)
    → NoParent path
unfolding following components at_boundary is_parent
following-components [] h v = (refl, tt)
following-components (c ∷ path) h v = rw h (refl, v)

-- The path behind its first element.
behind-NoParent :
    (path : Bytes) → NoParent path → (is_parent (element_of path) ≡ false) × NoParent (behind path)
behind-NoParent path v =
    let (first, rest) = subst (All (λ w. is_parent w ≡ false)) (components-element path) v in
    (first, following-components (behind path) (behind-at_boundary path) rest)

slash-NoParent : (c : ℕ) (path : Bytes) → (c == slash) ≡ true → NoParent (c ∷ path) → NoParent path
unfolding components
slash-NoParent c path e v = (rw e at v).1

dot-NoParent : (c : ℕ) (path : Bytes) → is_dot c path ≡ true → NoParent (c ∷ path) → NoParent path
dot-NoParent c path e n =
    let (_, same, _) = element-is_dot c path e in
    subst NoParent same (behind-NoParent (c ∷ path) n).1

not_dotdot : (c : ℕ) (path : Bytes) → NoParent (c ∷ path) → is_dotdot c path ≢ true
unfolding is_parent
not_dotdot c path n e =
    let (same, _, _, _) = element-is_dotdot c path e in
    let bad : true ≡ false = sym (ap is_parent same) ∙ (behind-NoParent (c ∷ path) n).0 in cc

-- The branch that copies an element.
copied-KeepsFresh :
    (rooted : Bool) (path : Bytes) (o : Output) (next : Bytes → Output → Option Output)
    → NoParent path
    → IsFreshBehind o
    → ((path' : Bytes) (o' : Output)
        → NoParent path'
        → IsFreshBehind o'
        → KeepsFresh (next path' o'))
    → KeepsFresh (do o₁ ← separate rooted o; (path', o₂) ← copy_element path o₁; next path' o₂)
copied-KeepsFresh rooted path o next n v k o' h =
    let (o₁, separated, h₁) = >>=-eq-some (separate rooted o) _ h in
    let ((path', o₂), copied, h₂) = >>=-eq-some (copy_element path o₁) _ h₁ in
    let (same, v') =
      copy_element-fresh path o₁ path' o₂ (separate-KeepsFresh rooted o v o₁ separated) copied in
    k path' o₂ (subst NoParent (sym same) (behind-NoParent path n).1) v' o' h₂

clean_loop-KeepsFresh :
    (fuel : ℕ) (rooted : Bool) (path : Bytes) (dotdot : ℕ) (o : Output)
    → NoParent path
    → IsFreshBehind o
    → KeepsFresh (clean_loop fuel rooted path dotdot o)
unfolding clean_loop
clean_loop-KeepsFresh fuel rooted [] dotdot o n v = same-KeepsFresh o v
clean_loop-KeepsFresh zero rooted (c ∷ path) dotdot o n v = none-KeepsFresh
clean_loop-KeepsFresh (suc fuel) rooted (c ∷ path) dotdot o n v = elim (Bool-cases (c == slash)) [
  | inl e ↦ rw e (clean_loop-KeepsFresh fuel rooted path dotdot o (slash-NoParent c path e n) v)
  | inr e ↦ elim (Bool-cases (is_dot c path)) [
    | inl d ↦
        rw (e, d) (clean_loop-KeepsFresh fuel rooted path dotdot o (dot-NoParent c path d n) v)
    | inr d ↦ elim (Bool-cases (is_dotdot c path)) [
      | inl dd ↦ absurd (not_dotdot c path n dd)
      | inr dd ↦
          rw (e, d, dd)
            (copied-KeepsFresh rooted (c ∷ path) o
              (λ path' o'. clean_loop fuel rooted path' dotdot o') n v
              (λ path' o' n' v'. clean_loop-KeepsFresh fuel rooted path' dotdot o' n' v'))
    ]
  ]
]

started-KeepsFresh :
    (fuel : ℕ) (rooted : Bool) (path : Bytes) (dotdot : ℕ) (o : Output)
    → NoParent path
    → IsFreshBehind o
    → KeepsFresh (do o' ← clean_loop fuel rooted path dotdot o; finish o')
started-KeepsFresh fuel rooted path dotdot o n v o' h =
    let (o₁, run, h₁) = >>=-eq-some (clean_loop fuel rooted path dotdot o) _ h in
    finish-KeepsFresh o₁ (clean_loop-KeepsFresh fuel rooted path dotdot o n v o₁ run) o' h₁

-- A path with no element `..` leaves the rest of a buffer of zeros as it was.
pub clean_path-KeepsFresh :
    (path buffer : Bytes) → NoParent path → All IsZero buffer → KeepsFresh (clean_path path buffer)
unfolding clean_path is_rooted
clean_path-KeepsFresh [] buffer n v = put-KeepsFresh dot (record { before = []; after = buffer }) v
clean_path-KeepsFresh (c ∷ path) buffer n v = elim (Bool-cases (c == slash)) [
  | inl e ↦ rw e (λ o' h.
      let (o₁, wrote, h₁) = >>=-eq-some (put slash (record { before = []; after = buffer })) _ h in
      started-KeepsFresh (length path) true path 1 o₁ (slash-NoParent c path e n)
        (put-KeepsFresh slash (record { before = []; after = buffer }) v o₁ wrote) o' h₁)
  | inr e ↦ rw e (
      started-KeepsFresh (length (c ∷ path)) false (c ∷ path) 0
        (record { before = []; after = buffer }) n v)
]
