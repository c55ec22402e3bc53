-- ===== src/Http/CleanPath/Loop.antt =====
-- The loop of `clean_path` (src/http/yta_http.cpp) does what resolving the elements does.
use yotta.Prelude.{
  ℕ, suc, ◌+◌, ◌≤◌, ◌≡◌, refl, ap, ◌∙◌, Bool, true, false, Option, some, [], ◌∷◌, arith, Bytes,
  length, ◌==◌, if◌then◌else◌, All,
}
use yotta.Http.CleanPath.{
  slash, dot, Output, at_boundary, is_dot, is_dotdot, parent, separate, copy_element, clean_loop,
  rest_of,
}
use yotta.Http.CleanPath.Spec.{
  IsElement, is_current, is_parent, resolve, components, resolve_all, Place,
}
use yotta.Http.CleanPath.Steps.{
  element_of, behind, walk, walk-element, element_of-boundary, behind-boundary, element_of-NoSlash,
}
use yotta.Http.CleanPath.Rendering.{base, separated, render}

abbrev pub bytes_of : Bool → Place → Bytes
bytes_of rooted p = render rooted p.ups p.open_elements

abbrev pub limit_of : Bool → Place → ℕ
limit_of rooted p = length (base rooted p.ups)

-- What is written and what is unread fit `room` together, with the separator that comes first.
abbrev pub Fits : ℕ → Bool → Place → Bytes → Type 0
Fits room rooted p path =
    if at_boundary path
    then length (bytes_of rooted p) + length path ≤ room
    else length (separated rooted (bytes_of rooted p)) + length path ≤ room

-- The loop, started behind the bytes of `p`, ends with the bytes of `q`, within `room` bytes of a
-- buffer of `size` bytes.
abbrev pub Reaches : Option Output → ℕ → ℕ → Bytes → Type 0
Reaches r room size bytes =
    (after : Bytes) × (r ≡ some (record { before = bytes; after = after }))
    × (length after + length bytes ≡ size)
    × (length bytes ≤ room)

-- The steps of the loop, by the element that comes next.
pub loop_slash :
    (fuel : ℕ) (rooted : Bool) (c : ℕ) (path : Bytes) (dotdot : ℕ) (o : Output)
    → (c == slash) ≡ true
    → clean_loop (suc fuel) rooted (c ∷ path) dotdot o ≡ clean_loop fuel rooted path dotdot o
unfolding clean_loop
loop_slash fuel rooted c path dotdot o e = rw e

pub loop_dot :
    (fuel : ℕ) (rooted : Bool) (c : ℕ) (path : Bytes) (dotdot : ℕ) (o : Output)
    → is_dot c path ≡ true
    → clean_loop (suc fuel) rooted (c ∷ path) dotdot o ≡ clean_loop fuel rooted path dotdot o
unfolding clean_loop
loop_dot fuel rooted c path dotdot o e = ground arith

pub loop_dotdot :
    (fuel : ℕ) (rooted : Bool) (c : ℕ) (path : Bytes) (dotdot dotdot' : ℕ) (o o' : Output)
    → (c == slash) ≡ false
    → is_dot c path ≡ false
    → is_dotdot c path ≡ true
    → parent rooted dotdot o ≡ some (dotdot', o')
    → clean_loop (suc fuel) rooted (c ∷ path) dotdot o
      ≡ clean_loop fuel rooted (rest_of path) dotdot' o'
unfolding clean_loop
loop_dotdot fuel rooted c path dotdot dotdot' o o' h₁ h₂ h₃ e = rw (h₁, h₂, h₃, e)

pub loop_element :
    (fuel : ℕ) (rooted : Bool) (c : ℕ) (path path' : Bytes) (dotdot : ℕ) (o o₁ o₂ : Output)
    → (c == slash) ≡ false
    → is_dot c path ≡ false
    → is_dotdot c path ≡ false
    → separate rooted o ≡ some o₁
    → copy_element (c ∷ path) o₁ ≡ some (path', o₂)
    → clean_loop (suc fuel) rooted (c ∷ path) dotdot o ≡ clean_loop fuel rooted path' dotdot o₂
unfolding clean_loop
loop_element fuel rooted c path path' dotdot o o₁ o₂ h₁ h₂ h₃ s e = rw (h₁, h₂, h₃, s, e)

-- What the tests say of the element that comes next.
pub element-is_dot :
    (c : ℕ) (path : Bytes)
    → is_dot c path ≡ true
    → (element_of (c ∷ path) ≡ dot ∷ []) × (behind (c ∷ path) ≡ path) × (at_boundary path ≡ true)
unfolding is_dot element_of behind
element-is_dot c path h = ground (arith, element_of-boundary path, behind-boundary path)

pub element-is_dotdot :
    (c : ℕ) (path : Bytes)
    → is_dotdot c path ≡ true
    → (element_of (c ∷ path) ≡ dot ∷ dot ∷ [])
      × (behind (c ∷ path) ≡ rest_of path)
      × (at_boundary (rest_of path) ≡ true)
      × (suc (length (rest_of path)) ≡ length path)
unfolding is_dotdot element_of behind
element-is_dotdot c [] h = cc
element-is_dotdot c (d ∷ path) h = ground (arith, element_of-boundary path, behind-boundary path)

current-element :
    (c : ℕ) (path : Bytes) → is_dot c path ≡ false → is_current (c ∷ element_of path) ≡ false
unfolding is_dot is_current element_of
current-element c [] h = ground arith
current-element c (d ∷ path) h = ground arith

parent-element_of :
    (c : ℕ) (path : Bytes) → is_dotdot c path ≡ false → is_parent (c ∷ element_of path) ≡ false
unfolding is_dotdot is_parent element_of at_boundary
parent-element_of c [] h = refl
parent-element_of c (d ∷ []) h = ground arith
parent-element_of c (d ∷ e ∷ path) h = ground arith

pub element_of-cons :
    (c : ℕ) (path : Bytes)
    → (c == slash) ≡ false
    → (element_of (c ∷ path) ≡ c ∷ element_of path) × (behind (c ∷ path) ≡ behind path)
unfolding element_of behind
element_of-cons c path h = (rw h, rw h)

-- An element that is neither `.` nor `..` is a proper name.
pub element_of-IsElement :
    (c : ℕ) (path : Bytes)
    → (c == slash) ≡ false
    → is_dot c path ≡ false
    → is_dotdot c path ≡ false
    → IsElement (element_of (c ∷ path))
element_of-IsElement c path h₁ h₂ h₃ = record {
  no_slash = element_of-NoSlash (c ∷ path);
  not_current = rw ((element_of-cons c path h₁).0) (current-element c path h₂);
  not_parent = rw ((element_of-cons c path h₁).0) (parent-element_of c path h₃);
}

-- How an element changes the place.
pub resolve-current :
    (rooted : Bool) (p : Place) (w : Bytes) → is_current w ≡ true → resolve rooted p w ≡ p
unfolding resolve
resolve-current rooted p w h = rw h

pub resolve-proper :
    (rooted : Bool) (p : Place) (w : Bytes)
    → IsElement w
    → resolve rooted p w ≡ record p { open_elements = w ∷ p.open_elements }
unfolding resolve
resolve-proper rooted p w h = rw (h.not_current, h.not_parent)

pub walk-skip :
    (rooted : Bool) (p : Place) (path : Bytes)
    → is_current (element_of path) ≡ true
    → walk rooted p path ≡ walk rooted p (behind path)
walk-skip rooted p path h =
    walk-element rooted p path
    ∙ ap (λ q. walk rooted q (behind path)) (resolve-current rooted p (element_of path) h)

pub walk-slash :
    (rooted : Bool) (p : Place) (c : ℕ) (path : Bytes)
    → (c == slash) ≡ true
    → walk rooted p (c ∷ path) ≡ walk rooted p path
unfolding walk components resolve_all resolve
walk-slash rooted p c path e = rw e

pub walk-nil : (rooted : Bool) (p : Place) → walk rooted p [] ≡ p
unfolding walk components resolve_all resolve
walk-nil rooted p = refl

-- All open elements are proper names.
abbrev pub IsProper : Place → Type 0
IsProper p = All IsElement p.open_elements
