-- ===== src/Http/CleanPath/Steps.antt =====
-- One lemma for each loop and step of `clean_path` of src/http/yta_http.cpp, on a buffer whose
-- pointer has the rendering of a `Place` before it.
use mathlib.Core.List.{reverse-cons}
use yotta.Prelude.{
  ℕ, suc, ◌+◌, ◌≤◌, ◌≡◌, ◌≢◌, refl, ◌∙◌, ◌⊎◌, inl, inr, Bool, true, some, List, [], ◌∷◌, ◌++◌,
  reverse, append_assoc, arith, Bytes, length, length-append, ◌==◌, if◌then◌else◌, Bool-cases,
}
use yotta.Http.CleanPath.{slash, at_boundary, back_up, copy_element}
use yotta.Http.CleanPath.Spec.{NoSlash, components, resolve_all, resolve, Place}

unfoldable pub element_of : Bytes → Bytes
element_of [] = []
element_of (c ∷ path) = if c == slash then [] else c ∷ element_of path

unfoldable pub behind : Bytes → Bytes
behind [] = []
behind (c ∷ path) = if c == slash then c ∷ path else behind path

pub element_of-NoSlash : (path : Bytes) → NoSlash (element_of path)
unfolding element_of
element_of-NoSlash [] = tt
element_of-NoSlash (c ∷ path) = ground (arith, element_of-NoSlash path)

pub behind-at_boundary : (path : Bytes) → at_boundary (behind path) ≡ true
unfolding behind at_boundary
behind-at_boundary [] = refl
behind-at_boundary (c ∷ path) = ground (arith, behind-at_boundary path)

pub length-element : (path : Bytes) → length (element_of path) + length (behind path) ≡ length path
unfolding element_of behind
length-element [] = omega arith
length-element (c ∷ path) = ground (arith, length-element path)

pub element_of-boundary : (path : Bytes) → at_boundary path ≡ true → element_of path ≡ []
unfolding element_of at_boundary
element_of-boundary [] h = refl
element_of-boundary (c ∷ path) h = ground arith

pub behind-boundary : (path : Bytes) → at_boundary path ≡ true → behind path ≡ path
unfolding behind at_boundary
behind-boundary [] h = refl
behind-boundary (c ∷ path) h = ground arith

unfoldable pub following : Bytes → List Bytes
following [] = []
following (c ∷ path) = components path

pub components-element :
    (path : Bytes) → components path ≡ element_of path ∷ following (behind path)
unfolding components element_of behind following
components-element [] = refl
components-element (c ∷ path) = ground (arith, components-element path)

unfoldable pub walk : Bool → Place → Bytes → Place
walk rooted p path = resolve_all rooted p (components path)

resolve_all-following :
    (rooted : Bool) (p : Place) (path : Bytes)
    → at_boundary path ≡ true
    → resolve_all rooted p (following path) ≡ walk rooted p path
unfolding resolve_all following walk components at_boundary
resolve_all-following rooted p [] h = refl
resolve_all-following rooted p (c ∷ path) h = ground arith

-- Walking on means to resolve the first element and to go on behind it.
pub walk-element :
    (rooted : Bool) (p : Place) (path : Bytes)
    → walk rooted p path ≡ walk rooted (resolve rooted p (element_of path)) (behind path)
unfolding walk
walk-element rooted p path = rw (components-element path) (
    unfold resolve_all in
    resolve_all-following rooted (resolve rooted p (element_of path)) (behind path)
      (behind-at_boundary path))

append-step : (c : ℕ) (w b : Bytes) → reverse (c ∷ w) ++ b ≡ reverse w ++ c ∷ b
append-step c w b = rw (reverse-cons c w) (append_assoc (reverse w) (c ∷ []) b)

-- The copying loop puts the next element behind what is there, if it fits.
pub copy_element_lem :
    (path before after : Bytes)
    → length (element_of path) ≤ length after
    → (after' : Bytes) × (copy_element path (record { before = before; after = after })
        ≡ some
            (behind path, record { before = reverse (element_of path) ++ before; after = after' }))
      × (length after' + length (element_of path) ≡ length after)
unfolding copy_element element_of behind
copy_element_lem [] before after h = (after, refl, omega arith)
copy_element_lem (c ∷ path) before [] h = elim (Bool-cases (c == slash)) [
  | inl e ↦ ([], rw e refl, rw e refl)
  | inr e ↦ absurd (ground arith)
]
copy_element_lem (c ∷ path) before (old ∷ after) h = elim (Bool-cases (c == slash)) [
  | inl e ↦ (old ∷ after, rw e refl, rw e (omega arith))
  | inr e ↦
      let (after', copied, sizes) = copy_element_lem path (c ∷ before) after (ground arith) in
      (after', rw (e, append-step c (element_of path) before) copied, rw e (omega arith))
]

back_up_further :
    (dotdot b : ℕ) (before : Bytes) (c : ℕ) (after : Bytes)
    → c ≢ slash
    → dotdot ≤ length before
    → back_up dotdot (b ∷ before) c after ≡ back_up dotdot before b (c ∷ after)
unfolding back_up
back_up_further dotdot b before c after hc h = ground arith

back_up_stop :
    (dotdot : ℕ) (before : Bytes) (c : ℕ) (after : Bytes)
    → (c ≡ slash) ⊎ (length before ≤ dotdot)
    → back_up dotdot before c after ≡ record { before = before; after = c ∷ after }
unfolding back_up
back_up_stop dotdot [] c after h = refl
back_up_stop dotdot (b ∷ before) c after h = ground arith

-- Backing up goes to the last slash,
pub back_up-slash :
    (w below : Bytes) (dotdot c : ℕ) (after : Bytes)
    → c ≢ slash
    → NoSlash w
    → dotdot ≤ length below
    → (after' : Bytes) × (back_up dotdot (w ++ slash ∷ below) c after
        ≡ record { before = below; after = slash ∷ after' })
      × (length after' ≡ length w + suc (length after))
back_up-slash [] below dotdot c after hc hw h = (
  c ∷ after,
  back_up_further dotdot slash below c after hc h ∙ back_up_stop dotdot below slash _ (inl refl),
  omega arith,
)
back_up-slash (b ∷ w) below dotdot c after hc (hb, hw) h =
    let (after', found, size) = back_up-slash w below dotdot b (c ∷ after) hb hw h in
    (
      after',
      back_up_further dotdot b (w ++ slash ∷ below) c after hc
            (omega (arith, length-append w (slash ∷ below)))
          ∙ found,
      omega arith,
    )

-- or to `dotdot`.
pub back_up-dotdot :
    (w below : Bytes) (dotdot c : ℕ) (after : Bytes)
    → c ≢ slash
    → NoSlash w
    → dotdot ≡ length below
    → (after' : Bytes) × (back_up dotdot (w ++ below) c after
        ≡ record { before = below; after = after' })
      × (length after' ≡ length w + suc (length after))
back_up-dotdot [] below dotdot c after hc hw h =
    (c ∷ after, back_up_stop dotdot below c after (inr (omega arith)), omega arith)
back_up-dotdot (b ∷ w) below dotdot c after hc (hb, hw) h =
    let (after', found, size) = back_up-dotdot w below dotdot b (c ∷ after) hb hw h in
    (
      after',
      back_up_further dotdot b (w ++ below) c after hc (omega (arith, length-append w below))
          ∙ found,
      omega arith,
    )
