-- ===== src/Http/CleanPath/Rendering.antt =====
-- The bytes that stand before the pointer of `clean_path` (src/http/yta_http.cpp), last first, when
-- the elements read so far have led to a `Place`; and how `..` and an element change them.
use mathlib.Core.List.{reverse-cons}
use yotta.Prelude.{
  ℕ, zero, suc, ◌+◌, ◌≤◌, ◌≡◌, ◌≢◌, refl, ap, ◌∙◌, ◌⊎◌, inl, inr, Bool, true, false, not, ◌&&◌,
  ◌||◌, some, List, [], ◌∷◌, ◌++◌, reverse, arith, Bytes, length, length-append, ◌==◌,
  if◌then◌else◌, All-append, Bool-cases,
}
use yotta.Http.CleanPath.{slash, dot, back_up, add_dotdot, parent, separate}
use yotta.Http.CleanPath.Spec.{NoSlash, IsElement, is_current}
use yotta.Http.CleanPath.Steps.{back_up-slash, back_up-dotdot}

-- What `..` never removes: the root, or the leading `..` of a relative path.
unfoldable pub base : Bool → ℕ → Bytes
base true ups = slash ∷ []
base false zero = []
base false (suc zero) = dot ∷ dot ∷ []
base false (suc (suc ups)) = dot ∷ dot ∷ slash ∷ base false (suc ups)

unfoldable pub separated : Bool → Bytes → Bytes
separated rooted b =
    if (rooted && not (length b == 1)) || (not rooted && not (length b == 0)) then slash ∷ b else b

unfoldable pub render : Bool → ℕ → List Bytes → Bytes
unfolding separated
render rooted ups [] = base rooted ups
render rooted ups (w ∷ ws) = reverse w ++ separated rooted (render rooted ups ws)

pub base-le-render :
    (rooted : Bool) (ups : ℕ) (ws : List Bytes)
    → length (base rooted ups) ≤ length (render rooted ups ws)
unfolding render separated
base-le-render rooted ups [] = omega arith
base-le-render rooted ups (w ∷ ws) = ground (
  arith,
  base-le-render rooted ups ws,
  length-append (reverse w) (separated rooted (render rooted ups ws)),
)

-- The separator is written unless nothing but the root stands before the pointer.
pub separate_lem :
    (rooted : Bool) (before after : Bytes)
    → length (separated rooted before) ≤ length before + length after
    → (after' : Bytes) × (separate rooted (record { before = before; after = after })
        ≡ some (record { before = separated rooted before; after = after' }))
      × (length after' + length (separated rooted before) ≡ length before + length after)
unfolding separate separated
separate_lem true before [] h = ([], ground arith, ground arith)
separate_lem false before [] h = ([], ground arith, ground arith)
separate_lem true before (old ∷ after) h = elim (Bool-cases (length before == 1)) [
  | inl e ↦ (old ∷ after, rw e refl, rw e (omega arith))
  | inr e ↦ (after, rw e refl, rw e (omega arith))
]
separate_lem false before (old ∷ after) h = elim (Bool-cases (length before == 0)) [
  | inl e ↦ (old ∷ after, rw e refl, rw e (omega arith))
  | inr e ↦ (after, rw e refl, rw e (omega arith))
]

-- Where no separator is written, the pointer is at the base.
separated_cases :
    (rooted : Bool) (ups : ℕ) (ws : List Bytes)
    → (separated rooted (render rooted ups ws) ≡ slash ∷ render rooted ups ws)
      ⊎ ((separated rooted (render rooted ups ws) ≡ render rooted ups ws)
          × (length (base rooted ups) ≡ length (render rooted ups ws)))
unfolding separated base
separated_cases true ups ws = elim (Bool-cases (length (render true ups ws) == 1)) [
  | inl e ↦ inr (rw e refl, ground arith)
  | inr e ↦ inl (rw e refl)
]
separated_cases false ups ws = elim (Bool-cases (length (render false ups ws) == 0)) [
  | inl e ↦ inr (rw e refl, ground (arith, base-le-render false ups ws))
  | inr e ↦ inl (rw e refl)
]

reverse-NoSlash : (w : Bytes) → NoSlash w → NoSlash (reverse w)
reverse-NoSlash [] h = tt
reverse-NoSlash (c ∷ w) (hc, hw) =
    rw (reverse-cons c w) (All-append _ (reverse w) (c ∷ []) (reverse-NoSlash w hw) (hc, tt))

-- The last byte of an element, and those before it.
last_first :
    (w : Bytes)
    → IsElement w
    → (b : ℕ) × (u : Bytes) × (reverse w ≡ b ∷ u) × (b ≢ slash) × NoSlash u
unfolding is_current
last_first [] h = absurd (ground (arith, h.not_current))
last_first (c ∷ w) h = go (reverse (c ∷ w)) refl (reverse-NoSlash (c ∷ w) h.no_slash)
  where
    go :
        (r : Bytes)
        → reverse (c ∷ w) ≡ r
        → NoSlash r
        → (b : ℕ) × (u : Bytes) × (reverse (c ∷ w) ≡ b ∷ u) × (b ≢ slash) × NoSlash u
    go [] e n = absurd (
        ground (
          arith,
          reverse-cons c w,
          ap length e,
          ap length (reverse-cons c w),
          length-append (reverse w) (c ∷ []),
        ))
    go (b ∷ u) e (nb, nu) = (b, u, e, nb, nu)

back_up-element :
    (rooted : Bool) (ups : ℕ) (ws : List Bytes) (b : ℕ) (u after : Bytes)
    → b ≢ slash
    → NoSlash u
    → (after' : Bytes) × (back_up
          (length (base rooted ups))
          (u ++ separated rooted (render rooted ups ws))
          b
          after
        ≡ record { before = render rooted ups ws; after = after' })
      × (length after' + length (render rooted ups ws)
          ≡ suc (length (u ++ separated rooted (render rooted ups ws))) + length after)
back_up-element rooted ups ws b u after hb hu = elim (separated_cases rooted ups ws) [
  | inl e ↦
      let (rest, found, size) =
        back_up-slash u (render rooted ups ws) _ b after hb hu (base-le-render rooted ups ws) in
      (
        slash ∷ rest,
        rw e found,
        rw e (omega (arith, length-append u (slash ∷ render rooted ups ws))),
      )
  | inr (e, same) ↦
      let (rest, found, size) = back_up-dotdot u (render rooted ups ws) _ b after hb hu same in
      (rest, rw e found, rw e (omega (arith, length-append u (render rooted ups ws))))
]

base-le-separated :
    (rooted : Bool) (ups : ℕ) (ws : List Bytes)
    → length (base rooted ups) ≤ length (separated rooted (render rooted ups ws))
unfolding separated
base-le-separated rooted ups ws = ground (arith, base-le-render rooted ups ws)

parent_back :
    (rooted : Bool) (dotdot b : ℕ) (before after : Bytes)
    → dotdot ≤ length before
    → parent rooted dotdot (record { before = b ∷ before; after = after })
      ≡ some (dotdot, back_up dotdot before b after)
unfolding parent
parent_back rooted dotdot b before after h = ground arith

-- `..` behind an element takes the element away, with its separator.
pub parent-element :
    (rooted : Bool) (ups : ℕ) (w : Bytes) (ws : List Bytes) (after : Bytes)
    → IsElement w
    → (after' : Bytes) × (parent rooted
          (length (base rooted ups))
          (record { before = render rooted ups (w ∷ ws); after = after })
        ≡ some (length (base rooted ups), record { before = render rooted ups ws; after = after' }))
      × (length after' + length (render rooted ups ws)
          ≡ length (render rooted ups (w ∷ ws)) + length after)
unfolding render
parent-element rooted ups w ws after h =
    let (b, u, last, hb, hu) = last_first w h in
    let (after', found, size) = back_up-element rooted ups ws b u after hb hu in
    (
      after',
      rw last (
          parent_back rooted _ b _ after (
            omega (
              arith,
              base-le-separated rooted ups ws,
              length-append u (separated rooted (render rooted ups ws)),
            ))
          ∙ ap (λ o. some (length (base rooted ups), o)) found),
      rw last (omega arith),
    )

-- `..` at the root changes nothing.
pub parent-root :
    (ups : ℕ) (after : Bytes)
    → parent true (length (base true ups)) (record { before = base true ups; after = after })
      ≡ some (length (base true ups), record { before = base true ups; after = after })
unfolding parent base
parent-root ups after = refl

pub base-suc : (ups : ℕ) → base false (suc ups) ≡ dot ∷ dot ∷ separated false (base false ups)
unfolding base separated
base-suc zero = refl
base-suc (suc zero) = refl
base-suc (suc (suc ups)) = ground arith

add_dotdot_lem :
    (before after : Bytes)
    → length (separated false before) + 2 ≤ length before + length after
    → (after' : Bytes) × (add_dotdot (record { before = before; after = after })
        ≡ some (
          length (separated false before) + 2,
          record { before = dot ∷ dot ∷ separated false before; after = after' },
        ))
      × (length after' + length (separated false before) + 2 ≡ length before + length after)
unfolding add_dotdot separated
add_dotdot_lem [] [] h = absurd (ground arith)
add_dotdot_lem [] (x ∷ []) h = absurd (ground arith)
add_dotdot_lem [] (x ∷ y ∷ after) h = (after, refl, omega arith)
add_dotdot_lem (b ∷ before) [] h = absurd (ground arith)
add_dotdot_lem (b ∷ before) (x ∷ []) h = absurd (ground arith)
add_dotdot_lem (b ∷ before) (x ∷ y ∷ []) h = absurd (ground arith)
add_dotdot_lem (b ∷ before) (x ∷ y ∷ z ∷ after) h = (after, ground arith, ground arith)

parent_add :
    (dotdot : ℕ) (before after : Bytes)
    → dotdot ≡ length before
    → parent false dotdot (record { before = before; after = after })
      ≡ add_dotdot (record { before = before; after = after })
unfolding parent
parent_add dotdot before after h = ground arith

-- `..` where a relative path has nothing to leave adds one more leading `..`.
pub parent-relative :
    (ups : ℕ) (after : Bytes)
    → length (separated false (base false ups)) + 2 ≤ length (base false ups) + length after
    → (after' : Bytes) × (parent false
          (length (base false ups))
          (record { before = base false ups; after = after })
        ≡ some (
          length (base false (suc ups)),
          record { before = base false (suc ups); after = after' },
        ))
      × (length after' + length (base false (suc ups)) ≡ length (base false ups) + length after)
parent-relative ups after h =
    let (after', found, size) = add_dotdot_lem (base false ups) after h in
    (
      after',
      rw base-suc (
          parent_add _ (base false ups) after refl
          ∙ found
          ∙ ap
              (λ n. some (
                n,
                record { before = dot ∷ dot ∷ separated false (base false ups); after = after' },
              ))
              (omega arith)),
      rw base-suc (omega arith),
    )
