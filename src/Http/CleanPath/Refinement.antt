-- ===== src/Http/CleanPath/Refinement.antt =====
-- `clean_path` (src/http/yta_http.cpp) computes what resolving the elements one by one computes, and
-- stays within its buffer.
use yotta.Prelude.{
  ℕ, zero, suc, ◌+◌, ◌≤◌, ◌≡◌, refl, ap, ◌∙◌, ◌⊎◌, inl, inr, Bool, true, false, Option, some, List,
  [], ◌∷◌, ◌++◌, reverse, arith, Bytes, length, length-append, length-reverse, ◌==◌, All,
  Bool-cases,
}
use yotta.Http.CleanPath.{
  slash, dot, Output, at_boundary, is_dot, is_dotdot, parent, separate, copy_element, clean_loop,
  rest_of,
}
use yotta.Http.CleanPath.Spec.{
  IsElement, is_current, is_parent, resolve, Place, go_up, dotdot_element,
}
use yotta.Http.CleanPath.Steps.{
  element_of, behind, walk, walk-element, behind-at_boundary, length-element, copy_element_lem,
}
use yotta.Http.CleanPath.Rendering.{
  base, base-suc, separated, render, separate_lem, parent-element, parent-root, parent-relative,
}
use yotta.Http.CleanPath.Loop.{
  bytes_of, limit_of, Fits, Reaches, IsProper, loop_slash, loop_dot, loop_dotdot, loop_element,
  element-is_dot, element-is_dotdot, element_of-IsElement, resolve-proper, walk-skip, walk-slash,
  walk-nil, element_of-cons,
}

le-separated : (rooted : Bool) (b : Bytes) → length b ≤ length (separated rooted b)
unfolding separated
le-separated rooted b = ground arith

separated-le : (rooted : Bool) (b : Bytes) → length (separated rooted b) ≤ suc (length b)
unfolding separated
separated-le rooted b = ground arith

-- What `..` does to the buffer is what it does to the place.
parent_lem :
    (rooted : Bool) (ups : ℕ) (ws : List Bytes) (after : Bytes)
    → All IsElement ws
    → length (separated rooted (render rooted ups ws)) + 2
      ≤ length (render rooted ups ws) + length after
    → (after' : Bytes) × (parent rooted
          (length (base rooted ups))
          (record { before = render rooted ups ws; after = after })
        ≡ some (
          limit_of rooted (go_up rooted ups ws),
          record { before = bytes_of rooted (go_up rooted ups ws); after = after' },
        ))
      × (length after' + length (bytes_of rooted (go_up rooted ups ws))
          ≡ length (render rooted ups ws) + length after)
      × (length (bytes_of rooted (go_up rooted ups ws))
          ≤ length (separated rooted (render rooted ups ws)) + 2)
      × All IsElement (go_up rooted ups ws).open_elements
unfolding go_up render
parent_lem rooted ups (w ∷ ws) after (hw, hws) h =
    let (after', found, size) = parent-element rooted ups w ws after hw in
    (
      after',
      found,
      size,
      omega (
        arith,
        le-separated rooted (render rooted ups ws),
        le-separated rooted (reverse w ++ separated rooted (render rooted ups ws)),
        length-append (reverse w) (separated rooted (render rooted ups ws)),
      ),
      hws,
    )
parent_lem true ups [] after hw h = (
  after,
  parent-root ups after,
  omega arith,
  omega (arith, le-separated true (base true ups)),
  tt,
)
parent_lem false ups [] after hw h =
    let (after', found, size) = parent-relative ups after h in
    (after', found, size, rw base-suc (omega arith), tt)

Reaches-by :
    {r r' : Option Output} (room size : ℕ) {b b' : Bytes}
    → r ≡ r'
    → b ≡ b'
    → Reaches r' room size b'
    → Reaches r room size b
Reaches-by room size e f h = rw (e, f) h

-- The room that the unread part needs, after each kind of element.
Fits-skip :
    (room : ℕ) (rooted : Bool) (p : Place) (c : ℕ) (path : Bytes)
    → Fits room rooted p (c ∷ path)
    → ((c == slash) ≡ true) ⊎ (at_boundary path ≡ true)
    → Fits room rooted p path
unfolding at_boundary
Fits-skip room rooted p c path fits h =
    ground (arith, le-separated rooted (bytes_of rooted p), separated-le rooted (bytes_of rooted p))

Fits-boundary :
    (room : ℕ) (rooted : Bool) (p : Place) (path : Bytes)
    → at_boundary path ≡ true
    → length (bytes_of rooted p) + length path ≤ room
    → Fits room rooted p path
Fits-boundary room rooted p path h fits = rw h fits

Fits-element :
    (room : ℕ) (rooted : Bool) (p : Place) (c : ℕ) (path : Bytes)
    → (c == slash) ≡ false
    → Fits room rooted p (c ∷ path)
    → length (separated rooted (bytes_of rooted p)) + suc (length path) ≤ room
unfolding at_boundary
Fits-element room rooted p c path h fits = ground arith

resolve-dotdot :
    (rooted : Bool) (p : Place)
    → resolve rooted p dotdot_element ≡ go_up rooted p.ups p.open_elements
unfolding resolve is_current is_parent
resolve-dotdot rooted p = refl

walk-dotdot :
    (rooted : Bool) (p : Place) (c : ℕ) (path : Bytes)
    → is_dotdot c path ≡ true
    → walk rooted p (c ∷ path) ≡ walk rooted (go_up rooted p.ups p.open_elements) (rest_of path)
walk-dotdot rooted p c path h =
    let (e, b, _, _) = element-is_dotdot c path h in
    walk-element rooted p (c ∷ path) ∙ rw (e, b, resolve-dotdot rooted p)

walk-proper :
    (rooted : Bool) (p : Place) (path : Bytes)
    → IsElement (element_of path)
    → walk rooted p path
      ≡ walk rooted (record p { open_elements = element_of path ∷ p.open_elements }) (behind path)
walk-proper rooted p path h =
    walk-element rooted p path
    ∙ ap (λ q. walk rooted q (behind path)) (resolve-proper rooted p (element_of path) h)

-- An element is copied behind its separator.
element_lem :
    (rooted : Bool) (p : Place) (path after : Bytes)
    → length (separated rooted (bytes_of rooted p)) + length path
      ≤ length (bytes_of rooted p) + length after
    → (o₁ : Output) × (after' : Bytes) × (separate rooted
          (record { before = bytes_of rooted p; after = after })
        ≡ some o₁)
      × (copy_element path o₁
          ≡ some (
            behind path,
            record {
              before =
                  bytes_of rooted (record p { open_elements = element_of path ∷ p.open_elements });
              after = after';
            },
          ))
      × (length after'
            + length
                (bytes_of rooted (record p { open_elements = element_of path ∷ p.open_elements }))
          ≡ length (bytes_of rooted p) + length after)
      × (length (bytes_of rooted (record p { open_elements = element_of path ∷ p.open_elements }))
            + length (behind path)
          ≡ length (separated rooted (bytes_of rooted p)) + length path)
unfolding render
element_lem rooted p path after h =
    let b = bytes_of rooted p in
    let e = element_of path in
    let total = length-append (reverse e) (separated rooted b) in
    let (after₁, sep, size₁) = separate_lem rooted b after (omega arith) in
    let (after₂, copied, size₂) =
      copy_element_lem path (separated rooted b) after₁ (omega (arith, length-element path)) in
    (
      record { before = separated rooted b; after = after₁ },
      after₂,
      sep,
      copied,
      omega (arith, total, length-reverse e, length-element path),
      omega (arith, total, length-reverse e, length-element path),
    )

loop_nil :
    (fuel : ℕ) (rooted : Bool) (dotdot : ℕ) (o : Output)
    → clean_loop fuel rooted [] dotdot o ≡ some o
unfolding clean_loop
loop_nil zero rooted dotdot o = refl
loop_nil (suc fuel) rooted dotdot o = refl

behind-le :
    (c : ℕ) (path : Bytes) (fuel : ℕ)
    → (c == slash) ≡ false
    → length path ≤ fuel
    → length (behind (c ∷ path)) ≤ fuel
behind-le c path fuel s h = rw ((element_of-cons c path s).1) (omega (arith, length-element path))

is_current-dot : is_current (dot ∷ []) ≡ true
unfolding is_current
is_current-dot = refl

-- The loop invariant: started behind the bytes of `p` with room for what is unread, the loop ends
-- behind the bytes of the place that the unread part leads to, with no write past the buffer.
pub loop-Reaches :
    (fuel room size : ℕ) (rooted : Bool) (p : Place) (path after : Bytes)
    → length path ≤ fuel
    → IsProper p
    → Fits room rooted p path
    → room ≤ size
    → length after + length (bytes_of rooted p) ≡ size
    → Reaches
        (clean_loop fuel rooted path
          (limit_of rooted p)
          (record { before = bytes_of rooted p; after = after }))
        room
        size
        (bytes_of rooted (walk rooted p path))
unfolding at_boundary
loop-Reaches fuel room size rooted p [] after hf hp fits hr hs =
    rw walk-nil (after, loop_nil fuel rooted _ _, hs, ground arith)
loop-Reaches zero room size rooted p (c ∷ path) after hf hp fits hr hs = elim hf [ ]
loop-Reaches (suc fuel) room size rooted p (c ∷ path) after hf hp fits hr hs =
    elim (Bool-cases (c == slash)) [
      | inl s ↦
          Reaches-by room size (loop_slash fuel rooted c path _ _ s)
            (ap (bytes_of rooted) (walk-slash rooted p c path s))
            (loop-Reaches fuel room size rooted p path after (omega arith) hp
              (Fits-skip room rooted p c path fits (inl s)) hr hs)
      | inr s ↦ elim (Bool-cases (is_dot c path)) [
        | inl d ↦
            let (e, b, t) = element-is_dot c path d in
            Reaches-by room size (loop_dot fuel rooted c path _ _ d)
              (ap (bytes_of rooted)
                (walk-skip rooted p (c ∷ path) (rw e is_current-dot) ∙ ap (walk rooted p) b))
              (loop-Reaches fuel room size rooted p path after (omega arith) hp
                (Fits-skip room rooted p c path fits (inr t)) hr hs)
        | inr nd ↦ elim (Bool-cases (is_dotdot c path)) [
          | inl d ↦
              let (e, b, t, l) = element-is_dotdot c path d in
              let room_left = Fits-element room rooted p c path s fits in
              let (after', up, size', fits', hp') =
                parent_lem rooted p.ups p.open_elements after hp (omega arith) in
              Reaches-by room size (loop_dotdot fuel rooted c path _ _ _ _ s nd d up)
                (ap (bytes_of rooted) (walk-dotdot rooted p c path d))
                (loop-Reaches fuel room size rooted (go_up rooted p.ups p.open_elements)
                  (rest_of path) after' (omega arith) hp'
                  (Fits-boundary room rooted _ (rest_of path) t (omega arith)) hr (omega arith))
          | inr ndd ↦
              let proper = element_of-IsElement c path s nd ndd in
              let room_left = Fits-element room rooted p c path s fits in
              let (o₁, after', sep, copied, size', room') =
                element_lem rooted p (c ∷ path) after (omega arith) in
              Reaches-by room size (loop_element fuel rooted c path _ _ _ o₁ _ s nd ndd sep copied)
                (ap (bytes_of rooted) (walk-proper rooted p (c ∷ path) proper))
                (loop-Reaches fuel room size rooted
                  (record p { open_elements = element_of (c ∷ path) ∷ p.open_elements })
                  (behind (c ∷ path)) after' (behind-le c path fuel s (omega arith)) (proper, hp)
                  (Fits-boundary room rooted _ (behind (c ∷ path)) (behind-at_boundary (c ∷ path))
                    (omega arith))
                  hr (omega arith))
        ]
      ]
    ]
