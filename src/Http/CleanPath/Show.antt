-- ===== src/Http/CleanPath/Show.antt =====
-- The bytes before the pointer of `clean_path` (src/http/yta_http.cpp), read forwards, are the joined
-- elements; and the final `.` of an empty result.
use mathlib.Core.List.{reverse-reverse, reverse-append, reverse-cons}
use yotta.Prelude.{
  ℕ, zero, suc, ◌+◌, ◌≤◌, ◌<◌, ◌≡◌, refl, sym, ap, ◌∙◌, Bool, true, false, some, List, [], ◌∷◌,
  ◌++◌, reverse, arith, Bytes, length, append-nil, append_assoc, max, length-append, length-reverse,
  All, replicate,
}
use yotta.Http.CleanPath.{slash, dot, Output, put, finish}
use yotta.Http.CleanPath.Spec.{
  IsElement, is_current, Place, join, show, show_relative, dotdot_element,
}
use yotta.Http.CleanPath.Rendering.{base, base-suc, base-le-render, separated, render}

join-snoc :
    (w : Bytes) (ws : List Bytes) (v : Bytes)
    → join ((w ∷ ws) ++ v ∷ []) ≡ join (w ∷ ws) ++ slash ∷ v
unfolding join
join-snoc w [] v = refl
join-snoc w (x ∷ ws) v =
    rw (join-snoc x ws v) (sym (append_assoc w (slash ∷ join (x ∷ ws)) (slash ∷ v)))

element-nonempty : (w : Bytes) → IsElement w → 0 < length w
unfolding is_current
element-nonempty [] h = absurd (ground (arith, h.not_current))
element-nonempty (c ∷ w) h = omega arith

-- An element on top of nothing, and on top of a rendering.
reverse-first : (w b : Bytes) → reverse (reverse w ++ b) ≡ reverse b ++ w
reverse-first w b = reverse-append (reverse w) b ∙ ap (λ x. reverse b ++ x) (reverse-reverse w)

reverse-next : (w b : Bytes) → reverse (reverse w ++ slash ∷ b) ≡ reverse b ++ slash ∷ w
reverse-next w b =
    reverse-first w (slash ∷ b)
    ∙ rw (reverse-cons slash b) (append_assoc (reverse b) (slash ∷ []) w)

separated-longer : (rooted : Bool) (b : Bytes) → 1 < length b → separated rooted b ≡ slash ∷ b
unfolding separated
separated-longer true b h = ground arith
separated-longer false b h = ground arith

separated-relative : (b : Bytes) → 0 < length b → separated false b ≡ slash ∷ b
unfolding separated
separated-relative b h = ground arith

render-cons :
    (rooted : Bool) (ups : ℕ) (w : Bytes) (ws : List Bytes)
    → render rooted ups (w ∷ ws) ≡ reverse w ++ separated rooted (render rooted ups ws)
unfolding render
render-cons rooted ups w ws = refl

length-render :
    (rooted : Bool) (ups : ℕ) (w : Bytes) (ws : List Bytes)
    → length (render rooted ups (w ∷ ws))
      ≡ length w + length (separated rooted (render rooted ups ws))
length-render rooted ups w ws = rw (render-cons, length-append, length-reverse)

rooted-nonempty : (ups : ℕ) (ws : List Bytes) → 0 < length (separated true (render true ups ws))
unfolding render base separated
rooted-nonempty ups [] = omega arith
rooted-nonempty ups (w ∷ []) = ground (arith, length-append (reverse w) (slash ∷ []))
rooted-nonempty ups (w ∷ v ∷ ws) = ground (
  arith,
  rooted-nonempty ups (v ∷ ws),
  length-append (reverse w) (separated true (render true ups (v ∷ ws))),
)

rooted-longer :
    (ups : ℕ) (w : Bytes) (ws : List Bytes) → IsElement w → 1 < length (render true ups (w ∷ ws))
rooted-longer ups w ws h =
    omega (arith, element-nonempty w h, length-render true ups w ws, rooted-nonempty ups ws)

relative-longer :
    (ups : ℕ) (w : Bytes) (ws : List Bytes) → IsElement w → 0 < length (render false ups (w ∷ ws))
relative-longer ups w ws h = omega (arith, element-nonempty w h, length-render false ups w ws)

-- A reversed stack of elements with one more on top, joined.
join-push :
    (w v : Bytes) (ws : List Bytes)
    → join (reverse (w ∷ v ∷ ws)) ≡ join (reverse (v ∷ ws)) ++ slash ∷ w
join-push w v ws = rw reverse-cons (go (reverse (v ∷ ws)) nonempty)
  where
    nonempty : 0 < length (reverse (v ∷ ws))
    nonempty = omega (arith, length-reverse (v ∷ ws))

    go : (xs : List Bytes) → 0 < length xs → join (xs ++ w ∷ []) ≡ join xs ++ slash ∷ w
    go [] h = absurd (omega arith)
    go (x ∷ xs) h = join-snoc x xs w

reverse-rooted :
    (ups : ℕ) (ws : List Bytes)
    → All IsElement ws
    → reverse (render true ups ws) ≡ slash ∷ join (reverse ws)
reverse-rooted ups [] h = unfold render base join in refl
reverse-rooted ups (w ∷ []) h =
    ap reverse (render-cons true ups w [])
    ∙ reverse-first w (separated true (render true ups []))
    ∙ unfold render base separated join in refl
reverse-rooted ups (w ∷ v ∷ ws) (hw, h) =
    ap reverse (render-cons true ups w (v ∷ ws))
    ∙ ap (λ b. reverse (reverse w ++ b)) (separated-longer true _ (rooted-longer ups v ws h.0))
    ∙ reverse-next w (render true ups (v ∷ ws))
    ∙ ap (λ b. b ++ slash ∷ w) (reverse-rooted ups (v ∷ ws) h)
    ∙ ap (λ b. slash ∷ b) (sym (join-push w v ws))

replicate-snoc : (n : ℕ) (a : Bytes) → replicate (suc n) a ≡ replicate n a ++ a ∷ []
replicate-snoc zero a = refl
replicate-snoc (suc n) a = ap (λ xs. a ∷ xs) (replicate-snoc n a)

base-longer : (ups : ℕ) → 0 < length (base false (suc ups))
unfolding base
base-longer zero = omega arith
base-longer (suc ups) = omega arith

reverse-base : (ups : ℕ) → reverse (base false ups) ≡ join (replicate ups dotdot_element)
reverse-base zero = unfold base join in refl
reverse-base (suc zero) = unfold base join in refl
reverse-base (suc (suc ups)) =
    ap reverse
      (base-suc (suc ups) ∙ ap (λ b. dot ∷ dot ∷ b) (separated-relative _ (base-longer ups)))
    ∙ reverse-next dotdot_element (base false (suc ups))
    ∙ ap (λ b. b ++ slash ∷ dotdot_element) (reverse-base (suc ups))
    ∙ sym (join-snoc dotdot_element (replicate ups dotdot_element) dotdot_element)
    ∙ ap join (sym (replicate-snoc (suc ups) dotdot_element))

-- The elements of a relative place with one more on top of something.
join-relative :
    (xs : List Bytes) (w : Bytes) (ws : List Bytes)
    → 0 < length (xs ++ reverse ws)
    → join (xs ++ reverse (w ∷ ws)) ≡ join (xs ++ reverse ws) ++ slash ∷ w
join-relative xs w ws h =
    ap (λ r. join (xs ++ r)) (reverse-cons w ws)
    ∙ ap join (sym (append_assoc xs (reverse ws) (w ∷ [])))
    ∙ go (xs ++ reverse ws) h
  where
    go : (ys : List Bytes) → 0 < length ys → join (ys ++ w ∷ []) ≡ join ys ++ slash ∷ w
    go [] h' = absurd (omega arith)
    go (y ∷ ys) h' = join-snoc y ys w

reverse-push :
    (ups : ℕ) (w : Bytes) (ws : List Bytes)
    → 0 < length (render false ups ws)
    → 0 < length (replicate ups dotdot_element ++ reverse ws)
    → reverse (render false ups ws) ≡ join (replicate ups dotdot_element ++ reverse ws)
    → reverse (render false ups (w ∷ ws)) ≡ join (replicate ups dotdot_element ++ reverse (w ∷ ws))
reverse-push ups w ws longer some_element below =
    ap reverse (render-cons false ups w ws)
    ∙ ap (λ b. reverse (reverse w ++ b)) (separated-relative _ longer)
    ∙ reverse-next w (render false ups ws)
    ∙ ap (λ b. b ++ slash ∷ w) below
    ∙ sym (join-relative (replicate ups dotdot_element) w ws some_element)

reverse-relative :
    (ups : ℕ) (ws : List Bytes)
    → All IsElement ws
    → reverse (render false ups ws) ≡ join (replicate ups dotdot_element ++ reverse ws)
reverse-relative ups [] h =
    unfold render in reverse-base ups ∙ ap join (sym (append-nil (replicate ups dotdot_element)))
reverse-relative zero (w ∷ []) h =
    ap reverse (render-cons false 0 w [])
    ∙ reverse-first w (separated false (render false 0 []))
    ∙ unfold render base separated join in refl
reverse-relative (suc ups) (w ∷ []) h =
    reverse-push (suc ups) w [] (unfold render in base-longer ups) (omega arith)
      (reverse-relative (suc ups) [] tt)
reverse-relative ups (w ∷ v ∷ ws) (hw, h) =
    reverse-push ups w (v ∷ ws) (relative-longer ups v ws h.0)
      (omega (
        arith,
        length-append (replicate ups dotdot_element) (reverse (v ∷ ws)),
        length-reverse (v ∷ ws),
      ))
      (reverse-relative ups (v ∷ ws) h)

show_relative-nonempty : (xs : List Bytes) → 0 < length xs → show_relative xs ≡ join xs
unfolding show_relative
show_relative-nonempty [] h = absurd (omega arith)
show_relative-nonempty (x ∷ xs) h = refl

abbrev placed : ℕ → List Bytes → Place
placed ups ws = record { ups = ups; open_elements = ws }

show-elements :
    (ups : ℕ) (ws : List Bytes)
    → 0 < length (replicate ups dotdot_element ++ reverse ws)
    → All IsElement ws
    → reverse (render false ups ws) ≡ show false (placed ups ws)
show-elements ups ws h all =
    reverse-relative ups ws all
    ∙ unfold show in sym (show_relative-nonempty (replicate ups dotdot_element ++ reverse ws) h)

finish-nonempty :
    (before after : Bytes)
    → 0 < length before
    → finish (record { before = before; after = after })
      ≡ some (record { before = before; after = after })
unfolding finish
finish-nonempty before after h = ground arith

-- The result of the loop, read forwards, with the `.` of an empty relative result.
pub finish_lem :
    (rooted : Bool) (ups : ℕ) (ws : List Bytes) (after : Bytes)
    → All IsElement ws
    → 0 < length (render rooted ups ws) + length after
    → (o : Output) × (finish (record { before = render rooted ups ws; after = after }) ≡ some o)
      × (reverse o.before ≡ show rooted (placed ups ws))
      × (length o.after + length o.before ≡ length after + length (render rooted ups ws))
      × (length o.before ≤ max 1 (length (render rooted ups ws)))
finish_lem true ups ws after h room = (
  record { before = render true ups ws; after = after },
  finish-nonempty _ after (unfold base in omega (arith, base-le-render true ups ws)),
  reverse-rooted ups ws h ∙ unfold show in refl,
  refl,
  omega arith,
)
finish_lem false zero [] [] h room = absurd (unfold render base in omega arith)
finish_lem false zero [] (old ∷ after) h room = (
  record { before = dot ∷ []; after = after },
  unfold finish put render base in refl,
  unfold show show_relative in refl,
  unfold render base in omega arith,
  omega arith,
)
finish_lem false (suc ups) [] after h room = (
  record { before = render false (suc ups) []; after = after },
  finish-nonempty _ after (unfold render in base-longer ups),
  show-elements (suc ups) [] (omega arith) h,
  refl,
  omega arith,
)
finish_lem false ups (w ∷ ws) after h room = (
  record { before = render false ups (w ∷ ws); after = after },
  finish-nonempty _ after (relative-longer ups w ws h.0),
  show-elements ups (w ∷ ws)
      (omega (
        arith,
        length-append (replicate ups dotdot_element) (reverse (w ∷ ws)),
        length-reverse (w ∷ ws),
      ))
      h,
  refl,
  omega arith,
)
