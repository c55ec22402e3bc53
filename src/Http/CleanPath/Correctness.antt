-- ===== src/Http/CleanPath/Correctness.antt =====
-- The whole of `clean_path` (src/http/yta_http.cpp) against its specification.
use yotta.Prelude.{
  ℕ, suc, ◌+◌, ◌≤◌, ◌<◌, ◌≡◌, ◌≢◌, refl, sym, ap, ◌∙◌, inl, inr, Bool, true, false, some, List, [],
  ◌∷◌, reverse, arith, Bytes, length, max, ◌==◌, ◌>>=◌, All, Bool-cases,
}
use yotta.Http.CleanPath.{
  slash, dot, Output, put, at_boundary, finish, clean_path, is_rooted, clean_loop, written, offset,
}
use yotta.Http.CleanPath.Spec.{
  IsElement, Place, show, show_relative, clean_spec, cons_head, NoSlash, components, resolve_all,
  rooted_path, start, resolve, is_current, is_parent, go_up,
}
use yotta.Http.CleanPath.Steps.{walk}
use yotta.Http.CleanPath.Rendering.{base, render, separated}
use yotta.Http.CleanPath.Loop.{bytes_of, limit_of, Fits, IsProper, walk-slash}
use yotta.Http.CleanPath.Refinement.{loop-Reaches}
use yotta.Http.CleanPath.Show.{finish_lem}

cons_head-NoSlash :
    (c : ℕ) (ws : List Bytes) → c ≢ slash → All NoSlash ws → All NoSlash (cons_head c ws)
unfolding cons_head
cons_head-NoSlash c [] h all = ((h, tt), tt)
cons_head-NoSlash c (w ∷ ws) h (hw, all) = ((h, hw), all)

pub components-NoSlash : (path : Bytes) → All NoSlash (components path)
unfolding components
components-NoSlash [] = (tt, tt)
components-NoSlash (c ∷ path) =
    ground (arith, components-NoSlash path, cons_head-NoSlash c (components path))

go_up-IsProper :
    (rooted : Bool) (ups : ℕ) (ws : List Bytes) → All IsElement ws → IsProper (go_up rooted ups ws)
unfolding go_up
go_up-IsProper rooted ups (w ∷ ws) (hw, h) = h
go_up-IsProper true ups [] h = tt
go_up-IsProper false ups [] h = tt

resolve-IsProper :
    (rooted : Bool) (p : Place) (w : Bytes) → NoSlash w → IsProper p → IsProper (resolve rooted p w)
unfolding resolve
resolve-IsProper rooted p w n h = elim (Bool-cases (is_current w)) [
  | inl e ↦ rw e h
  | inr ne ↦ elim (Bool-cases (is_parent w)) [
    | inl e ↦ rw (ne, e) (go_up-IsProper rooted p.ups p.open_elements h)
    | inr np ↦ rw (ne, np) (record { no_slash = n; not_current = ne; not_parent = np }, h)
  ]
]

pub resolve_all-IsProper :
    (rooted : Bool) (p : Place) (ws : List Bytes)
    → All NoSlash ws
    → IsProper p
    → IsProper (resolve_all rooted p ws)
unfolding resolve_all
resolve_all-IsProper rooted p [] n h = h
resolve_all-IsProper rooted p (w ∷ ws) (nw, n) h =
    resolve_all-IsProper rooted (resolve rooted p w) ws n (resolve-IsProper rooted p w nw h)

walk-IsProper : (rooted : Bool) (path : Bytes) → IsProper (walk rooted start path)
unfolding walk
walk-IsProper rooted path =
    resolve_all-IsProper rooted start (components path) (components-NoSlash path) tt

-- The loop and the final `.` behind it, from the start of a path.
run_reaches :
    (rooted : Bool) (fuel room size : ℕ) (path after : Bytes)
    → length path ≤ fuel
    → Fits room rooted start path
    → room ≤ size
    → 0 < size
    → length after + length (base rooted 0) ≡ size
    → (o : Output) × ((do
      o₁ ←
          clean_loop fuel rooted path
            (limit_of rooted start)
            (record { before = bytes_of rooted start; after = after })
      finish o₁)
        ≡ some o)
      × (reverse o.before ≡ show rooted (walk rooted start path))
      × (length o.before ≤ max 1 room)
      × (length o.after + length o.before ≡ size)
run_reaches rooted fuel room size path after hf fits hr pos hs =
    let (after₁, run, size₁, room₁) =
      loop-Reaches fuel room size rooted start path after hf tt fits hr (unfold render in hs) in
    let q = walk rooted start path in
    let (o, done, shown, size₂, room₂) =
      finish_lem rooted q.ups q.open_elements after₁ (walk-IsProper rooted path) (omega arith) in
    (o, rw run done, shown, omega arith, omega arith)

Fits-rooted : (path : Bytes) → Fits (suc (length path)) true start path
unfolding render base separated
Fits-rooted path = ground arith

Fits-relative :
    (c : ℕ) (path : Bytes) → (c == slash) ≡ false → Fits (suc (length path)) false start (c ∷ path)
unfolding render base separated at_boundary
Fits-relative c path h = rw h (omega arith)

clean_spec-rooted :
    (c : ℕ) (path : Bytes)
    → (c == slash) ≡ true
    → clean_spec (c ∷ path) ≡ show true (walk true start path)
unfolding walk
clean_spec-rooted c path h =
    unfold clean_spec rooted_path in rw h (ap (show true) (walk-slash true start c path h))

clean_spec-relative :
    (c : ℕ) (path : Bytes)
    → (c == slash) ≡ false
    → clean_spec (c ∷ path) ≡ show false (walk false start (c ∷ path))
unfolding walk
clean_spec-relative c path h = unfold clean_spec rooted_path in rw h

clean_path_rooted :
    (c : ℕ) (path : Bytes) (old : ℕ) (buffer : Bytes)
    → (c == slash) ≡ true
    → clean_path (c ∷ path) (old ∷ buffer) ≡ (do
      o ←
          clean_loop
            (length path)
            true
            path
            (limit_of true start)
            (record { before = bytes_of true start; after = buffer })
      finish o)
unfolding clean_path put is_rooted render base
clean_path_rooted c path old buffer s = rw s

clean_path_relative :
    (c : ℕ) (path buffer : Bytes)
    → (c == slash) ≡ false
    → clean_path (c ∷ path) buffer ≡ (do
      o ←
          clean_loop
            (length (c ∷ path))
            false
            (c ∷ path)
            (limit_of false start)
            (record { before = bytes_of false start; after = buffer })
      finish o)
unfolding clean_path is_rooted render base
clean_path_relative c path buffer s = rw s

-- For every path and every buffer that holds at least one byte and as many as the path, the code
-- returns, it writes nothing past the buffer, and what it writes is the specified path, which is no
-- longer than the given one (or than one byte).
pub clean_path-eq-clean_spec :
    (path buffer : Bytes)
    → max 1 (length path) ≤ length buffer
    → (o : Output) × (clean_path path buffer ≡ some o)
      × (written o ≡ clean_spec path)
      × (offset o ≤ max 1 (length path))
      × (length o.after + offset o ≡ length buffer)
unfolding clean_path written put
clean_path-eq-clean_spec [] [] h = absurd (omega arith)
clean_path-eq-clean_spec [] (old ∷ buffer) h = (
  record { before = dot ∷ []; after = buffer },
  refl,
  unfold clean_spec components resolve_all resolve show show_relative rooted_path in refl,
  omega arith,
  omega arith,
)
clean_path-eq-clean_spec (c ∷ path) [] h = absurd (omega arith)
clean_path-eq-clean_spec (c ∷ path) (old ∷ buffer) h = elim (Bool-cases (c == slash)) [
  | inl s ↦
      let (o, run, shown, room, size) =
        run_reaches true (length path) (suc (length path)) (suc (length buffer)) path buffer
          (omega arith) (Fits-rooted path) (omega arith) (omega arith)
          (unfold base in omega arith) in
      (
        o,
        clean_path_rooted c path old buffer s ∙ run,
        shown ∙ sym (clean_spec-rooted c path s),
        room,
        size,
      )
  | inr s ↦
      let (o, run, shown, room, size) =
        run_reaches false (length (c ∷ path)) (suc (length path)) (suc (length buffer)) (c ∷ path)
          (old ∷ buffer) (omega arith) (Fits-relative c path s) (omega arith) (omega arith)
          (unfold base in omega arith) in
      (
        o,
        clean_path_relative c path (old ∷ buffer) s ∙ run,
        shown ∙ sym (clean_spec-relative c path s),
        room,
        size,
      )
]
