-- ===== src/Http/CleanPath/Idempotence.antt =====
-- A path that `clean_path` of src/http/yta_http.cpp has cleaned is clean.
use yotta.Prelude.{
  ℕ, zero, suc, ◌+◌, ◌≤◌, ◌≡◌, ◌≢◌, refl, sym, ap, ◌∙◌, Bool, true, false, List, [], ◌∷◌, ◌++◌,
  reverse, append-nil, append_assoc, Bytes, length, length-reverse, replicate, ◌==◌, All, arith,
  max, some,
}
use mathlib.Core.List.{reverse-cons, reverse-reverse}
use yotta.Http.CleanPath.Confinement.{All-reverse}
use yotta.Http.CleanPath.{slash, dot, Output, clean_path, written}
use yotta.Http.CleanPath.Spec.{
  cons_head, components, is_current, is_parent, Place, go_up, resolve, resolve_all, start, join,
  dotdot_element, show_relative, show, rooted_path, clean_spec, NoSlash, IsElement,
}
use yotta.Http.CleanPath.Correctness.{
  components-NoSlash, resolve_all-IsProper, clean_path-eq-clean_spec,
}
use yotta.Http.CleanPath.Loop.{resolve-proper}

-- The parts of elements that are joined are these elements.
components-NoSlash_append :
    (w s : Bytes) → NoSlash w → components (w ++ slash ∷ s) ≡ w ∷ components s
unfolding components cons_head
components-NoSlash_append [] s n = refl
components-NoSlash_append (c ∷ w) s (other, n) =
    let e : (c == slash) ≡ false = ground arith in
    rw e (ap (cons_head c) (components-NoSlash_append w s n))

components-single : (w : Bytes) → NoSlash w → components w ≡ w ∷ []
unfolding components cons_head
components-single [] n = refl
components-single (c ∷ w) (other, n) =
    let e : (c == slash) ≡ false = ground arith in rw e (ap (cons_head c) (components-single w n))

components-join :
    (w : Bytes) (ws : List Bytes) → All NoSlash (w ∷ ws) → components (join (w ∷ ws)) ≡ w ∷ ws
unfolding join
components-join w [] (n, _) = components-single w n
components-join w (v ∷ ws) (n, ns) =
    components-NoSlash_append w (join (v ∷ ws)) n ∙ ap (λ l. w ∷ l) (components-join v ws ns)

-- Proper names are opened one by one.
resolve_all-open :
    (rooted : Bool) (p : Place) (ws : List Bytes)
    → All IsElement ws
    → resolve_all rooted p ws ≡ record p { open_elements = reverse ws ++ p.open_elements }
unfolding resolve_all
resolve_all-open rooted p [] n = refl
resolve_all-open rooted p (w ∷ ws) (e, es) =
    ap (λ q. resolve_all rooted q ws) (resolve-proper rooted p w e)
    ∙ resolve_all-open rooted (record p { open_elements = w ∷ p.open_elements }) ws es
    ∙ ap (λ l. record p { open_elements = l })
        (sym (
          ap (λ l. l ++ p.open_elements) (reverse-cons w ws)
          ∙ append_assoc (reverse ws) (w ∷ []) p.open_elements))

-- And leading `..` of a relative path are counted.
resolve_all-ups :
    (n ups : ℕ) (ws : List Bytes)
    → resolve_all false
        (record { ups = ups; open_elements = [] })
        (replicate n dotdot_element ++ ws)
      ≡ resolve_all false (record { ups = ups + n; open_elements = [] }) ws
unfolding resolve_all resolve is_current is_parent go_up
resolve_all-ups zero ups ws =
    ap (λ u. resolve_all false (record { ups = u; open_elements = [] }) ws)
      (let e : ups ≡ ups + 0 = omega arith in e)
resolve_all-ups (suc n) ups ws =
    resolve_all-ups n (suc ups) ws
    ∙ ap (λ u. resolve_all false (record { ups = u; open_elements = [] }) ws)
        (let e : suc ups + n ≡ ups + suc n = omega arith in e)

dot_clean : clean_spec (show_relative []) ≡ show_relative []
unfolding clean_spec show_relative show rooted_path components cons_head resolve_all resolve
    is_current join
dot_clean = refl

names_back : (names : List Bytes) → reverse (reverse names ++ []) ≡ names
names_back names = ap reverse (append-nil (reverse names)) ∙ reverse-reverse names

elements-NoSlash : (ws : List Bytes) → All IsElement ws → All NoSlash ws
elements-NoSlash [] n = tt
elements-NoSlash (w ∷ ws) (e, es) = (e.no_slash, elements-NoSlash ws es)

-- A text of proper names below the root is clean.
rooted_clean :
    (names : List Bytes)
    → All IsElement names
    → clean_spec (slash ∷ join names) ≡ slash ∷ join names
unfolding clean_spec rooted_path components show join resolve_all resolve is_current
rooted_clean [] n = refl
rooted_clean (w ∷ ws) n =
    ap (λ l. slash ∷ join (reverse (resolve_all true start l).open_elements))
      (components-join w ws (elements-NoSlash (w ∷ ws) n))
    ∙ ap (λ p. slash ∷ join (reverse p.open_elements)) (resolve_all-open true start (w ∷ ws) n)
    ∙ ap (λ l. slash ∷ join l) (names_back (w ∷ ws))

Starts : Bytes → Type 0
Starts w = (c : ℕ) × (v : Bytes) × (w ≡ c ∷ v) × (c ≢ slash)

IsElement-Starts : (w : Bytes) → IsElement w → Starts w
unfolding is_current Starts
IsElement-Starts [] e = absurd (let bad : true ≡ false = e.not_current in cc)
IsElement-Starts (c ∷ v) e = (c, v, refl, e.no_slash.0)

join-relative : (w : Bytes) (ws : List Bytes) → Starts w → rooted_path (join (w ∷ ws)) ≡ false
unfolding Starts rooted_path join
join-relative w [] (c, v, e, other) = ap rooted_path e ∙ ground arith
join-relative w (u ∷ ws) (c, v, e, other) =
    ap (λ t. rooted_path (t ++ slash ∷ join (u ∷ ws))) e ∙ ground arith

-- A text of leading `..` and proper names is clean.
relative_list :
    (ups : ℕ) (names : List Bytes) (w : Bytes) (ws : List Bytes)
    → replicate ups dotdot_element ++ names ≡ w ∷ ws
    → All NoSlash (w ∷ ws)
    → Starts w
    → All IsElement names
    → clean_spec (show_relative (replicate ups dotdot_element ++ names))
      ≡ show_relative (replicate ups dotdot_element ++ names)
unfolding clean_spec show_relative show
relative_list ups names w ws e n s proper =
    let text = join (w ∷ ws) in
    let shown : show_relative (replicate ups dotdot_element ++ names) ≡ text = ap show_relative e in
    ap clean_spec shown
    ∙ ap (λ b. show b (resolve_all b start (components text))) (join-relative w ws s)
    ∙ ap (λ l. show false (resolve_all false start l)) (components-join w ws n ∙ sym e)
    ∙ ap (show false) (
        resolve_all-ups ups 0 names
        ∙ resolve_all-open false (record { ups = 0 + ups; open_elements = [] }) names proper)
    ∙ ap (λ l. show_relative (replicate (0 + ups) dotdot_element ++ l)) (names_back names)
    ∙ ap (λ u. show_relative (replicate u dotdot_element ++ names))
        (let same : 0 + ups ≡ ups = omega arith in same)

ups-NoSlash :
    (ups : ℕ) (names : List Bytes)
    → All NoSlash names
    → All NoSlash (replicate ups dotdot_element ++ names)
ups-NoSlash zero names n = n
ups-NoSlash (suc ups) names n =
    (((λ e. omega arith), ((λ e. omega arith), tt)), ups-NoSlash ups names n)

relative_clean :
    (ups : ℕ) (names : List Bytes)
    → All IsElement names
    → clean_spec (show_relative (replicate ups dotdot_element ++ names))
      ≡ show_relative (replicate ups dotdot_element ++ names)
unfolding Starts
relative_clean zero [] n = dot_clean
relative_clean zero (w ∷ ws) n =
    relative_list zero (w ∷ ws) w ws refl (elements-NoSlash (w ∷ ws) n) (IsElement-Starts w n.0) n
relative_clean (suc ups) names n =
    relative_list (suc ups) names dotdot_element (replicate ups dotdot_element ++ names) refl
      (ups-NoSlash (suc ups) names (elements-NoSlash names n))
      (dot, dot ∷ [], refl, λ e. omega arith) n

shown_clean :
    (rooted : Bool) (p : Place)
    → All IsElement p.open_elements
    → clean_spec (show rooted p) ≡ show rooted p
unfolding show
shown_clean true p n =
    rooted_clean (reverse p.open_elements) (All-reverse IsElement p.open_elements n)
shown_clean false p n =
    relative_clean p.ups (reverse p.open_elements) (All-reverse IsElement p.open_elements n)

clean_spec_idempotent : (path : Bytes) → clean_spec (clean_spec path) ≡ clean_spec path
clean_spec_idempotent path =
    let rooted = rooted_path path in
    let shown : clean_spec path ≡ show rooted (resolve_all rooted start (components path)) =
      unfold clean_spec in refl in
    ap clean_spec shown
    ∙ shown_clean rooted (resolve_all rooted start (components path))
        (resolve_all-IsProper rooted start (components path) (components-NoSlash path) tt)
    ∙ sym shown

-- Cleaning a cleaned path, in any buffer that is large enough for the first path, changes nothing.
pub clean_path_idempotent :
    (path buffer second : Bytes)
    → max 1 (length path) ≤ length buffer
    → max 1 (length path) ≤ length second
    → (o : Output) × (o' : Output) × (clean_path path buffer ≡ some o)
      × (clean_path (written o) second ≡ some o')
      × (written o' ≡ written o)
unfolding written
clean_path_idempotent path buffer second room again =
    let (o, run, shown, short, _) = clean_path-eq-clean_spec path buffer room in
    let size : length (written o) ≡ length o.before = length-reverse o.before in
    let (o', run', shown', _, _) = clean_path-eq-clean_spec (written o) second (omega arith) in
    (o, o', run, run', shown' ∙ ap clean_spec shown ∙ clean_spec_idempotent path ∙ sym shown)
