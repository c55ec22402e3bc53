-- ===== src/Http/CleanPath/Spec.antt =====
-- What `clean_path` of src/http/yta_http.cpp is to compute, told without a buffer: the elements of
-- the path between its slashes are resolved one by one on a stack, and the stack is joined again.
use yotta.Prelude.{
  ℕ, suc, ◌≡◌, ◌≢◌, Bool, true, false, ◌&&◌, List, [], ◌∷◌, ◌++◌, reverse, Bytes, replicate, ◌==◌,
  if◌then◌else◌, All,
}
use yotta.Http.CleanPath.{slash, dot}

unfoldable pub cons_head : ℕ → List Bytes → List Bytes
cons_head c [] = (c ∷ []) ∷ []
cons_head c (w ∷ ws) = (c ∷ w) ∷ ws

-- The parts between the slashes; there is always one.
unfoldable pub components : Bytes → List Bytes
unfolding cons_head
components [] = [] ∷ []
components (c ∷ path) = if c == slash then [] ∷ components path else cons_head c (components path)

-- The empty element and `.` stand for the directory itself.
unfoldable pub is_current : Bytes → Bool
is_current [] = true
is_current (c ∷ []) = c == dot
is_current (c ∷ d ∷ w) = false

unfoldable pub is_parent : Bytes → Bool
is_parent [] = false
is_parent (c ∷ []) = false
is_parent (c ∷ d ∷ []) = c == dot && d == dot
is_parent (c ∷ d ∷ e ∷ w) = false

-- How many `..` a relative path leads with, and the elements that are open, innermost first.
pub record Place : Type 0 where
  pub ups : ℕ
  pub open_elements : List Bytes

unfoldable pub go_up : Bool → ℕ → List Bytes → Place
go_up rooted ups (w ∷ ws) = record { ups = ups; open_elements = ws }
go_up true ups [] = record { ups = ups; open_elements = [] }
go_up false ups [] = record { ups = suc ups; open_elements = [] }

unfoldable pub resolve : Bool → Place → Bytes → Place
unfolding is_current is_parent go_up
resolve rooted p w =
    if is_current w
    then p
    else if is_parent w
    then go_up rooted p.ups p.open_elements
    else record p { open_elements = w ∷ p.open_elements }

unfoldable pub resolve_all : Bool → Place → List Bytes → Place
unfolding resolve
resolve_all rooted p [] = p
resolve_all rooted p (w ∷ ws) = resolve_all rooted (resolve rooted p w) ws

abbrev pub start : Place
start = record { ups = 0; open_elements = [] }

unfoldable pub join : List Bytes → Bytes
join [] = []
join (w ∷ []) = w
join (w ∷ v ∷ ws) = w ++ slash ∷ join (v ∷ ws)

abbrev pub dotdot_element : Bytes
dotdot_element = dot ∷ dot ∷ []

abbrev pub elements : Place → List Bytes
elements p = replicate p.ups dotdot_element ++ reverse p.open_elements

unfoldable pub show_relative : List Bytes → Bytes
unfolding join
show_relative [] = dot ∷ []
show_relative (w ∷ ws) = join (w ∷ ws)

-- A path that leads nowhere is written `.`, or `/` if it is rooted.
unfoldable pub show : Bool → Place → Bytes
unfolding join show_relative
show true p = slash ∷ join (reverse p.open_elements)
show false p = show_relative (elements p)

unfoldable pub rooted_path : Bytes → Bool
rooted_path [] = false
rooted_path (c ∷ path) = c == slash

unfoldable pub clean_spec : Bytes → Bytes
clean_spec path = show (rooted_path path) (resolve_all (rooted_path path) start (components path))

abbrev pub NoSlash : Bytes → Type 0
NoSlash = All (λ c. c ≢ slash)

-- A proper name: no empty element, no `.`, no `..`, and no slash within.
pub record IsElement (w : Bytes) : Type 0 where
  pub no_slash : NoSlash w
  pub not_current : is_current w ≡ false
  pub not_parent : is_parent w ≡ false
