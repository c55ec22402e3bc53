-- ===== src/Core/Heap.antt =====
-- The contexts that the event loop of src/core/yta_event_loop.c has allocated and not freed, by
-- address. Reading or freeing at another address is a fault.
pub mod Laws
pub mod Everywhere
use yotta.Prelude.{
  ℕ, suc, ◌≡◌, ◌≢◌, refl, Bool, true, false, Option, none, some, List, [], ◌∷◌, ◌==◌, if◌then◌else◌,
  length, arith, All,
}
use yotta.Core.Outcome.{Outcome, done, faulted}

module _ {V : Type 0} where
  unfoldable pub load : ℕ → List (ℕ × V) → Outcome V
  load a [] = faulted
  load a ((b, v) ∷ heap) = if b == a then done v else load a heap

  unfoldable pub store : ℕ → V → List (ℕ × V) → List (ℕ × V)
  store a v [] = []
  store a v ((b, w) ∷ heap) = if b == a then (b, v) ∷ heap else (b, w) ∷ store a v heap

  unfoldable pub free : ℕ → List (ℕ × V) → List (ℕ × V)
  free a [] = []
  free a ((b, v) ∷ heap) = if b == a then heap else (b, v) ∷ free a heap
