-- ===== src/Core/Heap/Laws.antt =====
-- Laws of the heap of contexts of src/core/yta_event_loop.c.
use yotta.Prelude.{
  ℕ, suc, ◌≡◌, ◌≢◌, refl, Bool, true, false, List, [], ◌∷◌, ◌==◌, if◌then◌else◌, length, arith,
  Bool-cases, inl, inr,
}
use yotta.Core.Outcome.{done}
use yotta.Core.Heap.{load, store, free}

module _ {V : Type 0} where
  unfoldable pub has : ℕ → List (ℕ × V) → Bool
  has a [] = false
  has a ((b, v) ∷ heap) = if b == a then true else has a heap

  pub has-load : (a : ℕ) (heap : List (ℕ × V)) {v : V} → load a heap ≡ done v → has a heap ≡ true
  unfolding has load
  has-load a [] h = cc
  has-load a ((b, w) ∷ heap) {v} h = ground (arith, has-load a heap {v = v})

  pub load-has :
      (a : ℕ) (heap : List (ℕ × V)) → has a heap ≡ true → (v : V) × (load a heap ≡ done v)
  unfolding has load
  load-has a [] h = cc
  load-has a ((b, w) ∷ heap) h = elim (Bool-cases (b == a)) [
    | inl e ↦ (w, rw e)
    | inr e ↦ let (v, loaded) = load-has a heap (rw e at h) in (v, rw e loaded)
  ]

  pub length-store : (a : ℕ) (v : V) (heap : List (ℕ × V)) → length (store a v heap) ≡ length heap
  unfolding store
  length-store a v [] = refl
  length-store a v ((b, w) ∷ heap) = ground (arith, length-store a v heap)

  pub has-store : (a b : ℕ) (v : V) (heap : List (ℕ × V)) → has b (store a v heap) ≡ has b heap
  unfolding store has
  has-store a b v [] = refl
  has-store a b v ((c, w) ∷ heap) = ground (arith, has-store a b v heap)

  pub length-free :
      (a : ℕ) (heap : List (ℕ × V)) → has a heap ≡ true → suc (length (free a heap)) ≡ length heap
  unfolding free has
  length-free a [] h = cc
  length-free a ((c, w) ∷ heap) h = ground (arith, length-free a heap)

  pub has-free : (a b : ℕ) (heap : List (ℕ × V)) → a ≢ b → has b (free a heap) ≡ has b heap
  unfolding free has
  has-free a b [] h = refl
  has-free a b ((c, w) ∷ heap) h = ground (arith, has-free a b heap)

  pub length-has : (a : ℕ) (heap : List (ℕ × V)) → has a heap ≡ true → length heap ≢ 0
  unfolding has
  length-has a [] h = cc
  length-has a ((c, w) ∷ heap) h = omega arith

  pub load-store_ne :
      (a b : ℕ) (v : V) (heap : List (ℕ × V)) → a ≢ b → load b (store a v heap) ≡ load b heap
  unfolding store load
  load-store_ne a b v [] h = refl
  load-store_ne a b v ((c, w) ∷ heap) h = ground (arith, load-store_ne a b v heap)

  pub load-free_ne : (a b : ℕ) (heap : List (ℕ × V)) → a ≢ b → load b (free a heap) ≡ load b heap
  unfolding free load
  load-free_ne a b [] h = refl
  load-free_ne a b ((c, w) ∷ heap) h = ground (arith, load-free_ne a b heap)

  pub load-cons_ne :
      (a b : ℕ) (v : V) (heap : List (ℕ × V)) → a ≢ b → load b ((a, v) ∷ heap) ≡ load b heap
  unfolding load
  load-cons_ne a b v heap h = ground arith
