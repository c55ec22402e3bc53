-- ===== src/Core/Heap/Everywhere.antt =====
-- A property of every allocated context, through the operations of the store.
use yotta.Prelude.{
  ℕ, ◌≡◌, sym, ap, ◌∙◌, inl, inr, List, [], ◌∷◌, ◌==◌, ==_iff, Bool-cases, subst, if-eq-then,
  if-eq-else, All,
}
use yotta.Core.Outcome.{Outcome, done, faulted, done-injective}
use yotta.Core.Heap.{load, store, free}

module _ {V : Type 0} (Q : ℕ × V → Type 0) where
  pub All-load :
      (a : ℕ) (heap : List (ℕ × V)) {v : V} → All Q heap → load a heap ≡ done v → Q (a, v)
  unfolding load
  All-load a [] q h = absurd (let bad : ◌≡◌ {A = Outcome V} faulted (done _) = h in cc)
  All-load a ((b, w) ∷ heap) (q, qs) h = elim (Bool-cases (b == a)) [
    | inl e ↦
        let same : (b, w) ≡ (a, _) =
          ap (λ x. (x, w)) ((==_iff b a).0 e)
          ∙ ap (λ x. (a, x)) (done-injective (if-eq-then _ _ e h)) in
        subst Q same q
    | inr e ↦ All-load a heap qs (if-eq-else _ _ e h)
  ]

  pub All-store :
      (a : ℕ) (v : V) (heap : List (ℕ × V)) → Q (a, v) → All Q heap → All Q (store a v heap)
  unfolding store
  All-store a v [] q qs = tt
  All-store a v ((b, w) ∷ heap) q (r, rs) = elim (Bool-cases (b == a)) [
    | inl e ↦ rw e (subst (λ x. Q (x, v)) (sym ((==_iff b a).0 e)) q, rs)
    | inr e ↦ rw e (r, All-store a v heap q rs)
  ]

  pub All-free : (a : ℕ) (heap : List (ℕ × V)) → All Q heap → All Q (free a heap)
  unfolding free
  All-free a [] qs = tt
  All-free a ((b, w) ∷ heap) (q, qs) = elim (Bool-cases (b == a)) [
    | inl e ↦ rw e qs
    | inr e ↦ rw e (q, All-free a heap qs)
  ]

  -- What is stored before it is freed does not matter.
  pub All-free-store :
      (a : ℕ) (v : V) (heap : List (ℕ × V)) → All Q heap → All Q (free a (store a v heap))
  unfolding free store
  All-free-store a v [] qs = tt
  All-free-store a v ((b, w) ∷ heap) (q, qs) = elim (Bool-cases (b == a)) [
    | inl e ↦ rw (e, e) qs
    | inr e ↦ rw (e, e) (q, All-free-store a v heap qs)
  ]
