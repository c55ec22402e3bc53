-- ===== src/Core/Outcome.antt =====
-- How a run of the C code of src/core can end: with a value, by `exit` with its code, by a failed
-- `assert`, or in behaviour that C does not define, such as the use of freed memory.
use yotta.Prelude.{
  ℕ, ◌≡◌, ◌≢◌, refl, sym, subst, ap, ◌∙◌, Option, none, some, Bool, true, false, if◌then◌else◌,
}

pub data Outcome {ℓ} (A : Type ℓ) : Type ℓ where
  done : A → Outcome A
  exited : ℕ → Outcome A
  aborted : Outcome A
  faulted : Outcome A

infixl 5 ◌>>=◌
abbrev pub ◌>>=◌ {ℓ κ} : {A : Type ℓ} {B : Type κ} → Outcome A → (A → Outcome B) → Outcome B
done a >>= f = f a
exited code >>= f = exited code
aborted >>= f = aborted
faulted >>= f = faulted

abbrev pub or_fault {ℓ} : {A : Type ℓ} → Option A → Outcome A
or_fault none = faulted
or_fault (some a) = done a

pub or_fault-done {ℓ} : {A : Type ℓ} (o : Option A) {a : A} → or_fault o ≡ done a → o ≡ some a
or_fault-done none h = cc
or_fault-done (some b) h = cc

or_else {ℓ} : {A : Type ℓ} → A → Outcome A → A
or_else d (done a) = a
or_else d (exited code) = d
or_else d aborted = d
or_else d faulted = d

pub done-injective {ℓ} : {A : Type ℓ} {a b : A} → done a ≡ done b → a ≡ b
unfolding or_else
done-injective {a} h = ap (or_else a) h

pub >>=-eq-done {ℓ κ} :
    {A : Type ℓ} {B : Type κ} (m : Outcome A) (f : A → Outcome B) {b : B}
    → (m >>= f) ≡ done b
    → (a : A) × (m ≡ done a) × (f a ≡ done b)
>>=-eq-done (done a) f h = (a, refl, h)
>>=-eq-done (exited code) f h = cc
>>=-eq-done aborted f h = cc
>>=-eq-done faulted f h = cc

pub >>=_assoc {ℓ κ ι} :
    {A : Type ℓ} {B : Type κ} {D : Type ι} (m : Outcome A) (f : A → Outcome B) (g : B → Outcome D)
    → ((m >>= f) >>= g) ≡ (m >>= λ a. f a >>= g)
>>=_assoc (done a) f g = refl
>>=_assoc (exited code) f g = refl
>>=_assoc aborted f g = refl
>>=_assoc faulted f g = refl

-- The code does nothing that C leaves undefined.
abbrev pub Sound {ℓ} : {A : Type ℓ} → Outcome A → Type ℓ
Sound m = m ≢ faulted

pub done-Sound {ℓ} : {A : Type ℓ} (a : A) → Sound (done a)
done-Sound a h = cc

pub exited-Sound {ℓ} : {A : Type ℓ} (code : ℕ) → Sound {A = A} (exited code)
exited-Sound code h = cc

pub aborted-Sound {ℓ} : {A : Type ℓ} → Sound {A = A} aborted
aborted-Sound h = cc

pub Sound->>= {ℓ κ} :
    {A : Type ℓ} {B : Type κ} (m : Outcome A) (f : A → Outcome B)
    → Sound m
    → ((a : A) → m ≡ done a → Sound (f a))
    → Sound (m >>= f)
Sound->>= (done a) f s k = k a refl
Sound->>= (exited code) f s k = exited-Sound code
Sound->>= aborted f s k = aborted-Sound
Sound->>= faulted f s k = absurd (s refl)

pub Sound-if {ℓ} :
    {A : Type ℓ} (b : Bool) {x y : Outcome A}
    → (b ≡ true → Sound x)
    → (b ≡ false → Sound y)
    → Sound (if b then x else y)
Sound-if true h k = h refl
Sound-if false h k = k refl

-- A code that comes to an end does so with one result.
pub done-unique {ℓ κ} :
    {A : Type ℓ} (Q : A → Type κ) (m : Outcome A) (a : A)
    → m ≡ done a
    → Q a
    → (a' : A) → m ≡ done a'
    → Q a'
done-unique Q m a e q a' e' = subst Q (done-injective (sym e ∙ e')) q

-- What holds of the result, if there is one.
abbrev pub Yields {ℓ κ} : {A : Type ℓ} → (A → Type κ) → Outcome A → Type (ℓ ⊔ κ)
Yields {A} P m = (a : A) → m ≡ done a → P a

module _ {ℓ κ} {A : Type ℓ} (P : A → Type κ) where
  pub done-Yields : (a : A) → P a → Yields P (done a)
  done-Yields a p b h = subst P (done-injective h) p

  pub aborted-Yields : Yields P aborted
  aborted-Yields a h = cc

  pub if-Yields :
      (b : Bool) (x y : Outcome A) → Yields P x → Yields P y → Yields P (if b then x else y)
  if-Yields true x y h k = h
  if-Yields false x y h k = k

  pub split-Yields :
      (b : Bool) {x y : Outcome A}
      → (b ≡ true → Yields P x)
      → (b ≡ false → Yields P y)
      → Yields P (if b then x else y)
  split-Yields true h k = h refl
  split-Yields false h k = k refl

  pub bind-Yields {ι θ} :
      {B : Type ι} (Q : B → Type θ) (m : Outcome B) (f : B → Outcome A)
      → Yields Q m
      → ((b : B) → Q b → Yields P (f b))
      → Yields P (m >>= f)
  bind-Yields Q m f q k a h = let (b, e, h') = >>=-eq-done m f h in k b (q b e) a h'
