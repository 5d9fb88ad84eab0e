-- ===== src/Python/Actions.antt =====
-- Statements that change a state and may raise. What was done before a raise stays done, so the
-- state comes back beside the exception too.
use mellivor_kernel.Prelude.{◌≡◌, refl, ap}
use mellivor_kernel.Python.Exceptions.{Exception, Result, returned, raised}

abbrev pub Action : Type 0 → Type 0 → Type 0
Action S A = S → Result A × S

module _ {S A : Type 0} where
  abbrev pub pure : A → Action S A
  pure a s = (returned a, s)

  abbrev pub raise : Exception → Action S A
  raise e s = (raised e, s)

  abbrev pub lift : Result A → Action S A
  lift r s = (r, s)

  -- `try: body`, with its outcome handed to the `except` and `else` parts
  abbrev pub attempt : Action S A → Action S (Result A)
  attempt body s = let (r, s') = body s in (returned r, s')

module _ {S A B : Type 0} where
  abbrev pub resume : Result A → (A → Action S B) → Action S B
  resume (returned a) k = k a
  resume (raised e) k = raise e

  infixl 5 ◌>>=◌ ◌>>◌
  abbrev pub ◌>>=◌ : Action S A → (A → Action S B) → Action S B
  m >>= k = λ s. let (r, s') = m s in resume r k s'

  abbrev pub ◌>>◌ : Action S A → Action S B → Action S B
  m >> n = m >>= λ _. n

-- Total correctness of an outcome: it is no exception, and what it returns has the property.
abbrev pub Returns : {A : Type 0} → (A → Type 0) → Result A → Type 0
Returns P (returned a) = P a
Returns P (raised e) = ⊥

pub Returns-map :
    {A : Type 0} {P Q : A → Type 0} (r : Result A)
    → ((a : A) → P a → Q a)
    → Returns P r
    → Returns Q r
Returns-map (returned a) f h = f a h
Returns-map (raised e) f h = h

module _ {S A B : Type 0} (P : A → Type 0) (Q : B → Type 0) where
  pub resume-Returns :
      (r : Result A) (k : A → Action S B) (s : S)
      → Returns P r
      → ((a : A) → P a → Returns Q (k a s).0)
      → Returns Q (resume r k s).0
  resume-Returns (returned a) k s h f = f a h
  resume-Returns (raised e) k s h f = absurd h

  -- A block of statements that return, by what they return.
  pub >>=-Returns :
      (m : Action S A) (k : A → Action S B) (s : S)
      → Returns P (m s).0
      → ((a : A) (s' : S) → P a → Returns Q (k a s').0)
      → Returns Q ((m >>= k) s).0
  >>=-Returns m k s h f = resume-Returns (m s).0 k (m s).1 h (λ a. f a (m s).1)

-- A block whose first statement returns goes on with the rest.
pub >>=-returned :
    {S A B : Type 0} (m : Action S A) (k : A → Action S B) (s : S) {a : A}
    → (m s).0 ≡ returned a
    → (m >>= k) s ≡ k a (m s).1
>>=-returned m k s h = ap (λ r. resume r k (m s).1) h

pub Returns-witness :
    {A : Type 0} {P : A → Type 0} (r : Result A) → Returns P r → (a : A) × (r ≡ returned a) × P a
Returns-witness (returned a) h = (a, refl, h)
Returns-witness (raised e) h = absurd h
