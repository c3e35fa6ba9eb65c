-- ===== src/Prelude/Outcome.antt =====
-- How a call of the program ends: with a value, with an API error, or with a panic. A handler also
-- changes the state of the API server behind it, so it is an action that passes that state on.
use mathlib.Core.Path.{◌≡◌, refl}
use mathlib.Core.Logic.{◌≢◌, ◌⊎◌, inl, inr}
use native.Mathlib.Omega.{arith}
use external_crd.Prelude.Text.{Text}

-- schema.GroupResource
pub record GroupResource : Type 0 where
  pub group : Text
  pub resource : Text

-- The errors of k8s.io/apimachinery/pkg/api/errors that the program makes or tests, and any other.
pub data ApiError : Type 0 where
  unauthorized : ApiError
  bad_username : ApiError
  wrong_namespace : Text → Text → ApiError
  bad_request : ApiError
  invalid_namespace : Text → ApiError
  not_found : GroupResource → Text → ApiError
  already_exists : GroupResource → Text → ApiError
  method_not_supported : GroupResource → Text → ApiError
  internal : ApiError → ApiError
  other : Text → ApiError

pub data Outcome {ℓ} (A : Type ℓ) : Type ℓ where
  ok : A → Outcome A
  err : ApiError → Outcome A
  panic : Outcome A

pub ok_injective {ℓ} : {A : Type ℓ} → {a b : A} → ok a ≡ ok b → a ≡ b
ok_injective h = cc

-- A pair is known when its first part is.
pub eq-pair {ℓ} : {A B : Type ℓ} (q : A × B) (a : A) → q.0 ≡ a → q ≡ (a, q.1)
eq-pair q a h = rw h

pub Outcome-cases {ℓ} : {A : Type ℓ} (o : Outcome A) → ((a : A) × (o ≡ ok a)) ⊎ ((a : A) → o ≢ ok a)
Outcome-cases (ok a) = inl (a, refl)
Outcome-cases (err e) = inr (λ a h. cc)
Outcome-cases panic = inr (λ a h. cc)

module _ {ℓ} {A B : Type ℓ} where
  -- The value goes on, an error or a panic ends the call.
  abbrev pub then_do : Outcome A → (A → Outcome B) → Outcome B
  then_do (ok a) f = f a
  then_do (err e) f = err e
  then_do panic f = panic

abbrev pub Exec {ℓ} : Type ℓ → Type ℓ → Type ℓ
Exec S A = S → Outcome A × S

module _ {ℓ} {S A : Type ℓ} where
  abbrev pub pure : A → Exec S A
  pure a s = (ok a, s)

  abbrev pub raise : ApiError → Exec S A
  raise e s = (err e, s)

  abbrev pub lift : Outcome A → Exec S A
  lift r s = (r, s)

  -- A read of the state.
  abbrev pub reads : (S → Outcome A) → Exec S A
  reads f s = (f s, s)

module _ {ℓ} {S A B : Type ℓ} where
  abbrev pub continue : Outcome A → (A → Exec S B) → Exec S B
  continue (ok a) f s = f a s
  continue (err e) f s = (err e, s)
  continue panic f s = (panic, s)

  infixl 10 ◌>>=◌
  abbrev pub ◌>>=◌ : Exec S A → (A → Exec S B) → Exec S B
  ◌>>=◌ m f s = let (r, s') = m s in continue r f s'

module _ {ℓ} {A B : Type ℓ} where
  -- A call that returns a value had its first part return one.
  pub then_do-eq-ok :
      (m : Outcome A) (f : A → Outcome B) {b : B}
      → then_do m f ≡ ok b
      → (a : A) × (m ≡ ok a) × (f a ≡ ok b)
  then_do-eq-ok (ok a) f h = (a, refl, h)
  then_do-eq-ok (err e) f h = cc
  then_do-eq-ok panic f h = cc

module _ {ℓ} {S A B : Type ℓ} where
  -- The same for actions: the first part left a state in which the second ran.
  continue-eq-ok :
      (r : Outcome A) (f : A → Exec S B) (t : S) {v : B} {s' : S}
      → continue r f t ≡ (ok v, s')
      → (a : A) × (r ≡ ok a) × (f a t ≡ (ok v, s'))
  continue-eq-ok (ok a) f t h = (a, refl, h)
  continue-eq-ok (err e) f t h = absurd (ground arith)
  continue-eq-ok panic f t h = absurd (ground arith)

  pub bind-eq-ok :
      (m : Exec S A) (f : A → Exec S B) (s : S) {v : B} {s' : S}
      → (m >>= f) s ≡ (ok v, s')
      → (a : A) × ((m s).0 ≡ ok a) × (f a (m s).1 ≡ (ok v, s'))
  bind-eq-ok m f s h = continue-eq-ok (m s).0 f (m s).1 h

  -- What a bind does to the state, its first part does or its second: a property of the state that
  -- both keep is kept, whether the bind returns or fails.
  pub bind-keeps {κ} :
      (P : S → Type κ) (m : Exec S A) (f : A → Exec S B) (s : S)
      → P (m s).1
      → ((a : A) → (m s).0 ≡ ok a → P (m s).1 → P (f a (m s).1).1)
      → P ((m >>= f) s).1
  bind-keeps P m f s h step = continue-keeps (m s).0 (m s).1 h step
    where
      continue-keeps :
          (r : Outcome A) (t : S)
          → P t
          → ((a : A) → r ≡ ok a → P t → P (f a t).1)
          → P (continue r f t).1
      continue-keeps (ok a) t h step = step a refl h
      continue-keeps (err e) t h step = h
      continue-keeps panic t h step = h

module _ {ℓ} {S A B : Type ℓ} where
  -- An action behind a check that succeeds is that action.
  pub checked :
      (c : Outcome A) (f : A → Exec S B) (s : S) (v : B)
      → ((lift c >>= f) s).0 ≡ ok v
      → (a : A) × (c ≡ ok a) × ((lift c >>= f) s ≡ f a s)
  checked (ok a) f s v h = (a, refl, refl)
  checked (err e) f s v h = absurd (ground arith)
  checked panic f s v h = absurd (ground arith)

  -- A bind that returns nothing keeps a property of the state if its first part keeps it where that
  -- returns nothing, and its second part where the first returned a value.
  pub bind-refused {κ} :
      (P : S → Type κ) (m : Exec S A) (f : A → Exec S B) (s : S)
      → (((a : A) → (m s).0 ≢ ok a) → P (m s).1)
      → ((a : A) → m s ≡ (ok a, (m s).1) → ((v : B) → (f a (m s).1).0 ≢ ok v) → P (f a (m s).1).1)
      → ((v : B) → ((m >>= f) s).0 ≢ ok v)
      → P ((m >>= f) s).1
  bind-refused P m f s first second refused = at (m s) first second refused
    where
      at :
          (q : Outcome A × S)
          → (((a : A) → q.0 ≢ ok a) → P q.1)
          → ((a : A) → q ≡ (ok a, q.1) → ((v : B) → (f a q.1).0 ≢ ok v) → P (f a q.1).1)
          → ((v : B) → (continue q.0 f q.1).0 ≢ ok v)
          → P (continue q.0 f q.1).1
      at (ok a, t) first second refused = second a refl refused
      at (err e, t) first second refused = first (λ a h. cc)
      at (panic, t) first second refused = first (λ a h. cc)

  -- An action behind a check that fails changes nothing.
  pub unchecked :
      (c : Outcome A) (f : A → Exec S B) (s : S) → ((a : A) → c ≢ ok a) → ((lift c >>= f) s).1 ≡ s
  unchecked (ok a) f s h = absurd (h a refl)
  unchecked (err e) f s h = refl
  unchecked panic f s h = refl

  -- Two actions that agree at a state agree behind a check.
  pub checked_ext :
      (c : Outcome A) (f g : A → Exec S B) (s : S)
      → ((a : A) → f a s ≡ g a s)
      → (lift c >>= f) s ≡ (lift c >>= g) s
  checked_ext (ok a) f g s h = h a
  checked_ext (err e) f g s h = refl
  checked_ext panic f g s h = refl
