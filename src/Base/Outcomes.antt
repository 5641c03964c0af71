-- ===== src/Base/Outcomes.antt =====
-- How a C++ call ends: it returns, it throws, or it stops the process (`std::abort`, a failed
-- assertion of a library). What an exception says is only printed, and is left out.
use mathlib.Core.Path.{◌≡◌, refl, subst}

pub data Outcome {ℓ} (A : Type ℓ) : Type ℓ where
  returned : A → Outcome A
  thrown : Outcome A
  aborted : Outcome A

module _ {ℓ κ} {A : Type ℓ} {B : Type κ} where
  abbrev pub and_then : Outcome A → (A → Outcome B) → Outcome B
  and_then (returned a) f = f a
  and_then thrown f = thrown
  and_then aborted f = aborted

  pub and_then-eq_returned :
      (m : Outcome A) (f : A → Outcome B) {b : B}
      → and_then m f ≡ returned b
      → (a : A) × (m ≡ returned a) × (f a ≡ returned b)
  and_then-eq_returned (returned a) f h = (a, refl, h)
  and_then-eq_returned thrown f h = cc
  and_then-eq_returned aborted f h = cc

-- To split on how a call ended.
pub data Ended {ℓ} {A : Type ℓ} (m : Outcome A) : Type ℓ where
  returns : (a : A) → m ≡ returned a → Ended m
  throws : m ≡ thrown → Ended m
  aborts : m ≡ aborted → Ended m

pub Outcome-cases {ℓ} : {A : Type ℓ} (m : Outcome A) → Ended m
Outcome-cases (returned a) = returns a refl
Outcome-cases thrown = throws refl
Outcome-cases aborted = aborts refl

-- What holds of the value, if the call returns one.
abbrev pub Yields {ℓ κ} : {A : Type ℓ} → (A → Type κ) → Outcome A → Type κ
Yields P (returned a) = P a
Yields P thrown = Unit
Yields P aborted = Unit

-- What follows a call may use what the call returned.
pub Yields-and_then {ℓ κ μ} :
    {A : Type ℓ} {B : Type κ} (P : B → Type μ) (m : Outcome A) (f : A → Outcome B)
    → ((a : A) → m ≡ returned a → Yields P (f a))
    → Yields P (and_then m f)
Yields-and_then P (returned a) f h = h a refl
Yields-and_then P thrown f h = tt
Yields-and_then P aborted f h = tt

module _ {ℓ κ} {A : Type ℓ} (P : A → Type κ) where
  pub Yields_at : (m : Outcome A) {a : A} → Yields P m → m ≡ returned a → P a
  Yields_at m h e = subst (Yields P) e h

  pub Yields-map {μ} :
      (Q : A → Type μ) → ((a : A) → P a → Q a) → (m : Outcome A) → Yields P m → Yields Q m
  Yields-map Q f (returned a) h = f a h
  Yields-map Q f thrown h = tt
  Yields-map Q f aborted h = tt

-- That the call returns.
abbrev pub Returns {ℓ} : {A : Type ℓ} → Outcome A → Type ℓ
Returns {A} m = (a : A) × (m ≡ returned a)

pub Returns-and_then {ℓ κ} :
    {A : Type ℓ} {B : Type κ} (m : Outcome A) (f : A → Outcome B)
    → Returns m
    → ((a : A) → m ≡ returned a → Returns (f a))
    → Returns (and_then m f)
Returns-and_then (returned a) f h g = g a refl
Returns-and_then thrown f (a, e) g = absurd (cc)
Returns-and_then aborted f (a, e) g = absurd (cc)
