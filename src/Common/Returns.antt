-- ===== src/Common/Returns.antt =====
-- What a piece of code returns, if it returns: the rules that prove it step by step, and those of
-- the tests that it branches on.
use mathlib.Core.Path.{◌≡◌, refl, subst, ap}
use mathlib.Core.Option.{Option, none, some}
use mathlib.Core.Bool.{Bool, true, false}
use eth_cl_state_analyzer.Common.Tests.{if◌then◌else◌}
use eth_cl_state_analyzer.Common.Go.{Go, ok, panic, fatal, waits, ◌>>=◌}

abbrev Holds {ℓ} : {A : Type ℓ} → (A → Type 0) → Go A → Type 0
Holds P (ok a) = P a
Holds P panic = Unit
Holds P fatal = Unit
Holds P waits = Unit

-- What the code returns, if it returns, is in `P`.
pub record Returns {ℓ} {A : Type ℓ} (P : A → Type 0) (m : Go A) : Type 0 where
  pub at : Holds P m

module _ {ℓ} {A : Type ℓ} {P : A → Type 0} where
  pub Returns-ok : {a : A} → P a → Returns P (ok a)
  Returns-ok h = record { at = h }

  pub Returns-panic : Returns P panic
  Returns-panic = record { at = tt }

  pub Returns-fatal : Returns P fatal
  Returns-fatal = record { at = tt }

  pub Returns-waits : Returns P waits
  Returns-waits = record { at = tt }

module _ {ℓ κ} {A : Type ℓ} {B : Type κ} where
  pub Returns-bind :
      {Q : A → Type 0} {P : B → Type 0} (m : Go A) (f : A → Go B)
      → Returns Q m
      → ((a : A) → Q a → Returns P (f a))
      → Returns P (m >>= f)
  Returns-bind (ok a) f h k = k a h.at
  Returns-bind panic f h k = Returns-panic
  Returns-bind fatal f h k = Returns-fatal
  Returns-bind waits f h k = Returns-waits

  -- The same of a value of which nothing is known.
  pub Returns-after :
      {P : B → Type 0} (m : Go A) (f : A → Go B) → ((a : A) → Returns P (f a)) → Returns P (m >>= f)
  Returns-after m f k = Returns-bind {Q = λ _. Unit} m f (anything m) (λ a _. k a)
    where
      anything : (m : Go A) → Returns (λ _. Unit) m
      anything (ok a) = Returns-ok tt
      anything panic = Returns-panic
      anything fatal = Returns-fatal
      anything waits = Returns-waits

pub Returns-map {ℓ} :
    {A : Type ℓ} {Q P : A → Type 0} (m : Go A) → Returns Q m → ((a : A) → Q a → P a) → Returns P m
Returns-map (ok a) h k = Returns-ok (k a h.at)
Returns-map panic h k = Returns-panic
Returns-map fatal h k = Returns-fatal
Returns-map waits h k = Returns-waits

-- A property of both branches of a test is one of the test.
pub if-in {ℓ} :
    {A : Type ℓ} (P : A → Type 0) (b : Bool) (x y : A) → P x → P y → P (if b then x else y)
if-in P true x y h k = h
if-in P false x y h k = k

pub branch-in {ℓ} :
    {A : Type ℓ} (P : A → Type 0) (b : Bool) (x y : A)
    → P x
    → P y
    → P (elim b [ true ↦ x | false ↦ y ])
branch-in P true x y h k = h
branch-in P false x y h k = k

pub branch-true {ℓ} :
    {A : Type ℓ} {b : Bool} (x y : A) → b ≡ true → elim b [ true ↦ x | false ↦ y ] ≡ x
branch-true {b = true} x y e = refl
branch-true {b = false} x y e = cc

-- The same, where a branch may use what the test says.
pub branch-at {ℓ} :
    {A : Type ℓ} (P : A → Type 0) (b : Bool) (x y : A)
    → (b ≡ true → P x)
    → (b ≡ false → P y)
    → P (elim b [ true ↦ x | false ↦ y ])
branch-at P true x y h k = h refl
branch-at P false x y h k = k refl

pub if-at {ℓ} :
    {A : Type ℓ} (P : A → Type 0) (b : Bool) (x y : A)
    → (b ≡ true → P x)
    → (b ≡ false → P y)
    → P (if b then x else y)
if-at P true x y h k = h refl
if-at P false x y h k = k refl

pub branch-false {ℓ} :
    {A : Type ℓ} {b : Bool} (x y : A) → b ≡ false → elim b [ true ↦ x | false ↦ y ] ≡ y
branch-false {b = true} x y e = cc
branch-false {b = false} x y e = refl

pub option-in {ℓ κ} :
    {A : Type ℓ} {B : Type κ} (P : B → Type 0) (o : Option A) (x : B) (f : A → B)
    → P x
    → ((a : A) → P (f a))
    → P (elim o [ none ↦ x | some a ↦ f a ])
option-in P none x f h k = h
option-in P (some a) x f h k = k a

pub option-some {ℓ κ} :
    {A : Type ℓ} {B : Type κ} {o : Option A} {a : A} (x : B) (f : A → B)
    → o ≡ some a
    → elim o [ none ↦ x | some a ↦ f a ] ≡ f a
option-some {o = none} x f e = cc
option-some {o = some b} x f e = let e' : b ≡ _ = cc in ap f e'

pub option-none {ℓ κ} :
    {A : Type ℓ} {B : Type κ} {o : Option A} (x : B) (f : A → B)
    → o ≡ none
    → elim o [ none ↦ x | some a ↦ f a ] ≡ x
option-none {o = none} x f e = refl
option-none {o = some b} x f e = cc

pub Returns-eq-ok {ℓ} :
    {A : Type ℓ} (P : A → Type 0) (m : Go A) {a : A} → Returns P m → m ≡ ok a → P a
Returns-eq-ok P (ok b) h e = subst P (cc) h.at
Returns-eq-ok P panic h e = cc
Returns-eq-ok P fatal h e = cc
Returns-eq-ok P waits h e = cc
