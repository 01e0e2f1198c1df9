-- ===== src/Common/Go.antt =====
-- What a piece of Go code does when it runs: it returns, it panics (an index out of range, a
-- division by zero), it ends the process (`log.Fatal`), or it waits for another goroutine, until
-- which it does not go on. Loops over slices run in this monad.
use Prim.Native.Nat.{ℕ, zero, suc, ◌/◌, ◌<◌}
use mathlib.Core.Path.{◌≡◌, refl, sym, ◌∙◌, subst, ap}
use mathlib.Core.Option.{some}
use mathlib.Core.List.{List, [], ◌∷◌, ◌++◌, Memᴰ}
use native.Mathlib.Omega.{arith}
use eth_cl_state_analyzer.Common.Tests.{◌==◌, if◌then◌else◌}
use eth_cl_state_analyzer.Common.Lists.{get_elem?, get_or, length}

pub data Go {ℓ} (A : Type ℓ) : Type ℓ where
  ok : A → Go A
  panic : Go A
  fatal : Go A
  waits : Go A

infixl 5 ◌>>=◌
abbrev pub ◌>>=◌ {ℓ κ} : {A : Type ℓ} {B : Type κ} → Go A → (A → Go B) → Go B
ok a >>= f = f a
panic >>= f = panic
fatal >>= f = fatal
waits >>= f = waits

module _ {ℓ κ} {A : Type ℓ} {B : Type κ} where
  -- What returns in two steps returned in the first.
  pub >>=-eq-ok :
      (run : Go A) (rest : A → Go B) {b : B}
      → (run >>= rest) ≡ ok b
      → (a : A) × (run ≡ ok a) × (rest a ≡ ok b)
  >>=-eq-ok (ok a) rest h = (a, refl, h)
  >>=-eq-ok panic rest h = cc
  >>=-eq-ok fatal rest h = cc
  >>=-eq-ok waits rest h = cc

-- `xs[i]`
abbrev pub index {ℓ} : {A : Type ℓ} → List A → ℕ → Go A
index [] i = panic
index (x ∷ xs) zero = ok x
index (x ∷ xs) (suc i) = index xs i

pub index-get_or : (xs : List ℕ) (i : ℕ) → i < length xs → index xs i ≡ ok (get_or xs i 0)
index-get_or [] i h = elim h [ ]
index-get_or (x ∷ xs) zero h = refl
index-get_or (x ∷ xs) (suc i) h = index-get_or xs i (omega arith)

-- `xs[i] = f(xs[i])`
abbrev pub update {ℓ} : {A : Type ℓ} → List A → ℕ → (A → A) → Go (List A)
update [] i f = panic
update (x ∷ xs) zero f = ok (f x ∷ xs)
update (x ∷ xs) (suc i) f = update xs i f >>= λ ys. ok (x ∷ ys)

pub index-ok {ℓ} :
    {A : Type ℓ} (xs : List A) (i : ℕ) {x : A} → get_elem? xs i ≡ some x → index xs i ≡ ok x
index-ok [] i h = cc
index-ok (y ∷ xs) zero h = cc
index-ok (y ∷ xs) (suc i) h = index-ok xs i h

-- The same with a body that can panic.
abbrev pub modify {ℓ} : {A : Type ℓ} → List A → ℕ → (A → Go A) → Go (List A)
modify [] i f = panic
modify (x ∷ xs) zero f = f x >>= λ y. ok (y ∷ xs)
modify (x ∷ xs) (suc i) f = modify xs i f >>= λ ys. ok (x ∷ ys)

-- A write in range returns a list that differs at that index alone.
pub update-ok :
    (xs : List ℕ) (i : ℕ) (f : ℕ → ℕ)
    → i < length xs
    → (ys : List ℕ) × (update xs i f ≡ ok ys)
      × (length ys ≡ length xs)
      × ((j : ℕ) → get_or ys j 0 ≡ (if i == j then f (get_or xs j 0) else get_or xs j 0))
update-ok [] i f h = elim h [ ]
update-ok (x ∷ xs) zero f h = (f x ∷ xs, refl, refl, go)
  where
    go :
        (j : ℕ)
        → get_or (f x ∷ xs) j 0 ≡ (if 0 == j then f (get_or (x ∷ xs) j 0) else get_or (x ∷ xs) j 0)
    go zero = refl
    go (suc j) = ground arith
update-ok (x ∷ xs) (suc i) f h =
    let (ys, e, l, g) = update-ok xs i f (omega arith) in (x ∷ ys, rw (e) refl, ap suc l, go ys g)
  where
    go :
        (ys : List ℕ)
        → ((j : ℕ) → get_or ys j 0 ≡ (if i == j then f (get_or xs j 0) else get_or xs j 0))
        → (j : ℕ)
        → get_or (x ∷ ys) j 0
          ≡ (if suc i == j then f (get_or (x ∷ xs) j 0) else get_or (x ∷ xs) j 0)
    go ys g zero = ground arith
    go ys g (suc j) = ground (arith, g j)

-- `a / b` on unsigned integers
abbrev pub quot : ℕ → ℕ → Go ℕ
quot a zero = panic
quot a (suc b) = ok (a / suc b)

-- `for _, x := range xs { s = body(x, s) }`
unfoldable pub for_each {ℓ κ} : {A : Type ℓ} {S : Type κ} → (A → S → Go S) → List A → S → Go S
for_each body [] s = ok s
for_each body (x ∷ xs) s = body x s >>= λ t. for_each body xs t

-- The same loop over pointers, where the body also changes what the pointer points to.
unfoldable pub for_each_mut {ℓ κ} :
    {A : Type ℓ} {S : Type κ} → (A → S → Go (A × S)) → List A → S → Go (List A × S)
for_each_mut body [] s = ok ([], s)
for_each_mut body (x ∷ xs) s =
    body x s >>= λ r. for_each_mut body xs r.1 >>= λ rest. ok (r.0 ∷ rest.0, rest.1)

pub >>=-congr {ℓ κ} :
    {A : Type ℓ} {B : Type κ} (m : Go A) (f g : A → Go B)
    → ((a : A) → f a ≡ g a)
    → (m >>= f) ≡ (m >>= g)
>>=-congr (ok a) f g h = h a
>>=-congr panic f g h = refl
>>=-congr fatal f g h = refl
>>=-congr waits f g h = refl

pub >>=-assoc {ℓ κ μ} :
    {A : Type ℓ} {B : Type κ} {C : Type μ} (m : Go A) (f : A → Go B) (g : B → Go C)
    → ((m >>= f) >>= g) ≡ (m >>= λ a. f a >>= g)
>>=-assoc (ok a) f g = refl
>>=-assoc panic f g = refl
>>=-assoc fatal f g = refl
>>=-assoc waits f g = refl

module _ {ℓ κ} {A : Type ℓ} {S : Type κ} (body : A → S → Go S) where
  pub for_each-append :
      (xs ys : List A) (s : S)
      → for_each body (xs ++ ys) s ≡ (for_each body xs s >>= λ t. for_each body ys t)
  unfolding for_each
  for_each-append [] ys s = refl
  for_each-append (x ∷ xs) ys s =
      >>=-congr (body x s) _ _ (λ t. for_each-append xs ys t)
      ∙ sym (>>=-assoc (body x s) (λ t. for_each body xs t) (λ t. for_each body ys t))

-- What the body keeps for each element of the list, the loop keeps, if it returns.
module _ {ℓ κ} {A : Type ℓ} {S : Type κ} (body : A → S → Go S) where
  pub for_each-keeps_in {μ} :
      (P : S → Type μ) (xs : List A)
      → ((x : A) → Memᴰ x xs → (s t : S) → P s → body x s ≡ ok t → P t)
      → (s t : S) → P s
      → for_each body xs s ≡ ok t
      → P t
  unfolding for_each
  for_each-keeps_in P [] keep s t h e = subst P (cc) h
  for_each-keeps_in P (x ∷ xs) keep s t h e =
      let (u, e₁, e₂) = >>=-eq-ok (body x s) (λ u. for_each body xs u) e in
      for_each-keeps_in P xs (λ y m. keep y (Memᴰ.tail m)) u t (keep x (Memᴰ.head refl) s u h e₁) e₂

-- What `update` returns when it returns.
update-inside :
    (xs : List ℕ) (i : ℕ) (f : ℕ → ℕ) {ys : List ℕ} → update xs i f ≡ ok ys → i < length xs
update-inside [] i f h = cc
update-inside (x ∷ xs) zero f h = omega arith
update-inside (x ∷ xs) (suc i) f h =
    let (zs, e, r) = >>=-eq-ok (update xs i f) _ h in omega (arith, update-inside xs i f e)

pub update-eq-ok :
    (xs : List ℕ) (i : ℕ) (f : ℕ → ℕ) {ys : List ℕ}
    → update xs i f ≡ ok ys
    → (length ys ≡ length xs)
      × ((j : ℕ) → get_or ys j 0 ≡ (if i == j then f (get_or xs j 0) else get_or xs j 0))
update-eq-ok xs i f {ys} h =
    let (zs, e, l, g) = update-ok xs i f (update-inside xs i f h) in
    let same : zs ≡ ys = cc in (rw (← same) l, λ j. rw (← same) (g j))
