-- ===== src/Analyzer/Waiting.antt =====
-- pkg/analyzer/utils.go: the lookups of an `AgnosticMap`, and its waiting goroutines.
use eth_cl_state_analyzer.Common.{
  ℕ, ◌≡◌, refl, ◌⊎◌, inl, inr, Bool, true, false, List, [], ◌∷◌, ◌++◌, map, none, some, ◌==◌,
  if◌then◌else◌, ◌||◌, All, arith, Option-cases,
}
use eth_cl_state_analyzer.Analyzer.AgnosticMap.{
  AgnosticMap, lookup, insert, erase, set_key, wait, delete, available, new_agnostic_map,
}

module _ {V : Type 0} where
  pub lookup-insert :
      (j k : ℕ) (v : V) (m : List (ℕ × V))
      → lookup j (insert k v m) ≡ (if k == j then some v else lookup j m)
  unfolding lookup insert
  lookup-insert j k v [] = refl
  lookup-insert j k v ((i, w) ∷ m) = ground (arith, lookup-insert j k v m)

  pub lookup-erase :
      (j k : ℕ) (m : List (ℕ × V)) → lookup j (erase k m) ≡ (if k == j then none else lookup j m)
  unfolding lookup erase
  lookup-erase j k [] = ground arith
  lookup-erase j k ((i, w) ∷ m) = ground (arith, lookup-erase j k m)

-- `ch` is among the channels.
unfoldable pub has_channel : ℕ → List ℕ → Bool
has_channel ch [] = false
has_channel ch (c ∷ cs) = ch == c || has_channel ch cs

-- Something was sent on `ch`.
unfoldable pub received : {V : Type 0} → ℕ → List (ℕ × V) → Bool
received ch [] = false
received ch ((c, v) ∷ sent) = ch == c || received ch sent

has_channel-append :
    (ch : ℕ) (xs ys : List ℕ) → has_channel ch (xs ++ ys) ≡ has_channel ch xs || has_channel ch ys
unfolding has_channel
has_channel-append ch [] ys = refl
has_channel-append ch (x ∷ xs) ys = ground (arith, has_channel-append ch xs ys)

module _ {V : Type 0} where
  received-append :
      (ch : ℕ) (xs : List (ℕ × V)) (v : V) (cs : List ℕ)
      → received ch (xs ++ map (λ c. (c, v)) cs) ≡ received ch xs || has_channel ch cs
  unfolding received has_channel
  received-append ch [] v [] = refl
  received-append ch [] v (c ∷ cs) = ground (arith, received-append ch [] v cs)
  received-append ch ((c, w) ∷ xs) v cs = ground (arith, received-append ch xs v cs)

  -- A map after some calls, and the waits that did not return at once, by channel and key.
  pub data Reach : AgnosticMap V → List (ℕ × ℕ) → Type 0 where
    start : Reach (new_agnostic_map V) []
    set :
        {a : AgnosticMap V} {ws : List (ℕ × ℕ)}
        → Reach a ws
        → (key : ℕ) (value : V) → Reach (set_key a key value) ws
    waited :
        {a : AgnosticMap V} {ws : List (ℕ × ℕ)}
        → Reach a ws
        → (ch key : ℕ) → lookup key a.m ≡ none
        → Reach (wait a ch key).0 ((ch, key) ∷ ws)
    deleted :
        {a : AgnosticMap V} {ws : List (ℕ × ℕ)} → Reach a ws → (key : ℕ) → Reach (delete a key) ws

  -- No goroutine waits for a key that has a value.
  abbrev pub IsServed : AgnosticMap V → Type 0
  IsServed a = (k : ℕ) (v : V) → lookup k a.m ≡ some v → a.subs k ≡ []

  set_key-IsServed :
      (a : AgnosticMap V) (key : ℕ) (value : V) → IsServed a → IsServed (set_key a key value)
  unfolding set_key
  set_key-IsServed a key value h k v e = ground (arith, h k v, lookup-insert k key value a.m)

  wait-IsServed : (a : AgnosticMap V) (ch key : ℕ) → IsServed a → IsServed (wait a ch key).0
  unfolding wait
  wait-IsServed a ch key h k v e = ground (arith, h k v)

  pub delete-IsServed : (a : AgnosticMap V) (key : ℕ) → IsServed a → IsServed (delete a key)
  unfolding delete
  delete-IsServed a key h k v e = ground (arith, h k v, lookup-erase k key a.m)

  Reach-IsServed : {a : AgnosticMap V} {ws : List (ℕ × ℕ)} → Reach a ws → IsServed a
  unfolding new_agnostic_map lookup
  Reach-IsServed start = λ k v e. cc
  Reach-IsServed (set r key value) = set_key-IsServed _ key value (Reach-IsServed r)
  Reach-IsServed (waited r ch key e) = wait-IsServed _ ch key (Reach-IsServed r)
  Reach-IsServed (deleted r key) = delete-IsServed _ key (Reach-IsServed r)

  -- A wait is still listed under its key, or has been answered.
  abbrev IsKept : AgnosticMap V → ℕ × ℕ → Type 0
  IsKept a (ch, key) = (has_channel ch (a.subs key) ≡ true) ⊎ (received ch a.sent ≡ true)

  set_key-IsKept :
      (a : AgnosticMap V) (k : ℕ) (v : V) (w : ℕ × ℕ) → IsKept a w → IsKept (set_key a k v) w
  unfolding set_key
  set_key-IsKept a k v (ch, key) h = ground (arith, received-append ch a.sent v (a.subs k))

  wait-IsKept : (a : AgnosticMap V) (c k : ℕ) (w : ℕ × ℕ) → IsKept a w → IsKept (wait a c k).0 w
  unfolding wait
  wait-IsKept a c k (ch, key) h = ground (arith, has_channel-append ch (a.subs k) (c ∷ []))

  wait-IsKept_self :
      (a : AgnosticMap V) (c k : ℕ) → lookup k a.m ≡ none → IsKept (wait a c k).0 (c, k)
  unfolding wait has_channel
  wait-IsKept_self a c k e = ground (arith, has_channel-append c (a.subs k) (c ∷ []))

  delete-IsKept : (a : AgnosticMap V) (k : ℕ) (w : ℕ × ℕ) → IsKept a w → IsKept (delete a k) w
  unfolding delete
  delete-IsKept a k (ch, key) h = ground arith

  All-IsKept :
      (a b : AgnosticMap V)
      → ((w : ℕ × ℕ) → IsKept a w → IsKept b w)
      → (ws : List (ℕ × ℕ)) → All (IsKept a) ws
      → All (IsKept b) ws
  All-IsKept a b f [] h = tt
  All-IsKept a b f (w ∷ ws) h = (f w h.0, All-IsKept a b f ws h.1)

  Reach-IsKept : {a : AgnosticMap V} {ws : List (ℕ × ℕ)} → Reach a ws → All (IsKept a) ws
  Reach-IsKept start = tt
  Reach-IsKept (set {a = a} {ws = ws} r key value) =
      All-IsKept a (set_key a key value) (set_key-IsKept a key value) ws (Reach-IsKept r)
  Reach-IsKept (waited {a = a} {ws = ws} r ch key e) = (
    wait-IsKept_self a ch key e,
    All-IsKept a (wait a ch key).0 (wait-IsKept a ch key) ws (Reach-IsKept r),
  )
  Reach-IsKept (deleted {a = a} {ws = ws} r key) =
      All-IsKept a (delete a key) (delete-IsKept a key) ws (Reach-IsKept r)

  -- What holds of every wait: once its key has a value, something was sent on its channel.
  abbrev pub IsAnswered : AgnosticMap V → ℕ × ℕ → Type 0
  IsAnswered a (ch, key) = available a key ≡ true → received ch a.sent ≡ true

  answered :
      (a : AgnosticMap V) (ws : List (ℕ × ℕ))
      → IsServed a
      → All (IsKept a) ws
      → All (IsAnswered a) ws
  unfolding available has_channel
  answered a [] s h = tt
  answered a ((ch, key) ∷ ws) s h = (
    λ e. elim (Option-cases (lookup key a.m)) [
      | inl missing ↦ ground arith
      | inr (v, found) ↦ ground (arith, s key v found)
    ],
    answered a ws s h.1,
  )

  -- No wait is missed: after any calls of `Set`, `Wait` and `Delete`, the channel of every wait whose
  -- key has a value has been sent something.
  pub Reach-IsAnswered :
      {a : AgnosticMap V} {ws : List (ℕ × ℕ)} → Reach a ws → All (IsAnswered a) ws
  Reach-IsAnswered {a} {ws} r = answered a ws (Reach-IsServed r) (Reach-IsKept r)

  -- After any calls `Delete` removes its key, and it keeps what the other keys hold. Its test for
  -- waiting goroutines never keeps a value in the map.
  pub delete_removes :
      {a : AgnosticMap V} {ws : List (ℕ × ℕ)}
      → Reach a ws
      → (key j : ℕ) → lookup j (delete a key).m ≡ (if key == j then none else lookup j a.m)
  unfolding delete
  delete_removes {a} r key j = elim (Option-cases (lookup key a.m)) [
    | inl missing ↦ ground arith
    | inr (v, found) ↦ ground (arith, Reach-IsServed r key v found, lookup-erase j key a.m)
  ]
