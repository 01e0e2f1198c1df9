-- ===== src/Analyzer/AgnosticMap.antt =====
-- pkg/analyzer/utils.go: `AgnosticMap`, a map with goroutines that wait for its keys. A channel is a
-- number; `sent` lists what the waiting goroutines receive. The two callbacks are never set.
use eth_cl_state_analyzer.Common.{
  ℕ, Bool, true, false, List, [], ◌∷◌, ◌++◌, Option, none, some, map, ◌==◌, if◌then◌else◌,
}

module _ {V : Type 0} where
  unfoldable pub lookup : ℕ → List (ℕ × V) → Option V
  lookup k [] = none
  lookup k ((j, v) ∷ m) = if j == k then some v else lookup k m

  unfoldable pub insert : ℕ → V → List (ℕ × V) → List (ℕ × V)
  insert k v [] = (k, v) ∷ []
  insert k v ((j, w) ∷ m) = if j == k then (k, v) ∷ m else (j, w) ∷ insert k v m

  unfoldable pub erase : ℕ → List (ℕ × V) → List (ℕ × V)
  erase k [] = []
  erase k ((j, w) ∷ m) = let rest = erase k m in if j == k then rest else (j, w) ∷ rest

pub record AgnosticMap (V : Type 0) : Type 0 where
  pub m : List (ℕ × V)
  pub subs : ℕ → List ℕ
  pub sent : List (ℕ × V)

-- `subs[key] = chs`, and `delete(subs, key)` for the empty list.
abbrev pub put_subs : (ℕ → List ℕ) → ℕ → List ℕ → ℕ → List ℕ
put_subs subs key chs k = if key == k then chs else subs k

module _ {V : Type 0} where
  -- `Set`
  unfoldable pub set_key : AgnosticMap V → ℕ → V → AgnosticMap V
  unfolding insert
  set_key a key value = record a {
    m = insert key value a.m;
    sent = a.sent ++ map (λ ch. (ch, value)) (a.subs key);
    subs = put_subs a.subs key [];
  }

  -- `Wait` up to where it returns a value, or waits on its channel `ch`.
  unfoldable pub wait : AgnosticMap V → ℕ → ℕ → AgnosticMap V × Option V
  wait a ch key = elim (lookup key a.m) [
    | some value ↦ (a, some value)
    | none ↦ (record a { subs = put_subs a.subs key (a.subs key ++ ch ∷ []) }, none)
  ]

  -- `Delete`
  unfoldable pub delete : AgnosticMap V → ℕ → AgnosticMap V
  unfolding erase
  delete a key = elim (lookup key a.m) [
    | none ↦ a
    | some _ ↦ elim (a.subs key) [ [] ↦ record a { m = erase key a.m } | c ∷ cs ↦ a ]
  ]

  -- `Available`
  unfoldable pub available : AgnosticMap V → ℕ → Bool
  available a key = elim (lookup key a.m) [ none ↦ false | some _ ↦ true ]

  -- `GetKeyList`
  unfoldable pub get_key_list : AgnosticMap V → List ℕ
  get_key_list a = map (λ e. e.0) a.m

unfoldable pub new_agnostic_map : (V : Type 0) → AgnosticMap V
new_agnostic_map V = record { m = []; subs = λ _. []; sent = [] }
