-- ===== src/Dict.antt =====
-- Go's `map[string]V`, as an association list. The order of the entries stands for the order in
-- which one `range` over the map visits them, which Go leaves open.
pub mod Laws
use ghost_guard.Prelude.{ℕ, String, Bool, Option, none, some, List, [], ◌∷◌, ◌==◌, if◌then◌else◌}

abbrev pub Dict {ℓ} : Type ℓ → Type ℓ
Dict V = List (String × V)

module _ {ℓ} {V : Type ℓ} where
  -- `v, ok := m[k]`
  unfoldable pub lookup : String → Dict V → Option V
  lookup key [] = none
  lookup key ((held, value) ∷ others) = if held == key then some value else lookup key others

  -- `m[k] = v`: the entry that there is, or a new one behind the others.
  unfoldable pub insert : String → V → Dict V → Dict V
  insert key new [] = (key, new) ∷ []
  insert key new ((held, old) ∷ others) =
      if held == key then (key, new) ∷ others else (held, old) ∷ insert key new others

  -- `delete(m, k)`
  unfoldable pub delete : String → Dict V → Dict V
  delete k [] = []
  delete k ((j, v) ∷ m) = let rest = delete k m in if j == k then rest else (j, v) ∷ rest

  -- `for k, v := range m { if p(v) { delete(m, k) } }`
  unfoldable pub delete_if : (V → Bool) → Dict V → Dict V
  delete_if p [] = []
  delete_if p ((j, v) ∷ m) = let rest = delete_if p m in if p v then rest else (j, v) ∷ rest

  -- `m[k]`, with the zero value where the key is missing
  unfoldable pub get_or : V → String → Dict V → V
  unfolding lookup
  get_or zero_value k m = elim (lookup k m) [ none ↦ zero_value | some v ↦ v ]
