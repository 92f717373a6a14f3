-- ===== src/OrderedMap.antt =====
-- `Map` with text keys, as httpd/html/javascript/db.js and cache.js use it: the entries in the order
-- of insertion. Writing a present key keeps its place; a new key goes to the end.
pub mod Laws
use uhppoted_httpd.Prelude.{
  ℕ, String, Bool, true, false, Option, none, some, List, [], ◌∷◌, map, length, if◌then◌else◌,
}
use uhppoted_httpd.Text.{◌==◌}

abbrev pub Map {ℓ} : Type ℓ → Type ℓ
Map V = List (String × V)

module _ {ℓ} {V : Type ℓ} where
  unfoldable pub get : String → Map V → Option V
  get k [] = none
  get k ((j, v) ∷ m) = if j == k then some v else get k m

  unfoldable pub has : String → Map V → Bool
  has k [] = false
  has k ((j, v) ∷ m) = if j == k then true else has k m

  unfoldable pub set : String → V → Map V → Map V
  set k v [] = (k, v) ∷ []
  set k v ((j, w) ∷ m) = if j == k then (j, v) ∷ m else (j, w) ∷ set k v m

  unfoldable pub delete : String → Map V → Map V
  delete k [] = []
  delete k ((j, v) ∷ m) = let rest = delete k m in if j == k then rest else (j, v) ∷ rest

  abbrev pub size : Map V → ℕ
  size m = length m

  abbrev pub values : Map V → List V
  values m = map (λ e. e.1) m

  -- `if (!m.has(k)) m.set(k, fresh); const v = m.get(k); …`, where the rest changes the object `v`
  -- in place: every handler of db.js goes this way.
  unfoldable pub upsert : String → V → (V → V) → Map V → Map V
  upsert k fresh change m =
      let ready = if has k m then m else set k fresh m in
      elim (get k ready) [ none ↦ ready | some v ↦ set k (change v) ready ]
