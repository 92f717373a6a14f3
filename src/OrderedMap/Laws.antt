-- ===== src/OrderedMap/Laws.antt =====
-- Laws of the maps: what a key holds after a write, a removal or an upsert, and distinct keys.
use uhppoted_httpd.Prelude.{
  String, Bool, true, false, ◌≡◌, refl, Option, none, some, [], ◌∷◌, arith, eq_iff, eq_refl,
  or_else, if◌then◌else◌, Option-cases, inl, inr,
}
use uhppoted_httpd.Text.{◌==◌}
use uhppoted_httpd.OrderedMap.{Map, get, has, set, delete, upsert}

module _ {ℓ} {V : Type ℓ} where
  pub get-set :
      (k j : String) (v : V) (m : Map V) → get j (set k v m) ≡ (if k == j then some v else get j m)
  unfolding get set
  get-set k j v [] = refl
  get-set k j v ((i, w) ∷ m) = ground (arith, eq_iff k j, eq_iff i k, eq_iff i j, get-set k j v m)

  pub get-delete :
      (k j : String) (m : Map V) → get j (delete k m) ≡ (if k == j then none else get j m)
  unfolding get delete
  get-delete k j [] = ground arith
  get-delete k j ((i, w) ∷ m) = ground (arith, eq_iff k j, eq_iff i k, eq_iff i j, get-delete k j m)

  abbrev pub is_some : Option V → Bool
  is_some none = false
  is_some (some v) = true

  pub has-eq-get : (k : String) (m : Map V) → has k m ≡ is_some (get k m)
  unfolding get has
  has-eq-get k [] = refl
  has-eq-get k ((j, v) ∷ m) = ground (arith, has-eq-get k m)

  upsert-eq-set :
      (k : String) (fresh : V) (change : V → V) (m : Map V)
      → upsert k fresh change m
        ≡ set k (change (or_else fresh (get k m))) (if has k m then m else set k fresh m)
  unfolding upsert
  upsert-eq-set k fresh change m = elim (Option-cases (get k m)) [
    | inl absent ↦ ground (arith, has-eq-get k m, eq_refl k, get-set k k fresh m)
    | inr (v, present) ↦ ground (arith, has-eq-get k m)
  ]

  -- An upsert changes the object at its key, fresh if there was none, and no other entry.
  pub get-upsert :
      (k j : String) (fresh : V) (change : V → V) (m : Map V)
      → get j (upsert k fresh change m)
        ≡ (if k == j then some (change (or_else fresh (get k m))) else get j m)
  get-upsert k j fresh change m = rw (upsert-eq-set, get-set) (ground (arith, get-set k j fresh m))

  -- No key stands twice.
  abbrev pub HasDistinctKeys : Map V → Type ℓ
  HasDistinctKeys [] = Unit
  HasDistinctKeys ((k, v) ∷ m) = (get k m ≡ none) × HasDistinctKeys m

  pub set-HasDistinctKeys :
      (k : String) (v : V) (m : Map V) → HasDistinctKeys m → HasDistinctKeys (set k v m)
  unfolding get set
  set-HasDistinctKeys k v [] h = (refl, tt)
  set-HasDistinctKeys k v ((j, w) ∷ m) (fresh, h) =
      ground (arith, eq_iff j k, eq_iff k j, get-set k j v m, set-HasDistinctKeys k v m h)

  pub delete-HasDistinctKeys :
      (k : String) (m : Map V) → HasDistinctKeys m → HasDistinctKeys (delete k m)
  unfolding get delete
  delete-HasDistinctKeys k [] h = tt
  delete-HasDistinctKeys k ((j, w) ∷ m) (fresh, h) =
      ground (arith, get-delete k j m, delete-HasDistinctKeys k m h)

  pub upsert-HasDistinctKeys :
      (k : String) (fresh : V) (change : V → V) (m : Map V)
      → HasDistinctKeys m
      → HasDistinctKeys (upsert k fresh change m)
  upsert-HasDistinctKeys k fresh change m h =
      rw upsert-eq-set (set-HasDistinctKeys k _ _ (ground (arith, set-HasDistinctKeys k fresh m h)))
