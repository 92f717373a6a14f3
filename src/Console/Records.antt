-- ===== src/Console/Records.antt =====
-- `records` of httpd/html/javascript/gate-control.js: the records of a table that are not deleted.
use uhppoted_httpd.Prelude.{
  true, false, not, ◌||◌, All, ◌≡◌, refl, ap, Bool-cases, inl, inr, eq_refl, eq_iff, none, String,
  Bool, List, [], ◌∷◌, Option, some, if◌then◌else◌,
}
use uhppoted_httpd.Value.{Value}
use uhppoted_httpd.OrderedMap.{Map, get}
use uhppoted_httpd.OrderedMap.Laws.{HasDistinctKeys}
use uhppoted_httpd.Text.{◌==◌}
use uhppoted_httpd.Db.Cards.{Card}
use uhppoted_httpd.Db.Sweep.{alive}

-- `deleted` is the record's field of that name
module _ {R : Type 0} (deleted : R → Value) where
  unfoldable pub records : Map R → List R
  unfolding alive
  records [] = []
  records ((k, v) ∷ table) =
      let rest = records table in if alive (some (deleted v)) then v ∷ rest else rest

module _ {R : Type 0} (deleted : R → Value) (P : R → Type 0) where
  -- What holds of the records that a table has under its keys and that are not deleted holds of all
  -- that are listed.
  pub records-All :
      (table : Map R)
      → HasDistinctKeys table
      → ((k : String) (v : R) → get k table ≡ some v → alive (some (deleted v)) ≡ true → P v)
      → All P (records deleted table)
  unfolding records get
  records-All [] h each = tt
  records-All ((k, v) ∷ table) (fresh, h) each = elim (Bool-cases (alive (some (deleted v)))) [
    | inl live ↦ rw live (each k v (rw (eq_refl k) refl) live, records-All table h later)
    | inr gone ↦ rw gone (records-All table h later)
  ]
    where
      later : (j : String) (w : R) → get j table ≡ some w → alive (some (deleted w)) ≡ true → P w
      later j w e live = elim (Bool-cases (k == j)) [
        | inl same ↦ cc (fresh, e, ap (λ t. get t table) ((eq_iff k j).0 same))
        | inr other ↦ each j w (rw other e) live
      ]

-- The browser's conversions of a value to text, `${v ?? ''}` and `${v}`, which differ for `null` and
-- `undefined`, its functions on texts (`trim`,
-- `replace(/\s+/g, ' ')`, `toLowerCase`, `toLocaleLowerCase`), its `JSON.stringify`, and the order
-- that `localeCompare` of the OIDs sorts cards in.
pub record Browser : Type 0 where
  pub text_of : Value → String
  pub template_of : Value → String
  pub trim : String → String
  pub squeeze : String → String
  pub lower : String → String
  pub locale_lower : String → String
  pub stringify : Value → String
  pub sort_cards : List Card → List Card

-- What a form compares a field with: whether the record that it edits is there, and the text of a
-- field of that record; there is none to compare with for a new one.
abbrev pub is_there : {A : Type 0} → Option A → Bool
is_there none = false
is_there (some a) = true

abbrev pub original_text : {A : Type 0} → (A → String) → Option A → String
original_text f none = ""
original_text f (some a) = f a

-- `${b}`
abbrev pub text_of_bool : Bool → String
text_of_bool b = if b then "true" else "false"

-- `a !== b` of Booleans
abbrev pub differs : Bool → Bool → Bool
differs true b = not b
differs false b = b

-- a set of OIDs, in the order of the tick boxes
abbrev pub contains : String → List String → Bool
contains oid [] = false
contains oid (s ∷ ss) = (s == oid) || contains oid ss

-- Where a chain of guards throws nothing, its first does not hold.
pub guard :
    (b : Bool) (message : String) (rest : Option String)
    → (if b then some message else rest) ≡ none
    → (b ≡ false) × (rest ≡ none)
guard true message rest e = cc e
guard false message rest e = (refl, e)
