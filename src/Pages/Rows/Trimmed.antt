-- ===== src/Pages/Rows/Trimmed.antt =====
-- The rows of a table after `trim` of httpd/html/javascript/tabular.js.
use uhppoted_httpd.Prelude.{
  String, Bool, true, false, ◌≡◌, refl, sym, ap, ◌∙◌, List, [], ◌∷◌, All, Bool-cases, Bool-ext, inl,
  inr, eq_iff, eq_refl, if◌then◌else◌,
}
use uhppoted_httpd.Text.{◌==◌}
use uhppoted_httpd.Console.Records.{contains}
use uhppoted_httpd.Oid.Laws.{IsBase}
use uhppoted_httpd.Pages.Names.{row_id, row_id-injective}
use uhppoted_httpd.Pages.Rows.{Row, delete_row, stale, delete_all, trim, has_row}

pub eq_comm : (s t : String) → (s == t) ≡ (t == s)
eq_comm s t =
    Bool-ext _ _ (λ h. (eq_iff t s).1 (sym ((eq_iff s t).0 h)))
      (λ h. (eq_iff s t).1 (sym ((eq_iff t s).0 h)))

-- No record has two rows; every row is one of a record of the table and has its `id`.
abbrev pub AreApart : List Row → Type 0
AreApart [] = Unit
AreApart (r ∷ rows) = All (λ x. (r.oid == x.oid) ≡ false) rows × AreApart rows

abbrev pub AreNamed : String → List Row → Type 0
AreNamed table rows = All (λ r. IsBase table r.oid × (r.id ≡ row_id r.oid)) rows

-- No OID stands twice.
abbrev pub AreDistinct : List String → Type 0
AreDistinct [] = Unit
AreDistinct (o ∷ os) = All (λ p. (o == p) ≡ false) os × AreDistinct os

-- the rows that stay, and the records without a row
abbrev pub kept : List String → List Row → List Row
kept oids [] = []
kept oids (r ∷ rows) = if contains r.oid oids then r ∷ kept oids rows else kept oids rows

abbrev pub missing : List String → List Row → List String
missing [] rows = []
missing (o ∷ os) rows = if has_row o rows then missing os rows else o ∷ missing os rows

delete_all-keep :
    (x : Row) (rs rows : List Row)
    → All (λ s. (x.id == s.id) ≡ false) rs
    → delete_all rs (x ∷ rows) ≡ x ∷ delete_all rs rows
unfolding delete_all delete_row
delete_all-keep x [] rows h = refl
delete_all-keep x (s ∷ rs) rows (n, h) = rw n (delete_all-keep x rs (delete_row s.id rows) h)

stale-All :
    (P : Row → Type 0) (oids : List String) (rows : List Row) → All P rows → All P (stale oids rows)
unfolding stale
stale-All P oids [] h = tt
stale-All P oids (r ∷ rows) (p, h) = go (contains r.oid oids) (stale-All P oids rows h)
  where
    go :
        (b : Bool)
        → All P (stale oids rows)
        → All P (if b then stale oids rows else r ∷ stale oids rows)
    go true h = h
    go false h = (p, h)

ids-apart :
    (table : String) (r : Row) (rows : List Row)
    → IsBase table r.oid
    → r.id ≡ row_id r.oid
    → AreNamed table rows
    → All (λ x. (r.oid == x.oid) ≡ false) rows
    → All (λ x. (r.id == x.id) ≡ false) rows
ids-apart table r [] b i n h = tt
ids-apart table r (x ∷ rows) b i ((c, j), n) (other, h) = (
  (elim (Bool-cases (r.id == x.id)) [
    | inl same ↦ cc (
      other,
      (eq_iff r.oid x.oid).1
          (row_id-injective table r.oid x.oid b c (sym i ∙ (eq_iff r.id x.id).0 same ∙ j)),
    )
    | inr ne ↦ ne
  ]),
  ids-apart table r rows b i n h,
)

delete_own : (r : Row) (rows : List Row) → delete_row r.id (r ∷ rows) ≡ rows
unfolding delete_row
delete_own r rows = rw (eq_refl r.id) refl

-- `trim` takes away the rows of the records that are not listed, and no other.
pub trim-kept :
    (table : String) (oids : List String) (rows : List Row)
    → AreNamed table rows
    → AreApart rows
    → trim oids rows ≡ kept oids rows
unfolding trim stale delete_all delete_row
trim-kept table oids [] n h = refl
trim-kept table oids (r ∷ rows) ((b, i), n) (apart, h) = elim (Bool-cases (contains r.oid oids)) [
  | inl listed ↦ rw listed (
      delete_all-keep r (stale oids rows) rows
        (stale-All _ oids rows (ids-apart table r rows b i n apart))
      ∙ ap (λ t. r ∷ t) (trim-kept table oids rows n h))
  | inr gone ↦
      rw gone
        (ap (delete_all (stale oids rows)) (delete_own r rows) ∙ trim-kept table oids rows n h)
]
