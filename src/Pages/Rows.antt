-- ===== src/Pages/Rows.antt =====
-- The rows of a page's table, `realize` and `add` of httpd/html/javascript/cards.js and its kind, with
-- `trim` and `deleted` of tabular.js: the rows of records that are gone are taken away, and those of
-- new records are added. What a row has besides is the page's.
pub mod Trimmed
pub mod Visited
pub mod Laws
use uhppoted_httpd.Prelude.{
  String, Bool, true, false, not, List, [], ◌∷◌, ◌++◌, Option, none, some, map, if◌then◌else◌,
}
use uhppoted_httpd.Text.{◌==◌, ◌++◌ as ◌<>◌}
use uhppoted_httpd.Console.Records.{contains}
use uhppoted_httpd.Pages.Names.{row_id}

-- a field of a row: its `id` and its `dataset`
pub record Cell : Type 0 where
  pub id : String
  pub oid : String
  pub original : String
  pub value : String

-- a cell of a column that stands for a record: of which, and its field
pub record Column : Type 0 where
  pub key : String
  pub cell : Cell

pub record Row : Type 0 where
  pub id : String
  pub oid : String
  pub status : String
  pub is_new : Bool
  pub fields : List Cell
  pub columns : List Column

-- `deleted`: the first row with the `id` goes
unfoldable pub delete_row : String → List Row → List Row
delete_row id [] = []
delete_row id (r ∷ rows) = let rest = delete_row id rows in if r.id == id then rows else r ∷ rest

-- `trim`: the rows to take away, found first, and each taken away
unfoldable pub stale : List String → List Row → List Row
stale oids [] = []
stale oids (r ∷ rows) = let rest = stale oids rows in if contains r.oid oids then rest else r ∷ rest

unfoldable pub delete_all : List Row → List Row → List Row
unfolding delete_row
delete_all [] rows = rows
delete_all (r ∷ rs) rows = delete_all rs (delete_row r.id rows)

unfoldable pub trim : List String → List Row → List Row
unfolding stale delete_all
trim oids rows = delete_all (stale oids rows) rows

-- the fields of a page's row, each with what its `id` and its OID end in
abbrev pub Template : Type 0
Template = List (String × String)

unfoldable pub fields_of : String → Template → List Cell
unfolding row_id
fields_of oid slots =
    map
      (λ s. record { id = row_id oid <> ("-" <> s.0); oid = oid <> s.1; original = ""; value = "" })
      slots

-- `add`, where `is_new` is whether the page gives a row the class `new`
unfoldable pub add : Bool → Template → String → Row
unfolding fields_of
add is_new slots oid = record {
  id = row_id oid;
  oid = oid;
  status = "unknown";
  is_new = is_new;
  fields = fields_of oid slots;
  columns = [];
}

unfoldable pub has_row : String → List Row → Bool
has_row oid [] = false
has_row oid (r ∷ rows) = let rest = has_row oid rows in if r.oid == oid then true else rest

-- a change of the first row with the OID
unfoldable pub change_row : String → (Row → Row) → List Row → List Row
change_row oid change [] = []
change_row oid change (r ∷ rows) =
    let rest = change_row oid change rows in if r.oid == oid then change r ∷ rows else r ∷ rest

module _ (fresh : String → Row) (change : Row → Row) where
  -- the row of a record, added if it is missing, and what `realize` does to it
  unfoldable pub visit : String → List Row → List Row
  unfolding has_row change_row
  visit oid rows = change_row oid change (if has_row oid rows then rows else rows ++ fresh oid ∷ [])

  unfoldable pub visit_all : List String → List Row → List Row
  unfolding visit
  visit_all [] rows = rows
  visit_all (oid ∷ oids) rows = visit_all oids (visit oid rows)

  -- `realize`, on the OIDs of the records that are listed
  unfoldable pub realize : List String → List Row → List Row
  unfolding trim visit_all
  realize oids rows = visit_all oids (trim oids rows)
