-- ===== src/Pages/Columns.antt =====
-- The columns of a row that stand for records of another table, as `realize` of
-- httpd/html/javascript/cards.js (the access levels of a card) and groups.js (the doors of a level)
-- keep them: missing ones are put in, and surplus ones are taken out.
pub mod Laws
use uhppoted_httpd.Prelude.{
  String, Bool, true, false, not, ◌||◌, List, [], ◌∷◌, ◌++◌, Option, none, some, map, if◌then◌else◌,
}
use uhppoted_httpd.Text.{◌==◌, ◌++◌ as ◌<>◌}
use uhppoted_httpd.Oid.{match_record}
use uhppoted_httpd.Schema
use uhppoted_httpd.Console.Records.{contains}
use uhppoted_httpd.Pages.Rows.{Cell, Column, Row}

-- `cols.has(key)`
unfoldable pub has_column : String → List Column → Bool
has_column key [] = false
has_column key (c ∷ cs) = let rest = has_column key cs in if c.key == key then true else rest

-- the records that have no column; one without an OID counts as such
unfoldable pub missing_columns : List String → List Column → List String
unfolding has_column
missing_columns [] cols = []
missing_columns (o ∷ os) cols =
    let rest = missing_columns os cols in
    if (o == "") || not (has_column o cols) then o ∷ rest else rest

-- the keys of the columns whose record is not listed
unfoldable pub surplus_columns : List String → List Column → List String
surplus_columns oids [] = []
surplus_columns oids (c ∷ cs) =
    let rest = surplus_columns oids cs in if contains c.key oids then rest else c.key ∷ rest

-- the columns without those of the keys
unfoldable pub remove_columns : List String → List Column → List Column
remove_columns keys [] = []
remove_columns keys (c ∷ cs) =
    let rest = remove_columns keys cs in if contains c.key keys then rest else c ∷ rest

-- the number in the OID of a group and of a door; a text that does not match throws in the page
unfoldable pub number_in : String → String → String
number_in table oid = elim (match_record table oid) [ none ↦ "" | some (base, number) ↦ number ]

-- the cells of cards.js and of groups.js
unfoldable pub group_column : Row → String → Column
unfolding number_in
group_column row group = record {
  key = group;
  cell = record {
    id = row.id <> ("-" <> ("g" <> number_in "0.5." group));
    oid = row.oid <> (Schema.Cards.suffix Schema.Cards.Key.group <> number_in "0.5." group);
    original = "";
    value = "";
  };
}

unfoldable pub door_column : Row → String → Column
unfolding number_in
door_column row door = record {
  key = door;
  cell = record {
    id = row.id <> ("-" <> ("d" <> number_in "0.3." door));
    oid =
        row.oid <> (Schema.Groups.suffix Schema.Groups.Key.door <> ("." <> number_in "0.3." door));
    original = "";
    value = "";
  };
}

-- the columns of a row for the listed records
unfoldable pub sync_columns : (Row → String → Column) → List String → Row → Row
unfolding missing_columns surplus_columns remove_columns
sync_columns make oids row = record row {
  columns =
      remove_columns (surplus_columns oids row.columns)
        (row.columns ++ map (make row) (missing_columns oids row.columns));
}
