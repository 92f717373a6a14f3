-- ===== src/Pages/Tables/Laws.antt =====
-- The rows of the tables of the pages of httpd/html/javascript: after `realize`, and the OIDs of their
-- fields.
use uhppoted_httpd.Prelude.{
  String, Bool, true, false, not, ◌&&◌, ◌≡◌, refl, List, [], ◌∷◌, ◌++◌, some, map, All, both_left,
  both_right,
}
use uhppoted_httpd.Oid.{match_base, is_line, is_digit}
use uhppoted_httpd.Oid.Laws.{IsBase, IsSuffix, match_base-append, starts_digit}
use uhppoted_httpd.Pages.Rows.{Row, Template, fields_of, add}
use uhppoted_httpd.Pages.Rows.Trimmed.{AreNamed, AreApart, AreDistinct, kept, missing}
use uhppoted_httpd.Pages.Rows.Laws.{realize-exact}
use uhppoted_httpd.Pages.Columns.{sync_columns}
use uhppoted_httpd.Pages.Tables.{Page, slots, prefix, new_row, change, realize_page}

change-oid : (page : Page) (columns : List String) (r : Row) → (change page columns r).oid ≡ r.oid
unfolding change sync_columns
change-oid Page.cards columns r = refl
change-oid Page.controllers columns r = refl
change-oid Page.doors columns r = refl
change-oid Page.events columns r = refl
change-oid Page.groups columns r = refl
change-oid Page.logs columns r = refl
change-oid Page.users columns r = refl

-- Where every row is one of a record of the page's table, has its `id`, and no record has two, and no
-- OID is listed twice: `realize` of the page takes away exactly the rows of the records that are not
-- listed, keeps the others in their order, adds one for each listed record that has none, in the order
-- of the list, and brings the columns of each, if the page has some, up to date once.
pub realize_page-exact :
    (page : Page) (columns oids : List String) (rows : List Row)
    → AreNamed (prefix page) rows
    → AreApart rows
    → AreDistinct oids
    → realize_page page columns oids rows
      ≡ map (change page columns) (kept oids rows ++ map (new_row page) (missing oids rows))
unfolding realize_page new_row add
realize_page-exact page columns oids rows n h d =
    realize-exact (new_row page) (change page columns) (λ o. refl) (change-oid page columns)
      (prefix page) oids rows n h d

-- what follows an OID in the OID of a field
abbrev ends_field : String → Bool
ends_field s = not (starts_digit s) && is_line s

abbrev all_end : Template → Bool
all_end [] = true
all_end ((n, s) ∷ rest) = ends_field s && all_end rest

ends : (page : Page) → all_end (slots page) ≡ true
unfolding is_line is_digit
ends Page.cards = refl
ends Page.controllers = refl
ends Page.doors = refl
ends Page.events = refl
ends Page.groups = refl
ends Page.logs = refl
ends Page.users = refl

fields_of-match :
    (table oid : String)
    → IsBase table oid
    → (template : Template) → all_end template ≡ true
    → All (λ c. match_base table c.oid ≡ some oid) (fields_of oid template)
unfolding fields_of
fields_of-match table oid b [] h = tt
fields_of-match table oid b ((n, s) ∷ rest) h = (
  match_base-append table oid s b (suffixed (both_left (ends_field s) _ h)),
  fields_of-match table oid b rest (both_right (ends_field s) _ h),
)
  where
    negated : (b : Bool) → not b ≡ true → b ≡ false
    negated true e = cc e
    negated false e = refl

    suffixed : ends_field s ≡ true → IsSuffix s
    suffixed e = record {
      not_digit = negated _ (both_left (not (starts_digit s)) _ e);
      line = both_right (not (starts_digit s)) _ e;
    }

-- The fields of a new row are fields of its record: from the OID of each, the expression of the page's
-- table takes the OID of the record.
pub new_row-fields :
    (page : Page) (oid : String)
    → IsBase (prefix page) oid
    → All (λ c. match_base (prefix page) c.oid ≡ some oid) (new_row page oid).fields
unfolding new_row add
new_row-fields page oid b = fields_of-match (prefix page) oid b (slots page) (ends page)
