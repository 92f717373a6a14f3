-- ===== src/Pages/Options.antt =====
-- The drop-down lists of the doors in the table of controllers, `updateFromDB` of
-- httpd/html/javascript/controllers.js: an option for each door after the first, which stands for no
-- door. Which option is chosen is the browser's.
pub mod Laws
use uhppoted_httpd.Prelude.{
  ℕ, zero, suc, String, Bool, true, false, not, ◌&&◌, List, [], ◌∷◌, some, length, ltb, map, ◌+◌,
  if◌then◌else◌,
}
use uhppoted_httpd.Text.{◌==◌, ◌++◌ as ◌<>◌}
use uhppoted_httpd.Value.{Value, is_text, truthy}
use uhppoted_httpd.OrderedMap.{Map}
use uhppoted_httpd.Db.Doors.{Door}
use uhppoted_httpd.Db.Sweep.{alive}
use uhppoted_httpd.Console.Markup.{replace_all}

pub record Item : Type 0 where
  pub value : String
  pub label : String

-- The option of a door at an index of the list: put in there, or at the end if the list is too short,
-- or only given its label if that index has the door already.
unfoldable pub put : ℕ → Item → List Item → List Item
put n item [] = item ∷ []
put zero item (o ∷ os) =
    if not (o.value == item.value)
    then item ∷ o ∷ os
    else if not (o.label == item.label)
    then record o { label = item.label } ∷ os
    else o ∷ os
put (suc n) item (o ∷ os) = o ∷ put n item os

-- the loop over the doors, from an index on
unfoldable pub put_all : ℕ → List Item → List Item → List Item
unfolding put
put_all ix [] options = options
put_all ix (item ∷ items) options = put_all (suc ix) items (put ix item options)

-- `options.remove(options.length - 1)`
unfoldable pub remove_last : List Item → List Item
remove_last [] = []
remove_last (o ∷ []) = []
remove_last (o ∷ p ∷ os) = o ∷ remove_last (p ∷ os)

-- `while (options.length > …)`, with the number of rounds left
unfoldable pub shorten : ℕ → ℕ → List Item → List Item
unfolding remove_last
shorten zero size options = options
shorten (suc n) size options =
    let rest = shorten n size (remove_last options) in
    if ltb size (length options) then rest else options

-- Every round takes one option off.
unfoldable pub populate : List Item → List Item → List Item
unfolding put_all shorten
populate items options =
    let filled = put_all 1 items options in shorten (length filled) (length items + 1) filled

-- the doors that the lists show, before they are sorted
unfoldable pub shown : Map Door → List Door
unfolding alive
shown [] = []
shown ((k, d) ∷ doors) =
    let rest = shown doors in
    if truthy d.status && (not (is_text "<new>" d.status) && alive (some d.deleted))
    then d ∷ rest
    else rest

-- `text_of` is the text of a value
module _ (text_of : Value → String) where
  unfoldable pub item_of : Door → Item
  unfolding replace_all
  item_of d = record {
    value = d.oid;
    label =
        if not (is_text "" d.name)
        then text_of d.name
        else replace_all 46 "" ("<D" <> (d.oid <> ">"));
  }

  -- `sort` is by `localeCompare` of the fields `created`
  unfoldable pub populate_doors : (List Door → List Door) → Map Door → List Item → List Item
  unfolding populate shown item_of
  populate_doors sort doors options = populate (map item_of (sort (shown doors))) options
