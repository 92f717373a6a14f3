-- ===== src/Tabular/Edits.antt =====
-- What the event handlers of a table do with the field of an event: `onEdited`, `onEnter` and `onTick`
-- of httpd/html/javascript/tabular.js. Each gives the field afterwards and the OIDs that `percolate`
-- is called with, in their order. The tag `interface` goes to the page of the LAN instead.
pub mod Laws
use uhppoted_httpd.Prelude.{
  String, Bool, true, false, ◌&&◌, ◌||◌, List, [], ◌∷◌, Option, none, some, if◌then◌else◌,
}
use uhppoted_httpd.Text.{◌==◌}
use uhppoted_httpd.Console.Records.{is_there, text_of_bool}
use uhppoted_httpd.Tabular.Field.{Class, Place, in_td, in_label, elsewhere, Field, mark_cell, set}

-- the first argument of the handlers; `other` is a text that their `switch` does not have
pub data Tag : Type 0 where
  controller door card group user other : Tag

-- The `data-status` of `row(element)`, where that of the row around the element is given; it is the
-- empty text for a row without one.
abbrev pub row_of : Option String → Place → Option String
row_of tr (elsewhere parent) = none
row_of tr _ = tr

-- `set`, with its call of `percolate`
abbrev pub Step : Type 0
Step = Field × List String

unfoldable pub set_value : String → Option String → Field → Step
unfolding set
set_value v status e = (set v status e, e.oid ∷ [])

-- the forced update of a field whose device has reported an error
unfoldable pub force : Bool → Step → Step
unfolding mark_cell
force b (e, oids) = if b then (mark_cell Class.modified true e, e.oid ∷ oids) else (e, oids)

unfoldable pub on_edited : Tag → Option String → Field → Step
unfolding set_value force
on_edited door tr e =
    let v = if e.is_checkbox then text_of_bool e.checked else e.shown in
    force (e.status == "error" && is_there (row_of tr e.place)) (set_value v (some e.status) e)
on_edited other tr e = (e, [])
on_edited _ tr e = set_value e.shown none e

abbrev is_error : Option String → Bool
is_error none = false
is_error (some status) = status == "error"

-- `key` is `event.key`
unfoldable pub on_enter : String → Tag → Option String → Field → Step
unfolding set_value force
on_enter key tag tr e =
    if key == "Enter"
    then (elim tag [
      | door ↦
          force (e.status == "error" && is_there (row_of tr e.place))
            (set_value e.shown (some e.status) e)
      | card ↦
          force (e.status == "error" || is_error (row_of tr e.place)) (set_value e.shown none e)
      | other ↦ (e, [])
      | _ ↦ set_value e.shown none e
    ])
    else (e, [])

unfoldable pub on_tick : Tag → Field → Step
unfolding set_value
on_tick controller e = set_value (if e.checked then "tcp" else "udp") none e
on_tick other e = (e, [])
on_tick _ e = set_value (text_of_bool e.checked) none e

-- an event of a field, with the status of the row around it
pub data Input : Type 0 where
  edited ticked : Input
  entered : String → Input

unfoldable pub handle : Input → Tag → Option String → Field → Step
unfolding on_edited on_enter on_tick
handle edited tag tr e = on_edited tag tr e
handle ticked tag tr e = on_tick tag e
handle (entered key) tag tr e = on_enter key tag tr e
