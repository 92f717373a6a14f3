-- ===== src/Tabular/Field.antt =====
-- One input field of a table (`set`, `update`, `revert`, `commit` of
-- httpd/html/javascript/tabular.js): its `dataset`, what it shows, and the class marks on it and on
-- the elements around it. Values are the texts that `value.toString()` gives.
pub mod Laws
pub mod Trace
use uhppoted_httpd.Prelude.{
  String, Bool, true, false, not, ◌&&◌, Option, none, some, or_else, if◌then◌else◌,
}
use uhppoted_httpd.Text.{◌==◌}

-- the classes that `mark` and `unmark` are called with
pub data Class : Type 0 where
  modified conflict pending : Class

pub record Marks : Type 0 where
  pub modified : Bool
  pub conflict : Bool
  pub pending : Bool

-- `classList.add` and `classList.remove`
unfoldable pub put : Class → Bool → Marks → Marks
put modified b m = record m { modified = b }
put conflict b m = record m { conflict = b }
put pending b m = record m { pending = b }

-- The parent: a `<td>`, a `<label>` inside a `<td>`, or another element, each with its own marks.
pub data Place : Type 0 where
  in_td : Marks → Place
  in_label : Marks → Marks → Place
  elsewhere : Marks → Place

-- a mark on `cell(element)`, which may be `null`
unfoldable pub put_cell : Class → Bool → Place → Place
unfolding put
put_cell c b (in_td td) = in_td (put c b td)
put_cell c b (in_label label td) = in_label label (put c b td)
put_cell c b (elsewhere parent) = elsewhere parent

-- a mark on `element.parentElement`
unfoldable pub put_parent : Class → Bool → Place → Place
unfolding put
put_parent c b (in_td td) = in_td (put c b td)
put_parent c b (in_label label td) = in_label (put c b label) td
put_parent c b (elsewhere parent) = elsewhere (put c b parent)

pub record Field : Type 0 where
  pub oid : String
  pub original : String  -- `dataset.original`
  pub value : String  -- `dataset.value`
  pub status : String  -- `dataset.status`
  pub shown : String  -- `element.value`
  pub checked : Bool
  pub is_checkbox : Bool
  pub is_active : Bool  -- `element === document.activeElement`
  pub marks : Marks
  pub place : Place

-- `mark(c, element, cell(element))` and `unmark(c, element, cell(element))`
unfoldable pub mark_cell : Class → Bool → Field → Field
unfolding put put_cell
mark_cell c b e = record e { marks = put c b e.marks; place = put_cell c b e.place }

-- the same where the second element is `element.parentElement`
unfoldable pub mark_parent : Class → Bool → Field → Field
unfolding put put_parent
mark_parent c b e = record e { marks = put c b e.marks; place = put_parent c b e.place }

-- `set`, without its last call, `percolate`; a missing or empty status gives the empty text
unfoldable pub set : String → Option String → Field → Field
unfolding mark_cell
set v status e =
    let e' = record e { value = v; status = elim status [ none ↦ "" | some s ↦ s ] } in
    mark_cell modified (not (v == e.original)) e'

-- the `switch (true)` of `update`; `checked` is the caller's test of the value
unfoldable pub show : Option (String → Bool) → String → Field → Field
show checked v e =
    if e.is_checkbox
    then record e { checked = elim checked [ none ↦ v == "true" | some f ↦ f v ] }
    else record e { shown = v }

-- `update` of a field that is there; no value is `undefined`
unfoldable pub update : Option String → Option String → Option (String → Bool) → Field → Field
unfolding mark_parent set show
update none status checked e = e
update (some v) status checked e =
    let previous = e.original in
    let e1 = record e { original = v } in
    let clash = not (previous == v) && not (e.value == v) in
    if e.marks.modified
    then (if clash
        then mark_parent conflict true e1
        else if not (e.value == v)
        then mark_parent conflict false e1
        else mark_parent modified false (mark_parent conflict false e1))
    else if e.marks.pending
    then mark_parent conflict clash e1
    else set v status (if e.is_active then e1 else show checked v e1)

-- one field of `revert`: `given` is what `DB.get` of its OID finds
unfoldable pub revert : Option String → Field → Field
unfolding set
revert given e =
    let v = or_else e.original given in
    let e1 = if e.is_checkbox then record e { checked = v == "true" } else record e { shown = v } in
    set v (some e.status) e1

-- one field of `commit`: before the request, after an error (`reset`), and at the end (`cleanup`)
unfoldable pub submit : Field → Field
unfolding mark_parent
submit e = mark_parent modified false (mark_parent pending true e)

unfoldable pub reset : Field → Field
unfolding mark_parent
reset e = mark_parent modified true (mark_parent pending false e)

unfoldable pub cleanup : Field → Field
unfolding mark_parent
cleanup e = mark_parent pending false e
