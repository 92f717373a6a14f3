-- ===== src/Lan.antt =====
-- The LAN settings page, httpd/html/javascript/interfaces.js. The document is the list of its
-- elements that have an OID, in document order; a table or a row is one too, whose texts are not
-- used. The elements below an OID are those inside its element.
pub mod Laws
pub mod Rollback
pub mod Fresh
use uhppoted_httpd.Prelude.{
  String, Bool, true, false, not, ◌&&◌, ◌≡◌, Option, none, some, List, [], ◌∷◌, if◌then◌else◌,
}
use uhppoted_httpd.Text.{◌==◌, ◌++◌}
use uhppoted_httpd.Tabular.Field.{Marks, Class, Field, put, put_parent, mark_parent}
use uhppoted_httpd.Tabular.Modified.{covers}
use uhppoted_httpd.Tabular.Percolate.{percolate}
use uhppoted_httpd.Tabular.Tree.{any_below, first, change, modified, modified_all}
use uhppoted_httpd.Schema.Interfaces.{Key, suffix}

-- the `OID` of a field, and whether it has the class 'modified'
abbrev pub oid_of : Field → String
oid_of e = e.oid

abbrev pub is_marked : Field → Bool
is_marked e = e.marks.modified

-- `modified(oid)`: a mark on the element of `o` for the marks below it; and the calls of it that the
-- loop of `percolate` makes
abbrev pub mend : String → List Field → Field → Field
mend o doc e = record e { marks = put Class.modified (any_below oid_of is_marked o doc) e.marks }

abbrev pub modified_at : String → List Field → List Field
modified_at = modified oid_of is_marked mend

abbrev pub percolated : String → List Field → List Field
percolated oid = modified_all oid_of is_marked mend (percolate oid)

-- `set`: the field itself, and with the walk up from it
unfoldable pub set_field : String → Field → Field
unfolding mark_parent
set_field v e = mark_parent Class.modified (not (v == e.original)) (record e { value = v })

unfoldable pub set : String → String → List Field → List Field
set oid v doc = percolated oid (change oid_of is_marked oid (set_field v) doc)

-- The branches of `update`: of a field with an edit, of a submitted one, and of another, which
-- ends in a call of `set`.
unfoldable pub reconcile : String → Field → Field
unfolding mark_parent
reconcile v e =
    let e1 = record e { original = v } in
    let clash = not (e.original == v) && not (e.value == v) in
    if clash
    then mark_parent Class.conflict true e1
    else if not (e.value == v)
    then mark_parent Class.conflict false e1
    else mark_parent Class.modified false (mark_parent Class.conflict false e1)

unfoldable pub hold : String → Field → Field
unfolding mark_parent
hold v e =
    mark_parent Class.conflict (not (e.original == v) && not (e.value == v))
      (record e { original = v })

unfoldable pub take : String → Field → Field
unfolding set_field
take v e =
    let e1 = record e { original = v } in
    set_field v (if e.is_active then e1 else record e1 { shown = v })

-- `update` of the field with an OID, if there is one
unfoldable pub update : String → String → List Field → List Field
update oid v doc = elim (first oid_of is_marked oid doc) [
  | none ↦ doc
  | some e ↦
      if e.marks.modified
      then percolated oid (change oid_of is_marked oid (reconcile v) doc)
      else if e.marks.pending
      then change oid_of is_marked oid (hold v) doc
      else percolated oid (change oid_of is_marked oid (take v) doc)
]

-- What the page shows of a record of `DB.interfaces`, as texts.
pub record Interface : Type 0 where
  pub oid : String
  pub name : String
  pub bind : String
  pub broadcast : String

-- the calls of `update` in `updateFromDB`, the function itself, and `refreshed`
unfoldable pub update_all : Interface → List Field → List Field
update_all c doc =
    update (c.oid ++ suffix Key.broadcast) c.broadcast
      (update (c.oid ++ suffix Key.bind) c.bind (update (c.oid ++ suffix Key.name) c.name doc))

unfoldable pub update_from_db : Interface → List Field → List Field
update_from_db c doc = elim (first oid_of is_marked c.oid doc) [
  | none ↦ doc
  | some _ ↦ update_all c doc
]

unfoldable pub refreshed : List Interface → List Field → List Field
refreshed [] doc = doc
refreshed (c ∷ cs) doc = refreshed cs (update_from_db c doc)

-- `rollback` of the section of an OID
unfoldable pub restore : Field → Field
unfolding put put_parent
restore e = record e {
  value = e.original;
  shown = e.original;
  marks = put Class.modified false e.marks;
  place = put_parent Class.pending false (put_parent Class.modified false e.place);
}

unfoldable pub restore_below : String → List Field → List Field
restore_below oid [] = []
restore_below oid (e ∷ es) =
    let rest = restore_below oid es in (if covers oid e.oid then restore e else e) ∷ rest

unfoldable pub rollback : String → List Field → List Field
unfolding put
rollback oid doc =
    change oid_of is_marked oid (λ e. record e { marks = put Class.modified false e.marks })
      (restore_below oid doc)

-- `changeset`: the fields of the section with an OID whose text differs from the server's
unfoldable pub changeset : String → List Field → List Field
changeset oid [] = []
changeset oid (e ∷ es) =
    let rest = changeset oid es in
    if covers oid e.oid && not (e.value == e.original) then e ∷ rest else rest
