-- ===== src/Tabular/Edits/Laws.antt =====
-- What an event leaves of a field in a table of httpd/html/javascript/tabular.js.
use uhppoted_httpd.Prelude.{
  String, Bool, true, false, not, ◌&&◌, ◌||◌, ◌≡◌, refl, List, [], ◌∷◌, Option, none, some, All,
  Bool-cases, inl, inr, subst, sym, eq_iff, if◌then◌else◌,
}
use uhppoted_httpd.Text.{◌==◌}
use uhppoted_httpd.Console.Records.{is_there, text_of_bool}
use uhppoted_httpd.Tabular.Field.{
  Class, Place, Marks, in_td, in_label, elsewhere, Field, mark_cell, set, put, put_cell,
}
use uhppoted_httpd.Tabular.Edits.{
  Tag, controller, door, card, group, user, other, row_of, Step, set_value, force, is_error,
  on_edited, on_enter, on_tick, Input, edited, ticked, entered, handle,
}

-- whether a handler has a case for the tag, and the value that the user has given
abbrev pub takes : Input → Tag → Bool
takes input other = false
takes (entered key) tag = key == "Enter"
takes _ tag = true

abbrev pub given : Input → Tag → Field → String
given ticked controller e = if e.checked then "tcp" else "udp"
given ticked tag e = text_of_bool e.checked
given edited door e = if e.is_checkbox then text_of_bool e.checked else e.shown
given _ tag e = e.shown

-- the mark on the cell of a field in one
abbrev pub cell_of : Place → Option Marks
cell_of (in_td td) = some td
cell_of (in_label label td) = some td
cell_of (elsewhere parent) = none

abbrev pub IsMarked : Bool → Option Marks → Type 0
IsMarked b none = Unit
IsMarked b (some m) = m.modified ≡ b

-- A field after an edit: it has the value given, and is marked as modified, with its cell, if that is
-- not the original, and not if it is, where no error is reported for the field or its row.
pub record IsEdited (tr : Option String) (v : String) (e : Field) (s : Step) : Type 0 where
  pub value : s.0.value ≡ v
  pub original : s.0.original ≡ e.original
  pub changed : (v == e.original) ≡ false → s.0.marks.modified ≡ true
  pub clean :
      (v == e.original) ≡ true
      → (e.status == "error") ≡ false
      → is_error (row_of tr e.place) ≡ false
      → s.0.marks.modified ≡ false
  pub conflict : s.0.marks.conflict ≡ e.marks.conflict
  pub pending : s.0.marks.pending ≡ e.marks.pending
  pub cell : IsMarked s.0.marks.modified (cell_of s.0.place)
  pub told : (oids : List String) × (s.1 ≡ e.oid ∷ oids) × All (λ o. o ≡ e.oid) oids

put_cell-IsMarked : (b : Bool) (p : Place) → IsMarked b (cell_of (put_cell Class.modified b p))
unfolding put_cell put
put_cell-IsMarked b (in_td td) = refl
put_cell-IsMarked b (in_label label td) = refl
put_cell-IsMarked b (elsewhere parent) = tt

set_value-IsEdited :
    (tr : Option String) (v : String) (status : Option String) (e : Field)
    → IsEdited tr v e (set_value v status e)
unfolding set_value set mark_cell put
set_value-IsEdited tr v status e = record {
  value = refl;
  original = refl;
  changed = λ h. rw h refl;
  clean = λ h none_here none_around. rw h refl;
  conflict = refl;
  pending = refl;
  cell = put_cell-IsMarked (not (v == e.original)) e.place;
  told = ([], refl, tt);
}

-- A field is forced only where there is an error.
force-IsEdited :
    (tr : Option String) (v : String) (e : Field) (b : Bool) (s : Step)
    → s.0.oid ≡ e.oid
    → (b ≡ true → (e.status == "error") ≡ false → is_error (row_of tr e.place) ≡ true)
    → IsEdited tr v e s
    → IsEdited tr v e (force b s)
unfolding force mark_cell put
force-IsEdited tr v e false s own h i = i
force-IsEdited tr v e true s own h i = record {
  value = i.value;
  original = i.original;
  changed = λ c. refl;
  clean = λ c none_here none_around. cc (h refl none_here, none_around);
  conflict = i.conflict;
  pending = i.pending;
  cell = put_cell-IsMarked true s.0.place;
  told = (s.1, rw own refl, rw i.told.1 (refl, i.told.2));
}

door-IsEdited :
    (tr : Option String) (v : String) (e : Field)
    → IsEdited tr v e (
        force (e.status == "error" && is_there (row_of tr e.place)) (set_value v (some e.status) e))
unfolding set_value set mark_cell
door-IsEdited tr v e =
    force-IsEdited tr v e _ (set_value v (some e.status) e) refl
      (λ forced fine. both (e.status == "error") (is_there (row_of tr e.place)) forced fine)
      (set_value-IsEdited tr v (some e.status) e)
  where
    both : (a b : Bool) → (a && b) ≡ true → {c : Bool} → a ≡ false → c ≡ true
    both true b h fine = cc fine
    both false b h fine = cc h

card-IsEdited :
    (tr : Option String) (v : String) (e : Field)
    → IsEdited tr v e
        (force (e.status == "error" || is_error (row_of tr e.place)) (set_value v none e))
unfolding set_value set mark_cell
card-IsEdited tr v e =
    force-IsEdited tr v e _ (set_value v none e) refl
      (λ forced fine. either (e.status == "error") (is_error (row_of tr e.place)) forced fine)
      (set_value-IsEdited tr v none e)
  where
    either : (a b : Bool) → (a || b) ≡ true → a ≡ false → b ≡ true
    either true b h fine = cc fine
    either false b h fine = h

-- An event that its handler has a case for.
handled : {A P : Type 0} → P → (true ≡ false → A) × (true ≡ true → P)
handled p = (λ absent. cc absent, λ there. p)

ignored : {A P : Type 0} → A → (false ≡ false → A) × (false ≡ true → P)
ignored a = (λ there. a, λ absent. cc absent)

on_enter-IsEdited :
    (tag : Tag) (tr : Option String) (e : Field)
    → (takes (entered "Enter") tag ≡ false → on_enter "Enter" tag tr e ≡ (e, []))
      × (takes (entered "Enter") tag ≡ true → IsEdited tr e.shown e (on_enter "Enter" tag tr e))
unfolding on_enter
on_enter-IsEdited controller tr e = handled (set_value-IsEdited tr e.shown none e)
on_enter-IsEdited door tr e = handled (door-IsEdited tr e.shown e)
on_enter-IsEdited card tr e = handled (card-IsEdited tr e.shown e)
on_enter-IsEdited group tr e = handled (set_value-IsEdited tr e.shown none e)
on_enter-IsEdited user tr e = handled (set_value-IsEdited tr e.shown none e)
on_enter-IsEdited other tr e = ignored refl

-- For each event, tag and field, in or out of a row: a handler that has no case for it leaves the
-- field as it is and calls nothing. Otherwise the field has the value given and its original; if the
-- two differ, the field is marked as modified, and if they are the same and no error is reported for
-- the field or its row, it is not; its cell is marked as the field is; its other marks are as they
-- were; and `percolate` is called at least once, with the OID of the field only.
pub handle-IsEdited :
    (input : Input) (tag : Tag) (tr : Option String) (e : Field)
    → (takes input tag ≡ false → handle input tag tr e ≡ (e, []))
      × (takes input tag ≡ true → IsEdited tr (given input tag e) e (handle input tag tr e))
unfolding handle on_edited on_tick on_enter
handle-IsEdited edited controller tr e = handled (set_value-IsEdited tr e.shown none e)
handle-IsEdited edited door tr e =
    handled (door-IsEdited tr (if e.is_checkbox then text_of_bool e.checked else e.shown) e)
handle-IsEdited edited card tr e = handled (set_value-IsEdited tr e.shown none e)
handle-IsEdited edited group tr e = handled (set_value-IsEdited tr e.shown none e)
handle-IsEdited edited user tr e = handled (set_value-IsEdited tr e.shown none e)
handle-IsEdited edited other tr e = ignored refl
handle-IsEdited ticked controller tr e =
    handled (set_value-IsEdited tr (if e.checked then "tcp" else "udp") none e)
handle-IsEdited ticked door tr e = handled (set_value-IsEdited tr (text_of_bool e.checked) none e)
handle-IsEdited ticked card tr e = handled (set_value-IsEdited tr (text_of_bool e.checked) none e)
handle-IsEdited ticked group tr e = handled (set_value-IsEdited tr (text_of_bool e.checked) none e)
handle-IsEdited ticked user tr e = handled (set_value-IsEdited tr (text_of_bool e.checked) none e)
handle-IsEdited ticked other tr e = ignored refl
handle-IsEdited (entered key) tag tr e = elim (Bool-cases (key == "Enter")) [
  | inl enter ↦
      subst
        (λ k.
          (takes (entered k) tag ≡ false → on_enter k tag tr e ≡ (e, []))
          × (takes (entered k) tag ≡ true → IsEdited tr e.shown e (on_enter k tag tr e)))
        (sym ((eq_iff key "Enter").0 enter)) (on_enter-IsEdited tag tr e)
  | inr other_key ↦ (λ h. rw other_key refl, λ h. elim (no_case key tag other_key h) [ ])
]
  where
    no_case :
        (key : String) (tag : Tag) → (key == "Enter") ≡ false → takes (entered key) tag ≡ true → ⊥
    no_case key controller h t = cc (h, t)
    no_case key door h t = cc (h, t)
    no_case key card h t = cc (h, t)
    no_case key group h t = cc (h, t)
    no_case key user h t = cc (h, t)
    no_case key other h t = cc t
