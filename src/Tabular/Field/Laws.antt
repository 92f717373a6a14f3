-- ===== src/Tabular/Field/Laws.antt =====
-- What a field goes through between an edit, a reply of the server, a commit and a rollback.
use uhppoted_httpd.Prelude.{
  String, Bool, true, false, ◌||◌, ◌≡◌, ◌≢◌, refl, ◌⊎◌, ◌↔◌, Option, some, arith, eq_iff, eq_refl,
  if◌then◌else◌,
}
use uhppoted_httpd.Tabular.Field.{Class, Field, put_cell, set, update}

-- An edit stores the new text and keeps what the server sent last; the field is marked as modified
-- exactly if the two differ, and so is the cell around it if there is one. No other mark changes.
pub set_lem :
    (v : String) (status : Option String) (e : Field)
    → let e' = set v status e in
      (e'.value ≡ v)
      × (e'.original ≡ e.original)
      × ((e'.marks.modified ≡ true) ↔ (v ≢ e.original))
      × (e'.place ≡ put_cell Class.modified e'.marks.modified e.place)
      × (e'.marks.conflict ≡ e.marks.conflict)
      × (e'.marks.pending ≡ e.marks.pending)
unfolding set
set_lem v status e = (refl, refl, ground (arith, eq_iff v e.original), refl, refl, refl)

-- A value of the server for a field with unsaved or submitted changes is recorded as its original
-- and leaves the changes alone: neither the stored nor the shown text changes.
pub update-keeps_edit :
    (v : String) (status : Option String) (checked : Option (String → Bool)) (e : Field)
    → (e.marks.modified ≡ true) ⊎ (e.marks.pending ≡ true)
    → let e' = update (some v) status checked e in
      (e'.original ≡ v) × (e'.value ≡ e.value) × (e'.shown ≡ e.shown) × (e'.checked ≡ e.checked)
unfolding update
update-keeps_edit v status checked e h = ground arith

-- With an edit in progress the field is in conflict exactly if the server's value has changed to one
-- other than the edit, and it stays modified exactly if the edit differs from the server's value.
pub update-modified :
    (v : String) (status : Option String) (checked : Option (String → Bool)) (e : Field)
    → e.marks.modified ≡ true
    → let e' = update (some v) status checked e in
      ((e'.marks.conflict ≡ true) ↔ ((e.original ≢ v) × (e.value ≢ v)))
      × ((e'.marks.modified ≡ true) ↔ (e.value ≢ v))
      × (e'.marks.pending ≡ e.marks.pending)
unfolding update
update-modified v status checked e h = ground (arith, eq_iff e.original v, eq_iff e.value v)

-- A value of the server for a field in any state. The value is the new original. With an edit in
-- progress or a submitted change the stored and the shown text stay, and the field is in conflict
-- exactly if the value differs both from the last one and from the stored text; otherwise the field
-- takes the value, its text changes with it unless the field is a checkbox or has the focus, and its
-- conflict mark stays as it was. The field is modified afterwards exactly if it was and its edit
-- differs from the value, and it is pending exactly if it was.
pub update_lem :
    (v : String) (status : Option String) (checked : Option (String → Bool)) (e : Field)
    → let e' = update (some v) status checked e in
      (e'.original ≡ v)
      × (e'.value ≡ (if e.marks.modified || e.marks.pending then e.value else v))
      × (e'.shown ≡ (
          if (e.marks.modified || e.marks.pending) || (e.is_active || e.is_checkbox)
          then e.shown
          else v))
      × ((e'.marks.conflict ≡ true) ↔ (
          (((e.marks.modified || e.marks.pending) ≡ true) × (e.original ≢ v) × (e.value ≢ v))
          ⊎ (((e.marks.modified || e.marks.pending) ≡ false) × (e.marks.conflict ≡ true))))
      × ((e'.marks.modified ≡ true) ↔ ((e.marks.modified ≡ true) × (e.value ≢ v)))
      × (e'.marks.pending ≡ e.marks.pending)
unfolding update
update_lem v status checked e = ground (arith, eq_iff e.original v, eq_iff e.value v, eq_refl v)
