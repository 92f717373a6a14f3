-- ===== src/Tabular/Field/Trace.antt =====
-- A field over any sequence of the events that reach it, in any order: edits, replies of the server,
-- commits with their outcome, rollbacks.
use uhppoted_httpd.Prelude.{
  String, true, false, ◌≡◌, ◌≢◌, refl, sym, subst, ◌∙◌, Option, none, some, List, [], ◌∷◌, map, inl,
  arith, eq_iff, eq_refl, All, ap, ◌↔◌,
}
use uhppoted_httpd.Tabular.Field.{
  Marks, in_td, in_label, Field, set, update, revert, submit, reset, cleanup,
}
use uhppoted_httpd.Tabular.Field.Laws.{update-keeps_edit, update-modified}

pub data Event : Type 0 where
  edited : String → Option String → Event
  received : Option String → Option String → Event
  reverted : Option String → Event
  submitted failed finished : Event

unfoldable pub step : Event → Field → Field
step (edited v status) e = set v status e
step (received v status) e = update v status none e
step (reverted given) e = revert given e
step submitted e = submit e
step failed e = reset e
step finished e = cleanup e

unfoldable pub run : List Event → Field → Field
run [] e = e
run (x ∷ xs) e = run xs (step x e)

-- The cell carries the marks of its field.
abbrev pub IsMirrored : Field → Type 0
IsMirrored e = e.place ≡ in_td e.marks

step-IsMirrored : (x : Event) (e : Field) → IsMirrored e → IsMirrored (step x e)
unfolding step set update revert submit reset cleanup
step-IsMirrored (edited v status) e h = ground arith
step-IsMirrored (received none status) e h = h
step-IsMirrored (received (some v) status) e h = ground arith
step-IsMirrored (reverted given) e h = ground arith
step-IsMirrored submitted e h = ground arith
step-IsMirrored failed e h = ground arith
step-IsMirrored finished e h = ground arith

-- A field directly in a cell, whose cell shows exactly the field's own marks, keeps that after any
-- events.
pub run-IsMirrored : (xs : List Event) (e : Field) → IsMirrored e → IsMirrored (run xs e)
unfolding run
run-IsMirrored [] e h = h
run-IsMirrored (x ∷ xs) e h = run-IsMirrored xs (step x e) (step-IsMirrored x e h)

-- For a field in a label, a commit clears the mark of the field and leaves that of the cell, which
-- the edit set.
pub submit-in_label :
    (v : String) (status : Option String) (e : Field) (label td : Marks)
    → e.place ≡ in_label label td
    → v ≢ e.original
    → let e' = submit (set v status e) in
      (e'.marks.modified ≡ false)
      × (e'.place
          ≡ in_label
              (record label { modified = false; pending = true })
              (record td { modified = true }))
unfolding submit set
submit-in_label v status e label td h n = ground (arith, eq_iff v e.original)

abbrev pub unmarked : Marks
unmarked = record { modified = false; conflict = false; pending = false }

-- A change of a field without marks, to another text than its original, that is committed and comes
-- back from the server as it was sent leaves the field clean, whether the reply is read before or
-- after the end of the request: the original and the value are the change, and no mark is left.
pub commit_roundtrip :
    (v : String) (status : Option String) (e : Field)
    → e.marks ≡ unmarked
    → v ≢ e.original
    → let before = run (edited v status ∷ submitted ∷ received (some v) status ∷ finished ∷ []) e in
      let after = run (edited v status ∷ submitted ∷ finished ∷ received (some v) status ∷ []) e in
      ((before.original ≡ v) × (before.value ≡ v) × (before.marks ≡ unmarked))
      × ((after.original ≡ v) × (after.value ≡ v) × (after.marks ≡ unmarked))
unfolding run step set update submit cleanup
commit_roundtrip v status e h n =
    (ground (arith, eq_refl v, eq_iff v e.original), ground (arith, eq_refl v, eq_iff v e.original))

-- A reply of the server: the value and the status that it has for the field, where it has one.
abbrev pub Reply : Type 0
Reply = Option String × Option String

abbrev pub replied : Reply → Event
replied r = received r.0 r.1

-- The last value of some replies, after the one that the field had.
abbrev pub last_given : String → List Reply → String
last_given given [] = given
last_given given ((none, status) ∷ rs) = last_given given rs
last_given given ((some v, status) ∷ rs) = last_given v rs

abbrev pub IsOther : String → Reply → Type 0
IsOther value (none, status) = Unit
IsOther value (some v, status) = value ≢ v

-- The field has the edit, shows it, and is still marked; its original is the server's last value.
pub record IsKept (given : String) (e e' : Field) : Type 0 where
  pub value : e'.value ≡ e.value
  pub shown : e'.shown ≡ e.shown
  pub checked : e'.checked ≡ e.checked
  pub modified : e'.marks.modified ≡ true
  pub pending : e'.marks.pending ≡ e.marks.pending
  pub original : e'.original ≡ given

update-IsKept :
    (v : String) (status : Option String) (e : Field)
    → e.marks.modified ≡ true
    → e.value ≢ v
    → IsKept v e (update (some v) status none e)
update-IsKept v status e m other =
    let (original, value, shown, checked) = update-keeps_edit v status none e (inl m) in
    let (_, modified, pending) = update-modified v status none e m in
    record {
      value = value;
      shown = shown;
      checked = checked;
      modified = modified.1 other;
      pending = pending;
      original = original;
    }

run-IsKept :
    (rs : List Reply) (e : Field)
    → e.marks.modified ≡ true
    → All (IsOther e.value) rs
    → IsKept (last_given e.original rs) e (run (map replied rs) e)
unfolding run step update
run-IsKept [] e m h = record {
  value = refl;
  shown = refl;
  checked = refl;
  modified = m;
  pending = refl;
  original = refl;
}
run-IsKept ((none, status) ∷ rs) e m (tt, h) = run-IsKept rs e m h
run-IsKept ((some v, status) ∷ rs) e m (other, h) =
    let one = update-IsKept v status e m other in
    let rest =
      run-IsKept rs (update (some v) status none e) one.modified
        (subst (λ s. All (IsOther s) rs) (sym one.value) h) in
    record {
      value = rest.value ∙ one.value;
      shown = rest.shown ∙ one.shown;
      checked = rest.checked ∙ one.checked;
      modified = rest.modified;
      pending = rest.pending ∙ one.pending;
      original = rest.original ∙ ap (λ o. last_given o rs) one.original;
    }

-- However many replies arrive, with or without a value, and then one more with a value, an unsaved
-- edit from which all values differ stays as it is: the stored text, the shown text, the tick and the
-- marks modified and pending. The field keeps the last of the values as its original, and is in
-- conflict exactly if that differs from the value before it, or from its first original.
pub edits_survive :
    (rs : List Reply) (v : String) (status : Option String) (e : Field)
    → e.marks.modified ≡ true
    → All (IsOther e.value) rs
    → e.value ≢ v
    → let e' = update (some v) status none (run (map replied rs) e) in
      IsKept v e e' × ((e'.marks.conflict ≡ true) ↔ (last_given e.original rs ≢ v))
edits_survive rs v status e m h other =
    let before = run-IsKept rs e m h in
    let apart : (run (map replied rs) e).value ≢ v = λ same. other (sym before.value ∙ same) in
    let after = update-IsKept v status (run (map replied rs) e) before.modified apart in
    let conflict = (update-modified v status none (run (map replied rs) e) before.modified).0 in
    (
      record {
        value = after.value ∙ before.value;
        shown = after.shown ∙ before.shown;
        checked = after.checked ∙ before.checked;
        modified = after.modified;
        pending = after.pending ∙ before.pending;
        original = after.original;
      },
      (
        (λ c same. (conflict.0 c).0 (before.original ∙ same)),
        λ new. conflict.1 ((λ same. new (sym before.original ∙ same)), apart),
      ),
    )
