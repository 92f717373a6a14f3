-- ===== src/Witness/Fields.antt =====
-- Edits, replies and commits of single fields, and small documents, of httpd/html/javascript/tabular.js.
use uhppoted_httpd.Prelude.{
  not, ◌⊎◌, ◌&&◌, String, List, Bool, true, false, ◌≡◌, ◌≢◌, ◌↔◌, refl, none, some, [], ◌∷◌, length,
  map,
}
use uhppoted_httpd.Oid.{is_digit}
use uhppoted_httpd.Oid.Laws.{all_digits}
use uhppoted_httpd.Tabular.Field.{in_td, in_label, Field, update}
use uhppoted_httpd.Tabular.Field.Laws.{update_lem}
use uhppoted_httpd.Tabular.Field.Trace.{
  Event, run, IsMirrored, run-IsMirrored, unmarked, commit_roundtrip, edits_survive, replied,
  IsKept,
}
use uhppoted_httpd.Tabular.Percolate.{percolate}
use uhppoted_httpd.Tabular.Percolate.Laws.{percolate-prefixes}
use uhppoted_httpd.Text.{◌==◌}
use uhppoted_httpd.Tabular.Modified.{
  distinct_from, covers, find, Element, unset, modified, query_modified, count_below,
}
use uhppoted_httpd.Value.{text}
use uhppoted_httpd.Tabular.Changeset.{
  Page, Row, Element as Input, deletable, changeset, any_element, any_row,
}
use uhppoted_httpd.Tabular.Changeset.Laws.{IsEmptied, changeset-exact}
use uhppoted_httpd.Tabular.Modified.Tops.{has, AreDistinct, IsTop, count_below-tops}
use uhppoted_httpd.Tabular.Modified.Laws.{first_of, IsCounted, IsAbove, modified-exact}

abbrev alpha : String
alpha = "Alpha"

abbrev beta : String
beta = "Beta"

abbrev gamma : String
gamma = "Gamma"

abbrev clean : Field
clean = record {
  oid = "0.2.17.1";
  original = alpha;
  value = alpha;
  status = "ok";
  shown = alpha;
  checked = false;
  is_checkbox = false;
  is_active = false;
  marks = unmarked;
  place = in_td unmarked;
}

abbrev edited_field : Field
edited_field = record clean {
  value = beta;
  shown = beta;
  marks = record unmarked { modified = true };
  place = in_td (record unmarked { modified = true });
}

abbrev tick_box : Field
tick_box = record clean { is_checkbox = true; place = in_label unmarked unmarked }

beta≢alpha : beta ≢ alpha
beta≢alpha e = cc

gamma≢beta : beta ≢ gamma
gamma≢beta e = cc

update_lem_example :
    let e' = update (some gamma) none none edited_field in
    (e'.original ≡ gamma)
    × (e'.value ≡ beta)
    × (e'.shown ≡ beta)
    × ((e'.marks.conflict ≡ true)
        ↔ (((true ≡ true) × (alpha ≢ gamma) × (beta ≢ gamma)) ⊎ ((true ≡ false) × (false ≡ true))))
    × ((e'.marks.modified ≡ true) ↔ ((true ≡ true) × (beta ≢ gamma)))
    × (e'.marks.pending ≡ false)
update_lem_example = update_lem gamma none none edited_field

run-IsMirrored_example :
    IsMirrored (run (Event.edited beta none ∷ Event.submitted ∷ Event.failed ∷ []) clean)
run-IsMirrored_example =
    run-IsMirrored (Event.edited beta none ∷ Event.submitted ∷ Event.failed ∷ []) clean refl

commit_roundtrip_example :
    let before =
      run
        (Event.edited beta none
          ∷ Event.submitted
          ∷ Event.received (some beta) none
          ∷ Event.finished
          ∷ [])
        clean in
    let after =
      run
        (Event.edited beta none
          ∷ Event.submitted
          ∷ Event.finished
          ∷ Event.received (some beta) none
          ∷ [])
        clean in
    ((before.original ≡ beta) × (before.value ≡ beta) × (before.marks ≡ unmarked))
    × ((after.original ≡ beta) × (after.value ≡ beta) × (after.marks ≡ unmarked))
commit_roundtrip_example = commit_roundtrip beta none clean refl beta≢alpha

edits_survive_example :
    let e' =
      update (some alpha) none none (run (map replied ((some gamma, none) ∷ [])) edited_field) in
    IsKept alpha edited_field e' × ((e'.marks.conflict ≡ true) ↔ (gamma ≢ alpha))
edits_survive_example =
    edits_survive ((some gamma, none) ∷ []) alpha none edited_field refl (gamma≢beta, tt) beta≢alpha

percolate-prefixes_example : percolate "0.2.17.1" ≡ "0.2.17" ∷ "0.2" ∷ "0" ∷ []
unfolding all_digits is_digit
percolate-prefixes_example =
    percolate-prefixes "0" ("2" ∷ "17" ∷ "1" ∷ []) (record { some_digit = λ e. cc; digits = refl })
      (
        record { some_digit = λ e. cc; digits = refl },
        (
          record { some_digit = λ e. cc; digits = refl },
          (record { some_digit = λ e. cc; digits = refl }, tt),
        ),
      )

abbrev line : String → Bool → Bool → Element
line oid is_row is_modified = record {
  oid = oid;
  is_row = is_row;
  is_modified = is_modified;
  is_new = false;
  is_newish = false;
  is_deletable = false;
  count = unset;
}

abbrev document : List Element
document = line "0.2.17" true false ∷ line "0.2.17.1" false true ∷ []

modified-exact_example :
    (e' : Element) × (first_of "0.2.17" (modified (λ l. l) "0.2.17" document) ≡ some e')
    × IsCounted (count_below (λ l. l) "0.2.17" document) (line "0.2.17" true false) e'
    × ((e'.is_modified ≡ true) ↔ IsAbove "0.2.17" document)
unfolding first_of
modified-exact_example =
    modified-exact (λ l. l) (λ l. refl) "0.2.17" document (line "0.2.17" true false) refl

abbrev input : String → String → String → Input
input oid value class = record {
  oid = oid;
  value = value;
  classes = class ∷ "modified" ∷ [];
  is_input = true;
}

-- one door with a new name and one whose name was cleared
abbrev rows : List Row
rows =
    record { oid = "0.3.1"; classes = "door" ∷ []; elements = input "0.3.1.1" "Attic" "name" ∷ [] }
    ∷ record { oid = "0.3.2"; classes = "door" ∷ []; elements = input "0.3.2.1" " " "name" ∷ [] }
    ∷ []

changeset-exact_example :
    (any_element (λ e. e.value == "Attic") (changeset text Page.doors rows).0
      ≡ any_row
          (λ r.
            not (deletable text Page.doors r)
            && any_element
                (λ e.
                  covers r.oid e.oid
                  && find (λ s. s == "modified") e.classes
                  && (e.value == "Attic"))
                r.elements)
          rows)
    × (find (λ s. s == "0.3.2") (changeset text Page.doors rows).1
        ≡ any_row (λ r. deletable text Page.doors r && (r.oid == "0.3.2")) rows)
    × ((r : Row) → (deletable text Page.doors r ≡ true) ↔ IsEmptied text Page.doors r)
changeset-exact_example = changeset-exact text Page.doors rows (λ e. e.value == "Attic") "0.3.2"

abbrev by_row : List Element
by_row = line "0.2.17" true false ∷ line "0.2.17.3" false true ∷ line "0.2.17.3.1" false true ∷ []

-- The two modified elements are one change, as the second is part of the first.
count_below-tops_example :
    (tops : List String) × (count_below (λ l. l) "0.2.17" by_row ≡ length tops)
    × AreDistinct tops
    × ((v : String) → (has v tops ≡ true) ↔ IsTop "0.2.17" by_row v)
unfolding query_modified distinct_from
count_below-tops_example =
    count_below-tops (λ l. l) "0.2.17" by_row (record { keeps = λ l v. refl; distinct = λ l d. d })
      (refl, (refl, tt))
