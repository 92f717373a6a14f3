-- ===== src/Witness/Pages.antt =====
-- Commits and refreshes of a page of httpd/html/javascript/tabular.js, and the LAN settings page of
-- httpd/html/javascript/interfaces.js.
use uhppoted_httpd.Prelude.{
  String, true, false, ◌≡◌, refl, List, [], ◌∷◌, map, none, some, All, arith,
}
use uhppoted_httpd.Value.{Runtime}
use uhppoted_httpd.Oid.{is_digit}
use uhppoted_httpd.Oid.Laws.{all_digits}
use uhppoted_httpd.Db.Store.{empty}
use uhppoted_httpd.Connection.Busy.{shown}
use uhppoted_httpd.Tabular.Field.{Field, Place}
use uhppoted_httpd.Tabular.Field.Trace.{unmarked}
use uhppoted_httpd.Tabular.Request.{World, lost, answered, Letters, commit, on_refresh}
use uhppoted_httpd.Tabular.Request.Laws.{left_as, commit-outcome, is_failure, accepted, complaint}
use uhppoted_httpd.Tabular.Request.Refresh.{
  refresh-windmill, all_accepted, is_accepted, any_refused, is_refused,
}
use uhppoted_httpd.Tabular.Percolate.Laws.{IsComponent}
use uhppoted_httpd.Tabular.Tree.{any_below, has_below, first}
use uhppoted_httpd.Lan.{oid_of, is_marked, set, Interface, refreshed, rollback, changeset}
use uhppoted_httpd.Lan.Laws.{IsDotted, IsMarkedRight, refreshed-IsMarkedRight}
use uhppoted_httpd.Lan.Fresh.{unmarked-IsMarkedRight}
use uhppoted_httpd.Lan.Rollback.{IsRestored, below, rollback_lem}

abbrev js : Runtime
js = record { parse_int = λ v. v; json_parse = λ s. none }

abbrev line : String → String → Field
line oid value = record {
  oid = oid;
  original = value;
  value = value;
  status = "";
  shown = value;
  checked = false;
  is_checkbox = false;
  is_active = false;
  marks = unmarked;
  place = Place.in_td unmarked;
}

abbrev world : World
world = record {
  windmill = none;
  message = none;
  location = none;
  db = empty;
  fields = line "0.3.4.1" "Dungeon" ∷ [];
  redraws = 0;
}

abbrev letters : Letters
letters = record { upper = λ s. s; lower = λ s. s }

commit-outcome_example :
    let w' = commit js letters (lost "timeout") world in
    (w'.fields ≡ map (left_as true) world.fields)
    × (w'.windmill ≡ none)
    × (w'.db ≡ empty)
    × (w'.message ≡ some "Error committing changes (ERR:timeout)")
unfolding shown is_failure accepted complaint
commit-outcome_example = commit-outcome js letters (lost "timeout") world 0 refl (omega arith)

-- A refresh by the button of which one request is lost: the windmill stays.
refresh-windmill_example :
    (on_refresh js true 2 (answered 200 "" (some []) ∷ lost "offline" ∷ []) world).windmill ≡ some 1
unfolding shown all_accepted is_accepted any_refused is_refused
refresh-windmill_example =
    refresh-windmill js true (answered 200 "" (some []) ∷ lost "offline" ∷ []) world 0 (omega arith)
      refl (omega arith)

-- the elements of the LAN settings page
abbrev document : List Field
document =
    record (line "0.1.1" "") { place = Place.elsewhere unmarked }
    ∷ line "0.1.1.1" "LAN"
    ∷ line "0.1.1.3.1" "192.168.1.100"
    ∷ line "0.1.1.3.2" "192.168.1.255:60000"
    ∷ []

document-IsMarkedRight : IsMarkedRight document
document-IsMarkedRight = unmarked-IsMarkedRight document (refl, (refl, (refl, (refl, tt))))

component : (d : String) → (d ≡ "" → ⊥) → all_digits d ≡ true → IsComponent d
component d some_digit digits = record { some_digit = some_digit; digits = digits }

name-IsDotted : IsDotted "0.1.1.1"
unfolding all_digits is_digit
name-IsDotted = (
  "0",
  "1" ∷ "1" ∷ "1" ∷ [],
  component "0" (λ e. cc e) refl,
  (
    component "1" (λ e. cc e) refl,
    (component "1" (λ e. cc e) refl, (component "1" (λ e. cc e) refl, tt)),
  ),
  refl,
)

bind-IsDotted : IsDotted "0.1.1.3.1"
unfolding all_digits is_digit
bind-IsDotted = (
  "0",
  "1" ∷ "1" ∷ "3" ∷ "1" ∷ [],
  component "0" (λ e. cc e) refl,
  (
    component "1" (λ e. cc e) refl,
    (
      component "1" (λ e. cc e) refl,
      (component "3" (λ e. cc e) refl, (component "1" (λ e. cc e) refl, tt)),
    ),
  ),
  refl,
)

broadcast-IsDotted : IsDotted "0.1.1.3.2"
unfolding all_digits is_digit
broadcast-IsDotted = (
  "0",
  "1" ∷ "1" ∷ "3" ∷ "2" ∷ [],
  component "0" (λ e. cc e) refl,
  (
    component "1" (λ e. cc e) refl,
    (
      component "1" (λ e. cc e) refl,
      (component "3" (λ e. cc e) refl, (component "2" (λ e. cc e) refl, tt)),
    ),
  ),
  refl,
)

abbrev lan : Interface
lan = record { oid = "0.1.1"; name = "LAN"; bind = "10.0.0.1"; broadcast = "10.0.0.255:60000" }

refreshed-IsMarkedRight_example : IsMarkedRight (refreshed (lan ∷ []) document)
unfolding has_below
refreshed-IsMarkedRight_example =
    refreshed-IsMarkedRight (lan ∷ []) document
      (((name-IsDotted, refl), (bind-IsDotted, refl), (broadcast-IsDotted, refl)), tt)
      document-IsMarkedRight

rollback_lem_example :
    let doc = rollback "0.1.1" (set "0.1.1.3.1" "10.0.0.1" document) in
    All IsRestored (below "0.1.1" doc)
    × (changeset "0.1.1" doc ≡ [])
    × (any_below oid_of is_marked "0.1.1" doc ≡ false)
    × ((e : Field) → first oid_of is_marked "0.1.1" doc ≡ some e → is_marked e ≡ false)
rollback_lem_example = rollback_lem "0.1.1" (set "0.1.1.3.1" "10.0.0.1" document)
