-- ===== src/Witness/Tables.antt =====
-- Texts in markup, a drop-down list, and the rows of a table of records.
use uhppoted_httpd.Prelude.{String, true, false, ◌≡◌, refl, List, [], ◌∷◌, ◌++◌, some, none, map}
use uhppoted_httpd.Text.{◌++◌ as ◌<>◌}
use uhppoted_httpd.Oid.{numeral}
use uhppoted_httpd.Oid.Laws.{IsBase}
use uhppoted_httpd.Access.Membership.{card_group_oid, group_door_oid}
use uhppoted_httpd.Console.Records.{contains}
use uhppoted_httpd.Console.Markup.{escape_html}
use uhppoted_httpd.Console.Markup.Laws.{is_inert, escape_html-inert}
use uhppoted_httpd.Combobox.{
  Choice, Box, Key, key_pressed, input_clicked, focused, run, step, on_input_key_down, key_enter,
  key_down, key_escape, on_input_click, open_list, close_list, set_option, set_visual_focus_listbox,
  set_focus_combobox, set_current_option_style,
}
use uhppoted_httpd.Combobox.Laws.{IsSound, are_calm, is_calm, run-IsSound}
use uhppoted_httpd.Combobox.Chosen.{down_and_enter, IsChosen, down_and_enter-IsChosen}
use uhppoted_httpd.Pages.Names.{row_id}
use uhppoted_httpd.Pages.Rows.{Row}
use uhppoted_httpd.Pages.Tables.{Page, new_row, change, realize_page}
use uhppoted_httpd.Pages.Tables.Laws.{realize_page-exact}
use uhppoted_httpd.Pages.Rows.Trimmed.{kept, missing}
use uhppoted_httpd.Pages.Columns.{
  sync_columns, group_column, door_column, missing_columns, has_column,
}
use uhppoted_httpd.Pages.Columns.Laws.{listed_columns, sync_columns-exact}

escape_html-inert_example : is_inert (escape_html "<b>'&'</b>") ≡ true
escape_html-inert_example = escape_html-inert "<b>'&'</b>"

abbrev utc : Choice
utc = record { id = 0; label = "UTC" }

abbrev local : Choice
local = record { id = 1; label = "PST" }

-- the list as it is made, with two options
abbrev box : Box
box = record {
  value = "";
  title = "";
  input_has_focus = false;
  list_has_focus = false;
  has_hover = false;
  options = utc ∷ local ∷ [];
  option = none;
  first = some utc;
  last = some local;
  shown = false;
  selected = none;
  list_marked = false;
  input_marked = false;
  changes = [];
}

box-IsSound : IsSound box
box-IsSound = record { first = refl; last = refl; focus = λ e. cc e }

run-IsSound_example :
    (box' : Box) × (run
        (focused ∷ key_pressed false false Key.down ∷ key_pressed false false Key.escape ∷ [])
        box
      ≡ some box')
    × IsSound box'
unfolding are_calm is_calm step on_input_key_down key_down key_escape open_list set_option
    set_visual_focus_listbox set_focus_combobox set_current_option_style
run-IsSound_example = run-IsSound _ box box-IsSound refl

-- `ArrowDown`, a click on the input, `Escape` and `Enter`
escape_then_enter :
    run
      (key_pressed false false Key.down
        ∷ input_clicked
        ∷ key_pressed false false Key.escape
        ∷ key_pressed false false Key.enter
        ∷ [])
      box
    ≡ none
unfolding run step on_input_key_down key_enter key_down key_escape on_input_click open_list
    close_list set_option set_visual_focus_listbox set_focus_combobox set_current_option_style
escape_then_enter = refl

down_and_enter-IsChosen_example :
    (box' : Box) × (run (down_and_enter 2) box ≡ some box') × IsChosen box local box'
down_and_enter-IsChosen_example =
    down_and_enter-IsChosen 1 local box box-IsSound (refl, (refl, tt)) refl refl

abbrev fresh : String → Row
fresh oid = record {
  id = row_id oid;
  oid = oid;
  status = "unknown";
  is_new = false;
  fields = [];
  columns = [];
}

numbered : (table n : String) → numeral n ≡ some (n, "") → IsBase table (table <> n)
numbered table n e = record { number = n; same = refl; exact = e }

abbrev rows : List Row
rows = fresh "0.4.1" ∷ fresh "0.4.2" ∷ []

abbrev listed : List String
listed = "0.4.2" ∷ "0.4.3" ∷ []

realize_page-exact_example :
    realize_page Page.cards ("0.5.1" ∷ []) listed rows
    ≡ map
        (change Page.cards ("0.5.1" ∷ []))
        (kept listed rows ++ map (new_row Page.cards) (missing listed rows))
unfolding numeral
realize_page-exact_example =
    realize_page-exact Page.cards ("0.5.1" ∷ []) listed rows
      ((numbered "0.4." "1" refl, refl), ((numbered "0.4." "2" refl, refl), tt))
      ((refl, tt), (tt, tt)) ((refl, tt), (tt, tt))

sync_columns-exact_example :
    let row = fresh "0.4.1" in
    (sync_columns group_column listed row ≡ record row {
      columns =
          listed_columns listed row.columns
          ++ map (group_column row) (missing_columns listed row.columns);
    })
    × (sync_columns door_column listed row ≡ record row {
      columns =
          listed_columns listed row.columns
          ++ map (door_column row) (missing_columns listed row.columns);
    })
    × ((group : String)
        → IsBase "0.5." group
        → (group_column row group).cell.oid ≡ card_group_oid row.oid group)
    × ((door : String)
        → IsBase "0.3." door
        → (door_column row door).cell.oid ≡ group_door_oid row.oid door)
    × ((key : String)
        → (has_column key (sync_columns group_column listed row).columns ≡ contains key listed)
          × (has_column key (sync_columns door_column listed row).columns ≡ contains key listed))
sync_columns-exact_example = sync_columns-exact listed (fresh "0.4.1")
