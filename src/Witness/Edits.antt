-- ===== src/Witness/Edits.antt =====
-- Events of a field in a table, and a drop-down list of doors.
use mathlib.Core.List.{Memᴰ}
use uhppoted_httpd.Prelude.{◌↔◌, String, true, false, ◌≡◌, refl, [], ◌∷◌, some, map}
use uhppoted_httpd.Value.{Value, text}
use uhppoted_httpd.OrderedMap.{Map}
use uhppoted_httpd.Tabular.Field.{Field, in_td}
use uhppoted_httpd.Tabular.Field.Trace.{unmarked}
use uhppoted_httpd.Tabular.Edits.{handle, entered, card}
use uhppoted_httpd.Tabular.Edits.Laws.{takes, given, IsEdited, handle-IsEdited}
use uhppoted_httpd.Db.Doors.{Door, fresh}
use uhppoted_httpd.Pages.Options.{Item, shown, item_of, populate_doors}
use uhppoted_httpd.Pages.Options.Laws.{IsListed, IsOptionOf, populate_doors-exact}

-- the name of a card, as it was
abbrev name_field : Field
name_field = record {
  oid = "0.4.17.1";
  original = "Albus";
  value = "Albus";
  status = "ok";
  shown = "Albus";
  checked = false;
  is_checkbox = false;
  is_active = true;
  marks = unmarked;
  place = in_td unmarked;
}

handle-IsEdited_example :
    (takes (entered "Enter") card ≡ false
      → handle (entered "Enter") card (some "error") name_field ≡ (name_field, []))
    × (takes (entered "Enter") card ≡ true
        → IsEdited
            (some "error")
            (given (entered "Enter") card name_field)
            name_field
            (handle (entered "Enter") card (some "error") name_field))
handle-IsEdited_example = handle-IsEdited (entered "Enter") card (some "error") name_field

-- Enter in a field of a card in error marks it, though it has its original value.
forced : (handle (entered "Enter") card (some "error") name_field).0.marks.modified ≡ true
unfolding handle
forced = refl

abbrev text_of : Value → String
text_of (text s) = s
text_of _ = ""

abbrev doors : Map Door
doors =
    ("0.3.4", record (fresh "0.3.4" (text "") 1000) { name = text "Dungeon"; status = text "ok" })
    ∷ ("0.3.5", record (fresh "0.3.5" (text "") 1000) { status = text "<new>" })
    ∷ ("0.3.6", record (fresh "0.3.6" (text "") 1000) { status = text "ok" })
    ∷ []

-- the first option, and that of a door that is gone
abbrev none_ : Item
none_ = record { value = ""; label = "-" }

abbrev gone : Item
gone = record { value = "0.3.3"; label = "Gryffindor" }

populate_doors-exact_example :
    (populate_doors text_of (λ ds. ds) doors (none_ ∷ gone ∷ [])
      ≡ none_ ∷ map (item_of text_of) (shown doors))
    × ((d : Door)
        → (Memᴰ d (shown doors) ↔ (((k : String) × Memᴰ (k, d) doors) × IsListed d))
          × IsOptionOf text_of d (item_of text_of d))
populate_doors-exact_example = populate_doors-exact text_of (λ ds. ds) doors none_ (gone ∷ [])

options :
    populate_doors text_of (λ ds. ds) doors (none_ ∷ gone ∷ [])
    ≡ none_
      ∷ record { value = "0.3.4"; label = "Dungeon" }
      ∷ record { value = "0.3.6"; label = "<D036>" }
      ∷ []
unfolding populate_doors fresh
options = refl
