-- ===== src/Witness/Console.antt =====
-- The forms of the console, httpd/html/javascript/gate-control.js, over a store of one controller with
-- two doors and of one credential.
use uhppoted_httpd.Prelude.{
  ℕ, zero, suc, String, true, false, ◌≡◌, ◌⊎◌, inl, inr, refl, [], ◌∷◌, none, arith,
}
use uhppoted_httpd.Text.{◌++◌}
use uhppoted_httpd.Oid.{numeral}
use uhppoted_httpd.Oid.Laws.{IsBase}
use uhppoted_httpd.Value.{Value, text, Runtime}
use uhppoted_httpd.OrderedMap.{get, has, set, upsert}
use uhppoted_httpd.Db.Handler.{IsTable, nil-IsTable, upsert-IsTable}
use uhppoted_httpd.Db.Controllers.{Controller}
use uhppoted_httpd.Db.Doors.{Door, fresh as fresh_door}
use uhppoted_httpd.Db.Store.{Dbc, empty}
use uhppoted_httpd.Db.Sweep.{alive}
use uhppoted_httpd.Console.Session.{Server, thrown, accepted, pure, ◌>>=◌, and_then}
use uhppoted_httpd.Console.Session.Laws.{Only, Fails}
use uhppoted_httpd.Console.Records.{Browser}
use uhppoted_httpd.Console.Relays.{
  slot, door_suffix, DoorForm, vacated, occupied, assignment_updates, controllers_of, clear_door,
  door_assignment, save_door,
}
use uhppoted_httpd.Console.Relays.Slots.{at_slot, apply}
use uhppoted_httpd.Console.Relays.Saved.{assignment_updates-slots}
use uhppoted_httpd.Console.Relays.Deleted.{clear_door-unassigned}
use uhppoted_httpd.Console.Relays.Taken.{IsDoorPost, save_door-taken}
use uhppoted_httpd.Console.Loading.{Reply, Page, follow}
use uhppoted_httpd.Console.Loading.Laws.{IsTaken, follow-IsTaken}
use uhppoted_httpd.Console.Credentials.{CardForm, save_card}
use uhppoted_httpd.Console.Credentials.Checks.{IsSavable, save_card-IsSavable}
use uhppoted_httpd.Console.Accounts.{UserForm}
use uhppoted_httpd.Console.Panels.{controller_doors}
use uhppoted_httpd.Console.Panels.Listed.{shows, controller_doors-shows}

abbrev js : Runtime
js = record { parse_int = λ v. v; json_parse = λ s. none }

-- the texts of texts, without spaces to trim
abbrev text_of : Value → String
text_of (text s) = s
text_of _ = ""

abbrev browser : Browser
browser = record {
  text_of = text_of;
  template_of = text_of;
  trim = λ s. s;
  squeeze = λ s. s;
  lower = λ s. s;
  locale_lower = λ s. s;
  stringify = text_of;
  sort_cards = λ cs. cs;
}

abbrev gate : Controller
gate = record {
  oid = "0.2.17";
  created = text "";
  deleted = text "";
  name = text "Gate";
  device_id = text "405419896";
  address = record { address = text ""; configured = text ""; status = text "" };
  protocol = text "udp";
  datetime = record { datetime = text ""; configured = text ""; status = text "" };
  interlock = text "";
  antipassback = record { antipassback = text ""; configured = text ""; status = text "" };
  cards = record { cards = text ""; status = text "" };
  events = record {
    events = text "";
    status = text "";
    first = text "";
    last = text "";
    current = text "";
  };
  doors = record { door1 = text "0.3.5"; door2 = text "0.3.6"; door3 = text ""; door4 = text "" };
  status = text "";
  touched = 1000;
}

abbrev dungeon : Door
dungeon = fresh_door "0.3.5" (text "new") 1000

abbrev db : Dbc
db = record empty {
  controllers = upsert "0.2.17" gate (λ v. v) [];
  doors = upsert "0.3.5" dungeon (λ v. v) [];
}

base17 : (table : String) → IsBase table (table ++ "17")
unfolding numeral
base17 table = record { number = "17"; same = refl; exact = refl }

base5 : (table : String) → IsBase table (table ++ "5")
unfolding numeral
base5 table = record { number = "5"; same = refl; exact = refl }

controllers-IsTable : IsTable "0.2." (λ c. c.oid) db.controllers
controllers-IsTable =
    upsert-IsTable "0.2." (λ c. c.oid) "0.2.17" gate (λ v. v) [] (base17 "0.2.") refl (λ v. refl)
      (nil-IsTable "0.2." _)

doors-IsTable : IsTable "0.3." (λ d. d.oid) db.doors
unfolding fresh_door
doors-IsTable =
    upsert-IsTable "0.3." (λ d. d.oid) "0.3.5" dungeon (λ v. v) [] (base5 "0.3.") refl (λ v. refl)
      (nil-IsTable "0.3." _)

-- the door of channel 1, moved to another channel
abbrev move_to : ℕ → DoorForm
move_to channel = record {
  oid = "0.3.5";
  original_controller = "0.2.17";
  original_channel = 1;
  name = "Dungeon";
  delay = "5";
  mode = "controlled";
  keypad = false;
  reader_entry = "";
  reader_exit = "";
  controller = "0.2.17";
  channel = channel;
}

abbrev server : Server
server log request = accepted (λ name. [])

assignment_updates-slots_example :
    at_slot
      (apply js 2000
        (record { oid = "0.2.17.7.1"; value = "" }
          ∷ record { oid = "0.2.17.7.3"; value = "0.3.5" }
          ∷ [])
        db).controllers
      "0.2.17"
      3
    ≡ text "0.3.5"
unfolding get upsert has set assignment_updates occupied vacated ◌>>=◌ and_then pure door_suffix
    slot at_slot
assignment_updates-slots_example =
    assignment_updates-slots js 2000 browser db (move_to 3) "0.3.5" server []
      (record { oid = "0.2.17.7.1"; value = "" }
        ∷ record { oid = "0.2.17.7.3"; value = "0.3.5" }
        ∷ [])
      controllers-IsTable (inl refl, refl) (inr (inr (inr (inl refl)))) refl "0.2.17" 3

clear_door-unassigned_example :
    door_assignment "0.3.5"
      (controllers_of (apply js 2000 (clear_door "0.3.5" (controllers_of db)) db))
    ≡ none
clear_door-unassigned_example =
    clear_door-unassigned js 2000 "0.3.5" db (λ e. cc e) controllers-IsTable

save_door-taken_example :
    Fails (save_door browser db (move_to 2)) × Only IsDoorPost (save_door browser db (move_to 2))
unfolding get upsert has set slot
save_door-taken_example = save_door-taken browser db (move_to 2) gate (λ e. cc e) refl refl refl

controller_doors-shows_example : shows "0.3.5" (controller_doors browser db) ≡ true
unfolding get upsert has set alive fresh_door
controller_doors-shows_example =
    controller_doors-shows browser db "0.3.5" dungeon doors-IsTable (λ e. cc e) refl refl

abbrev page : Page
page = record { store = db; notice = ""; online = true; retries = 0; timer = none }

-- On the page of the credentials: twice no credential, then a failure.
abbrev replies : ℕ → Reply
replies zero = Reply.unauthorized
replies (suc zero) = Reply.unauthorized
replies (suc (suc zero)) = Reply.refused "Bad Gateway"
replies (suc (suc (suc n))) = Reply.read []

follow-IsTaken_example :
    IsTaken js (λ n. true) replies 5 page (follow js 5 (λ n. true) replies page)
follow-IsTaken_example = follow-IsTaken js 5 (λ n. true) replies page (omega arith) (omega arith)

abbrev card_form : CardForm
card_form = record {
  oid = "";
  management_group = "";
  management_group_new = "";
  name = "Albus";
  label = "";
  kind = "card";
  number = "12345678";
  pin = "";
  from = "2026-01-01";
  to = "2026-12-31";
  selected = "0.5.255" ∷ [];
}

save_card-IsSavable_example :
    ((message : String) × ((save_card browser db card_form).run server [] ≡ (thrown message, [])))
    ⊎ IsSavable browser db card_form
save_card-IsSavable_example = save_card-IsSavable browser db card_form server []

abbrev user_form : UserForm
user_form = record {
  oid = "";
  name = "Minerva";
  uid = "minerva";
  role = "admin";
  password = "tartan";
  confirmation = "tartan";
  revoke_otp = false;
  unlock = false;
}
