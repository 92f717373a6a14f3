-- ===== src/Pages/Tables.antt =====
-- The tables of the seven pages: which fields a new row has, and `realize` of each,
-- httpd/html/javascript/cards.js, controllers.js, doors.js, events.js, groups.js, logs.js and users.js.
-- The fields that a page has only with a PIN or a first card are there.
pub mod Laws
use uhppoted_httpd.Prelude.{String, Bool, true, false, List, [], ◌∷◌}
use uhppoted_httpd.Schema
use uhppoted_httpd.Pages.Rows.{Row, Template, add, realize}
use uhppoted_httpd.Pages.Columns.{group_column, door_column, sync_columns}

-- the fields of a row: what its `id` and its OID end in
abbrev pub card_slots : Template
card_slots =
    ("name", Schema.Cards.suffix Schema.Cards.Key.name)
    ∷ ("number", Schema.Cards.suffix Schema.Cards.Key.card)
    ∷ ("from", Schema.Cards.suffix Schema.Cards.Key.from)
    ∷ ("to", Schema.Cards.suffix Schema.Cards.Key.to)
    ∷ ("PIN", Schema.Cards.suffix Schema.Cards.Key.pin)
    ∷ []

abbrev pub controller_slots : Template
controller_slots =
    ("name", Schema.Controllers.suffix Schema.Controllers.Key.name)
    ∷ ("ID", Schema.Controllers.suffix Schema.Controllers.Key.device_id)
    ∷ ("IP", Schema.Controllers.suffix Schema.Controllers.Key.endpoint_address)
    ∷ ("protocol", Schema.Controllers.suffix Schema.Controllers.Key.endpoint_protocol)
    ∷ ("datetime", Schema.Controllers.suffix Schema.Controllers.Key.datetime_current)
    ∷ ("interlock", Schema.Controllers.suffix Schema.Controllers.Key.interlock)
    ∷ ("antipassback", Schema.Controllers.suffix Schema.Controllers.Key.antipassback_antipassback)
    ∷ ("cards", Schema.Controllers.suffix Schema.Controllers.Key.cards_count)
    ∷ ("events", Schema.Controllers.suffix Schema.Controllers.Key.events_last)
    ∷ ("door-1", Schema.Controllers.suffix Schema.Controllers.Key.door1)
    ∷ ("door-2", Schema.Controllers.suffix Schema.Controllers.Key.door2)
    ∷ ("door-3", Schema.Controllers.suffix Schema.Controllers.Key.door3)
    ∷ ("door-4", Schema.Controllers.suffix Schema.Controllers.Key.door4)
    ∷ []

abbrev pub door_slots : Template
door_slots =
    ("name", ".1")
    ∷ ("controller", ".0.4.2")
    ∷ ("deviceID", ".0.4.3")
    ∷ ("doorID", ".0.4.4")
    ∷ ("delay", ".2")
    ∷ ("mode", ".3")
    ∷ ("keypad", ".4")
    ∷ ("passcodes", ".5")
    ∷ ("firstcard.start-time", ".6.1")
    ∷ ("firstcard.end-time", ".6.2")
    ∷ ("firstcard.active-mode", ".6.3")
    ∷ ("firstcard.inactive-mode", ".6.4")
    ∷ ("firstcard.monday", ".6.5.1")
    ∷ ("firstcard.tuesday", ".6.5.2")
    ∷ ("firstcard.wednesday", ".6.5.3")
    ∷ ("firstcard.thursday", ".6.5.4")
    ∷ ("firstcard.friday", ".6.5.5")
    ∷ ("firstcard.saturday", ".6.5.6")
    ∷ ("firstcard.sunday", ".6.5.7")
    ∷ []

abbrev pub event_slots : Template
event_slots =
    ("timestamp", Schema.Events.suffix Schema.Events.Key.timestamp)
    ∷ ("deviceID", Schema.Events.suffix Schema.Events.Key.device_id)
    ∷ ("device", Schema.Events.suffix Schema.Events.Key.device_name)
    ∷ ("eventType", Schema.Events.suffix Schema.Events.Key.type)
    ∷ ("doorid", Schema.Events.suffix Schema.Events.Key.door)
    ∷ ("door", Schema.Events.suffix Schema.Events.Key.door_name)
    ∷ ("direction", Schema.Events.suffix Schema.Events.Key.direction)
    ∷ ("cardno", Schema.Events.suffix Schema.Events.Key.card)
    ∷ ("card", Schema.Events.suffix Schema.Events.Key.card_name)
    ∷ ("access", Schema.Events.suffix Schema.Events.Key.granted)
    ∷ ("reason", Schema.Events.suffix Schema.Events.Key.reason)
    ∷ []

abbrev pub group_slots : Template
group_slots = ("name", ".1") ∷ ("firstcard", ".3") ∷ []

abbrev pub log_slots : Template
log_slots =
    ("timestamp", Schema.Logs.suffix Schema.Logs.Key.timestamp)
    ∷ ("uid", Schema.Logs.suffix Schema.Logs.Key.uid)
    ∷ ("item", Schema.Logs.suffix Schema.Logs.Key.item)
    ∷ ("item-id", Schema.Logs.suffix Schema.Logs.Key.item_id)
    ∷ ("item-name", Schema.Logs.suffix Schema.Logs.Key.item_name)
    ∷ ("item-field", Schema.Logs.suffix Schema.Logs.Key.field)
    ∷ ("details", Schema.Logs.suffix Schema.Logs.Key.details)
    ∷ []

abbrev pub user_slots : Template
user_slots =
    ("name", Schema.Users.suffix Schema.Users.Key.name)
    ∷ ("uid", Schema.Users.suffix Schema.Users.Key.uid)
    ∷ ("role", Schema.Users.suffix Schema.Users.Key.role)
    ∷ ("password", Schema.Users.suffix Schema.Users.Key.password)
    ∷ ("otp", Schema.Users.suffix Schema.Users.Key.otp)
    ∷ ("locked", Schema.Users.suffix Schema.Users.Key.locked)
    ∷ []

pub data Page : Type 0 where
  cards controllers doors events groups logs users : Page

abbrev pub slots : Page → Template
slots cards = card_slots
slots controllers = controller_slots
slots doors = door_slots
slots events = event_slots
slots groups = group_slots
slots logs = log_slots
slots users = user_slots

-- what the OIDs of the records of a page begin with
abbrev pub prefix : Page → String
prefix controllers = "0.2."
prefix doors = "0.3."
prefix cards = "0.4."
prefix groups = "0.5."
prefix events = "0.6."
prefix logs = "0.7."
prefix users = "0.8."

-- whether `add` gives a row the class `new`
abbrev pub starts_new : Page → Bool
starts_new controllers = true
starts_new doors = true
starts_new groups = true
starts_new _ = false

unfoldable pub new_row : Page → String → Row
unfolding add
new_row page oid = add (starts_new page) (slots page) oid

-- `columns` are the OIDs of the records that have columns: the access levels in the table of cards, and
-- the doors in that of levels
unfoldable pub change : Page → List String → Row → Row
unfolding sync_columns
change cards columns row = sync_columns group_column columns row
change groups columns row = sync_columns door_column columns row
change _ columns row = row

unfoldable pub realize_page : Page → List String → List String → List Row → List Row
unfolding new_row change
realize_page page columns oids rows = realize (new_row page) (change page columns) oids rows
