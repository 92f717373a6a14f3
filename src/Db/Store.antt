-- ===== src/Db/Store.antt =====
-- The class `DBC` of httpd/html/javascript/db.js: the tables, the routing of an object to its table,
-- and the operations on the whole store. The methods of `DBC` are functions from store to store;
-- every object is paired with the clock reading (`new Date()`, in milliseconds) of its handling.
use uhppoted_httpd.Prelude.{
  ℕ, String, Bool, true, false, ◌&&◌, Option, none, some, List, [], ◌∷◌, or_else, if◌then◌else◌,
}
use uhppoted_httpd.Text.{◌==◌, ◌++◌, starts_with}
use uhppoted_httpd.Value.{Value, undefined, null, text, Object, Runtime}
use uhppoted_httpd.OrderedMap.{Map, delete}
use uhppoted_httpd.Schema.System.{Key, suffix}
use uhppoted_httpd.Db.Tag.{Tag}
use uhppoted_httpd.Db.Interfaces.{Interface, interfaces}
use uhppoted_httpd.Db.Controllers.{Controller, controllers}
use uhppoted_httpd.Db.Doors.{Door, doors}
use uhppoted_httpd.Db.Cards.{Card, cards}
use uhppoted_httpd.Db.Groups.{Group, groups}
use uhppoted_httpd.Db.Events.{EventTable, events}
use uhppoted_httpd.Db.Logs.{LogTable, logs}
use uhppoted_httpd.Db.Users.{User, users}

-- the entry `cards` of the map `system`, the only one that the code writes
pub record CardDefaults : Type 0 where
  pub default_start_date : Value
  pub default_end_date : Value

pub record Dbc : Type 0 where
  pub system : Option CardDefaults
  pub interfaces : Map Interface
  pub controllers : Map Controller
  pub doors : Map Door
  pub cards : Map Card
  pub groups : Map Group
  pub events : EventTable
  pub logs : LogTable
  pub users : Map User

-- the constructor
abbrev pub empty : Dbc
empty = record {
  system = none;
  interfaces = [];
  controllers = [];
  doors = [];
  cards = [];
  groups = [];
  events = record { status = text "unknown"; first = null; last = null; events = [] };
  logs = record { first = null; last = null; logs = [] };
  users = [];
}

-- `system(o)`: the defaults of the cards
abbrev blank_defaults : CardDefaults
blank_defaults = record { default_start_date = text ""; default_end_date = text "" }

unfoldable pub system : Object → Option CardDefaults → Option CardDefaults
system o entry =
    let d = or_else blank_defaults entry in
    if o.oid == "0.0" ++ suffix Key.cards_default_start_date
    then some (record d { default_start_date = o.value })
    else if o.oid == "0.0" ++ suffix Key.cards_default_end_date
    then some (record d { default_end_date = o.value })
    else some d

-- the tables by their numbers, in the order in which `object(o)` tries them
pub data TableId : Type 0 where
  system_table interfaces_table controllers_table doors_table cards_table groups_table : TableId
  events_table logs_table users_table no_table : TableId

unfoldable pub table_of : String → TableId
table_of oid =
    if starts_with oid "0.0"
    then system_table
    else if starts_with oid "0.1"
    then interfaces_table
    else if starts_with oid "0.2"
    then controllers_table
    else if starts_with oid "0.3"
    then doors_table
    else if starts_with oid "0.4"
    then cards_table
    else if starts_with oid "0.5"
    then groups_table
    else if starts_with oid "0.6"
    then events_table
    else if starts_with oid "0.7"
    then logs_table
    else if starts_with oid "0.8"
    then users_table
    else no_table

-- the first `switch` of `replace`
unfoldable pub clear : Tag → Dbc → Dbc
clear Tag.interfaces db = record db { interfaces = [] }
clear Tag.controllers db = record db { controllers = [] }
clear Tag.doors db = record db { doors = [] }
clear Tag.cards db = record db { cards = [] }
clear Tag.groups db = record db { groups = [] }
clear Tag.events db = record db { events = record db.events { events = [] } }
clear Tag.logs db = record db { logs = record db.logs { logs = [] } }
clear Tag.users db = record db { users = [] }
clear Tag.other db = db

-- the method `delete`, behind its test for `null`; it has no case for the events and the logs
unfoldable pub remove : Tag → String → Dbc → Dbc
remove Tag.interfaces oid db = record db { interfaces = delete oid db.interfaces }
remove Tag.controllers oid db = record db { controllers = delete oid db.controllers }
remove Tag.doors oid db = record db { doors = delete oid db.doors }
remove Tag.cards oid db = record db { cards = delete oid db.cards }
remove Tag.groups oid db = record db { groups = delete oid db.groups }
remove Tag.users oid db = record db { users = delete oid db.users }
remove _ oid db = db

unfoldable pub delete_record : Option Tag → Option String → Dbc → Dbc
delete_record (some tag) (some oid) db = remove tag oid db
delete_record _ _ db = db

-- `v != null`
abbrev pub present : Value → Bool
present undefined = false
present null = false
present _ = true

-- the method `get`: the value and whether there is one
unfoldable pub lookup : String → Dbc → Value × Bool
lookup oid db =
    if starts_with oid ("0.0" ++ suffix Key.cards_base)
    then elim db.system [
      | none ↦ (null, false)
      | some d ↦
          if oid == "0.0" ++ suffix Key.cards_default_start_date && present d.default_start_date
          then (d.default_start_date, true)
          else if oid == "0.0" ++ suffix Key.cards_default_end_date && present d.default_end_date
          then (d.default_end_date, true)
          else (null, false)
    ]
    else (null, false)

module _ (js : Runtime) where
  -- the call that each branch of `object(o)` makes
  unfoldable pub dispatch : TableId → Object → ℕ → Dbc → Dbc
  dispatch system_table o now db = record db { system = system o db.system }
  dispatch interfaces_table o now db = record db { interfaces = interfaces o now db.interfaces }
  dispatch controllers_table o now db = record db { controllers = controllers o now db.controllers }
  dispatch doors_table o now db = record db { doors = doors o now db.doors }
  dispatch cards_table o now db = record db { cards = cards o now db.cards }
  dispatch groups_table o now db = record db { groups = groups js o now db.groups }
  dispatch events_table o now db = record db { events = events js o now db.events }
  dispatch logs_table o now db = record db { logs = logs o now db.logs }
  dispatch users_table o now db = record db { users = users o now db.users }
  dispatch no_table o now db = db

  unfoldable pub object : Object → ℕ → Dbc → Dbc
  object o now db = dispatch (table_of o.oid) o now db

  -- `recordset.forEach((o) => object(o))`
  unfoldable pub objects : List (Object × ℕ) → Dbc → Dbc
  objects [] db = db
  objects ((o, now) ∷ rest) db = objects rest (object o now db)

  unfoldable pub updated : Tag → Option (List (Object × ℕ)) → Dbc → Dbc
  updated tag none db = db
  updated Tag.other (some recordset) db = db
  updated tag (some recordset) db = objects recordset db

  unfoldable pub replace : Tag → Option (List (Object × ℕ)) → Dbc → Dbc
  replace tag recordset db = updated tag recordset (clear tag db)
