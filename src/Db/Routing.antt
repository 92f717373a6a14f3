-- ===== src/Db/Routing.antt =====
-- Where an object of the server goes: the table is chosen by how its OID begins, the record by the
-- table's expression, the field by the rest.
pub mod Tables
use text.Mathlib.TextLemmas.{append_assoc}
use uhppoted_httpd.Prelude.{ℕ, String, ◌≡◌, refl, ap}
use uhppoted_httpd.Text.{◌++◌}
use uhppoted_httpd.Value.{Value, Runtime}
use uhppoted_httpd.Oid.Laws.{IsBase}
use uhppoted_httpd.Oid.Prefix.{starts_with-clash, starts_with-dot}
use uhppoted_httpd.OrderedMap.{upsert}
use uhppoted_httpd.Db.Store.{Dbc, TableId, table_of, dispatch, object}
use uhppoted_httpd.Schema
use uhppoted_httpd.Db.Interfaces.{fresh as fresh_interfaces}
use uhppoted_httpd.Db.Interfaces.Laws.{write as write_interfaces, interfaces-suffix}
use uhppoted_httpd.Db.Controllers.{fresh as fresh_controllers}
use uhppoted_httpd.Db.Controllers.Laws.{write as write_controllers, controllers-suffix}
use uhppoted_httpd.Db.Doors.{fresh as fresh_doors}
use uhppoted_httpd.Db.Doors.Laws.{write as write_doors, doors-suffix, Field, field_suffix}
use uhppoted_httpd.Db.Cards.{fresh as fresh_cards}
use uhppoted_httpd.Db.Cards.Laws.{write as write_cards, cards-suffix}
use uhppoted_httpd.Db.Groups.{fresh as fresh_groups}
use uhppoted_httpd.Db.Groups.Laws.{write as write_groups, groups-suffix}
use uhppoted_httpd.Db.Events.{fresh as fresh_events}
use uhppoted_httpd.Db.Events.Laws.{write as write_events, events-suffix}
use uhppoted_httpd.Db.Logs.{fresh as fresh_logs}
use uhppoted_httpd.Db.Logs.Laws.{write as write_logs, logs-suffix}
use uhppoted_httpd.Db.Users.{fresh as fresh_users}
use uhppoted_httpd.Db.Users.Laws.{write as write_users, users-suffix}
use uhppoted_httpd.Db.Routing.Tables.{
  table_of-interfaces, table_of-controllers, table_of-doors, table_of-cards, table_of-groups,
  table_of-events, table_of-logs, table_of-users,
}

module _ (js : Runtime) where
  -- An object for a field of an interface writes that field of that record, if it keeps one, and
  -- sets the record's time; the record is made first if the table has none. No other record, table
  -- or field changes.
  pub object-interfaces :
      (base : String) (k : Schema.Interfaces.Key) (x : Value) (now : ℕ) (db : Dbc)
      → IsBase "0.1." base
      → object js (record { oid = base ++ Schema.Interfaces.suffix k; value = x }) now db
        ≡ record db {
          interfaces =
              upsert base
                (fresh_interfaces base now)
                (λ v. write_interfaces k x (record v { touched = now }))
                db.interfaces;
        }
  unfolding object dispatch
  object-interfaces base k x now db b =
      rw (table_of-interfaces base (Schema.Interfaces.suffix k) b, dispatch)
        (ap (λ t. record db { interfaces = t }) (interfaces-suffix base k x now db.interfaces b))

  -- An object for a field of a controller writes that field of that record, if it keeps one, and
  -- sets the record's time; the record is made first if the table has none. No other record, table
  -- or field changes.
  pub object-controllers :
      (base : String) (k : Schema.Controllers.Key) (x : Value) (now : ℕ) (db : Dbc)
      → IsBase "0.2." base
      → object js (record { oid = base ++ Schema.Controllers.suffix k; value = x }) now db
        ≡ record db {
          controllers =
              upsert base
                (fresh_controllers base x now)
                (λ v. write_controllers k x (record v { touched = now }))
                db.controllers;
        }
  unfolding object dispatch
  object-controllers base k x now db b =
      rw (table_of-controllers base (Schema.Controllers.suffix k) b, dispatch)
        (ap (λ t. record db { controllers = t }) (controllers-suffix base k x now db.controllers b))

  -- An object for a field of a door writes that field of that record, if it keeps one, and sets
  -- the record's time; the record is made first if the table has none. No other record, table or
  -- field changes.
  pub object-doors :
      (base : String) (k : Field) (x : Value) (now : ℕ) (db : Dbc)
      → IsBase "0.3." base
      → object js (record { oid = base ++ field_suffix k; value = x }) now db ≡ record db {
        doors =
            upsert base
              (fresh_doors base x now)
              (λ v. write_doors k x (record v { touched = now }))
              db.doors;
      }
  unfolding object dispatch
  object-doors base k x now db b =
      rw (table_of-doors base (field_suffix k) b, dispatch)
        (ap (λ t. record db { doors = t }) (doors-suffix base k x now db.doors b))

  -- An object for a field of a card writes that field of that record, if it keeps one, and sets
  -- the record's time; the record is made first if the table has none. No other record, table or
  -- field changes.
  pub object-cards :
      (base : String) (k : Schema.Cards.Key) (x : Value) (now : ℕ) (db : Dbc)
      → IsBase "0.4." base
      → object js (record { oid = base ++ Schema.Cards.suffix k; value = x }) now db ≡ record db {
        cards =
            upsert base
              (fresh_cards base x now)
              (λ v. write_cards k x (record v { touched = now }))
              db.cards;
      }
  unfolding object dispatch
  object-cards base k x now db b =
      rw (table_of-cards base (Schema.Cards.suffix k) b, dispatch)
        (ap (λ t. record db { cards = t }) (cards-suffix base k x now db.cards b))

  -- An object for a field of a group writes that field of that record, if it keeps one, and sets
  -- the record's time; the record is made first if the table has none. No other record, table or
  -- field changes.
  pub object-groups :
      (base : String) (k : Schema.Groups.Key) (x : Value) (now : ℕ) (db : Dbc)
      → IsBase "0.5." base
      → object js (record { oid = base ++ Schema.Groups.suffix k; value = x }) now db ≡ record db {
        groups =
            upsert base
              (fresh_groups base x now)
              (λ v. write_groups js k x (record v { touched = now }))
              db.groups;
      }
  unfolding object dispatch
  object-groups base k x now db b =
      rw (table_of-groups base (Schema.Groups.suffix k) b, dispatch)
        (ap (λ t. record db { groups = t }) (groups-suffix js base k x now db.groups b))

  -- An object for a field of an event writes that field of that record, if it keeps one, and sets
  -- the record's time; the record is made first if the table has none. No other record, table or
  -- field changes.
  pub object-events :
      (base : String) (k : Schema.Events.Key) (x : Value) (now : ℕ) (db : Dbc)
      → IsBase "0.6." base
      → object js (record { oid = base ++ Schema.Events.suffix k; value = x }) now db ≡ record db {
        events = record db.events {
          events =
              upsert base
                (fresh_events base now)
                (λ v. write_events js k x (record v { touched = now }))
                db.events.events;
        };
      }
  unfolding object dispatch
  object-events base k x now db b =
      rw (table_of-events base (Schema.Events.suffix k) b, dispatch)
        (ap (λ t. record db { events = t }) (events-suffix js base k x now db.events b))

  -- An object for a field of a log entry writes that field of that record, if it keeps one, and
  -- sets the record's time; the record is made first if the table has none. No other record, table
  -- or field changes.
  pub object-logs :
      (base : String) (k : Schema.Logs.Key) (x : Value) (now : ℕ) (db : Dbc)
      → IsBase "0.7." base
      → object js (record { oid = base ++ Schema.Logs.suffix k; value = x }) now db ≡ record db {
        logs = record db.logs {
          logs =
              upsert base
                (fresh_logs base now)
                (λ v. write_logs k x (record v { touched = now }))
                db.logs.logs;
        };
      }
  unfolding object dispatch
  object-logs base k x now db b =
      rw (table_of-logs base (Schema.Logs.suffix k) b, dispatch)
        (ap (λ t. record db { logs = t }) (logs-suffix base k x now db.logs b))

  -- An object for a field of a user writes that field of that record, if it keeps one, and sets
  -- the record's time; the record is made first if the table has none. No other record, table or
  -- field changes.
  pub object-users :
      (base : String) (k : Schema.Users.Key) (x : Value) (now : ℕ) (db : Dbc)
      → IsBase "0.8." base
      → object js (record { oid = base ++ Schema.Users.suffix k; value = x }) now db ≡ record db {
        users =
            upsert base
              (fresh_users base x now)
              (λ v. write_users k x (record v { touched = now }))
              db.users;
      }
  unfolding object dispatch
  object-users base k x now db b =
      rw (table_of-users base (Schema.Users.suffix k) b, dispatch)
        (ap (λ t. record db { users = t }) (users-suffix base k x now db.users b))
