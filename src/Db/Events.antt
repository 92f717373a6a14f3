-- ===== src/Db/Events.antt =====
-- `events` of httpd/html/javascript/db.js: the table of events, and what an object of the server does to it.
pub mod Laws
use uhppoted_httpd.Prelude.{ℕ, String, none, some, List, [], ◌∷◌, if◌then◌else◌}
use uhppoted_httpd.Text.{◌==◌, ◌++◌}
use uhppoted_httpd.Value.{Value, text, number, Object, Runtime}
use uhppoted_httpd.Oid.{match_base}
use uhppoted_httpd.OrderedMap.{Map, upsert}
use uhppoted_httpd.Switch.{switch}
use uhppoted_httpd.Schema.Events.{Key, suffix}

pub record Event : Type 0 where
  pub oid : String
  pub timestamp : Value
  pub device_id : Value
  pub index : Value
  pub event_type : Value
  pub door : Value
  pub direction : Value
  pub card : Value
  pub granted : Value
  pub reason : Value
  pub device_name : Value
  pub door_name : Value
  pub card_name : Value
  pub touched : ℕ

-- `tables.events`
pub record EventTable : Type 0 where
  pub status : Value
  pub first : Value
  pub last : Value
  pub events : Map Event

-- the object that a first field of an unknown record makes
unfoldable pub fresh : String → ℕ → Event
fresh base now = record {
  oid = base;
  timestamp = text "";
  device_id = text "";
  index = number 0;
  event_type = text "";
  door = text "";
  direction = text "";
  card = text "";
  granted = text "";
  reason = text "";
  device_name = text "";
  door_name = text "";
  card_name = text "";
  touched = now;
}

module _ (js : Runtime) where
  unfoldable pub cases : Value → List (String × (Event → Event))
  cases x =
      (suffix Key.timestamp, λ v. record v { timestamp = x })
      ∷ (suffix Key.device_id, λ v. record v { device_id = x })
      ∷ (suffix Key.index, λ v. record v { index = js.parse_int x })
      ∷ (suffix Key.type, λ v. record v { event_type = x })
      ∷ (suffix Key.door, λ v. record v { door = x })
      ∷ (suffix Key.direction, λ v. record v { direction = x })
      ∷ (suffix Key.card, λ v. record v { card = x })
      ∷ (suffix Key.granted, λ v. record v { granted = x })
      ∷ (suffix Key.reason, λ v. record v { reason = x })
      ∷ (suffix Key.device_name, λ v. record v { device_name = x })
      ∷ (suffix Key.door_name, λ v. record v { door_name = x })
      ∷ (suffix Key.card_name, λ v. record v { card_name = x })
      ∷ []

  -- a record's field: what is left of `events` when the OID is none of the table's own
  unfoldable pub event : Object → ℕ → Map Event → Map Event
  event o now table = elim (match_base "0.6." o.oid) [
    | none ↦ table
    | some base ↦
        upsert base (fresh base now)
          (λ v. switch base o.oid (cases o.value) (λ v. v) (record v { touched = now })) table
  ]

  unfoldable pub events : Object → ℕ → EventTable → EventTable
  events o now t =
      if o.oid == "0.6" ++ suffix Key.status
      then record t { status = o.value }
      else if o.oid == "0.6" ++ suffix Key.first
      then record t { first = o.value }
      else if o.oid == "0.6" ++ suffix Key.last
      then record t { last = o.value }
      else record t { events = event o now t.events }
