-- ===== src/Db/Controllers.antt =====
-- `controllers` of httpd/html/javascript/db.js: the table of controllers, and what an object of the server does to it.
pub mod Laws
use uhppoted_httpd.Prelude.{ℕ, String, none, some, List, [], ◌∷◌}
use uhppoted_httpd.Value.{Value, undefined, text, Object}
use uhppoted_httpd.Oid.{match_base}
use uhppoted_httpd.OrderedMap.{Map, upsert}
use uhppoted_httpd.Switch.{switch}
use uhppoted_httpd.Schema.Controllers.{Key, suffix}

pub record Address : Type 0 where
  pub address : Value
  pub configured : Value
  pub status : Value

pub record DateTime : Type 0 where
  pub datetime : Value
  pub configured : Value
  pub status : Value

pub record Antipassback : Type 0 where
  pub antipassback : Value
  pub configured : Value
  pub status : Value

pub record CardCount : Type 0 where
  pub cards : Value
  pub status : Value

pub record EventRange : Type 0 where
  pub events : Value
  pub status : Value
  pub first : Value
  pub last : Value
  pub current : Value

pub record DoorSlots : Type 0 where
  pub door1 : Value
  pub door2 : Value
  pub door3 : Value
  pub door4 : Value

pub record Controller : Type 0 where
  pub oid : String
  pub created : Value
  pub deleted : Value
  pub name : Value
  pub device_id : Value
  pub address : Address
  pub protocol : Value
  pub datetime : DateTime
  pub interlock : Value
  pub antipassback : Antipassback
  pub cards : CardCount
  pub events : EventRange
  pub doors : DoorSlots
  pub status : Value
  pub touched : ℕ

-- the object that a first field of an unknown record makes
unfoldable pub fresh : String → Value → ℕ → Controller
fresh base x now = record {
  oid = base;
  created = text "";
  deleted = text "";
  name = text "";
  device_id = text "";
  address = record { address = text ""; configured = text ""; status = text "unknown" };
  protocol = text "";
  datetime = record { datetime = text ""; configured = text ""; status = text "unknown" };
  interlock = text "";
  antipassback = record { antipassback = text ""; configured = text ""; status = text "unknown" };
  cards = record { cards = text ""; status = text "unknown" };
  events = record {
    events = text "";
    status = text "unknown";
    first = undefined;
    last = undefined;
    current = undefined;
  };
  doors = record { door1 = text ""; door2 = text ""; door3 = text ""; door4 = text "" };
  status = x;
  touched = now;
}

unfoldable pub cases : Value → List (String × (Controller → Controller))
cases x =
    (suffix Key.status, λ v. record v { status = x })
    ∷ (suffix Key.created, λ v. record v { created = x })
    ∷ (suffix Key.deleted, λ v. record v { deleted = x })
    ∷ (suffix Key.name, λ v. record v { name = x })
    ∷ (suffix Key.device_id, λ v. record v { device_id = x })
    ∷ (suffix Key.endpoint_status, λ v. record v { address = record v.address { status = x } })
    ∷ (suffix Key.endpoint_address, λ v. record v { address = record v.address { address = x } })
    ∷ (suffix Key.endpoint_protocol, λ v. record v { protocol = x })
    ∷ (
      suffix Key.endpoint_configured,
      λ v. record v { address = record v.address { configured = x } },
    )
    ∷ (suffix Key.datetime_status, λ v. record v { datetime = record v.datetime { status = x } })
    ∷ (suffix Key.datetime_current, λ v. record v { datetime = record v.datetime { datetime = x } })
    ∷ (
      suffix Key.datetime_configured,
      λ v. record v { datetime = record v.datetime { configured = x } },
    )
    ∷ (suffix Key.interlock, λ v. record v { interlock = x })
    ∷ (
      suffix Key.antipassback_antipassback,
      λ v. record v { antipassback = record v.antipassback { antipassback = x } },
    )
    ∷ (
      suffix Key.antipassback_configured,
      λ v. record v { antipassback = record v.antipassback { configured = x } },
    )
    ∷ (
      suffix Key.antipassback_status,
      λ v. record v { antipassback = record v.antipassback { status = x } },
    )
    ∷ (suffix Key.cards_status, λ v. record v { cards = record v.cards { status = x } })
    ∷ (suffix Key.cards_count, λ v. record v { cards = record v.cards { cards = x } })
    ∷ (suffix Key.events_status, λ v. record v { events = record v.events { status = x } })
    ∷ (suffix Key.events_first, λ v. record v { events = record v.events { first = x } })
    ∷ (suffix Key.events_last, λ v. record v { events = record v.events { last = x } })
    ∷ (suffix Key.events_current, λ v. record v { events = record v.events { current = x } })
    ∷ (suffix Key.door1, λ v. record v { doors = record v.doors { door1 = x } })
    ∷ (suffix Key.door2, λ v. record v { doors = record v.doors { door2 = x } })
    ∷ (suffix Key.door3, λ v. record v { doors = record v.doors { door3 = x } })
    ∷ (suffix Key.door4, λ v. record v { doors = record v.doors { door4 = x } })
    ∷ []

unfoldable pub controllers : Object → ℕ → Map Controller → Map Controller
controllers o now table = elim (match_base "0.2." o.oid) [
  | none ↦ table
  | some base ↦
      upsert base (fresh base o.value now)
        (λ v. switch base o.oid (cases o.value) (λ v. v) (record v { touched = now })) table
]
