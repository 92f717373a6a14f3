-- ===== src/Db/Logs.antt =====
-- `logs` of httpd/html/javascript/db.js: the table of logs, and what an object of the server does to it.
pub mod Laws
use uhppoted_httpd.Prelude.{ℕ, String, none, some, List, [], ◌∷◌, if◌then◌else◌}
use uhppoted_httpd.Text.{◌==◌, ◌++◌}
use uhppoted_httpd.Value.{Value, undefined, text, Object}
use uhppoted_httpd.Oid.{match_base}
use uhppoted_httpd.OrderedMap.{Map, upsert}
use uhppoted_httpd.Switch.{switch}
use uhppoted_httpd.Schema.Logs.{Key, suffix}

pub record Item : Type 0 where
  pub type : Value
  pub id : Value
  pub name : Value
  pub field : Value
  pub details : Value

pub record Log : Type 0 where
  pub oid : String
  pub timestamp : Value
  pub uid : Value
  pub item : Item
  pub details : Value
  pub touched : ℕ

-- `tables.logs`
pub record LogTable : Type 0 where
  pub first : Value
  pub last : Value
  pub logs : Map Log

-- the object that a first field of an unknown record makes
unfoldable pub fresh : String → ℕ → Log
fresh base now = record {
  oid = base;
  timestamp = text "";
  uid = text "";
  item = record {
    type = text "";
    id = text "";
    name = text "";
    field = text "";
    details = undefined;
  };
  details = text "";
  touched = now;
}

unfoldable pub cases : Value → List (String × (Log → Log))
cases x =
    (suffix Key.timestamp, λ v. record v { timestamp = x })
    ∷ (suffix Key.uid, λ v. record v { uid = x })
    ∷ (suffix Key.item, λ v. record v { item = record v.item { type = x } })
    ∷ (suffix Key.item_id, λ v. record v { item = record v.item { id = x } })
    ∷ (suffix Key.item_name, λ v. record v { item = record v.item { name = x } })
    ∷ (suffix Key.field, λ v. record v { item = record v.item { field = x } })
    ∷ (suffix Key.details, λ v. record v { item = record v.item { details = x } })
    ∷ []

-- a record's field: what is left of `logs` when the OID is none of the table's own
unfoldable pub log : Object → ℕ → Map Log → Map Log
log o now table = elim (match_base "0.7." o.oid) [
  | none ↦ table
  | some base ↦
      upsert base (fresh base now)
        (λ v. switch base o.oid (cases o.value) (λ v. v) (record v { touched = now })) table
]

unfoldable pub logs : Object → ℕ → LogTable → LogTable
logs o now t =
    if o.oid == "0.7" ++ suffix Key.first
    then record t { first = o.value }
    else if o.oid == "0.7" ++ suffix Key.last
    then record t { last = o.value }
    else record t { logs = log o now t.logs }
