-- ===== src/Db/Interfaces.antt =====
-- `interfaces` of httpd/html/javascript/db.js: the table of interfaces, and what an object of the server does to it.
pub mod Laws
use uhppoted_httpd.Prelude.{ℕ, String, none, some, List, [], ◌∷◌}
use uhppoted_httpd.Value.{Value, text, Object}
use uhppoted_httpd.Oid.{match_base}
use uhppoted_httpd.OrderedMap.{Map, upsert}
use uhppoted_httpd.Switch.{switch}
use uhppoted_httpd.Schema.Interfaces.{Key, suffix}

pub record Interface : Type 0 where
  pub oid : String
  pub type : Value
  pub name : Value
  pub bind : Value
  pub broadcast : Value
  pub listen : Value
  pub status : Value
  pub touched : ℕ

-- the object that a first field of an unknown record makes
unfoldable pub fresh : String → ℕ → Interface
fresh base now = record {
  oid = base;
  type = text "LAN";
  name = text "LAN";
  bind = text "";
  broadcast = text "";
  listen = text "";
  status = text "";
  touched = now;
}

unfoldable pub cases : Value → List (String × (Interface → Interface))
cases x =
    (suffix Key.status, λ v. record v { status = x })
    ∷ (suffix Key.type, λ v. record v { type = x })
    ∷ (suffix Key.name, λ v. record v { name = x })
    ∷ (suffix Key.bind, λ v. record v { bind = x })
    ∷ (suffix Key.broadcast, λ v. record v { broadcast = x })
    ∷ (suffix Key.listen, λ v. record v { listen = x })
    ∷ []

unfoldable pub interfaces : Object → ℕ → Map Interface → Map Interface
interfaces o now table = elim (match_base "0.1." o.oid) [
  | none ↦ table
  | some base ↦
      upsert base (fresh base now)
        (λ v. switch base o.oid (cases o.value) (λ v. v) (record v { touched = now })) table
]
