-- ===== src/Db/Users.antt =====
-- `users` of httpd/html/javascript/db.js: the table of users, and what an object of the server does to it.
pub mod Laws
use uhppoted_httpd.Prelude.{ℕ, String, none, some, List, [], ◌∷◌}
use uhppoted_httpd.Value.{Value, text, Object}
use uhppoted_httpd.Oid.{match_base}
use uhppoted_httpd.OrderedMap.{Map, upsert}
use uhppoted_httpd.Switch.{switch}
use uhppoted_httpd.Schema.Users.{Key, suffix}

pub record User : Type 0 where
  pub oid : String
  pub name : Value
  pub uid : Value
  pub role : Value
  pub password : Value
  pub otp : Value
  pub locked : Value
  pub details : Value
  pub created : Value
  pub deleted : Value
  pub status : Value
  pub touched : ℕ

-- the object that a first field of an unknown record makes
unfoldable pub fresh : String → Value → ℕ → User
fresh base x now = record {
  oid = base;
  name = text "";
  uid = text "";
  role = text "";
  password = text "";
  otp = text "";
  locked = text "";
  details = text "";
  created = text "";
  deleted = text "";
  status = x;
  touched = now;
}

unfoldable pub cases : Value → List (String × (User → User))
cases x =
    (suffix Key.status, λ v. record v { status = x })
    ∷ (suffix Key.created, λ v. record v { created = x })
    ∷ (suffix Key.deleted, λ v. record v { deleted = x })
    ∷ (suffix Key.name, λ v. record v { name = x })
    ∷ (suffix Key.uid, λ v. record v { uid = x })
    ∷ (suffix Key.role, λ v. record v { role = x })
    ∷ (suffix Key.password, λ v. record v { password = x })
    ∷ (suffix Key.otp, λ v. record v { otp = x })
    ∷ (suffix Key.locked, λ v. record v { locked = x })
    ∷ []

unfoldable pub users : Object → ℕ → Map User → Map User
users o now table = elim (match_base "0.8." o.oid) [
  | none ↦ table
  | some base ↦
      upsert base (fresh base o.value now)
        (λ v. switch base o.oid (cases o.value) (λ v. v) (record v { touched = now })) table
]
