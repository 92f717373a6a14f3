-- ===== src/Db/Groups.antt =====
-- `groups` of httpd/html/javascript/db.js: the table of groups, and what an object of the server does to it.
pub mod Laws
pub mod Entries
use uhppoted_httpd.Prelude.{
  ℕ, String, Bool, false, ◌||◌, Option, none, some, List, [], ◌∷◌, if◌then◌else◌,
}
use uhppoted_httpd.Text.{◌==◌}
use uhppoted_httpd.Value.{
  Value, text, boolean, object, member, end, is_text, is_true, Object, Runtime,
}
use uhppoted_httpd.Oid.{match_base, match_member}
use uhppoted_httpd.OrderedMap.{Map, upsert}
use uhppoted_httpd.Switch.{switch}
use uhppoted_httpd.Schema.Groups.{Key, suffix}

pub record Permission : Type 0 where
  pub door : Value
  pub allowed : Bool

abbrev pub default_schedule : Value
default_schedule = object (
    member "enabled" (boolean false) (
      member "start" (text "08:00")
        (member "end" (text "17:00") (member "weekdays" (object end) end))))

pub record Group : Type 0 where
  pub oid : String
  pub created : Value
  pub deleted : Value
  pub name : Value
  pub doors : Map Permission
  pub firstcard : Bool
  pub schedule : Value
  pub status : Value
  pub touched : ℕ

-- the object that a first field of an unknown record makes
unfoldable pub fresh : String → Value → ℕ → Group
fresh base x now = record {
  oid = base;
  created = text "";
  deleted = text "";
  name = text "";
  doors = [];
  firstcard = false;
  schedule = default_schedule;
  status = x;
  touched = now;
}

-- the default branch: `…2.n` is the permission for a door, `…2.n.1` the door's OID
unfoldable pub permission : Option String → Value → Permission → Permission
permission none x d = record d { allowed = is_text "true" x }
permission (some suffix) x d = if suffix == ".1" then record d { door = x } else d

unfoldable pub permissions : String → Value → Group → Group
unfolding permission
permissions oid x v = elim (match_member "0.5." ".2." oid) [
  | none ↦ v
  | some (suboid, suffix) ↦ record v {
    doors =
        upsert suboid (record { door = text ""; allowed = false }) (permission suffix x) v.doors;
  }
]

module _ (js : Runtime) where
  -- the `try`: a text that is no JSON gives the default
  parsed_schedule : Value → Value
  parsed_schedule (text s) = elim (js.json_parse s) [ none ↦ default_schedule | some v ↦ v ]
  parsed_schedule v = v

  unfoldable pub cases : Value → List (String × (Group → Group))
  unfolding parsed_schedule
  cases x =
      (suffix Key.status, λ v. record v { status = x })
      ∷ (suffix Key.created, λ v. record v { created = x })
      ∷ (suffix Key.deleted, λ v. record v { deleted = x })
      ∷ (suffix Key.name, λ v. record v { name = x })
      ∷ (suffix Key.firstcard, λ v. record v { firstcard = is_true x || is_text "true" x })
      ∷ (suffix Key.schedule, λ v. record v { schedule = parsed_schedule x })
      ∷ []

  unfoldable pub groups : Object → ℕ → Map Group → Map Group
  groups o now table = elim (match_base "0.5." o.oid) [
    | none ↦ table
    | some base ↦
        upsert base (fresh base o.value now)
          (λ v.
            switch base o.oid (cases o.value) (permissions o.oid o.value)
              (record v { touched = now }))
          table
  ]
