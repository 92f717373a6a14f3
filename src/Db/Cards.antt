-- ===== src/Db/Cards.antt =====
-- `cards` of httpd/html/javascript/db.js: the table of cards, and what an object of the server does to it.
pub mod Laws
pub mod Entries
use uhppoted_httpd.Prelude.{
  ℕ, String, Bool, false, Option, none, some, List, [], ◌∷◌, if◌then◌else◌,
}
use uhppoted_httpd.Text.{◌==◌}
use uhppoted_httpd.Value.{Value, text, is_text, or_default, Object}
use uhppoted_httpd.Oid.{match_base, match_member}
use uhppoted_httpd.OrderedMap.{Map, upsert}
use uhppoted_httpd.Switch.{switch}
use uhppoted_httpd.Schema.Cards.{Key, suffix}

pub record Membership : Type 0 where
  pub group : Value
  pub member : Bool

pub record Card : Type 0 where
  pub oid : String
  pub created : Value
  pub deleted : Value
  pub name : Value
  pub management_group : Value
  pub label : Value
  pub kind : Value
  pub number : Value
  pub pin : Value
  pub from : Value
  pub to : Value
  pub groups : Map Membership
  pub status : Value
  pub touched : ℕ

-- the object that a first field of an unknown record makes
unfoldable pub fresh : String → Value → ℕ → Card
fresh base x now = record {
  oid = base;
  created = text "";
  deleted = text "";
  name = text "";
  management_group = text "";
  label = text "";
  kind = text "card";
  number = text "";
  pin = text "";
  from = text "";
  to = text "";
  groups = [];
  status = x;
  touched = now;
}

unfoldable pub cases : Value → List (String × (Card → Card))
cases x =
    (suffix Key.status, λ v. record v { status = x })
    ∷ (suffix Key.created, λ v. record v { created = x })
    ∷ (suffix Key.deleted, λ v. record v { deleted = x })
    ∷ (suffix Key.name, λ v. record v { name = x })
    ∷ (suffix Key.management_group, λ v. record v { management_group = x })
    ∷ (suffix Key.label, λ v. record v { label = x })
    ∷ (suffix Key.kind, λ v. record v { kind = or_default x (text "card") })
    ∷ (suffix Key.card, λ v. record v { number = x })
    ∷ (suffix Key.pin, λ v. record v { pin = x })
    ∷ (suffix Key.from, λ v. record v { from = x })
    ∷ (suffix Key.to, λ v. record v { to = x })
    ∷ []

-- the default branch: `…5.n` is the membership of a group, `…5.n.1` the group's OID
unfoldable pub membership : Option String → Value → Membership → Membership
membership none x g = record g { member = is_text "true" x }
membership (some suffix) x g = if suffix == ".1" then record g { group = x } else g

unfoldable pub memberships : String → Value → Card → Card
unfolding membership
memberships oid x v = elim (match_member "0.4." ".5." oid) [
  | none ↦ v
  | some (suboid, suffix) ↦ record v {
    groups =
        upsert suboid (record { group = text ""; member = false }) (membership suffix x) v.groups;
  }
]

unfoldable pub cards : Object → ℕ → Map Card → Map Card
cards o now table = elim (match_base "0.4." o.oid) [
  | none ↦ table
  | some base ↦
      upsert base (fresh base o.value now)
        (λ v.
          switch base o.oid (cases o.value) (memberships o.oid o.value)
            (record v { touched = now }))
        table
]
