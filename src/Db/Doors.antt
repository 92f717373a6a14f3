-- ===== src/Db/Doors.antt =====
-- `doors` of httpd/html/javascript/db.js: the table of doors, and what an object of the server does to it.
pub mod Laws
use uhppoted_httpd.Prelude.{ℕ, String, false, none, some, List, [], ◌∷◌}
use uhppoted_httpd.Value.{Value, text, boolean, is_text, Object}
use uhppoted_httpd.Oid.{match_base}
use uhppoted_httpd.OrderedMap.{Map, upsert}
use uhppoted_httpd.Switch.{switch}
use uhppoted_httpd.Schema.Doors.{Key, suffix}

pub record Delay : Type 0 where
  pub delay : Value
  pub configured : Value
  pub status : Value
  pub err : Value

pub record Mode : Type 0 where
  pub mode : Value
  pub configured : Value
  pub status : Value
  pub err : Value

pub record Weekdays : Type 0 where
  pub monday : Value
  pub tuesday : Value
  pub wednesday : Value
  pub thursday : Value
  pub friday : Value
  pub saturday : Value
  pub sunday : Value

pub record FirstCard : Type 0 where
  pub start_time : Value
  pub end_time : Value
  pub active_mode : Value
  pub inactive_mode : Value
  pub weekdays : Weekdays

pub record Door : Type 0 where
  pub oid : String
  pub created : Value
  pub deleted : Value
  pub name : Value
  pub delay : Delay
  pub mode : Mode
  pub keypad : Value
  pub passcodes : Value
  pub reader_entry : Value
  pub reader_exit : Value
  pub firstcard : FirstCard
  pub status : Value
  pub touched : ℕ

-- the object that a first field of an unknown record makes
unfoldable pub fresh : String → Value → ℕ → Door
fresh base x now = record {
  oid = base;
  created = text "";
  deleted = text "";
  name = text "";
  delay = record { delay = text ""; configured = text ""; status = text "unknown"; err = text "" };
  mode = record { mode = text ""; configured = text ""; status = text "unknown"; err = text "" };
  keypad = boolean false;
  passcodes = text "";
  reader_entry = text "";
  reader_exit = text "";
  firstcard = record {
    start_time = text "";
    end_time = text "";
    active_mode = text "";
    inactive_mode = text "";
    weekdays = record {
      monday = boolean false;
      tuesday = boolean false;
      wednesday = boolean false;
      thursday = boolean false;
      friday = boolean false;
      saturday = boolean false;
      sunday = boolean false;
    };
  };
  status = x;
  touched = now;
}

unfoldable pub cases : Value → List (String × (Door → Door))
cases x =
    (suffix Key.status, λ v. record v { status = x })
    ∷ (suffix Key.created, λ v. record v { created = x })
    ∷ (suffix Key.deleted, λ v. record v { deleted = x })
    ∷ (".1", λ v. record v { name = x })
    ∷ (".2", λ v. record v { delay = record v.delay { delay = x } })
    ∷ (".2.1", λ v. record v { delay = record v.delay { status = x } })
    ∷ (".2.2", λ v. record v { delay = record v.delay { configured = x } })
    ∷ (".2.3", λ v. record v { delay = record v.delay { err = x } })
    ∷ (".3", λ v. record v { mode = record v.mode { mode = x } })
    ∷ (".3.1", λ v. record v { mode = record v.mode { status = x } })
    ∷ (".3.2", λ v. record v { mode = record v.mode { configured = x } })
    ∷ (".3.3", λ v. record v { mode = record v.mode { err = x } })
    ∷ (".4", λ v. record v { keypad = boolean (is_text "true" x) })
    ∷ (".5", λ v. record v { passcodes = x })
    ∷ (".7.1", λ v. record v { reader_entry = x })
    ∷ (".7.2", λ v. record v { reader_exit = x })
    ∷ (".6.1", λ v. record v { firstcard = record v.firstcard { start_time = x } })
    ∷ (".6.2", λ v. record v { firstcard = record v.firstcard { end_time = x } })
    ∷ (".6.3", λ v. record v { firstcard = record v.firstcard { active_mode = x } })
    ∷ (".6.4", λ v. record v { firstcard = record v.firstcard { inactive_mode = x } })
    ∷ (
      ".6.5.1",
      λ v. record v {
        firstcard = record v.firstcard { weekdays = record v.firstcard.weekdays { monday = x } };
      },
    )
    ∷ (
      ".6.5.2",
      λ v. record v {
        firstcard = record v.firstcard { weekdays = record v.firstcard.weekdays { tuesday = x } };
      },
    )
    ∷ (
      ".6.5.3",
      λ v. record v {
        firstcard = record v.firstcard { weekdays = record v.firstcard.weekdays { wednesday = x } };
      },
    )
    ∷ (
      ".6.5.4",
      λ v. record v {
        firstcard = record v.firstcard { weekdays = record v.firstcard.weekdays { thursday = x } };
      },
    )
    ∷ (
      ".6.5.5",
      λ v. record v {
        firstcard = record v.firstcard { weekdays = record v.firstcard.weekdays { friday = x } };
      },
    )
    ∷ (
      ".6.5.6",
      λ v. record v {
        firstcard = record v.firstcard { weekdays = record v.firstcard.weekdays { saturday = x } };
      },
    )
    ∷ (
      ".6.5.7",
      λ v. record v {
        firstcard = record v.firstcard { weekdays = record v.firstcard.weekdays { sunday = x } };
      },
    )
    ∷ []

unfoldable pub doors : Object → ℕ → Map Door → Map Door
doors o now table = elim (match_base "0.3." o.oid) [
  | none ↦ table
  | some base ↦
      upsert base (fresh base o.value now)
        (λ v. switch base o.oid (cases o.value) (λ v. v) (record v { touched = now })) table
]
