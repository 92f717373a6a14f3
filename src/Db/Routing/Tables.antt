-- ===== src/Db/Routing/Tables.antt =====
-- The table that `object` of httpd/html/javascript/db.js chooses for the OID of a record's field.
use text.Mathlib.TextLemmas.{append_assoc}
use uhppoted_httpd.Prelude.{String, ◌≡◌, refl}
use uhppoted_httpd.Text.{◌++◌}
use uhppoted_httpd.Oid.Laws.{IsBase}
use uhppoted_httpd.Oid.Prefix.{starts_with-clash, starts_with-dot}
use uhppoted_httpd.Db.Store.{TableId, table_of}

pub table_of-interfaces :
    (base s : String) → IsBase "0.1." base → table_of (base ++ s) ≡ TableId.interfaces_table
unfolding table_of
table_of-interfaces base s b =
    rw (b.same, append_assoc)
      (rw (
        starts_with-clash "0.0" "0.1." (b.number ++ s) refl,
        starts_with-dot "0.1" (b.number ++ s),
      ))

pub table_of-controllers :
    (base s : String) → IsBase "0.2." base → table_of (base ++ s) ≡ TableId.controllers_table
unfolding table_of
table_of-controllers base s b =
    rw (b.same, append_assoc)
      (rw (
        starts_with-clash "0.0" "0.2." (b.number ++ s) refl,
        starts_with-clash "0.1" "0.2." (b.number ++ s) refl,
        starts_with-dot "0.2" (b.number ++ s),
      ))

pub table_of-doors :
    (base s : String) → IsBase "0.3." base → table_of (base ++ s) ≡ TableId.doors_table
unfolding table_of
table_of-doors base s b =
    rw (b.same, append_assoc)
      (rw (
        starts_with-clash "0.0" "0.3." (b.number ++ s) refl,
        starts_with-clash "0.1" "0.3." (b.number ++ s) refl,
        starts_with-clash "0.2" "0.3." (b.number ++ s) refl,
        starts_with-dot "0.3" (b.number ++ s),
      ))

pub table_of-cards :
    (base s : String) → IsBase "0.4." base → table_of (base ++ s) ≡ TableId.cards_table
unfolding table_of
table_of-cards base s b =
    rw (b.same, append_assoc)
      (rw (
        starts_with-clash "0.0" "0.4." (b.number ++ s) refl,
        starts_with-clash "0.1" "0.4." (b.number ++ s) refl,
        starts_with-clash "0.2" "0.4." (b.number ++ s) refl,
        starts_with-clash "0.3" "0.4." (b.number ++ s) refl,
        starts_with-dot "0.4" (b.number ++ s),
      ))

pub table_of-groups :
    (base s : String) → IsBase "0.5." base → table_of (base ++ s) ≡ TableId.groups_table
unfolding table_of
table_of-groups base s b =
    rw (b.same, append_assoc)
      (rw (
        starts_with-clash "0.0" "0.5." (b.number ++ s) refl,
        starts_with-clash "0.1" "0.5." (b.number ++ s) refl,
        starts_with-clash "0.2" "0.5." (b.number ++ s) refl,
        starts_with-clash "0.3" "0.5." (b.number ++ s) refl,
        starts_with-clash "0.4" "0.5." (b.number ++ s) refl,
        starts_with-dot "0.5" (b.number ++ s),
      ))

pub table_of-events :
    (base s : String) → IsBase "0.6." base → table_of (base ++ s) ≡ TableId.events_table
unfolding table_of
table_of-events base s b =
    rw (b.same, append_assoc)
      (rw (
        starts_with-clash "0.0" "0.6." (b.number ++ s) refl,
        starts_with-clash "0.1" "0.6." (b.number ++ s) refl,
        starts_with-clash "0.2" "0.6." (b.number ++ s) refl,
        starts_with-clash "0.3" "0.6." (b.number ++ s) refl,
        starts_with-clash "0.4" "0.6." (b.number ++ s) refl,
        starts_with-clash "0.5" "0.6." (b.number ++ s) refl,
        starts_with-dot "0.6" (b.number ++ s),
      ))

pub table_of-logs :
    (base s : String) → IsBase "0.7." base → table_of (base ++ s) ≡ TableId.logs_table
unfolding table_of
table_of-logs base s b =
    rw (b.same, append_assoc)
      (rw (
        starts_with-clash "0.0" "0.7." (b.number ++ s) refl,
        starts_with-clash "0.1" "0.7." (b.number ++ s) refl,
        starts_with-clash "0.2" "0.7." (b.number ++ s) refl,
        starts_with-clash "0.3" "0.7." (b.number ++ s) refl,
        starts_with-clash "0.4" "0.7." (b.number ++ s) refl,
        starts_with-clash "0.5" "0.7." (b.number ++ s) refl,
        starts_with-clash "0.6" "0.7." (b.number ++ s) refl,
        starts_with-dot "0.7" (b.number ++ s),
      ))

pub table_of-users :
    (base s : String) → IsBase "0.8." base → table_of (base ++ s) ≡ TableId.users_table
unfolding table_of
table_of-users base s b =
    rw (b.same, append_assoc)
      (rw (
        starts_with-clash "0.0" "0.8." (b.number ++ s) refl,
        starts_with-clash "0.1" "0.8." (b.number ++ s) refl,
        starts_with-clash "0.2" "0.8." (b.number ++ s) refl,
        starts_with-clash "0.3" "0.8." (b.number ++ s) refl,
        starts_with-clash "0.4" "0.8." (b.number ++ s) refl,
        starts_with-clash "0.5" "0.8." (b.number ++ s) refl,
        starts_with-clash "0.6" "0.8." (b.number ++ s) refl,
        starts_with-clash "0.7" "0.8." (b.number ++ s) refl,
        starts_with-dot "0.8" (b.number ++ s),
      ))
