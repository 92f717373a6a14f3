-- ===== src/Witness/Stores.antt =====
-- Runs of the store of httpd/html/javascript/db.js on small recordsets.
use uhppoted_httpd.Prelude.{
  eq_iff, ◌≢◌, List, String, true, false, ◌≡◌, ◌↔◌, refl, none, some, [], ◌∷◌,
}
use uhppoted_httpd.Text.{◌++◌}
use uhppoted_httpd.Value.{text, Runtime}
use uhppoted_httpd.Oid.{numeral, match_record, match_base, match_member}
use uhppoted_httpd.Oid.Laws.{IsBase}
use uhppoted_httpd.Oid.Exact.{IsParsed, match_record-exact}
use uhppoted_httpd.Oid.Member.{IsNumber}
use uhppoted_httpd.OrderedMap.{get, upsert}
use uhppoted_httpd.Schema
use uhppoted_httpd.Db.Tag.{Tag}
use uhppoted_httpd.Db.Store.{Dbc, empty, object}
use uhppoted_httpd.Db.Store.{lookup}
use uhppoted_httpd.Db.Defaults.{start_date, lookup_roundtrip}
use uhppoted_httpd.Db.Sweep.{sweep}
use uhppoted_httpd.Db.Sweep.Exact.{IsKept, sweep_exact}
use uhppoted_httpd.Db.Invariant.{IsStore, Operation, run, run-IsStore}
use uhppoted_httpd.Db.Cards.{Card, cards, fresh as fresh_cards}
use uhppoted_httpd.Db.Cards.Laws.{write as write_cards}
use uhppoted_httpd.Db.Cards.Entries.{cards-membership}

-- `parseInt` of a text is a parameter; here it is the identity, and no text is JSON.
abbrev js : Runtime
js = record { parse_int = λ v. v; json_parse = λ s. none }

-- a card named, then marked as deleted, among a door and an object of no table
abbrev ops : List Operation
ops =
    Operation.update Tag.cards (
      some (
        (record { oid = "0.4.17.1"; value = text "Albus" }, 1000)
        ∷ (record { oid = "0.4.17.0.2"; value = text "2026-01-02" }, 2000)
        ∷ (record { oid = "0.3.4.1"; value = text "Dungeon" }, 2500)
        ∷ (record { oid = "9.9"; value = text "?" }, 2600)
        ∷ []))
    ∷ Operation.discard (some Tag.doors) (some "0.3.5")
    ∷ Operation.tick 3000
    ∷ []

abbrev db : Dbc
db = run js ops empty

run-IsStore_example : IsStore db
run-IsStore_example = run-IsStore js ops

abbrev albus : Card
albus =
    record (write_cards Schema.Cards.Key.deleted (text "2026-01-02") (
      write_cards Schema.Cards.Key.name (text "Albus")
        (fresh_cards "0.4.17" (text "Albus") 1000))) { touched = 2000 }

-- The deleted card stays for five minutes, and no longer.
sweep_exact_example :
    (get "0.4.17" (sweep 302001 db).cards ≡ some albus)
    ↔ ((get "0.4.17" db.cards ≡ some albus) × IsKept 302001 albus.touched albus.deleted)
sweep_exact_example = (sweep_exact 302001 db "0.4.17" (run-IsStore js ops)).2 albus

is_base : (table : String) → IsBase table (table ++ "17")
unfolding numeral
is_base table = record { number = "17"; same = refl; exact = refl }

is_number : IsNumber "3"
unfolding numeral
is_number = refl

cards-membership_example :
    (cards (record { oid = "0.4.17" ++ (".5." ++ "3"); value = text "true" }) 9 []
      ≡ upsert "0.4.17"
          (fresh_cards "0.4.17" (text "true") 9)
          (λ v. record v {
            groups =
                upsert
                  ("0.4.17" ++ (".5." ++ "3"))
                  (record { group = text ""; member = false })
                  (λ g. record g { member = true })
                  v.groups;
            touched = 9;
          })
          [])
cards-membership_example =
    (cards-membership "0.4.17" "3" (text "true") 9 [] (is_base "0.4.") is_number).0

match_record-exact_example :
    (match_record "0.2." "0.2.17.3.1" ≡ some ("0.2.17", "17"))
    ↔ IsParsed "0.2." "0.2.17.3.1" "0.2.17" "17"
match_record-exact_example = match_record-exact "0.2." "0.2.17.3.1" "0.2.17" "17"

-- An expression captures a record's OID, or an entry's and its field.
captured : match_base "0.2." "0.2.17.3.1" ≡ some "0.2.17"
unfolding match_base
captured = refl

captured_entry : match_member "0.4." ".5." "0.4.17.5.3.1" ≡ some ("0.4.17.5.3", some ".1")
unfolding match_member
captured_entry = refl

-- the other default, a sweep and a snapshot without any
abbrev later_ops : List Operation
later_ops =
    Operation.update Tag.cards
      (some ((record { oid = "0.0.1.2"; value = text "2066-01-01" }, 6) ∷ []))
    ∷ Operation.tick 3000
    ∷ Operation.swap Tag.cards (some [])
    ∷ []

lookup_roundtrip_example :
    lookup "0.0.1.1"
      (run js later_ops (object js (record { oid = "0.0.1.1"; value = text "2026-01-01" }) 5 db))
    ≡ (text "2026-01-01", true)
lookup_roundtrip_example =
    lookup_roundtrip js start_date (text "2026-01-01") 5 db later_ops refl
      ((other, tt), (tt, (tt, tt)))
  where
    some_other : false ≡ true → ⊥
    some_other h = cc h

    other : ◌≢◌ {A = String} "0.0.1.2" "0.0.1.1"
    other e = elim (some_other ((eq_iff "0.0.1.2" "0.0.1.1").1 e)) [ ]
