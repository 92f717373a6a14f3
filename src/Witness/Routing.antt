-- ===== src/Witness/Routing.antt =====
-- Objects for one field of each kind of record, sent to a new store of httpd/html/javascript/db.js.
use uhppoted_httpd.Prelude.{String, ◌≡◌, refl, none}
use uhppoted_httpd.Text.{◌++◌}
use uhppoted_httpd.Value.{text, Runtime}
use uhppoted_httpd.Oid.{numeral}
use uhppoted_httpd.Oid.Laws.{IsBase}
use uhppoted_httpd.OrderedMap.{upsert}
use uhppoted_httpd.Schema
use uhppoted_httpd.Db.Store.{Dbc, empty, object}
use uhppoted_httpd.Db.Controllers.{fresh as fresh_controllers}
use uhppoted_httpd.Db.Cards.{fresh as fresh_cards}
use uhppoted_httpd.Db.Controllers.Laws.{write as write_controllers}
use uhppoted_httpd.Db.Cards.Laws.{write as write_cards}
use uhppoted_httpd.Db.Routing.{object-controllers, object-cards}

-- `parseInt` of a text is a parameter; here it is the identity, and no text is JSON.
abbrev js : Runtime
js = record { parse_int = λ v. v; json_parse = λ s. none }

abbrev db : Dbc
db = empty

is_base : (table : String) → IsBase table (table ++ "17")
unfolding numeral
is_base table = record { number = "17"; same = refl; exact = refl }

object-controllers_example :
    object js
      (record {
        oid = "0.2.17" ++ Schema.Controllers.suffix Schema.Controllers.Key.name;
        value = text "Alpha";
      })
      9
      db
    ≡ record db {
      controllers =
          upsert "0.2.17"
            (fresh_controllers "0.2.17" (text "Alpha") 9)
            (λ v.
              write_controllers Schema.Controllers.Key.name
                (text "Alpha")
                (record v { touched = 9 }))
            db.controllers;
    }
object-controllers_example =
    object-controllers js "0.2.17" Schema.Controllers.Key.name (text "Alpha") 9 db (is_base "0.2.")

object-cards_example :
    object js
      (record { oid = "0.4.17" ++ Schema.Cards.suffix Schema.Cards.Key.kind; value = text "Alpha" })
      9
      db
    ≡ record db {
      cards =
          upsert "0.4.17"
            (fresh_cards "0.4.17" (text "Alpha") 9)
            (λ v. write_cards Schema.Cards.Key.kind (text "Alpha") (record v { touched = 9 }))
            db.cards;
    }
object-cards_example =
    object-cards js "0.4.17" Schema.Cards.Key.kind (text "Alpha") 9 db (is_base "0.4.")
