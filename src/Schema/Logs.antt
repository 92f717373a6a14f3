-- ===== src/Schema/Logs.antt =====
-- `schema.logs` of httpd/html/javascript/schema.js.
use uhppoted_httpd.Prelude.{String}

pub data Key : Type 0 where
  first last timestamp uid item item_id item_name field details : Key

abbrev pub suffix : Key → String
suffix first = ".0.1"
suffix last = ".0.2"
suffix timestamp = ".1"
suffix uid = ".2"
suffix item = ".3"
suffix item_id = ".4"
suffix item_name = ".5"
suffix field = ".6"
suffix details = ".7"
