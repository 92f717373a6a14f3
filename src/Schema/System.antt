-- ===== src/Schema/System.antt =====
-- `schema.system` of httpd/html/javascript/schema.js.
use uhppoted_httpd.Prelude.{String}

pub data Key : Type 0 where
  cards_base cards_default_start_date cards_default_end_date : Key

abbrev pub suffix : Key → String
suffix cards_base = ".1"
suffix cards_default_start_date = ".1.1"
suffix cards_default_end_date = ".1.2"
