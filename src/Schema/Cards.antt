-- ===== src/Schema/Cards.antt =====
-- `schema.cards` of httpd/html/javascript/schema.js.
use uhppoted_httpd.Prelude.{String}

pub data Key : Type 0 where
  status created deleted modified type name card from to group pin kind management_group label : Key

abbrev pub suffix : Key → String
suffix status = ".0.0"
suffix created = ".0.1"
suffix deleted = ".0.2"
suffix modified = ".0.3"
suffix type = ".0.4"
suffix name = ".1"
suffix card = ".2"
suffix from = ".3"
suffix to = ".4"
suffix group = ".5."
suffix pin = ".6"
suffix kind = ".7"
suffix management_group = ".8"
suffix label = ".9"
