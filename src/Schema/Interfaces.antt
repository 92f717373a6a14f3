-- ===== src/Schema/Interfaces.antt =====
-- `schema.interfaces` of httpd/html/javascript/schema.js.
use uhppoted_httpd.Prelude.{String}

pub data Key : Type 0 where
  status created deleted modified type name bind broadcast listen : Key

abbrev pub suffix : Key → String
suffix status = ".0.0"
suffix created = ".0.1"
suffix deleted = ".0.2"
suffix modified = ".0.3"
suffix type = ".0.4"
suffix name = ".1"
suffix bind = ".3.1"
suffix broadcast = ".3.2"
suffix listen = ".3.3"
