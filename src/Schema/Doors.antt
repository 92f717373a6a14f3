-- ===== src/Schema/Doors.antt =====
-- `schema.doors` of httpd/html/javascript/schema.js.
use uhppoted_httpd.Prelude.{String}

pub data Key : Type 0 where
  status created deleted modified type name delay mode keypad passcodes reader_entry reader_exit :
      Key

abbrev pub suffix : Key → String
suffix status = ".0.0"
suffix created = ".0.1"
suffix deleted = ".0.2"
suffix modified = ".0.3"
suffix type = ".0.4"
suffix name = ".1"
suffix delay = ".2"
suffix mode = ".3"
suffix keypad = ".4"
suffix passcodes = ".5"
suffix reader_entry = ".7.1"
suffix reader_exit = ".7.2"
