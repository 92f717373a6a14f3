-- ===== src/Schema/Users.antt =====
-- `schema.users` of httpd/html/javascript/schema.js.
use uhppoted_httpd.Prelude.{String}

pub data Key : Type 0 where
  status created deleted modified name uid role password otp locked : Key

abbrev pub suffix : Key → String
suffix status = ".0.0"
suffix created = ".0.1"
suffix deleted = ".0.2"
suffix modified = ".0.3"
suffix name = ".1"
suffix uid = ".2"
suffix role = ".3"
suffix password = ".4"
suffix otp = ".5"
suffix locked = ".6"
