-- ===== src/Schema/Events.antt =====
-- `schema.events` of httpd/html/javascript/schema.js.
use uhppoted_httpd.Prelude.{String}

pub data Key : Type 0 where
  status first last timestamp device_id index type door direction card granted reason device_name
        door_name card_name :
      Key

abbrev pub suffix : Key → String
suffix status = ".0.0"
suffix first = ".0.1"
suffix last = ".0.2"
suffix timestamp = ".1"
suffix device_id = ".2"
suffix index = ".3"
suffix type = ".4"
suffix door = ".5"
suffix direction = ".6"
suffix card = ".7"
suffix granted = ".8"
suffix reason = ".9"
suffix device_name = ".10"
suffix door_name = ".11"
suffix card_name = ".12"
