-- ===== src/Schema/Controllers.antt =====
-- `schema.controllers` of httpd/html/javascript/schema.js.
use uhppoted_httpd.Prelude.{String}

pub data Key : Type 0 where
  status created deleted modified type name device_id endpoint_status endpoint_address
        endpoint_configured endpoint_protocol datetime_status datetime_current datetime_configured
        cards_status cards_count events_status events_first events_last events_current door1 door2
        door3 door4 interlock antipassback_status antipassback_antipassback antipassback_configured
        antipassback_modified :
      Key

abbrev pub suffix : Key → String
suffix status = ".0.0"
suffix created = ".0.1"
suffix deleted = ".0.2"
suffix modified = ".0.3"
suffix type = ".0.4"
suffix name = ".1"
suffix device_id = ".2"
suffix endpoint_status = ".3.0"
suffix endpoint_address = ".3.1"
suffix endpoint_configured = ".3.2"
suffix endpoint_protocol = ".3.3"
suffix datetime_status = ".4.0"
suffix datetime_current = ".4.1"
suffix datetime_configured = ".4.2"
suffix cards_status = ".5.0"
suffix cards_count = ".5.1"
suffix events_status = ".6.0"
suffix events_first = ".6.1"
suffix events_last = ".6.2"
suffix events_current = ".6.3"
suffix door1 = ".7.1"
suffix door2 = ".7.2"
suffix door3 = ".7.3"
suffix door4 = ".7.4"
suffix interlock = ".8"
suffix antipassback_status = ".9.0"
suffix antipassback_antipassback = ".9.1"
suffix antipassback_configured = ".9.2"
suffix antipassback_modified = ".9.3"
