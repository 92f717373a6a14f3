-- ===== src/Connection.antt =====
-- The state that httpd/html/javascript/uhppoted.js keeps about the link to the server: how many
-- requests are out, and since when none has come through.
pub mod Busy
pub mod Monitor
