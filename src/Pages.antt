-- ===== src/Pages.antt =====
-- The pages with a table of records: httpd/html/javascript/cards.js, controllers.js, doors.js,
-- events.js, groups.js, logs.js and users.js, and `trim` and `deleted` of tabular.js.
pub mod Names
pub mod Rows
pub mod Columns
pub mod Options
pub mod Tables
