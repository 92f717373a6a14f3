-- ===== src/Schema.antt =====
-- httpd/html/javascript/schema.js: for each table its number and the suffixes of its fields. A
-- module for each table has the keys of the schema's object as a data type and the suffix of each.
pub mod System
pub mod Interfaces
pub mod Controllers
pub mod Doors
pub mod Cards
pub mod Groups
pub mod Events
pub mod Logs
pub mod Users
