-- ===== src/Db.antt =====
-- The client store: httpd/html/javascript/db.js.
pub mod Handler
pub mod Tag
pub mod Store
pub mod Sweep
pub mod Defaults
pub mod Routing
pub mod Invariant
pub mod Interfaces
pub mod Controllers
pub mod Doors
pub mod Cards
pub mod Groups
pub mod Events
pub mod Logs
pub mod Users
