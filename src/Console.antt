-- ===== src/Console.antt =====
-- The administrator's console, httpd/html/javascript/gate-control.js: its forms and what saving them
-- sends to the server, over the tables of the client store.
pub mod Session
pub mod Records
pub mod Markup
pub mod Relays
pub mod Loading
pub mod Memberships
pub mod Credentials
pub mod Accounts
pub mod Levels
pub mod People
pub mod Panels
