-- ===== src/Witness.antt =====
-- Concrete inputs: the theorems about the store, the editors, the link and the console at objects,
-- fields, documents, forms and calls of the kind that the server sends and the pages hold.
mod Stores
mod Routing
mod Fields
mod Links
mod Pages
mod Console
mod Access
mod Edits
mod Tables
