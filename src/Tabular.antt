-- ===== src/Tabular.antt =====
-- httpd/html/javascript/tabular.js: the editable tables of the pages. A child for the state of one
-- field, one for the events of a field, one for the walk up the OIDs of its ancestors, one for the
-- count of modified fields, one for what a commit of rows sends, one for the requests, one for marks
-- that follow the marks below, and one for the cache of the elements, cache.js.
pub mod Edits
pub mod Field
pub mod Percolate
pub mod Modified
pub mod Changeset
pub mod Request
pub mod Tree
pub mod Cache
