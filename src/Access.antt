-- ===== src/Access.antt =====
-- The access levels of a credential, as httpd/html/javascript/gate-control.js edits them: the OIDs
-- under which it reads and writes memberships and permissions, the level No Access, which excludes
-- all others, and the two numbers that a credential's number is made of.
pub mod Membership
pub mod Exclusive
pub mod Facility
