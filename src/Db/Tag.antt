-- ===== src/Db/Tag.antt =====
-- The names of the recordsets of a reply, which the `switch (tag)` of `updated`, `replace` and
-- `delete` of httpd/html/javascript/db.js list; `other` is any name that none of them lists.
pub data Tag : Type 0 where
  interfaces controllers doors cards groups events logs users other : Tag
