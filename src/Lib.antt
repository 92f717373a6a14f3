-- ===== src/Lib.antt =====
-- Verification of the browser side of uhppoted-httpd, the access control console.
--
-- The program. The pages under httpd/html/javascript show what the server knows of an access control
-- system. Everything the server has is an object with an OID, a text of numbers and dots, and a
-- value. `schema.js` names the OIDs. `db.js` holds the store: it files each object of a reply under
-- the record and field that its OID names, and drops old deleted records every 15 seconds.
-- `tabular.js` edits the store's records in tables: it marks each input field and the elements above
-- it as modified, in conflict or pending, sends the changes and takes in the replies. `uhppoted.js`
-- counts the requests that are out and watches the link. `interfaces.js` edits the settings of the
-- LAN. `gate-control.js` is the administrator's console on the same store: its forms post their
-- changes, have the controllers synchronized and load the store anew from a snapshot.
--
-- The files.
--   Prelude, Text, Switch       shared names, tests on numbers and texts, and the `switch` statement
--   OrderedMap                  `Map` with text keys, in the order of insertion
--   Value                       the values of the server's JSON, and the truth of each
--   Schema, Oid                 schema.js: the suffix of every field; its expressions, as parsers
--   Db.Interfaces … Db.Users    db.js: one table each, its record (`fresh` makes the first one), the
--                               branches of its `switch` (`cases`) and its function
--   Db.Handler                  what these functions share, and a well-formed table
--   Db.Store                    db.js: the class `DBC`, `object(o)`, `system(o)` and the methods
--                               (`delete` is `delete_record`, `get` is `lookup`)
--   Db.Sweep                    db.js: `sweep` and `alive`
--   Db.Routing, Db.Invariant    what an object does to the store; what holds of every store
--   Db.Defaults                 the defaults of the cards, stored and looked up
--   Tabular.Field               tabular.js: `mark`, `unmark`, `set`, `update`, `revert`, `commit` on
--                               one field (`submit`, `reset` and `cleanup` are the parts of `commit`)
--   Tabular.Percolate           tabular.js: `percolate`, as the list of OIDs it marks
--   Tabular.Modified            tabular.js: `modified` and `queryModified`, over a list of elements
--   Tabular.Request             tabular.js: `commit`, `post`, `get` and `onRefresh` with any replies
--   Tabular.Edits               tabular.js: `onEdited`, `onEnter` and `onTick`, over one field
--   Tabular.Tree                what the two functions `modified` have in common, and why the walk of
--                               `percolate` is enough
--   Tabular.Changeset           tabular.js: `changeset`, `getPage`, `pageForRow`, with `deletable` of
--                               controllers.js, doors.js, cards.js, groups.js and users.js
--   Pages.Names, Pages.Rows     cards.js and its kind: the `id` of a row; `add`, the loop of `realize`
--                               and `trim` of tabular.js, over the list of the rows
--   Pages.Columns               cards.js and groups.js: the columns of a row for levels and doors
--   Pages.Tables                the fields of a new row and `realize` for each of the seven pages
--   Pages.Options               controllers.js: the drop-down lists of doors in `updateFromDB`
--   Combobox                    combobox.js: the class, as a step on its fields (`Event`, `step`, `run`)
--   Connection                  uhppoted.js: `busy`, `unbusy`, `connected`
--   Tabular.Cache               cache.js
--   Lan                         interfaces.js, over the list of the elements of the document
--   Access                      gate-control.js: `cardGroupOID`, `cardInGroup`, `groupDoorOID`,
--                               `groupAllowsDoor`, `enforceExclusiveNoAccess`, `decodeFacilityCard`,
--                               `populateDecimalCard`
--   Console.Session             gate-control.js: `postConfiguration`, `synchronizeHardware` and the
--                               order of the requests of a form
--   Console.Relays              `doorAssignment`, `saveDoor`, `deleteDoor`
--   Console.Panels              `controllerCapacity`, `controllerDoors`, `saveController`
--   Console.Credentials, Console.Memberships
--                               `saveCard`, `currentCardOID`, `deleteCard`, and the access levels of
--                               several credentials, `saveBulkCredentialAccess` and `deleteGroup`,
--                               with what the store holds once their updates have been read back
--   Console.Levels, Console.Accounts, Console.People
--                               `saveGroup`; `saveUser`, `deleteUser`; `updateManagementGroup`,
--                               `savePerson`
--   Console.Markup              `escapeHTML`, `display`, `statusBadge`
--   Console.Loading             `load` of a snapshot, with its retries
--   Witness                     the theorems at concrete inputs
--
-- The model. State is passed and returned: the store is a record of tables, a table a list of keys
-- and records. Where the code reads the clock, the reading in milliseconds is an argument; the
-- objects of a recordset carry one each. The browser's `parseInt` and `JSON.parse` are the
-- parameter `Runtime`, its `parseInt` of base 10 one of the changeset, and the array method `sort` in
-- `modified` is a parameter, as the comparison passed to it does not say which order results. The
-- lines of the templates that depend on a server's options (`WithPIN`, `WithFirstCard`) are part of
-- the model. The loop of `percolate` has the length of its OID as fuel: every round takes at least two
-- characters off. A cell of a table is told by whether the field is directly in it, in a label in it,
-- or elsewhere.
--
-- A table of a page is the list of its rows, a row its fields and its columns; what the browser does
-- with them is left out. A drop-down list of doors is its options; the loop that takes off surplus ones
-- has their number as fuel, since every round takes one. The class `Combobox` is its fields with the
-- classes and the focus that it sets; a handler that reads a field of `null` gives no result.
--
-- A call of the console that waits for replies is a session: given a server, whose reply may depend
-- on all requests before, and the requests made so far, it ends with a value or a thrown message and
-- the requests made then. What the forms do with the texts of the browser (`trim`, lower case, the
-- text of a value, `JSON.stringify`, the order of `localeCompare`) is the parameter `Browser`; a
-- theorem about a form holds for each. A form is the values of its fields; closing dialogs, notices
-- and the load that follows a save are left out. The loads that the timer of `load` starts have a
-- number of rounds as fuel, and five are enough, whatever page is shown and whatever the server
-- replies at each; `currentCardOID` has its four.
--
-- Not modelled: the server in Go; where rows, lists and forms stand on the screen, and event
-- listeners, which are calls of the browser; `updateFromDB` of the pages but for the lists of doors,
-- which hands each value to `update`; the header of a table; `modified` with a cache; the overview; the
-- backups, the import of credentials, the control of doors and the clock of a controller in the
-- console; the pages of accounts; styles and assets. The copies of these scripts among the
-- documentation are older ones.
pub mod Prelude
pub mod Text
pub mod Oid
pub mod OrderedMap
pub mod Value
pub mod Switch
pub mod Schema
pub mod Db
pub mod Lan
pub mod Tabular
pub mod Connection
pub mod Access
pub mod Combobox
pub mod Pages
pub mod Console
mod Witness
