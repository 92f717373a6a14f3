-- ===== src/Db/Invariant.antt =====
-- The well-formedness of the store, kept by every operation of db.js that changes it.
use uhppoted_httpd.Prelude.{
  ℕ, String, ◌≡◌, Bool, Option, none, some, List, [], ◌∷◌, arith, Bool-cases, inl, inr,
}
use uhppoted_httpd.Value.{Object, Runtime}
use uhppoted_httpd.OrderedMap.{Map, get, delete}
use uhppoted_httpd.OrderedMap.Laws.{get-delete, delete-HasDistinctKeys}
use uhppoted_httpd.Db.Handler.{IsTable, nil-IsTable}
use uhppoted_httpd.Db.Tag.{Tag}
use uhppoted_httpd.Db.Store
use uhppoted_httpd.Db.Store.{
  Dbc, empty, TableId, dispatch, object, objects, updated, replace, clear, remove, delete_record,
}
use uhppoted_httpd.Db.Sweep.{sweep, sweep_table, sweep_entries}
use uhppoted_httpd.Db.Interfaces.Laws.{interfaces-IsTable}
use uhppoted_httpd.Db.Controllers.Laws.{controllers-IsTable}
use uhppoted_httpd.Db.Doors.Laws.{doors-IsTable}
use uhppoted_httpd.Db.Cards.Laws.{cards-IsTable}
use uhppoted_httpd.Db.Groups.Laws.{groups-IsTable}
use uhppoted_httpd.Db.Events.Laws.{events-IsTable}
use uhppoted_httpd.Db.Logs.Laws.{logs-IsTable}
use uhppoted_httpd.Db.Users.Laws.{users-IsTable}

-- Every table is well formed: no key twice, each key the OID of a record of that table, and each
-- object under its own OID.
pub record IsStore (db : Dbc) : Type 0 where
  pub interfaces : IsTable "0.1." (λ v. v.oid) db.interfaces
  pub controllers : IsTable "0.2." (λ v. v.oid) db.controllers
  pub doors : IsTable "0.3." (λ v. v.oid) db.doors
  pub cards : IsTable "0.4." (λ v. v.oid) db.cards
  pub groups : IsTable "0.5." (λ v. v.oid) db.groups
  pub events : IsTable "0.6." (λ v. v.oid) db.events.events
  pub logs : IsTable "0.7." (λ v. v.oid) db.logs.logs
  pub users : IsTable "0.8." (λ v. v.oid) db.users

pub empty-IsStore : IsStore empty
empty-IsStore = record {
  interfaces = nil-IsTable "0.1." _;
  controllers = nil-IsTable "0.2." _;
  doors = nil-IsTable "0.3." _;
  cards = nil-IsTable "0.4." _;
  groups = nil-IsTable "0.5." _;
  events = nil-IsTable "0.6." _;
  logs = nil-IsTable "0.7." _;
  users = nil-IsTable "0.8." _;
}

module _ {R : Type 0} where
  delete-IsTable :
      (prefix : String) (oid : R → String) (k : String) (table : Map R)
      → IsTable prefix oid table
      → IsTable prefix oid (delete k table)
  delete-IsTable prefix oid k table h = record {
    distinct = delete-HasDistinctKeys k table h.distinct;
    base = λ j v e. h.base j v (kept j v e);
    own = λ j v e. h.own j v (kept j v e);
  }
    where
      kept : (j : String) (v : R) → get j (delete k table) ≡ some v → get j table ≡ some v
      kept j v e = ground (arith, get-delete k j table)

  sweep_entries-IsTable :
      (prefix : String) (oid : R → String) (drop : R → Bool) (entries table : Map R)
      → IsTable prefix oid table
      → IsTable prefix oid (sweep_entries drop entries table)
  unfolding sweep_entries
  sweep_entries-IsTable prefix oid drop [] table h = h
  sweep_entries-IsTable prefix oid drop ((k, v) ∷ entries) table h = elim (Bool-cases (drop v)) [
    | inl gone ↦ rw gone (
        sweep_entries-IsTable prefix oid drop entries (delete k table)
          (delete-IsTable prefix oid k table h))
    | inr kept ↦ rw kept (sweep_entries-IsTable prefix oid drop entries table h)
  ]

  pub sweep_table-IsTable :
      (prefix : String) (oid : R → String) (drop : R → Bool) (table : Map R)
      → IsTable prefix oid table
      → IsTable prefix oid (sweep_table drop table)
  unfolding sweep_table
  sweep_table-IsTable prefix oid drop table h = sweep_entries-IsTable prefix oid drop table table h

module _ (js : Runtime) where
  dispatch-IsStore :
      (t : TableId) (o : Object) (now : ℕ) (db : Dbc)
      → IsStore db
      → IsStore (dispatch js t o now db)
  unfolding dispatch
  dispatch-IsStore TableId.interfaces_table o now db h =
      assumption (interfaces-IsTable o now db.interfaces h.interfaces)
  dispatch-IsStore TableId.controllers_table o now db h =
      assumption (controllers-IsTable o now db.controllers h.controllers)
  dispatch-IsStore TableId.doors_table o now db h =
      assumption (doors-IsTable o now db.doors h.doors)
  dispatch-IsStore TableId.cards_table o now db h =
      assumption (cards-IsTable o now db.cards h.cards)
  dispatch-IsStore TableId.groups_table o now db h =
      assumption (groups-IsTable js o now db.groups h.groups)
  dispatch-IsStore TableId.events_table o now db h =
      assumption (events-IsTable js o now db.events h.events)
  dispatch-IsStore TableId.logs_table o now db h = assumption (logs-IsTable o now db.logs h.logs)
  dispatch-IsStore TableId.users_table o now db h =
      assumption (users-IsTable o now db.users h.users)
  dispatch-IsStore _ o now db h = assumption

  pub object-IsStore : (o : Object) (now : ℕ) (db : Dbc) → IsStore db → IsStore (object js o now db)
  unfolding object
  object-IsStore o now db h = dispatch-IsStore (Store.table_of o.oid) o now db h

  pub objects-IsStore :
      (recordset : List (Object × ℕ)) (db : Dbc) → IsStore db → IsStore (objects js recordset db)
  unfolding objects
  objects-IsStore [] db h = h
  objects-IsStore ((o, now) ∷ rest) db h =
      objects-IsStore rest (object js o now db) (object-IsStore o now db h)

  -- Whatever the recordset, under whatever name, `updated` keeps the store well formed.
  pub updated-IsStore :
      (tag : Tag) (recordset : Option (List (Object × ℕ))) (db : Dbc)
      → IsStore db
      → IsStore (updated js tag recordset db)
  unfolding updated
  updated-IsStore tag none db h = h
  updated-IsStore Tag.other (some recordset) db h = h
  updated-IsStore tag (some recordset) db h = objects-IsStore recordset db h

  clear-IsStore : (tag : Tag) (db : Dbc) → IsStore db → IsStore (clear tag db)
  unfolding clear
  clear-IsStore Tag.other db h = h
  clear-IsStore _ db h =
      let e = empty-IsStore in
      assumption
        (e.interfaces, e.controllers, e.doors, e.cards, e.groups, e.events, e.logs, e.users)

  -- `replace` keeps the store well formed.
  pub replace-IsStore :
      (tag : Tag) (recordset : Option (List (Object × ℕ))) (db : Dbc)
      → IsStore db
      → IsStore (replace js tag recordset db)
  unfolding replace
  replace-IsStore tag recordset db h =
      updated-IsStore tag recordset (clear tag db) (clear-IsStore tag db h)

remove-IsStore : (tag : Tag) (oid : String) (db : Dbc) → IsStore db → IsStore (remove tag oid db)
unfolding remove
remove-IsStore Tag.interfaces oid db h =
    assumption (delete-IsTable "0.1." _ oid db.interfaces h.interfaces)
remove-IsStore Tag.controllers oid db h =
    assumption (delete-IsTable "0.2." _ oid db.controllers h.controllers)
remove-IsStore Tag.doors oid db h = assumption (delete-IsTable "0.3." _ oid db.doors h.doors)
remove-IsStore Tag.cards oid db h = assumption (delete-IsTable "0.4." _ oid db.cards h.cards)
remove-IsStore Tag.groups oid db h = assumption (delete-IsTable "0.5." _ oid db.groups h.groups)
remove-IsStore Tag.users oid db h = assumption (delete-IsTable "0.8." _ oid db.users h.users)
remove-IsStore _ oid db h = h

-- `delete` keeps the store well formed.
pub delete_record-IsStore :
    (tag : Option Tag) (oid : Option String) (db : Dbc)
    → IsStore db
    → IsStore (delete_record tag oid db)
unfolding delete_record
delete_record-IsStore (some tag) (some oid) db h = remove-IsStore tag oid db h
delete_record-IsStore _ _ db h = h

-- The sweep keeps the store well formed.
pub sweep-IsStore : (now : ℕ) (db : Dbc) → IsStore db → IsStore (sweep now db)
unfolding sweep
sweep-IsStore now db h = record {
  interfaces = sweep_table-IsTable "0.1." _ _ db.interfaces h.interfaces;
  controllers = sweep_table-IsTable "0.2." _ _ db.controllers h.controllers;
  doors = sweep_table-IsTable "0.3." _ _ db.doors h.doors;
  cards = sweep_table-IsTable "0.4." _ _ db.cards h.cards;
  groups = sweep_table-IsTable "0.5." _ _ db.groups h.groups;
  events = h.events;
  logs = h.logs;
  users = h.users;
}

-- What the pages and the timer do to the store, each with its clock readings.
pub data Operation : Type 0 where
  update swap : Tag → Option (List (Object × ℕ)) → Operation
  discard : Option Tag → Option String → Operation
  tick : ℕ → Operation

unfoldable pub run : Runtime → List Operation → Dbc → Dbc
run js [] db = db
run js (Operation.update tag recordset ∷ ops) db = run js ops (updated js tag recordset db)
run js (Operation.swap tag recordset ∷ ops) db = run js ops (replace js tag recordset db)
run js (Operation.discard tag oid ∷ ops) db = run js ops (delete_record tag oid db)
run js (Operation.tick now ∷ ops) db = run js ops (sweep now db)

run-IsStore_from :
    (js : Runtime) (ops : List Operation) (db : Dbc) → IsStore db → IsStore (run js ops db)
unfolding run
run-IsStore_from js [] db h = h
run-IsStore_from js (Operation.update tag recordset ∷ ops) db h =
    run-IsStore_from js ops _ (updated-IsStore js tag recordset db h)
run-IsStore_from js (Operation.swap tag recordset ∷ ops) db h =
    run-IsStore_from js ops _ (replace-IsStore js tag recordset db h)
run-IsStore_from js (Operation.discard tag oid ∷ ops) db h =
    run-IsStore_from js ops _ (delete_record-IsStore tag oid db h)
run-IsStore_from js (Operation.tick now ∷ ops) db h =
    run-IsStore_from js ops _ (sweep-IsStore now db h)

-- Whatever updates, replacements, deletions and sweeps have run on a new store, in any order and
-- with any objects, all eight of its tables of records are well formed: no key twice, each key the
-- OID of a record of that table, and each record under its own OID.
pub run-IsStore : (js : Runtime) (ops : List Operation) → IsStore (run js ops empty)
run-IsStore js ops = run-IsStore_from js ops empty empty-IsStore
