-- ===== src/Db/Defaults.antt =====
-- The defaults of the cards: what `object` of httpd/html/javascript/db.js stores under the number of
-- the system's table is what `get` finds.
use uhppoted_httpd.Prelude.{
  ℕ, String, true, ◌≡◌, ◌≢◌, refl, Option, none, some, List, [], ◌∷◌, All, Bool-cases, inl, inr,
  eq_iff,
}
use uhppoted_httpd.Text.{◌==◌}
use uhppoted_httpd.Value.{Value, Object, Runtime}
use uhppoted_httpd.Db.Tag.{Tag}
use uhppoted_httpd.Db.Store.{
  CardDefaults, Dbc, system, TableId, system_table, interfaces_table, controllers_table,
  doors_table, cards_table, groups_table, events_table, logs_table, users_table, no_table, table_of,
  dispatch, object, objects, updated, clear, replace, remove, delete_record, present, lookup,
}
use uhppoted_httpd.Db.Sweep.{sweep}
use uhppoted_httpd.Db.Invariant.{Operation, run}

-- the default for the first day of a card, and that for the last
pub data Default : Type 0 where
  start_date end_date : Default

abbrev pub oid_of : Default → String
oid_of start_date = "0.0.1.1"
oid_of end_date = "0.0.1.2"

abbrev field : Default → CardDefaults → Value
field start_date d = d.default_start_date
field end_date d = d.default_end_date

-- The store has the value for the default.
abbrev IsHeld : Default → Value → Option CardDefaults → Type 0
IsHeld which value none = ⊥
IsHeld which value (some d) = field which d ≡ value

-- An operation that takes in no object with the OID.
abbrev AreOthers : String → Option (List (Object × ℕ)) → Type 0
AreOthers oid none = Unit
AreOthers oid (some os) = All (λ o. o.0.oid ≢ oid) os

abbrev pub IsSilent : String → Operation → Type 0
IsSilent oid (Operation.update tag os) = AreOthers oid os
IsSilent oid (Operation.swap tag os) = AreOthers oid os
IsSilent oid (Operation.discard tag key) = Unit
IsSilent oid (Operation.tick now) = Unit

system-IsHeld :
    (which : Default) (value : Value) (o : Object) (entry : Option CardDefaults)
    → o.oid ≢ oid_of which
    → IsHeld which value entry
    → IsHeld which value (system o entry)
unfolding system
system-IsHeld which value o none other h = absurd h
system-IsHeld start_date value o (some d) other h = elim (Bool-cases (o.oid == "0.0.1.1")) [
  | inl same ↦ absurd (other ((eq_iff o.oid "0.0.1.1").0 same))
  | inr no_start ↦ elim (Bool-cases (o.oid == "0.0.1.2")) [
    | inl same ↦ rw (no_start, same) h
    | inr no_end ↦ rw (no_start, no_end) h
  ]
]
system-IsHeld end_date value o (some d) other h = elim (Bool-cases (o.oid == "0.0.1.1")) [
  | inl same ↦ rw same h
  | inr no_start ↦ elim (Bool-cases (o.oid == "0.0.1.2")) [
    | inl same ↦ absurd (other ((eq_iff o.oid "0.0.1.2").0 same))
    | inr no_end ↦ rw (no_start, no_end) h
  ]
]

module _ (js : Runtime) (which : Default) (value : Value) where
  dispatch-IsHeld :
      (table : TableId) (o : Object) (now : ℕ) (db : Dbc)
      → o.oid ≢ oid_of which
      → IsHeld which value db.system
      → IsHeld which value (dispatch js table o now db).system
  unfolding dispatch
  dispatch-IsHeld system_table o now db other h = system-IsHeld which value o db.system other h
  dispatch-IsHeld interfaces_table o now db other h = h
  dispatch-IsHeld controllers_table o now db other h = h
  dispatch-IsHeld doors_table o now db other h = h
  dispatch-IsHeld cards_table o now db other h = h
  dispatch-IsHeld groups_table o now db other h = h
  dispatch-IsHeld events_table o now db other h = h
  dispatch-IsHeld logs_table o now db other h = h
  dispatch-IsHeld users_table o now db other h = h
  dispatch-IsHeld no_table o now db other h = h

  objects-IsHeld :
      (os : List (Object × ℕ)) (db : Dbc)
      → All (λ o. o.0.oid ≢ oid_of which) os
      → IsHeld which value db.system
      → IsHeld which value (objects js os db).system
  unfolding objects object
  objects-IsHeld [] db others h = h
  objects-IsHeld ((o, now) ∷ os) db (other, others) h =
      objects-IsHeld os _ others (dispatch-IsHeld (table_of o.oid) o now db other h)

  updated-IsHeld :
      (tag : Tag) (os : Option (List (Object × ℕ))) (db : Dbc)
      → AreOthers (oid_of which) os
      → IsHeld which value db.system
      → IsHeld which value (updated js tag os db).system
  unfolding updated
  updated-IsHeld tag none db others h = h
  updated-IsHeld Tag.other (some os) db others h = h
  updated-IsHeld Tag.interfaces (some os) db others h = objects-IsHeld os db others h
  updated-IsHeld Tag.controllers (some os) db others h = objects-IsHeld os db others h
  updated-IsHeld Tag.doors (some os) db others h = objects-IsHeld os db others h
  updated-IsHeld Tag.cards (some os) db others h = objects-IsHeld os db others h
  updated-IsHeld Tag.groups (some os) db others h = objects-IsHeld os db others h
  updated-IsHeld Tag.events (some os) db others h = objects-IsHeld os db others h
  updated-IsHeld Tag.logs (some os) db others h = objects-IsHeld os db others h
  updated-IsHeld Tag.users (some os) db others h = objects-IsHeld os db others h

  clear_system : (tag : Tag) (db : Dbc) → (clear tag db).system ≡ db.system
  unfolding clear
  clear_system Tag.interfaces db = refl
  clear_system Tag.controllers db = refl
  clear_system Tag.doors db = refl
  clear_system Tag.cards db = refl
  clear_system Tag.groups db = refl
  clear_system Tag.events db = refl
  clear_system Tag.logs db = refl
  clear_system Tag.users db = refl
  clear_system Tag.other db = refl

  remove_system : (tag : Tag) (oid : String) (db : Dbc) → (remove tag oid db).system ≡ db.system
  unfolding remove
  remove_system Tag.interfaces oid db = refl
  remove_system Tag.controllers oid db = refl
  remove_system Tag.doors oid db = refl
  remove_system Tag.cards oid db = refl
  remove_system Tag.groups oid db = refl
  remove_system Tag.events oid db = refl
  remove_system Tag.logs oid db = refl
  remove_system Tag.users oid db = refl
  remove_system Tag.other oid db = refl

  run-IsHeld :
      (ops : List Operation) (db : Dbc)
      → All (IsSilent (oid_of which)) ops
      → IsHeld which value db.system
      → IsHeld which value (run js ops db).system
  unfolding run replace delete_record sweep
  run-IsHeld [] db silent h = h
  run-IsHeld (Operation.update tag os ∷ ops) db (others, silent) h =
      run-IsHeld ops _ silent (updated-IsHeld tag os db others h)
  run-IsHeld (Operation.swap tag os ∷ ops) db (others, silent) h =
      run-IsHeld ops _ silent
        (updated-IsHeld tag os (clear tag db) others (rw (clear_system tag db) h))
  run-IsHeld (Operation.discard none oid ∷ ops) db (_, silent) h = run-IsHeld ops _ silent h
  run-IsHeld (Operation.discard (some tag) none ∷ ops) db (_, silent) h = run-IsHeld ops _ silent h
  run-IsHeld (Operation.discard (some tag) (some oid) ∷ ops) db (_, silent) h =
      run-IsHeld ops _ silent (rw (remove_system tag oid db) h)
  run-IsHeld (Operation.tick now ∷ ops) db (_, silent) h = run-IsHeld ops _ silent h

lookup-IsHeld :
    (which : Default) (value : Value) (db : Dbc)
    → present value ≡ true
    → IsHeld which value db.system
    → lookup (oid_of which) db ≡ (value, true)
unfolding lookup
lookup-IsHeld which value db there h = stored which db.system refl h
  where
    stored :
        (which : Default) (entry : Option CardDefaults)
        → db.system ≡ entry
        → IsHeld which value entry
        → lookup (oid_of which) db ≡ (value, true)
    stored which none e h = absurd h
    stored start_date (some d) e h = rw (e, h, there) refl
    stored end_date (some d) e h = rw (e, h, there) refl

-- A default of the cards that the server sends, other than `null` and `undefined`, is what the store
-- finds under its OID from then on, whatever updates, replacements, deletions and sweeps follow, until
-- an object with that OID is sent.
pub lookup_roundtrip :
    (js : Runtime) (which : Default) (value : Value) (now : ℕ) (db : Dbc) (ops : List Operation)
    → present value ≡ true
    → All (IsSilent (oid_of which)) ops
    → lookup
        (oid_of which)
        (run js ops (object js (record { oid = oid_of which; value = value }) now db))
      ≡ (value, true)
unfolding object table_of dispatch system
lookup_roundtrip js start_date value now db ops there silent =
    lookup-IsHeld start_date value _ there (run-IsHeld js start_date value ops _ silent refl)
lookup_roundtrip js end_date value now db ops there silent =
    lookup-IsHeld end_date value _ there (run-IsHeld js end_date value ops _ silent refl)
