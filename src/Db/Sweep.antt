-- ===== src/Db/Sweep.antt =====
-- `alive` and `sweep` of httpd/html/javascript/db.js: every 15 seconds the store drops the deleted
-- records that no object has touched for five minutes.
pub mod Exact
use uhppoted_httpd.Prelude.{
  ℕ, ◌*◌, ◌-◌, Bool, false, not, ◌&&◌, Option, none, some, [], ◌∷◌, ltb, if◌then◌else◌,
}
use uhppoted_httpd.Value.{Value, undefined, truthy, is_text}
use uhppoted_httpd.OrderedMap.{Map, delete}
use uhppoted_httpd.Db.Store.{Dbc}

-- `alive(object)`, of the field `deleted` of an object; `none` is no object
unfoldable pub alive : Option Value → Bool
alive none = false
alive (some deleted) = not (truthy deleted && not (is_text "" deleted))

-- in milliseconds
abbrev pub sweepable : ℕ
sweepable = 5 * 60 * 1000

-- the test of the inner loop; `touched` is a valid date, so `isNaN` never holds, and a clock that
-- went back gives a negative difference, which passes no test here either
unfoldable pub expired : ℕ → ℕ → Value → Bool
unfolding alive
expired now touched deleted = ltb sweepable (now - touched) && not (alive (some deleted))

-- `t.forEach((v, k) => { … t.delete(k) })`: over the entries that were there at the start
module _ {R : Type 0} where
  unfoldable pub sweep_entries : (R → Bool) → Map R → Map R → Map R
  sweep_entries drop [] table = table
  sweep_entries drop ((k, v) ∷ entries) table =
      sweep_entries drop entries (if drop v then delete k table else table)

  unfoldable pub sweep_table : (R → Bool) → Map R → Map R
  unfolding sweep_entries
  sweep_table drop table = sweep_entries drop table table

-- an interface has no field `deleted`
unfoldable pub sweep : ℕ → Dbc → Dbc
sweep now db = record db {
  interfaces = sweep_table (λ v. expired now v.touched undefined) db.interfaces;
  controllers = sweep_table (λ v. expired now v.touched v.deleted) db.controllers;
  doors = sweep_table (λ v. expired now v.touched v.deleted) db.doors;
  cards = sweep_table (λ v. expired now v.touched v.deleted) db.cards;
  groups = sweep_table (λ v. expired now v.touched v.deleted) db.groups;
}
