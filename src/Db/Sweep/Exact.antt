-- ===== src/Db/Sweep/Exact.antt =====
-- Which records a sweep drops: exactly those deleted and untouched for more than five minutes.
use mathlib.Core.Option.{some-injective}
use uhppoted_httpd.Db.Interfaces.{Interface}
use uhppoted_httpd.Db.Controllers.{Controller}
use uhppoted_httpd.Db.Doors.{Door}
use uhppoted_httpd.Db.Cards.{Card}
use uhppoted_httpd.Db.Groups.{Group}
use uhppoted_httpd.Prelude.{
  ℕ, ◌+◌, ◌-◌, ◌≤◌, ltb, not, ◌&&◌, String, Bool, true, false, ◌≡◌, refl, ap, subst, ◌⊎◌, inl, inr,
  ◌↔◌, Option, none, some, [], ◌∷◌, arith, eq_iff, if◌then◌else◌, Bool-cases,
}
use uhppoted_httpd.Value.{Value, undefined, text, truthy}
use uhppoted_httpd.OrderedMap.{Map, get, delete}
use uhppoted_httpd.OrderedMap.Laws.{get-delete, HasDistinctKeys}
use uhppoted_httpd.Db.Store.{Dbc}
use uhppoted_httpd.Db.Sweep.{alive, expired, sweepable, sweep, sweep_table, sweep_entries}
use uhppoted_httpd.Db.Invariant.{IsStore}

module _ {R : Type 0} where
  abbrev keep : (R → Bool) → Option R → Option R → Option R
  keep drop none o = o
  keep drop (some v) o = if drop v then none else o

  get-sweep_entries :
      (drop : R → Bool) (entries table : Map R) (j : String)
      → HasDistinctKeys entries
      → get j (sweep_entries drop entries table) ≡ keep drop (get j entries) (get j table)
  unfolding sweep_entries get
  get-sweep_entries drop [] table j h = refl
  get-sweep_entries drop ((k, v) ∷ entries) table j (fresh, h) = elim (Bool-cases (drop v)) [
    | inl gone ↦ rw gone (
        ground (
          arith,
          gone,
          eq_iff k j,
          get-delete k j table,
          get-sweep_entries drop entries (delete k table) j h,
        ))
    | inr kept ↦
        rw kept (ground (arith, kept, eq_iff k j, get-sweep_entries drop entries table j h))
  ]

  pub get-sweep_table :
      (drop : R → Bool) (table : Map R) (j : String)
      → HasDistinctKeys table
      → get j (sweep_table drop table) ≡ keep drop (get j table) (get j table)
  unfolding sweep_table
  get-sweep_table drop table j h = get-sweep_entries drop table table j h

-- `alive` is the falseness of the field `deleted`: the empty text, which a new record holds, is
-- false already.
pub alive-eq-not : (deleted : Value) → alive (some deleted) ≡ not (truthy deleted)
unfolding alive
alive-eq-not (text s) = ground arith
alive-eq-not _ = ground arith

-- Why a record stays: it was touched within five minutes, or it is not deleted.
abbrev pub IsKept : ℕ → ℕ → Value → Type 0
IsKept now touched deleted = (now ≤ touched + 300000) ⊎ (truthy deleted ≡ false)

expired_iff :
    (now touched : ℕ) (deleted : Value)
    → (expired now touched deleted ≡ false) ↔ IsKept now touched deleted
expired_iff now touched deleted =
    unfold expired in rw alive-eq-not (go now touched (truthy deleted))
  where
    go :
        (n t : ℕ) (d : Bool)
        → ((ltb sweepable (n - t) && not (not d)) ≡ false) ↔ ((n ≤ t + sweepable) ⊎ (d ≡ false))
    go n t true = ground arith
    go n t false = ground arith

module _ {R : Type 0} (touched : R → ℕ) (deleted : R → Value) where
  survives_iff :
      (now : ℕ) (table : Map R) (k : String) (v : R)
      → HasDistinctKeys table
      → (get k (sweep_table (λ w. expired now (touched w) (deleted w)) table) ≡ some v)
        ↔ ((get k table ≡ some v) × IsKept now (touched v) (deleted v))
  survives_iff now table k v h =
      rw (get-sweep_table (λ w. expired now (touched w) (deleted w)) table k h) (go (get k table))
    where
      go :
          (o : Option R)
          → (keep (λ w. expired now (touched w) (deleted w)) o o ≡ some v)
            ↔ ((o ≡ some v) × IsKept now (touched v) (deleted v))
      go none = (λ e. cc, λ (e, _). cc)
      go (some w) = elim (Bool-cases (expired now (touched w) (deleted w))) [
        | inl gone ↦ rw gone (
          (λ e. cc),
          λ (e, kept).
              let same : w ≡ v = some-injective _ _ e in
              let stays = (expired_iff now (touched v) (deleted v)).1 kept in
              cc (gone, stays, ap (λ (x : R). expired now (touched x) (deleted x)) same),
        )
        | inr stays ↦ rw stays (
          (λ e.
              let same : w ≡ v = some-injective _ _ e in
              (
                e,
                subst (λ x. IsKept now (touched x) (deleted x)) same
                    ((expired_iff now (touched w) (deleted w)).0 stays),
              )),
          λ (e, kept). e,
        )
      ]

-- A sweep of a well-formed store drops a controller, door, card or group exactly if it is deleted
-- and no object has touched it for more than five minutes; it drops nothing else, and it changes no
-- interface, event, log, user or default.
pub sweep_exact :
    (now : ℕ) (db : Dbc) (k : String)
    → IsStore db
    → ((v : Controller)
        → (get k (sweep now db).controllers ≡ some v)
          ↔ ((get k db.controllers ≡ some v) × IsKept now v.touched v.deleted))
      × ((v : Door)
          → (get k (sweep now db).doors ≡ some v)
            ↔ ((get k db.doors ≡ some v) × IsKept now v.touched v.deleted))
      × ((v : Card)
          → (get k (sweep now db).cards ≡ some v)
            ↔ ((get k db.cards ≡ some v) × IsKept now v.touched v.deleted))
      × ((v : Group)
          → (get k (sweep now db).groups ≡ some v)
            ↔ ((get k db.groups ≡ some v) × IsKept now v.touched v.deleted))
      × ((v : Interface)
          → (get k (sweep now db).interfaces ≡ some v) ↔ (get k db.interfaces ≡ some v))
      × ((sweep now db).events ≡ db.events)
      × ((sweep now db).logs ≡ db.logs)
      × ((sweep now db).users ≡ db.users)
      × ((sweep now db).system ≡ db.system)
unfolding sweep
sweep_exact now db k h = (
  (λ v.
      survives_iff (λ w. w.touched) (λ w. w.deleted) now db.controllers k v h.controllers.distinct),
  (λ v. survives_iff (λ w. w.touched) (λ w. w.deleted) now db.doors k v h.doors.distinct),
  (λ v. survives_iff (λ w. w.touched) (λ w. w.deleted) now db.cards k v h.cards.distinct),
  (λ v. survives_iff (λ w. w.touched) (λ w. w.deleted) now db.groups k v h.groups.distinct),
  (λ v.
      let all =
        survives_iff (λ w. w.touched) (λ _. undefined) now db.interfaces k v
          h.interfaces.distinct in
      (λ e. (all.0 e).0, λ e. all.1 (e, inr refl))),
  refl,
  refl,
  refl,
  refl,
)
