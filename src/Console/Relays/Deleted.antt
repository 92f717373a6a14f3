-- ===== src/Console/Relays/Deleted.antt =====
-- The channels after a door has been deleted by `deleteDoor` of
-- httpd/html/javascript/gate-control.js.
use uhppoted_httpd.Prelude.{
  ℕ, String, true, false, ◌≡◌, ◌≢◌, refl, sym, ap, subst, ◌∙◌, List, [], ◌∷◌, Option, none, some,
  All, if◌then◌else◌, Bool-cases, inl, inr, eq_iff,
}
use uhppoted_httpd.Text.{◌==◌}
use uhppoted_httpd.Oid.Laws.{IsBase}
use uhppoted_httpd.Value.{undefined, text, is_text, Runtime}
use uhppoted_httpd.OrderedMap.{get}
use uhppoted_httpd.Db.Handler.{IsTable}
use uhppoted_httpd.Db.Controllers.{Controller}
use uhppoted_httpd.Db.Sweep.{alive}
use uhppoted_httpd.Db.Store.{Dbc}
use uhppoted_httpd.Console.Records.{records-All}
use uhppoted_httpd.Console.Relays.{
  slot, entries, controllers_of, assigned_channel, door_assignment, clear_door,
}
use uhppoted_httpd.Console.Relays.Slots.{at_slot, deleted_at, is_present, IsChannel, apply}
use uhppoted_httpd.Console.Relays.Cleared.{
  slots_of, hit, IsCleared, apply-IsCleared, clear_door-clearing, slots_of-hit, slots_of-IsTarget,
}

-- No channel of any controller holds the door.
assigned_channel-none :
    (oid : String) (c : Controller)
    → ((m : ℕ) → IsChannel m → is_text oid (slot m c.doors) ≡ false)
    → assigned_channel oid (entries c.doors) ≡ none
unfolding assigned_channel slot
assigned_channel-none oid c h =
    rw
      (h 1 (inl refl), h 2 (inr (inl refl)), h 3 (inr (inr (inl refl))), h 4 (inr (inr (inr refl))))
      refl

door_assignment-none :
    (oid : String) (cs : List Controller)
    → All (λ c. assigned_channel oid (entries c.doors) ≡ none) cs
    → door_assignment oid cs ≡ none
unfolding door_assignment
door_assignment-none oid [] h = refl
door_assignment-none oid (c ∷ cs) (e, h) = rw (door_assignment, e) (door_assignment-none oid cs h)

module _ (js : Runtime) (now : ℕ) (oid : String) (db : Dbc)
    (table : IsTable "0.2." (λ c. c.oid) db.controllers) where
  cleared : Dbc
  cleared = apply js now (clear_door oid (controllers_of db)) db

  cleared-IsCleared : IsCleared js now (slots_of oid (controllers_of db)) db cleared
  unfolding cleared
  cleared-IsCleared = rw (clear_door-clearing oid (controllers_of db)) (
      apply-IsCleared js now (slots_of oid (controllers_of db)) db table.distinct (
        slots_of-IsTarget oid db (controllers_of db) (
          records-All (λ c. c.deleted)
            (λ c. IsBase "0.2." c.oid × (is_present db.controllers c.oid ≡ true)) db.controllers
            table.distinct
            (λ k v e live.
              let own : v.oid ≡ k = table.own k v e in
              (subst (IsBase "0.2.") (sym own) (table.base k v e), rw (own, is_present, e) refl)))))

  -- a channel of a controller that is listed afterwards
  freed :
      (k : String) (v : Controller)
      → oid ≢ ""
      → get k cleared.controllers ≡ some v
      → alive (some v.deleted) ≡ true
      → (m : ℕ) → IsChannel m
      → is_text oid (slot m v.doors) ≡ false
  unfolding at_slot deleted_at
  freed k v named e live m channel =
      let held : slot m v.doors ≡ (
          if hit (slots_of oid (controllers_of db)) k m
          then text ""
          else at_slot db.controllers k m) =
        sym (ap (λ r. elim r [ none ↦ undefined | some c ↦ slot m c.doors ]) e)
        ∙ cleared-IsCleared.slots k m in
      let dated : v.deleted ≡ deleted_at db.controllers k =
        sym (ap (λ r. elim r [ none ↦ undefined | some c ↦ c.deleted ]) e)
        ∙ cleared-IsCleared.kept k in
      ap (is_text oid) held ∙ decide (get k db.controllers) refl dated
    where
      unnamed : is_text oid (text "") ≡ false
      unnamed = elim (Bool-cases ("" == oid)) [
        | inl same ↦ absurd (named (sym ((eq_iff "" oid).0 same)))
        | inr other ↦ other
      ]

      before :
          (c : Controller)
          → get k db.controllers ≡ some c
          → alive (some c.deleted) ≡ true
          → is_text oid (slot m c.doors) ≡ true
          → hit (slots_of oid (controllers_of db)) k m ≡ true
      before c f alive' held =
          subst (λ t. hit (slots_of oid (controllers_of db)) t m ≡ true) (table.own k c f)
            (slots_of-hit oid k c m db.controllers channel f alive' held)

      decide :
          (r : Option Controller)
          → get k db.controllers ≡ r
          → v.deleted ≡ (elim r [ none ↦ undefined | some c ↦ c.deleted ])
          → is_text oid (
              if hit (slots_of oid (controllers_of db)) k m
              then text ""
              else (elim r [ none ↦ undefined | some c ↦ slot m c.doors ]))
            ≡ false
      decide none f dated = elim (Bool-cases (hit (slots_of oid (controllers_of db)) k m)) [
        | inl emptied ↦ rw emptied unnamed
        | inr other ↦ rw other refl
      ]
      decide (some c) f dated = elim (Bool-cases (hit (slots_of oid (controllers_of db)) k m)) [
        | inl emptied ↦ rw emptied unnamed
        | inr other ↦ elim (Bool-cases (is_text oid (slot m c.doors))) [
          | inl holds ↦ cc (other, before c f (ap (λ d. alive (some d)) (sym dated) ∙ live) holds)
          | inr free ↦ rw other free
        ]
      ]

-- Where the table of controllers is well formed and the door's OID is not empty: once the updates that
-- deleting the door sends first are read into the store, no channel of any listed controller holds
-- the door.
pub clear_door-unassigned :
    (js : Runtime) (now : ℕ) (oid : String) (db : Dbc)
    → oid ≢ ""
    → IsTable "0.2." (λ c. c.oid) db.controllers
    → door_assignment oid (controllers_of (apply js now (clear_door oid (controllers_of db)) db))
      ≡ none
unfolding cleared
clear_door-unassigned js now oid db named table = door_assignment-none oid _ (
    records-All (λ c. c.deleted) (λ c. assigned_channel oid (entries c.doors) ≡ none) _
      (cleared-IsCleared js now oid db table).distinct
      (λ k v e live. assigned_channel-none oid v (freed js now oid db table k v named e live)))
