-- ===== src/Console/Panels/Listed.antt =====
-- Which doors are in the list of doors of httpd/html/javascript/gate-control.js.
use uhppoted_httpd.Prelude.{
  ℕ, String, Bool, true, false, ◌||◌, ◌≡◌, ◌≢◌, refl, sym, subst, List, [], ◌∷◌, ◌++◌, none, some,
  arith, Bool-cases, inl, inr, eq_iff, eq_refl,
}
use mathlib.Core.Option.{some-injective}
use uhppoted_httpd.Text.{◌==◌}
use uhppoted_httpd.Value.{Value, text, is_text}
use uhppoted_httpd.OrderedMap.{Map, get}
use uhppoted_httpd.Db.Controllers.{Controller}
use uhppoted_httpd.Db.Doors.{Door}
use uhppoted_httpd.Db.Handler.{IsTable}
use uhppoted_httpd.Db.Sweep.{alive}
use uhppoted_httpd.Db.Store.{Dbc}
use uhppoted_httpd.Console.Records.{records, Browser}
use uhppoted_httpd.Console.Relays.{controllers_of}
use uhppoted_httpd.Console.Panels.{
  DoorRow, door_of, is_listed, channels, channel_rows, controller_rows, is_assigned, other_rows,
  controller_doors,
}

-- Whether a row is of a door.
abbrev pub is_row : String → DoorRow → Bool
is_row oid row = elim row.door [ none ↦ false | some d ↦ d.oid == oid ]

abbrev pub shows : String → List DoorRow → Bool
shows oid [] = false
shows oid (row ∷ rows) = is_row oid row || shows oid rows

shows-append :
    (oid : String) (xs ys : List DoorRow) → shows oid (xs ++ ys) ≡ (shows oid xs || shows oid ys)
shows-append oid [] ys = refl
shows-append oid (x ∷ xs) ys = ground (arith, shows-append oid xs ys)

or_right : (a b : Bool) → b ≡ true → (a || b) ≡ true
or_right a b h = ground (arith, h)

module _ (browser : Browser) (doors : Map Door) (k : String) (d : Door) (named : k ≢ "")
    (own : d.oid ≡ k) (there : get k doors ≡ some d) where
  not_empty : (k == "") ≡ false
  not_empty = elim (Bool-cases (k == "")) [
    | inl empty ↦ absurd (named ((eq_iff k "").0 empty))
    | inr other ↦ other
  ]

  own_row : (d.oid == k) ≡ true
  own_row = (eq_iff d.oid k).1 own

  -- the row of a channel that holds the door
  channel-shows :
      (v : Value)
      → is_text k v ≡ true
      → (elim (door_of v doors) [ none ↦ false | some e ↦ e.oid == k ]) ≡ true
  unfolding door_of
  channel-shows (text s) h =
      subst (λ t. (elim (door_of (text t) doors) [ none ↦ false | some e ↦ e.oid == k ]) ≡ true)
        (sym ((eq_iff s k).0 h)) (rw (not_empty, there) own_row)
  channel-shows _ h = cc h

  channel_rows-shows :
      (c : Controller) (es : List (ℕ × Value))
      → is_listed k es ≡ true
      → shows k (channel_rows browser c doors es) ≡ true
  unfolding channel_rows is_listed
  channel_rows-shows c [] h = h
  channel_rows-shows c ((n, v) ∷ es) h = elim (Bool-cases (is_text k v)) [
    | inl here ↦ rw (channel-shows v here) refl
    | inr other ↦ or_right _ _ (channel_rows-shows c es (rw other at h))
  ]

  controller_rows-shows :
      (cs : List Controller)
      → is_assigned browser k cs ≡ true
      → shows k (controller_rows browser doors cs) ≡ true
  unfolding controller_rows is_assigned
  controller_rows-shows [] h = h
  controller_rows-shows (c ∷ cs) h = elim (Bool-cases (is_listed k (channels browser c))) [
    | inl here ↦
        rw
          (
            shows-append k (channel_rows browser c doors (channels browser c))
                (controller_rows browser doors cs),
            channel_rows-shows c (channels browser c) here,
          )
          refl
    | inr other ↦
        rw
          (shows-append k (channel_rows browser c doors (channels browser c))
            (controller_rows browser doors cs))
          (or_right _ _ (controller_rows-shows cs (rw other at h)))
  ]

  other_rows-shows :
      (cs : List Controller) (table : Map Door)
      → is_assigned browser k cs ≡ false
      → get k table ≡ some d
      → alive (some d.deleted) ≡ true
      → shows k (other_rows browser cs (records (λ e. e.deleted) table)) ≡ true
  unfolding other_rows records get
  other_rows-shows cs [] free e live = cc e
  other_rows-shows cs ((j, f) ∷ table) free e live = elim (Bool-cases (j == k)) [
    | inl same ↦
        let found : f ≡ d = some-injective _ _ (rw same at e) in
        rw (found, live, own, free, eq_refl k) refl
    | inr other ↦
        let rest = other_rows-shows cs table free (rw other at e) live in
        elim (Bool-cases (alive (some f.deleted))) [
          | inl listed ↦ rw listed (elim (Bool-cases (is_assigned browser f.oid cs)) [
            | inl busy ↦ rw busy rest
            | inr idle ↦ rw idle (or_right _ _ rest)
          ])
          | inr gone ↦ rw gone rest
        ]
  ]

-- In a well-formed table every door that has an OID and is not deleted has a row in the list of doors,
-- whatever the channels of the controllers hold.
pub controller_doors-shows :
    (browser : Browser) (db : Dbc) (k : String) (d : Door)
    → IsTable "0.3." (λ d. d.oid) db.doors
    → k ≢ ""
    → get k db.doors ≡ some d
    → alive (some d.deleted) ≡ true
    → shows k (controller_doors browser db) ≡ true
unfolding controller_doors
controller_doors-shows browser db k d table named there live =
    let cs = controllers_of db in
    let own = table.own k d there in
    rw
      (shows-append k (controller_rows browser db.doors cs)
        (other_rows browser cs (records (λ d. d.deleted) db.doors)))
      (elim (Bool-cases (is_assigned browser k cs)) [
        | inl busy ↦ rw (controller_rows-shows browser db.doors k d named own there cs busy) refl
        | inr free ↦
            or_right _ _
              (other_rows-shows browser db.doors k d named own there cs db.doors free there live)
      ])
