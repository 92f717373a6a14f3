-- ===== src/Access/Membership/Laws.antt =====
-- What the pages write under the OIDs of memberships and permissions is what they read back.
use mathlib.Core.Option.{some-injective}
use package.text.Mathlib.TextLemmas.{append_assoc, append-nil}
use uhppoted_httpd.Prelude.{
  ℕ, String, Bool, true, false, ◌||◌, ◌&&◌, [], ◌∷◌, ◌≡◌, refl, sym, ap, ◌∙◌, some, eq_refl,
  Bool-cases, or_else, Option-cases, inl, inr,
}
use uhppoted_httpd.Text.{◌++◌, ◌==◌}
use uhppoted_httpd.Value.{text, is_text, Runtime}
use uhppoted_httpd.Oid.{match_record, is_line, numeral}
use uhppoted_httpd.Oid.Laws.{IsBase, match_record-append, IsSuffix}
use uhppoted_httpd.Oid.Member.{IsNumber}
use uhppoted_httpd.OrderedMap.{Map, get, values, upsert}
use uhppoted_httpd.OrderedMap.Laws.{get-upsert}
use uhppoted_httpd.Db.Handler.{IsTable}
use uhppoted_httpd.Db.Cards.{Card, Membership, cards, fresh as fresh_card}
use uhppoted_httpd.Db.Cards.Entries.{cards-membership}
use uhppoted_httpd.Db.Groups.{Group, Permission, groups, fresh as fresh_group}
use uhppoted_httpd.Db.Groups.Entries.{groups-permission}
use uhppoted_httpd.Access.Membership.{
  card_group_oid, card_in_group, group_door_oid, some_permission, group_allows_door,
}

nil-IsSuffix : IsSuffix ""
nil-IsSuffix = record { not_digit = refl; line = unfold is_line in refl }

pub match_record_self :
    (table base : String) (b : IsBase table base) → match_record table base ≡ some (base, b.number)
match_record_self table base b = rw append-nil at (match_record-append table base "" b nil-IsSuffix)

-- The pages build the OID of the entry of a group in a card, and of a door in a group.
pub card_group_oid_lem :
    (card group : String) (g : IsBase "0.5." group)
    → card_group_oid card group ≡ card ++ (".5." ++ g.number)
unfolding card_group_oid
card_group_oid_lem card group g = rw (match_record_self "0.5." group g, card_group_oid) refl

group_door_oid_lem :
    (group door : String) (d : IsBase "0.3." door)
    → group_door_oid group door ≡ group ++ (".2." ++ d.number)
unfolding group_door_oid
group_door_oid_lem group door d =
    rw (match_record_self "0.3." door d, group_door_oid)
      (ap (λ t. group ++ t) (sym (append_assoc ".2" "." d.number)))

get-upsert_same :
    {V : Type 0} (k : String) (fresh : V) (change : V → V) (m : Map V)
    → get k (upsert k fresh change m) ≡ some (change (or_else fresh (get k m)))
get-upsert_same k fresh change m = rw (get-upsert k k fresh change m, eq_refl k) refl

or_else-own :
    (k : String) (fresh : Card) (table : Map Card)
    → fresh.oid ≡ k
    → ((v : Card) → get k table ≡ some v → v.oid ≡ k)
    → (or_else fresh (get k table)).oid ≡ k
or_else-own k fresh table h own = elim (Option-cases (get k table)) [
  | inl absent ↦ rw absent h
  | inr (v, present) ↦ rw present (own v present)
]

card_in_group-entry :
    (card group : String) (g : IsBase "0.5." group) (v : Card) (m : Membership)
    → v.oid ≡ card
    → get (card ++ (".5." ++ g.number)) v.groups ≡ some m
    → m.member ≡ true
    → card_in_group (some v) group ≡ true
unfolding card_in_group
card_in_group-entry card group g v m own here on =
    rw (own, card_group_oid_lem card group g, here, on) refl

-- Once the server has answered the tick of a group with the text `true`, under the OID that the
-- page built for it, the page sees the card in the group, whatever the table held before.
pub card_in_group-granted :
    (card group : String) (now : ℕ) (table : Map Card)
    → IsBase "0.4." card
    → IsBase "0.5." group
    → IsTable "0.4." (λ v. v.oid) table
    → card_in_group
        (get card
          (cards (record { oid = card_group_oid card group; value = text "true" }) now table))
        group
      ≡ true
card_in_group-granted card group now table c g h =
    rw
      (
        card_group_oid_lem card group g,
        (cards-membership card g.number (text "true") now table c (unfold numeral in g.exact)).0,
        get-upsert_same card (fresh_card card (text "true") now) _ table,
      )
      (card_in_group-entry card group g _ _
        (or_else-own card (fresh_card card (text "true") now) table (unfold fresh_card in refl)
          (h.own card))
        (get-upsert_same (card ++ (".5." ++ g.number)) (record { group = text ""; member = false })
          _ _)
        refl)

some_permission-get :
    (door : String) (k : String) (m : Map Permission) (p : Permission)
    → get k m ≡ some p
    → p.allowed ≡ true
    → p.door ≡ text door
    → some_permission door (values m) ≡ true
unfolding some_permission get
some_permission-get door k [] p here on at_door = cc
some_permission-get door k ((j, q) ∷ m) p here on at_door = elim (Bool-cases (j == k)) [
  | inl hit ↦
      let same : q ≡ p = some-injective _ _ (rw hit at here) in
      rw (same, on, at_door, eq_refl door) refl
  | inr other ↦
      rw (some_permission-get door k m p (rw other at here) on at_door)
        (true-right (q.allowed && is_text door q.door))
]
  where
    true-right : (b : Bool) → (b || true) ≡ true
    true-right true = refl
    true-right false = refl

group_allows_door-entry :
    (door k : String) (v : Group) (p : Permission)
    → get k v.doors ≡ some p
    → p.allowed ≡ true
    → p.door ≡ text door
    → group_allows_door (some v) door ≡ true
unfolding group_allows_door
group_allows_door-entry door k v p here on at_door =
    some_permission-get door k v.doors p here on at_door

entry_field : (base n : String) → (base ++ (".2." ++ n)) ++ ".1" ≡ base ++ (".2." ++ (n ++ ".1"))
entry_field base n =
    append_assoc base (".2." ++ n) ".1" ∙ ap (λ t. base ++ t) (append_assoc ".2." n ".1")

-- Entry `n` of the group is there and allowed.
abbrev IsAllowed : String → String → Map Group → Type 0
IsAllowed group n table =
    (v : Group) × (get group table ≡ some v)
    × ((p : Permission) × (get (group ++ (".2." ++ n)) v.doors ≡ some p) × (p.allowed ≡ true))

IsAllowed-first :
    (js : Runtime) (group n : String) (now : ℕ) (table : Map Group)
    → IsBase "0.5." group
    → IsNumber n
    → IsAllowed group n
        (groups js (record { oid = group ++ (".2." ++ n); value = text "true" }) now table)
IsAllowed-first js group n now table g e =
    rw ((groups-permission js group n (text "true") now table g e).0) (
      _,
      get-upsert_same group (fresh_group group (text "true") now) _ table,
      (
        _,
        get-upsert_same (group ++ (".2." ++ n)) (record { door = text ""; allowed = false }) _ _,
        refl,
      ),
    )

allowed_door :
    (js : Runtime) (group door : String) (later : ℕ) (table : Map Group)
    → IsBase "0.5." group
    → (d : IsBase "0.3." door) → IsAllowed group d.number table
    → group_allows_door
        (get group (
          groups js
            (record { oid = group ++ (".2." ++ (d.number ++ ".1")); value = text door })
            later
            table))
        door
      ≡ true
allowed_door js group door later table g d (v, here, (p, at_key, on)) =
    rw
      (
        (groups-permission js group d.number (text door) later table g
            (unfold numeral in d.exact)).1,
        get-upsert_same group (fresh_group group (text door) later) _ table,
      )
      (group_allows_door-entry door (group ++ (".2." ++ d.number)) _ _
        (get-upsert_same (group ++ (".2." ++ d.number)) (record { door = text ""; allowed = false })
          _ _)
        (rw (here, at_key) on) refl)

-- Once the server has answered the tick of a door with the text `true` and with the OID of the door,
-- under the OIDs that the page built for them, the page sees the door allowed in the group, whatever
-- the table held before.
pub group_allows_door-granted :
    (js : Runtime) (group door : String) (now later : ℕ) (table : Map Group)
    → IsBase "0.5." group
    → IsBase "0.3." door
    → let oid = group_door_oid group door in
      group_allows_door
        (get group (
          groups js
            (record { oid = oid ++ ".1"; value = text door })
            later
            (groups js (record { oid = oid; value = text "true" }) now table)))
        door
      ≡ true
group_allows_door-granted js group door now later table g d =
    rw (group_door_oid_lem group door d, entry_field group d.number)
      (allowed_door js group door later
        (groups js (record { oid = group ++ (".2." ++ d.number); value = text "true" }) now table) g
        d (IsAllowed-first js group d.number now table g (unfold numeral in d.exact)))
