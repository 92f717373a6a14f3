-- ===== src/Console/Memberships/Revoked.antt =====
-- What `deleteGroup` of httpd/html/javascript/gate-control.js sends for the credentials before it
-- deletes an access level, and the store after it.
use mathlib.Core.List.{Memᴰ}
use mathlib.Core.Option.{some-injective}
use uhppoted_httpd.Prelude.{
  ℕ, String, Bool, true, false, ◌≡◌, refl, sym, ap, ◌∙◌, subst, List, [], ◌∷◌, some, All, All-if,
  or_left, or_right, if◌then◌else◌, Bool-cases, inl, inr, eq_iff, eq_refl,
}
use uhppoted_httpd.Text.{◌==◌}
use uhppoted_httpd.Value.{Runtime}
use uhppoted_httpd.OrderedMap.{Map, get}
use uhppoted_httpd.Oid.Laws.{IsBase}
use uhppoted_httpd.Db.Cards.{Card}
use uhppoted_httpd.Db.Sweep.{alive}
use uhppoted_httpd.Db.Store.{Dbc}
use uhppoted_httpd.Access.Membership.{card_group_oid, card_in_group, is_member}
use uhppoted_httpd.Access.Membership.Laws.{card_group_oid_lem}
use uhppoted_httpd.Console.Session.{Update}
use uhppoted_httpd.Console.Records.{records, records-All}
use uhppoted_httpd.Console.Relays.Slots.{apply}
use uhppoted_httpd.Console.Memberships.{cards_of, revoked}
use uhppoted_httpd.Console.Memberships.Entries.{IsEntry, hit, no-hit, All-map, groups_at}
use uhppoted_httpd.Console.Memberships.Aligned.{card_in_group-entry}
use uhppoted_httpd.Console.Memberships.Written.{IsLinked, apply-IsLinked, apply-member}
use uhppoted_httpd.Console.Memberships.Updates.{number_of, entry-injective, entry-present}

abbrev pub AreCards : List Card → Type 0
AreCards cs = All (λ c. IsBase "0.4." c.oid) cs

module _ (oid : String) (g : IsBase "0.5." oid) where
  revoked-IsEntry : (cs : List Card) → AreCards cs → All IsEntry (revoked oid cs)
  unfolding revoked
  revoked-IsEntry [] h = tt
  revoked-IsEntry (c ∷ cs) (b, h) =
      All-if IsEntry _ _ _ (c.oid, g.number, b, number_of oid g, card_group_oid_lem c.oid oid g)
        (revoked-IsEntry cs h)

  -- Every update is of an entry of the level, and clears it.
  revoked-value :
      (k group : String)
      → IsBase "0.4." k
      → IsBase "0.5." group
      → (cs : List Card) → AreCards cs
      → All
          (λ u. u.oid ≡ card_group_oid k group → (oid ≡ group) × ((u.value == "true") ≡ false))
          (revoked oid cs)
  unfolding revoked
  revoked-value k group b d [] h = tt
  revoked-value k group b d (c ∷ cs) (e, h) =
      All-if _ _ _ _ (λ same. ((entry-injective c.oid oid k group e g b d same).1, refl))
        (revoked-value k group b d cs h)

  -- A card of the list that has the level has an update.
  revoked-hit :
      (v : Card) (cs : List Card)
      → AreCards cs
      → Memᴰ v cs
      → card_in_group (some v) oid ≡ true
      → hit (revoked oid cs) (card_group_oid v.oid oid) ≡ true
  unfolding revoked
  revoked-hit v [] h m on = elim m [ ]
  revoked-hit v (c ∷ cs) (b, h) (Memᴰ.head same) on =
      rw (sym same, on, entry-present v.oid oid (subst (λ t. IsBase "0.4." t.oid) (sym same) b) g)
        (or_left _ _ (eq_refl (card_group_oid v.oid oid)))
  revoked-hit v (c ∷ cs) (b, h) (Memᴰ.tail m) on = later _ _ _ (revoked-hit v cs h m on)
    where
      later :
          (t : Bool) (u : Update) (us : List Update)
          → hit us (card_group_oid v.oid oid) ≡ true
          → hit (if t then u ∷ us else us) (card_group_oid v.oid oid) ≡ true
      later true u us e = or_right (u.oid == card_group_oid v.oid oid) _ e
      later false u us e = e

-- A record of a table that is not deleted is listed.
records-Mem :
    (k : String) (v : Card) (table : Map Card)
    → get k table ≡ some v
    → alive (some v.deleted) ≡ true
    → Memᴰ v (records (λ c. c.deleted) table)
unfolding records get
records-Mem k v [] e live = cc e
records-Mem k v ((j, c) ∷ table) e live = elim (Bool-cases (j == k)) [
  | inl same ↦ let f : c ≡ v = some-injective _ _ (rw same at e) in rw (f, live) (Memᴰ.head refl)
  | inr other ↦ listed (alive (some c.deleted)) (records-Mem k v table (rw other at e) live)
]
  where
    listed :
        (b : Bool)
        → Memᴰ v (records (λ c. c.deleted) table)
        → Memᴰ v (if b then c ∷ records (λ c. c.deleted) table else records (λ c. c.deleted) table)
    listed true m = Memᴰ.tail m
    listed false m = m

module _ (js : Runtime) (now : ℕ) (db : Dbc) (oid k : String) (v : Card) (h : IsLinked db)
    (g : IsBase "0.5." oid) (here : get k db.cards ≡ some v) where
  abbrev after : Dbc
  after = apply js now (revoked oid (cards_of db)) db

  cards-AreCards : AreCards (cards_of db)
  cards-AreCards =
      records-All (λ c. c.deleted) (λ c. IsBase "0.4." c.oid) db.cards h.store.cards.distinct
        (λ k c e live. rw (h.store.cards.own k c e) (h.store.cards.base k c e))

  -- What an entry of a card holds after the updates.
  revoked-member :
      (group : String)
      → IsBase "0.5." group
      → card_in_group (get k after.cards) group ≡ (
          if hit (revoked oid (cards_of db)) (card_group_oid k group)
          then false
          else card_in_group (some v) group)
  revoked-member group d =
      let us = revoked oid (cards_of db) in
      let entries = revoked-IsEntry oid g (cards_of db) cards-AreCards in
      let linked = apply-IsLinked js now us db entries h in
      let key = card_group_oid_lem k group d in
      let base = h.store.cards.base k v here in
      card_in_group-entry k group _ linked.store.cards d (linked.aligned k)
      ∙ ap (λ t. is_member (get t (groups_at after.cards k))) key
      ∙ apply-member js now k d.number base (number_of group d) false us db entries (
          All-map us (λ u f same. (f (same ∙ sym key)).1)
            (revoked-value oid g k group base d (cards_of db) cards-AreCards))
      ∙ ap (λ t. if hit us t then false else is_member (get t (groups_at db.cards k))) (sym key)
      ∙ ap (λ t. if hit us (card_group_oid k group) then false else t)
          (sym (card_in_group-entry k group db.cards h.store.cards d (h.aligned k))
            ∙ ap (λ t. card_in_group t group) here)

-- Where the store is well formed and each entry of a card that names an access level stands under
-- the OID that the page builds for it: once the updates that the deletion of a level sends for the
-- credentials are read into the store, a credential of the store that is not deleted does not have
-- the level, and no credential of the store has gained or lost any other.
pub revoked-clears :
    (js : Runtime) (now : ℕ) (db : Dbc) (oid k group : String) (v : Card)
    → IsLinked db
    → IsBase "0.5." oid
    → IsBase "0.5." group
    → get k db.cards ≡ some v
    → let db' = apply js now (revoked oid (cards_of db)) db in
      (alive (some v.deleted) ≡ true → card_in_group (get k db'.cards) oid ≡ false)
      × ((oid == group) ≡ false
          → card_in_group (get k db'.cards) group ≡ card_in_group (some v) group)
revoked-clears js now db oid k group v h g d here = (
  (λ live.
      revoked-member js now db oid k v h g here oid g
      ∙ settle _ (card_in_group (some v) oid) (λ on.
        subst (λ t. hit us (card_group_oid t oid) ≡ true) (h.store.cards.own k v here)
          (revoked-hit oid g v (cards_of db) people (records-Mem k v db.cards here live) on))),
  (λ other.
      revoked-member js now db oid k v h g here group d
      ∙ ap (λ t. if t then false else card_in_group (some v) group)
          (no-hit us _ (
            All-map us (λ u f same. cc (other, (eq_iff oid group).1 (f same).0))
              (revoked-value oid g k group (h.store.cards.base k v here) d (cards_of db) people)))),
)
  where
    us : List Update
    us = revoked oid (cards_of db)

    people : AreCards (cards_of db)
    people = cards-AreCards js now db oid k v h g here

    settle : (hits b : Bool) → (b ≡ true → hits ≡ true) → (if hits then false else b) ≡ false
    settle true b f = refl
    settle false true f = sym (f refl)
    settle false false f = refl
