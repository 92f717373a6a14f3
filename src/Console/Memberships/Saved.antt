-- ===== src/Console/Memberships/Saved.antt =====
-- `saveBulkCredentialAccess` of httpd/html/javascript/gate-control.js and the store: the access
-- levels of the cards once its updates have been read back.
use mathlib.Core.Option.{some-injective}
use mathlib.Core.List.{Memᴰ}
use uhppoted_httpd.Access.Exclusive.{no_access_level_oid}
use uhppoted_httpd.Prelude.{
  ◌≢◌, ℕ, String, Bool, true, false, ◌||◌, ◌≡◌, refl, sym, ap, ◌∙◌, subst, Option, List, [], ◌∷◌,
  ◌++◌, some, none, arith, All, All-append, or_left, or_right, if◌then◌else◌, Bool-cases, inl, inr,
  eq_iff,
}
use uhppoted_httpd.Text.{◌==◌}
use uhppoted_httpd.Value.{Runtime}
use uhppoted_httpd.OrderedMap.{get}
use uhppoted_httpd.Oid.Laws.{IsBase}
use uhppoted_httpd.Db.Cards.{Card}
use uhppoted_httpd.Db.Groups.{Group}
use uhppoted_httpd.Db.Store.{Dbc}
use uhppoted_httpd.Access.Membership.{card_group_oid, card_in_group, is_member}
use uhppoted_httpd.Access.Membership.Laws.{card_group_oid_lem}
use uhppoted_httpd.Console.Session.{Update}
use uhppoted_httpd.Console.Records.{Browser, records-All, text_of_bool, differs, contains}
use uhppoted_httpd.Console.Relays.Slots.{apply}
use uhppoted_httpd.Console.Memberships.{
  groups_of, Mode, next, card_updates, bulk_updates, with_found, find_cards,
}
use uhppoted_httpd.Console.Memberships.Entries.{IsEntry, hit, no-hit, All-map, groups_at}
use uhppoted_httpd.Console.Memberships.Aligned.{card_in_group-entry}
use uhppoted_httpd.Console.Memberships.Written.{IsLinked, apply-IsLinked, apply-member}
use uhppoted_httpd.Console.Memberships.Updates.{
  AreBases, number_of, card_updates-IsEntry, card_updates-value, card_updates-hit,
}

hit-append : (us ws : List Update) (j : String) → hit (us ++ ws) j ≡ (hit us j || hit ws j)
hit-append [] ws j = refl
hit-append (u ∷ us) ws j = ground (arith, hit-append us ws j)

-- What a credential of the form is to have of a level: it loses a ticked one by `remove` and gets it
-- otherwise, and loses one that is not ticked by `replace`.
abbrev pub wished : Mode → Bool → Bool → Bool
wished Mode.remove had ticked = if ticked then false else had
wished Mode.add had ticked = if ticked then true else had
wished Mode.replace had ticked = ticked

next-wished : (mode : Mode) (had ticked : Bool) → next mode had ticked ≡ wished mode had ticked
unfolding next
next-wished Mode.add true true = refl
next-wished Mode.add true false = refl
next-wished Mode.add false true = refl
next-wished Mode.add false false = refl
next-wished Mode.remove true true = refl
next-wished Mode.remove true false = refl
next-wished Mode.remove false true = refl
next-wished Mode.remove false false = refl
next-wished Mode.replace had ticked = refl

-- No level besides No Access where No Access is one: `f` tells whether No Access is, `h` whether
-- another listed level is.
abbrev pub IsAlone : Dbc → (String → Bool) → (String → Bool) → Type 0
IsAlone db f h =
    f no_access_level_oid ≡ true
    → (g : Group) → Memᴰ g (groups_of db)
    → g.oid ≢ no_access_level_oid
    → h g.oid ≡ false

-- The levels that a credential has once the form is saved.
pub record IsSaved (db : Dbc) (mode : Mode) (oids selected : List String) (k : String) (v : Card)
    (after : String → Bool) : Type 0 where
  pub level :
      (g : Group)
      → Memᴰ g (groups_of db)
      → let had = card_in_group (some v) g.oid in
        after g.oid ≡ (if contains k oids then wished mode had (contains g.oid selected) else had)
  pub alone :
      (n : Group) → Memᴰ n (groups_of db) → n.oid ≡ no_access_level_oid → IsAlone db after after

wished-false :
    (mode : Mode) (had_none ticked_none had ticked : Bool)
    → wished mode had_none ticked_none ≡ true
    → (had_none ≡ true → had ≡ false)
    → (ticked_none ≡ true → ticked ≡ false)
    → (mode ≡ Mode.add → (had_none ≡ true → ticked ≡ false) × (ticked_none ≡ true → had ≡ false))
    → wished mode had ticked ≡ false
wished-false Mode.add a true had ticked w own form both = rw (form refl, (both refl).1 refl) refl
wished-false Mode.add true false had ticked w own form both = rw ((both refl).0 refl, own refl) refl
wished-false Mode.add false false had ticked w own form both = cc w
wished-false Mode.remove a true had ticked w own form both = cc w
wished-false Mode.remove false false had ticked w own form both = cc w
wished-false Mode.remove true false had true w own form both = refl
wished-false Mode.remove true false had false w own form both = own refl
wished-false Mode.replace a b had ticked w own form both = form w

module _ (db : Dbc) (store : IsLinked db) (mode : Mode) (selected : List String) (gs : List Group)
    (bases : AreBases gs) where
  -- The cards that the form finds are those of the store.
  abbrev pub IsOf : Card → Type 0
  IsOf c = get c.oid db.cards ≡ some c

  key-IsBase : (k : String) (c : Card) → get k db.cards ≡ some c → IsBase "0.4." k
  key-IsBase k c e = store.store.cards.base k c e

  bulk_updates-IsEntry :
      (cs : List Card) → All IsOf cs → All IsEntry (bulk_updates mode cs selected gs)
  unfolding bulk_updates
  bulk_updates-IsEntry [] h = tt
  bulk_updates-IsEntry (c ∷ cs) (e, h) =
      All-append IsEntry _ _
        (card_updates-IsEntry (next mode) c (key-IsBase c.oid c e) selected gs bases)
        (bulk_updates-IsEntry cs h)

  module _ (k : String) (v : Card) (here : get k db.cards ≡ some v) (g : Group)
      (b : IsBase "0.5." g.oid) where
    abbrev current : Bool
    current = card_in_group (some v) g.oid

    abbrev wanted : Bool
    wanted = next mode current (contains g.oid selected)

    -- The updates of the entry of `k` and `g` are those of a found card, and set what is wanted.
    bulk_updates-value :
        (P : Type 0) (cs : List Card)
        → All IsOf cs
        → All (λ c. c.oid ≡ k → P) cs
        → All
            (λ u. u.oid ≡ card_group_oid k g.oid → P × ((u.value == "true") ≡ wanted))
            (bulk_updates mode cs selected gs)
    unfolding bulk_updates
    bulk_updates-value P [] h p = tt
    bulk_updates-value P (c ∷ cs) (e, h) (p, ps) =
        All-append _ _ _
          (All-map _
            (λ u f same.
              let (own, set) = f same in
              let card : c ≡ v = some-injective _ _ (sym e ∙ ap (λ t. get t db.cards) own ∙ here) in
              (
                p own,
                ap (λ t. t == "true") set
                    ∙ read _
                    ∙ ap (λ t. next mode (card_in_group (some t) g.oid) (contains g.oid selected))
                        card,
              ))
            (card_updates-value (next mode) c (key-IsBase c.oid c e) selected k g.oid
              (key-IsBase k v here) b gs bases))
          (bulk_updates-value P cs h ps)
      where
        read : (b : Bool) → (text_of_bool b == "true") ≡ b
        read true = refl
        read false = refl

    bulk_updates-hit :
        (cs : List Card)
        → All IsOf cs
        → Memᴰ v cs
        → v.oid ≡ k
        → Memᴰ g gs
        → differs wanted current ≡ true
        → hit (bulk_updates mode cs selected gs) (card_group_oid k g.oid) ≡ true
    unfolding bulk_updates
    bulk_updates-hit [] h m own n d = elim m [ ]
    bulk_updates-hit (c ∷ cs) (e, h) (Memᴰ.head same) own n d =
        rw (hit-append, sym same, sym own)
          (or_left _ _ (
            card_updates-hit (next mode) v (subst (IsBase "0.4.") (sym own) (key-IsBase k v here))
              selected g gs bases n d))
    bulk_updates-hit (c ∷ cs) (e, h) (Memᴰ.tail m) own n d =
        rw (hit-append, bulk_updates-hit cs h m own n d)
          (or_right
            (hit (card_updates (next mode) (some c) c.oid selected gs) (card_group_oid k g.oid))
            true refl)

    -- What the store holds after the updates of the cards.
    bulk_updates-member :
        (js : Runtime) (now : ℕ) (cs : List Card) (chosen : Bool)
        → All IsOf cs
        → All (λ c. c.oid ≡ k → chosen ≡ true) cs
        → (chosen ≡ true → Memᴰ v cs)
        → Memᴰ g gs
        → card_in_group (get k (apply js now (bulk_updates mode cs selected gs) db).cards) g.oid
          ≡ (if chosen then wanted else current)
    bulk_updates-member js now cs chosen h c m n =
        let us = bulk_updates mode cs selected gs in
        let entries = bulk_updates-IsEntry cs h in
        let after = apply-IsLinked js now us db entries store in
        let values = bulk_updates-value (chosen ≡ true) cs h c in
        let key = card_group_oid_lem k g.oid b in
        card_in_group-entry k g.oid _ after.store.cards b (after.aligned k)
        ∙ ap (λ t. is_member (get t (groups_at (apply js now us db).cards k))) key
        ∙ apply-member js now k b.number (key-IsBase k v here) (number_of g.oid b) wanted us db
            entries (All-map us (λ u f same. (f (same ∙ sym key)).1) values)
        ∙ ap (λ t. if hit us t then wanted else is_member (get t (groups_at db.cards k))) (sym key)
        ∙ ap (λ t. if hit us (card_group_oid k g.oid) then wanted else t)
            (sym (card_in_group-entry k g.oid db.cards store.store.cards b (store.aligned k))
              ∙ ap (λ t. card_in_group t g.oid) here)
        ∙ settle chosen (hit us (card_group_oid k g.oid)) wanted current
            (λ yes d. bulk_updates-hit cs h (m yes) (store.store.cards.own k v here) n d)
            (λ no_. no-hit us _ (All-map us (λ u f same. cc (no_, (f same).0)) values))
      where
        settle :
            (chosen hits w c : Bool)
            → (chosen ≡ true → differs w c ≡ true → hits ≡ true)
            → (chosen ≡ false → hits ≡ false)
            → (if hits then w else c) ≡ (if chosen then w else c)
        settle true true w c h k = refl
        settle true false true true h k = refl
        settle true false true false h k = h refl refl
        settle true false false true h k = sym (h refl refl)
        settle true false false false h k = refl
        settle false hits w c h k = rw (k refl) refl

module _ (browser : Browser) (db : Dbc) (store : IsLinked db) where
  abbrev IsHeld : Card → Type 0
  IsHeld c = get c.oid db.cards ≡ some c

  find_cards-IsOf : (oids : List String) → All IsHeld (find_cards browser db oids)
  unfolding find_cards
  find_cards-IsOf [] = tt
  find_cards-IsOf (oid ∷ oids) = go (get oid db.cards) refl (find_cards-IsOf oids)
    where
      go :
          (r : Option Card)
          → get oid db.cards ≡ r
          → All IsHeld (find_cards browser db oids)
          → All IsHeld (with_found r (find_cards browser db oids))
      go none e h = h
      go (some c) e h = (ap (λ t. get t db.cards) (store.store.cards.own oid c e) ∙ e, h)

  find_cards-contains :
      (k : String) (oids : List String)
      → All (λ c. c.oid ≡ k → contains k oids ≡ true) (find_cards browser db oids)
  unfolding find_cards
  find_cards-contains k [] = tt
  find_cards-contains k (oid ∷ oids) =
      go (get oid db.cards) refl (later _ (find_cards-contains k oids))
    where
      later :
          (cs : List Card)
          → All (λ c. c.oid ≡ k → contains k oids ≡ true) cs
          → All (λ c. c.oid ≡ k → contains k (oid ∷ oids) ≡ true) cs
      later [] h = tt
      later (c ∷ cs) (p, h) = ((λ e. or_right (oid == k) _ (p e)), later cs h)

      go :
          (r : Option Card)
          → get oid db.cards ≡ r
          → All (λ c. c.oid ≡ k → contains k (oid ∷ oids) ≡ true) (find_cards browser db oids)
          → All
              (λ c. c.oid ≡ k → contains k (oid ∷ oids) ≡ true)
              (with_found r (find_cards browser db oids))
      go none e h = h
      go (some c) e h =
          ((λ own. or_left _ _ ((eq_iff oid k).1 (sym (store.store.cards.own oid c e) ∙ own))), h)

  find_cards-finds :
      (k : String) (v : Card)
      → get k db.cards ≡ some v
      → (oids : List String) → contains k oids ≡ true
      → Memᴰ v (find_cards browser db oids)
  unfolding find_cards
  find_cards-finds k v here [] h = cc h
  find_cards-finds k v here (oid ∷ oids) h = elim (Bool-cases (oid == k)) [
    | inl same ↦
        rw (find_cards, ap (λ t. get t db.cards) ((eq_iff oid k).0 same) ∙ here) (Memᴰ.head refl)
    | inr other ↦ among (get oid db.cards) (find_cards-finds k v here oids (rw other at h))
  ]
    where
      among :
          (r : Option Card)
          → Memᴰ v (find_cards browser db oids)
          → Memᴰ v (with_found r (find_cards browser db oids))
      among none m = m
      among (some c) m = Memᴰ.tail m

  groups-AreBases : AreBases (groups_of db)
  groups-AreBases =
      records-All (λ g. g.deleted) (λ g. IsBase "0.5." g.oid) db.groups store.store.groups.distinct
        (λ k g e live. rw (store.store.groups.own k g e) (store.store.groups.base k g e))

  -- One listed level of one credential of the store.
  bulk_updates-level :
      (js : Runtime) (now : ℕ) (mode : Mode) (oids selected : List String) (k : String) (v : Card)
      (g : Group)
      → get k db.cards ≡ some v
      → Memᴰ g (groups_of db)
      → let had = card_in_group (some v) g.oid in
        card_in_group
          (get k
            (apply js now
              (bulk_updates mode (find_cards browser db oids) selected (groups_of db))
              db).cards)
          g.oid
        ≡ (if contains k oids then wished mode had (contains g.oid selected) else had)
  bulk_updates-level js now mode oids selected k v g here n =
      bulk_updates-member db store mode selected (groups_of db) groups-AreBases k v here g
        (base_at g (groups_of db) groups-AreBases n) js now (find_cards browser db oids)
        (contains k oids) (find_cards-IsOf oids) (find_cards-contains k oids)
        (find_cards-finds k v here oids) n
      ∙ ap (λ t. if contains k oids then t else card_in_group (some v) g.oid)
          (next-wished mode (card_in_group (some v) g.oid) (contains g.oid selected))
    where
      base_at : (g : Group) (gs : List Group) → AreBases gs → Memᴰ g gs → IsBase "0.5." g.oid
      base_at g [] h m = elim m [ ]
      base_at g (x ∷ gs) (b, h) (Memᴰ.head same) = subst (λ t. IsBase "0.5." t.oid) (sym same) b
      base_at g (x ∷ gs) (b, h) (Memᴰ.tail m) = base_at g gs h m

  -- Where the store is well formed and each entry of a card that names an access level stands under
  -- the OID that the page builds for it, and neither a credential of the store nor what is ticked has
  -- No Access along with another listed level, nor, by `add`, both together: once the updates that the
  -- form for several credentials sends are read into the store, the credential, if the form names it,
  -- has of the listed access levels what it is to have: by `add` what it had and what is ticked, by
  -- `remove` what it had and is not ticked, by `replace` what is ticked; if the form does not name it,
  -- it has those that it had; and it does not have No Access, where that is listed, along with
  -- another listed level.
  pub bulk_updates-IsSaved :
      (js : Runtime) (now : ℕ) (mode : Mode) (oids selected : List String) (k : String) (v : Card)
      → get k db.cards ≡ some v
      → let had = λ (l : String). card_in_group (some v) l in
        let ticked = λ (l : String). contains l selected in
        IsAlone db had had
        → IsAlone db ticked ticked
        → (mode ≡ Mode.add → IsAlone db had ticked × IsAlone db ticked had)
        → IsSaved db mode oids selected k v (λ l.
          card_in_group
            (get k
              (apply js now
                (bulk_updates mode (find_cards browser db oids) selected (groups_of db))
                db).cards)
            l)
  bulk_updates-IsSaved js now mode oids selected k v here own form both = record {
    level = level;
    alone = λ n m none_ h g m' other.
        level g m'
        ∙ final (contains k oids) f t (f g.oid) (t g.oid)
            (sym (ap (λ l. if contains k oids then wished mode (f l) (t l) else f l) none_)
              ∙ sym (level n m)
              ∙ ap after none_
              ∙ h)
            (λ e. own e g m' other) (λ e. form e g m' other)
            (λ adds. ((λ e. (both adds).0 e g m' other), λ e. (both adds).1 e g m' other));
  }
    where
      f : String → Bool
      f l = card_in_group (some v) l

      t : String → Bool
      t l = contains l selected

      after : String → Bool
      after l =
          card_in_group
            (get k
              (apply js now (bulk_updates mode (find_cards browser db oids) selected (groups_of db))
                db).cards)
            l

      level :
          (g : Group)
          → Memᴰ g (groups_of db)
          → after g.oid ≡ (if contains k oids then wished mode (f g.oid) (t g.oid) else f g.oid)
      level g m = bulk_updates-level js now mode oids selected k v g here m

      final :
          (named : Bool) (f t : String → Bool) (had ticked : Bool)
          → (if named
              then wished mode (f no_access_level_oid) (t no_access_level_oid)
              else f no_access_level_oid)
            ≡ true
          → (f no_access_level_oid ≡ true → had ≡ false)
          → (t no_access_level_oid ≡ true → ticked ≡ false)
          → (mode ≡ Mode.add
              → (f no_access_level_oid ≡ true → ticked ≡ false)
                × (t no_access_level_oid ≡ true → had ≡ false))
          → (if named then wished mode had ticked else had) ≡ false
      final true f t had ticked w own form both =
          wished-false mode (f no_access_level_oid) (t no_access_level_oid) had ticked w own form
            both
      final false f t had ticked w own form both = own w
