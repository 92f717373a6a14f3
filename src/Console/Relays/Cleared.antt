-- ===== src/Console/Relays/Cleared.antt =====
-- The updates that empty some channels of the controllers, as `deleteDoor` of
-- httpd/html/javascript/gate-control.js sends them, and the store after them.
use uhppoted_httpd.Prelude.{
  ℕ, String, Bool, true, false, ◌&&◌, ◌||◌, ◌≡◌, refl, sym, ap, ◌∙◌, List, [], ◌∷◌, ◌++◌, map, some,
  nat_eq, arith, All, if◌then◌else◌, Bool-cases, inl, inr, eq_refl,
}
use mathlib.Core.Option.{some-injective}
use uhppoted_httpd.Text.{◌==◌, ◌++◌ as ◌<>◌}
use uhppoted_httpd.Oid.Laws.{IsBase}
use uhppoted_httpd.Value.{Value, text, is_text, Runtime}
use uhppoted_httpd.OrderedMap.{Map, get}
use uhppoted_httpd.OrderedMap.Laws.{HasDistinctKeys}
use uhppoted_httpd.Db.Controllers.{Controller}
use uhppoted_httpd.Db.Sweep.{alive}
use uhppoted_httpd.Db.Store.{Dbc, object}
use uhppoted_httpd.Console.Session.{Update}
use uhppoted_httpd.Console.Records.{records}
use uhppoted_httpd.Console.Relays.{slot, door_suffix, entries, clear_slots, clear_door}
use uhppoted_httpd.Console.Relays.Slots.{
  at_slot, deleted_at, is_present, IsChannel, apply, at_slot-object, is_present-slot,
  deleted_at-slot, distinct-slot,
}

-- the slots that `clear_door` empties
abbrev pub channels_of : String → String → List (ℕ × Value) → List (String × ℕ)
channels_of oid k [] = []
channels_of oid k ((n, assigned) ∷ rest) =
    let later = channels_of oid k rest in if is_text oid assigned then (k, n) ∷ later else later

abbrev pub slots_of : String → List Controller → List (String × ℕ)
slots_of oid [] = []
slots_of oid (c ∷ cs) = channels_of oid c.oid (entries c.doors) ++ slots_of oid cs

abbrev pub clearing : List (String × ℕ) → List Update
clearing ts = map (λ t. record { oid = t.0 <> door_suffix t.1; value = "" }) ts

map-append : (ts us : List (String × ℕ)) → clearing (ts ++ us) ≡ clearing ts ++ clearing us
map-append [] us = refl
map-append (t ∷ ts) us =
    ap (λ l. record { oid = t.0 <> door_suffix t.1; value = "" } ∷ l) (map-append ts us)

clear_slots-clearing :
    (oid k : String) (es : List (ℕ × Value))
    → clear_slots oid k es ≡ clearing (channels_of oid k es)
unfolding clear_slots
clear_slots-clearing oid k [] = refl
clear_slots-clearing oid k ((n, v) ∷ es) = ground (arith, clear_slots-clearing oid k es)

pub clear_door-clearing :
    (oid : String) (cs : List Controller) → clear_door oid cs ≡ clearing (slots_of oid cs)
unfolding clear_door
clear_door-clearing oid [] = refl
clear_door-clearing oid (c ∷ cs) =
    rw (clear_slots-clearing oid c.oid (entries c.doors), clear_door-clearing oid cs)
      (sym (map-append (channels_of oid c.oid (entries c.doors)) (slots_of oid cs)))

abbrev pub hit : List (String × ℕ) → String → ℕ → Bool
hit [] k m = false
hit ((b, n) ∷ ts) k m = ((b == k) && nat_eq n m) || hit ts k m

abbrev pub IsTarget : Dbc → String × ℕ → Type 0
IsTarget db (b, n) = IsChannel n × IsBase "0.2." b × (is_present db.controllers b ≡ true)

module _ (js : Runtime) (now : ℕ) where
  -- The store after some slots have been emptied.
  pub record IsCleared (ts : List (String × ℕ)) (db db' : Dbc) : Type 0 where
    pub slots :
        (k : String) (m : ℕ)
        → at_slot db'.controllers k m ≡ (if hit ts k m then text "" else at_slot db.controllers k m)
    pub kept : (k : String) → deleted_at db'.controllers k ≡ deleted_at db.controllers k
    pub distinct : HasDistinctKeys db'.controllers

  still-IsTarget :
      (b : String) (n : ℕ) (db : Dbc)
      → IsChannel n
      → IsBase "0.2." b
      → (ts : List (String × ℕ)) → All (IsTarget db) ts
      → All (IsTarget (object js (record { oid = b <> door_suffix n; value = text "" }) now db)) ts
  still-IsTarget b n db channel base [] h = tt
  still-IsTarget b n db channel base ((k, m) ∷ ts) ((channel', base', there), h) = (
    (channel', base', is_present-slot js now n b "" k db channel base there),
    still-IsTarget b n db channel base ts h,
  )

  pub apply-IsCleared :
      (ts : List (String × ℕ)) (db : Dbc)
      → HasDistinctKeys db.controllers
      → All (IsTarget db) ts
      → IsCleared ts db (apply js now (clearing ts) db)
  unfolding apply
  apply-IsCleared [] db d h = record { slots = λ k m. refl; kept = λ k. refl; distinct = d }
  apply-IsCleared ((b, n) ∷ ts) db d ((channel, base, there), h) =
      let rest =
        apply-IsCleared ts (object js (record { oid = b <> door_suffix n; value = text "" }) now db)
          (distinct-slot js now n b "" db channel base d)
          (still-IsTarget b n db channel base ts h) in
      record {
        slots = λ k m.
            rest.slots k m
            ∙ ap (λ t. if hit ts k m then text "" else t)
                (at_slot-object js now n b "" k m db channel base there)
            ∙ either (hit ts k m) ((b == k) && nat_eq n m) (text "") (at_slot db.controllers k m);
        kept = λ k. rest.kept k ∙ deleted_at-slot js now n b "" k db channel base there;
        distinct = rest.distinct;
      }
    where
      either :
          (late now' : Bool) (x y : Value)
          → (if late then x else if now' then x else y) ≡ (if now' || late then x else y)
      either late now' x y = ground arith

-- The slots that hold the door are emptied.
hit-append :
    (ts us : List (String × ℕ)) (k : String) (m : ℕ)
    → hit (ts ++ us) k m ≡ (hit ts k m || hit us k m)
hit-append [] us k m = refl
hit-append ((b, n) ∷ ts) us k m = ground (arith, hit-append ts us k m)

here : (k : String) (n : ℕ) (ts : List (String × ℕ)) → hit ((k, n) ∷ ts) k n ≡ true
here k n ts = ground (arith, eq_refl k)

skip :
    (b : Bool) (t : String × ℕ) (ts : List (String × ℕ)) (k : String) (m : ℕ)
    → hit ts k m ≡ true
    → hit (if b then t ∷ ts else ts) k m ≡ true
skip true (j, n) ts k m h = ground (arith, h)
skip false t ts k m h = h

channels_of-hit :
    (oid : String) (c : Controller) (m : ℕ)
    → IsChannel m
    → is_text oid (slot m c.doors) ≡ true
    → hit (channels_of oid c.oid (entries c.doors)) c.oid m ≡ true
unfolding slot
channels_of-hit oid c m channel h = elim channel [
  | inl one ↦
      let g : is_text oid c.doors.door1 ≡ true = ground (arith, one, h) in
      rw (one, g) (here c.oid 1 _)
  | inr (inl two) ↦
      let g : is_text oid c.doors.door2 ≡ true = ground (arith, two, h) in
      rw two (skip (is_text oid c.doors.door1) (c.oid, 1) _ c.oid 2 (rw g (here c.oid 2 _)))
  | inr (inr (inl three)) ↦
      let g : is_text oid c.doors.door3 ≡ true = ground (arith, three, h) in
      rw three (
        skip (is_text oid c.doors.door1) (c.oid, 1) _ c.oid 3
          (skip (is_text oid c.doors.door2) (c.oid, 2) _ c.oid 3 (rw g (here c.oid 3 _))))
  | inr (inr (inr four)) ↦
      let g : is_text oid c.doors.door4 ≡ true = ground (arith, four, h) in
      rw four (
        skip (is_text oid c.doors.door1) (c.oid, 1) _ c.oid 4
          (skip (is_text oid c.doors.door2) (c.oid, 2) _ c.oid 4
            (skip (is_text oid c.doors.door3) (c.oid, 3) _ c.oid 4 (rw g (here c.oid 4 [])))))
]

or_right : (a b : Bool) → b ≡ true → (a || b) ≡ true
or_right a b h = ground (arith, h)

pub slots_of-hit :
    (oid k : String) (c : Controller) (m : ℕ) (table : Map Controller)
    → IsChannel m
    → get k table ≡ some c
    → alive (some c.deleted) ≡ true
    → is_text oid (slot m c.doors) ≡ true
    → hit (slots_of oid (records (λ c. c.deleted) table)) c.oid m ≡ true
unfolding records get
slots_of-hit oid k c m [] channel e live h = cc e
slots_of-hit oid k c m ((j, d) ∷ table) channel e live h = elim (Bool-cases (j == k)) [
  | inl same ↦
      let f : d ≡ c = some-injective _ _ (rw same at e) in
      rw
        (
          f,
          live,
          hit-append (channels_of oid c.oid (entries c.doors))
              (slots_of oid (records (λ c. c.deleted) table)) c.oid m,
        )
        (rw (channels_of-hit oid c m channel h) refl)
  | inr other ↦
      let rest = slots_of-hit oid k c m table channel (rw other at e) live h in
      elim (Bool-cases (alive (some d.deleted))) [
        | inl alive_too ↦
            rw
              (
                alive_too,
                hit-append (channels_of oid d.oid (entries d.doors))
                    (slots_of oid (records (λ c. c.deleted) table)) c.oid m,
              )
              (or_right _ _ rest)
        | inr gone ↦ rw gone rest
      ]
]

-- The slots are channels of controllers of the store.
channels_of-IsTarget :
    (oid k : String) (db : Dbc) (es : List (ℕ × Value))
    → All (λ e. IsChannel e.0) es
    → IsBase "0.2." k
    → is_present db.controllers k ≡ true
    → All (IsTarget db) (channels_of oid k es)
channels_of-IsTarget oid k db [] channels base there = tt
channels_of-IsTarget oid k db ((n, v) ∷ es) (channel, channels) base there =
    elim (Bool-cases (is_text oid v)) [
      | inl found ↦
          rw found ((channel, base, there), channels_of-IsTarget oid k db es channels base there)
      | inr other ↦ rw other (channels_of-IsTarget oid k db es channels base there)
    ]

All-append :
    (P : String × ℕ → Type 0) (ts us : List (String × ℕ)) → All P ts → All P us → All P (ts ++ us)
All-append P [] us h g = g
All-append P (t ∷ ts) us (p, h) g = (p, All-append P ts us h g)

pub slots_of-IsTarget :
    (oid : String) (db : Dbc) (cs : List Controller)
    → All (λ c. IsBase "0.2." c.oid × (is_present db.controllers c.oid ≡ true)) cs
    → All (IsTarget db) (slots_of oid cs)
slots_of-IsTarget oid db [] h = tt
slots_of-IsTarget oid db (c ∷ cs) ((base, there), h) =
    All-append (IsTarget db) _ _
      (channels_of-IsTarget oid c.oid db (entries c.doors)
        (inl refl, (inr (inl refl), (inr (inr (inl refl)), (inr (inr (inr refl)), tt)))) base there)
      (slots_of-IsTarget oid db cs h)
