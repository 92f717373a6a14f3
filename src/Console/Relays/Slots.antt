-- ===== src/Console/Relays/Slots.antt =====
-- The channels of the controllers of the store, and what an update of one, read into the store
-- (`updated` of httpd/html/javascript/db.js), does to all of them.
use uhppoted_httpd.Prelude.{
  ℕ, String, Bool, true, false, ◌&&◌, ◌≡◌, refl, sym, ap, List, [], ◌∷◌, Option, none, some, nat_eq,
  arith, or_else, if◌then◌else◌, Bool-cases, inl, inr, ◌⊎◌, eq_iff,
}
use uhppoted_httpd.Text.{◌==◌, ◌++◌}
use uhppoted_httpd.Value.{Value, undefined, text, Runtime}
use uhppoted_httpd.OrderedMap.{Map, get}
use uhppoted_httpd.OrderedMap.Laws.{get-upsert, HasDistinctKeys, upsert-HasDistinctKeys}
use uhppoted_httpd.Oid.Laws.{IsBase}
use uhppoted_httpd.Schema.Controllers.{Key, suffix}
use uhppoted_httpd.Db.Controllers.{Controller, fresh}
use uhppoted_httpd.Db.Controllers.Laws.{write}
use uhppoted_httpd.Db.Store.{Dbc, object}
use uhppoted_httpd.Db.Routing.{object-controllers}
use uhppoted_httpd.Console.Session.{Update}
use uhppoted_httpd.Console.Relays.{slot, door_suffix}

-- what a channel of a controller holds; `undefined` where there is no such controller
unfoldable pub at_slot : Map Controller → String → ℕ → Value
unfolding slot
at_slot table k n = elim (get k table) [ none ↦ undefined | some c ↦ slot n c.doors ]

abbrev pub is_present : Map Controller → String → Bool
is_present table k = elim (get k table) [ none ↦ false | some c ↦ true ]

-- the time of a controller's deletion
unfoldable pub deleted_at : Map Controller → String → Value
deleted_at table k = elim (get k table) [ none ↦ undefined | some c ↦ c.deleted ]

-- a channel of a controller
abbrev pub IsChannel : ℕ → Type 0
IsChannel n = (n ≡ 1) ⊎ (n ≡ 2) ⊎ (n ≡ 3) ⊎ (n ≡ 4)

module _ (js : Runtime) (now : ℕ) where
  -- the updates as objects of a reply, read into the store
  unfoldable pub apply : List Update → Dbc → Dbc
  unfolding object
  apply [] db = db
  apply (u ∷ us) db = apply us (object js (record { oid = u.oid; value = text u.value }) now db)

  -- an update of the channel `n`, whose key in the schema is `key`
  keyed :
      (key : Key) (n : ℕ) (b x k : String) (m : ℕ) (db : Dbc)
      → IsBase "0.2." b
      → is_present db.controllers b ≡ true
      → ((v : Controller)
          → slot m (write key (text x) v).doors ≡ (if nat_eq n m then text x else slot m v.doors))
      → at_slot
          (object js (record { oid = b ++ suffix key; value = text x }) now db).controllers
          k
          m
        ≡ (if (b == k) && nat_eq n m then text x else at_slot db.controllers k m)
  unfolding at_slot
  keyed key n b x k m db base h writes = rw (object-controllers js b key (text x) now db base) (
      rw
        (
          at_slot,
          get-upsert b k (fresh b (text x) now)
              (λ v. write key (text x) (record v { touched = now })) db.controllers,
        )
        (elim (Bool-cases (b == k)) [
          | inl here ↦ held (get b db.controllers) h here refl
          | inr other ↦ rw other refl
        ]))
    where
      held :
          (r : Option Controller)
          → (elim r [ none ↦ false | some c ↦ true ]) ≡ true
          → (b == k) ≡ true
          → get b db.controllers ≡ r
          → (elim (if b == k
              then some
                  (write key (text x) (record (or_else (fresh b (text x) now) r) { touched = now }))
              else get k db.controllers) [ none ↦ undefined | some c ↦ slot m c.doors ])
            ≡ (if (b == k) && nat_eq n m
                then text x
                else (elim (get k db.controllers) [ none ↦ undefined | some c ↦ slot m c.doors ]))
      held none g here e = cc g
      held (some c) g here e =
          rw (here, sym (ap (λ t. get t db.controllers) ((eq_iff b k).0 here)), e)
            (writes (record c { touched = now }))

  -- An update of a channel of a controller of the store sets that channel and no other.
  pub at_slot-object :
      (n : ℕ) (b x k : String) (m : ℕ) (db : Dbc)
      → IsChannel n
      → IsBase "0.2." b
      → is_present db.controllers b ≡ true
      → at_slot
          (object js (record { oid = b ++ door_suffix n; value = text x }) now db).controllers
          k
          m
        ≡ (if (b == k) && nat_eq n m then text x else at_slot db.controllers k m)
  unfolding door_suffix slot write
  at_slot-object n b x k m db channel base h = elim channel [
    | inl one ↦ at Key.door1 1 one refl (λ v. ground arith)
    | inr (inl two) ↦ at Key.door2 2 two refl (λ v. ground arith)
    | inr (inr (inl three)) ↦ at Key.door3 3 three refl (λ v. ground arith)
    | inr (inr (inr four)) ↦ at Key.door4 4 four refl (λ v. ground arith)
  ]
    where
      at :
          (key : Key) (c : ℕ)
          → n ≡ c
          → door_suffix c ≡ suffix key
          → ((v : Controller)
              → slot m (write key (text x) v).doors
                ≡ (if nat_eq c m then text x else slot m v.doors))
          → at_slot
              (object js (record { oid = b ++ door_suffix n; value = text x }) now db).controllers
              k
              m
            ≡ (if (b == k) && nat_eq n m then text x else at_slot db.controllers k m)
      at key c same suffixed writes = rw (same, suffixed) (keyed key c b x k m db base h writes)

  -- The controllers stay where they are.
  pub is_present-object :
      (key : Key) (b x k : String) (db : Dbc)
      → IsBase "0.2." b
      → is_present db.controllers k ≡ true
      → is_present
          (object js (record { oid = b ++ suffix key; value = text x }) now db).controllers
          k
        ≡ true
  is_present-object key b x k db base h = rw (object-controllers js b key (text x) now db base) (
      rw
        (
          is_present,
          get-upsert b k (fresh b (text x) now)
              (λ v. write key (text x) (record v { touched = now })) db.controllers,
        )
        (elim (Bool-cases (b == k)) [ inl here ↦ rw here refl | inr other ↦ rw other h ]))

  pub is_present-slot :
      (n : ℕ) (b x k : String) (db : Dbc)
      → IsChannel n
      → IsBase "0.2." b
      → is_present db.controllers k ≡ true
      → is_present
          (object js (record { oid = b ++ door_suffix n; value = text x }) now db).controllers
          k
        ≡ true
  unfolding door_suffix
  is_present-slot n b x k db channel base h = elim channel [
    | inl one ↦ rw one (is_present-object Key.door1 b x k db base h)
    | inr (inl two) ↦ rw two (is_present-object Key.door2 b x k db base h)
    | inr (inr (inl three)) ↦ rw three (is_present-object Key.door3 b x k db base h)
    | inr (inr (inr four)) ↦ rw four (is_present-object Key.door4 b x k db base h)
  ]

  -- Nor does it delete one, or list one twice.
  deleted_at-object :
      (key : Key) (b x k : String) (db : Dbc)
      → IsBase "0.2." b
      → is_present db.controllers b ≡ true
      → ((v : Controller) → (write key (text x) v).deleted ≡ v.deleted)
      → deleted_at
          (object js (record { oid = b ++ suffix key; value = text x }) now db).controllers
          k
        ≡ deleted_at db.controllers k
  unfolding deleted_at
  deleted_at-object key b x k db base h writes =
      rw (object-controllers js b key (text x) now db base) (
        rw
          (
            deleted_at,
            get-upsert b k (fresh b (text x) now)
                (λ v. write key (text x) (record v { touched = now })) db.controllers,
          )
          (elim (Bool-cases (b == k)) [
            | inl here ↦ held (get b db.controllers) h here refl
            | inr other ↦ rw other refl
          ]))
    where
      held :
          (r : Option Controller)
          → (elim r [ none ↦ false | some c ↦ true ]) ≡ true
          → (b == k) ≡ true
          → get b db.controllers ≡ r
          → (elim (if b == k
              then some
                  (write key (text x) (record (or_else (fresh b (text x) now) r) { touched = now }))
              else get k db.controllers) [ none ↦ undefined | some c ↦ c.deleted ])
            ≡ (elim (get k db.controllers) [ none ↦ undefined | some c ↦ c.deleted ])
      held none g here e = cc g
      held (some c) g here e =
          rw (here, sym (ap (λ t. get t db.controllers) ((eq_iff b k).0 here)), e)
            (writes (record c { touched = now }))

  pub deleted_at-slot :
      (n : ℕ) (b x k : String) (db : Dbc)
      → IsChannel n
      → IsBase "0.2." b
      → is_present db.controllers b ≡ true
      → deleted_at
          (object js (record { oid = b ++ door_suffix n; value = text x }) now db).controllers
          k
        ≡ deleted_at db.controllers k
  unfolding door_suffix write
  deleted_at-slot n b x k db channel base h = elim channel [
    | inl one ↦ rw one (deleted_at-object Key.door1 b x k db base h (λ v. refl))
    | inr (inl two) ↦ rw two (deleted_at-object Key.door2 b x k db base h (λ v. refl))
    | inr (inr (inl three)) ↦ rw three (deleted_at-object Key.door3 b x k db base h (λ v. refl))
    | inr (inr (inr four)) ↦ rw four (deleted_at-object Key.door4 b x k db base h (λ v. refl))
  ]

  distinct-object :
      (key : Key) (b x : String) (db : Dbc)
      → IsBase "0.2." b
      → HasDistinctKeys db.controllers
      → HasDistinctKeys
          (object js (record { oid = b ++ suffix key; value = text x }) now db).controllers
  distinct-object key b x db base h = rw (object-controllers js b key (text x) now db base) (
      upsert-HasDistinctKeys b (fresh b (text x) now)
        (λ v. write key (text x) (record v { touched = now })) db.controllers h)

  pub distinct-slot :
      (n : ℕ) (b x : String) (db : Dbc)
      → IsChannel n
      → IsBase "0.2." b
      → HasDistinctKeys db.controllers
      → HasDistinctKeys
          (object js (record { oid = b ++ door_suffix n; value = text x }) now db).controllers
  unfolding door_suffix
  distinct-slot n b x db channel base h = elim channel [
    | inl one ↦ rw one (distinct-object Key.door1 b x db base h)
    | inr (inl two) ↦ rw two (distinct-object Key.door2 b x db base h)
    | inr (inr (inl three)) ↦ rw three (distinct-object Key.door3 b x db base h)
    | inr (inr (inr four)) ↦ rw four (distinct-object Key.door4 b x db base h)
  ]
