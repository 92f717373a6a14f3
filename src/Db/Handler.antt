-- ===== src/Db/Handler.antt =====
-- The shape that the handlers of httpd/html/javascript/db.js share: match the OID, make the object
-- if the table has none, touch it, and change the field that the rest of the OID names.
use mathlib.Core.Option.{some-injective}
use uhppoted_httpd.Prelude.{
  String, ◌≡◌, sym, ◌∙◌, ap, subst, fun_ext, Bool-cases, Option-cases, List, [], ◌∷◌, none, some,
  inl, inr, All, or_else, eq_iff,
}
use uhppoted_httpd.Text.{◌++◌, ◌==◌}
use uhppoted_httpd.Oid.{match_base}
use uhppoted_httpd.Oid.Laws.{IsBase, IsSuffix, match_base-append, match_base-IsBase}
use uhppoted_httpd.OrderedMap.{Map, get, upsert}
use uhppoted_httpd.OrderedMap.Laws.{get-upsert, HasDistinctKeys, upsert-HasDistinctKeys}
use uhppoted_httpd.Switch.{switch, select, switch-eq-select}

module _ {R : Type 0} where
  abbrev pub handle : String → String → (String → R) → (String → R → R) → Map R → Map R
  handle prefix oid fresh change table = elim (match_base prefix oid) [
    | none ↦ table
    | some base ↦ upsert base (fresh base) (change base) table
  ]

  -- A field of the schema: the branch is chosen by the suffix alone.
  pub handle-suffix :
      (prefix base s : String) (fresh : String → R) (cases : List (String × (R → R)))
      (default touch write : R → R) (table : Map R)
      → IsBase prefix base
      → IsSuffix s
      → ((v : R) → select s cases default v ≡ write v)
      → handle prefix (base ++ s) fresh (λ b v. switch b (base ++ s) cases default (touch v)) table
        ≡ upsert base (fresh base) (λ v. write (touch v)) table
  handle-suffix prefix base s fresh cases default touch write table b h same =
      rw (match_base-append prefix base s b h, handle)
        (rw switch-eq-select
          (ap (λ (f : R → R). upsert base (fresh base) f table) (fun_ext (λ v. same (touch v)))))

  -- A table of the store: no key twice, each key the OID of a record of the table, and each object
  -- under its own OID.
  pub record IsTable (prefix : String) (oid : R → String) (table : Map R) : Type 0 where
    pub distinct : HasDistinctKeys table
    pub base : (k : String) (v : R) → get k table ≡ some v → IsBase prefix k
    pub own : (k : String) (v : R) → get k table ≡ some v → oid v ≡ k

  pub nil-IsTable : (prefix : String) (oid : R → String) → IsTable prefix oid []
  unfolding get
  nil-IsTable prefix oid = record { distinct = tt; base = λ k v e. cc; own = λ k v e. cc }

  or_else-own :
      {prefix : String} (oid : R → String) (k : String) (fresh : R) (table : Map R)
      → oid fresh ≡ k
      → IsTable prefix oid table
      → oid (or_else fresh (get k table)) ≡ k
  or_else-own oid k fresh table own h = elim (Option-cases (get k table)) [
    | inl absent ↦ rw absent own
    | inr (v, present) ↦ rw present (h.own k v present)
  ]

  pub upsert-IsTable :
      (prefix : String) (oid : R → String) (k : String) (fresh : R) (change : R → R) (table : Map R)
      → IsBase prefix k
      → oid fresh ≡ k
      → ((v : R) → oid (change v) ≡ oid v)
      → IsTable prefix oid table
      → IsTable prefix oid (upsert k fresh change table)
  upsert-IsTable prefix oid k fresh change table b own keep h = record {
    distinct = upsert-HasDistinctKeys k fresh change table h.distinct;
    base = λ j v e. elim (Bool-cases (k == j)) [
      | inl hit ↦ subst (IsBase prefix) ((eq_iff k j).0 hit) b
      | inr other ↦ h.base j v (rw (get-upsert, other) at e)
    ];
    own = λ j v e. elim (Bool-cases (k == j)) [
      | inl hit ↦
          let f : change (or_else fresh (get k table)) ≡ v =
            some-injective _ _ (rw (get-upsert, hit) at e) in
          ap oid (sym f) ∙ keep _ ∙ or_else-own oid k fresh table own h ∙ (eq_iff k j).0 hit
      | inr other ↦ h.own j v (rw (get-upsert, other) at e)
    ];
  }

  -- Whatever the object, a handler keeps the table well formed.
  pub handle-IsTable :
      (prefix : String) (oid : R → String) (o : String) (fresh : String → R)
      (change : String → R → R) (table : Map R)
      → ((b : String) → oid (fresh b) ≡ b)
      → ((b : String) (v : R) → oid (change b v) ≡ oid v)
      → IsTable prefix oid table
      → IsTable prefix oid (handle prefix o fresh change table)
  handle-IsTable prefix oid o fresh change table own keep h =
      elim (Option-cases (match_base prefix o)) [
        | inl missed ↦ rw (missed, handle) h
        | inr (b, found) ↦
            rw (found, handle)
              (upsert-IsTable prefix oid b (fresh b) (change b) table
                (match_base-IsBase prefix o b found) (own b) (keep b) h)
      ]

  -- A switch whose branches all keep a field keeps it.
  pub switch-keeps :
      {A : Type 0} (f : R → A) (base oid : String) (cases : List (String × (R → R)))
      (default : R → R)
      → All (λ c. (v : R) → f (c.1 v) ≡ f v) cases
      → ((v : R) → f (default v) ≡ f v)
      → (v : R) → f (switch base oid cases default v) ≡ f v
  unfolding switch
  switch-keeps f base oid [] default h d v = d v
  switch-keeps f base oid ((s, action) ∷ cases) default (here, later) d v =
      elim (Bool-cases (oid == base ++ s)) [
        | inl hit ↦ rw (hit, switch) (here v)
        | inr other ↦ rw (other, switch) (switch-keeps f base oid cases default later d v)
      ]
