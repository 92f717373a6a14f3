-- ===== src/Tabular/Cache.antt =====
-- httpd/html/javascript/cache.js: what `document.querySelector` and `querySelectorAll` found for an
-- OID, kept for later calls. The document may have changed by then: each call has the one of its time
-- as an argument, with what the two queries find in it.
use uhppoted_httpd.Prelude.{
  String, Bool, ◌≡◌, refl, sym, ap, ◌∙◌, List, [], Option, none, some, eq_refl, if◌then◌else◌,
  Option-cases, inl, inr,
}
use uhppoted_httpd.OrderedMap.{Map, get, set}
use uhppoted_httpd.OrderedMap.Laws.{get-set}

-- a read through a map: what it holds, or what is found now, which is then kept
unfoldable pub remember : {V : Type 0} → String → V → Map V → V × Map V
remember oid found map = elim (get oid map) [
  | some v ↦ (v, map)
  | none ↦ (found, set oid found map)
]

-- The two maps, each there or not; `null` is kept as well.
pub record Cache (E : Type 0) : Type 0 where
  pub elements : Option (Map (Option E))
  pub modified : Option (Map (List E))

-- the constructor
abbrev pub new_cache : (E : Type 0) → Bool → Bool → Cache E
new_cache E elements modified = record {
  elements = if elements then some [] else none;
  modified = if modified then some [] else none;
}

module _ {E : Type 0} where
  -- `put`, where the cache has a map of elements
  unfoldable pub put : String → E → Cache E → Cache E
  put oid e cache = record cache {
    elements = elim cache.elements [ none ↦ none | some map ↦ some (set oid (some e) map) ];
  }

  unfoldable pub query : (String → Option E) → String → Cache E → Option E × Cache E
  unfolding remember
  query document oid cache = elim cache.elements [
    | none ↦ (document oid, cache)
    | some map ↦ (
      (remember oid (document oid) map).0,
      record cache { elements = some (remember oid (document oid) map).1 },
    )
  ]

  unfoldable pub query_modified : (String → List E) → String → Cache E → List E × Cache E
  unfolding remember
  query_modified document oid cache = elim cache.modified [
    | none ↦ (document oid, cache)
    | some map ↦ (
      (remember oid (document oid) map).0,
      record cache { modified = some (remember oid (document oid) map).1 },
    )
  ]

module _ {V : Type 0} where
  remember-held :
      (oid : String) (found v : V) (map : Map V)
      → get oid map ≡ some v
      → remember oid found map ≡ (v, map)
  unfolding remember
  remember-held oid found v map h =
      ap (λ r. elim r [ some v ↦ (v, map) | none ↦ (found, set oid found map) ]) h

  remember-missed :
      (oid : String) (found : V) (map : Map V)
      → get oid map ≡ none
      → remember oid found map ≡ (found, set oid found map)
  unfolding remember
  remember-missed oid found map h =
      ap (λ r. elim r [ some v ↦ (v, map) | none ↦ (found, set oid found map) ]) h

  held_after : (oid : String) (found : V) (map : Map V) → get oid (set oid found map) ≡ some found
  held_after oid found map = rw (get-set oid oid found map, eq_refl oid) refl

  remember-keeps :
      (oid : String) (found later : V) (map : Map V)
      → remember oid later (remember oid found map).1 ≡ remember oid found map
  remember-keeps oid found later map = elim (Option-cases (get oid map)) [
    | inl absent ↦
        ap (λ r. remember oid later r.1) (remember-missed oid found map absent)
        ∙ remember-held oid later found (set oid found map) (held_after oid found map)
        ∙ sym (remember-missed oid found map absent)
    | inr (v, present) ↦
        ap (λ r. remember oid later r.1) (remember-held oid found v map present)
        ∙ remember-held oid later v map present
        ∙ sym (remember-held oid found v map present)
  ]

-- A cache with a map of the modified elements answers an OID a second time as it did the first,
-- whatever has become of the document, and does not change by that.
pub query_modified-again :
    {E : Type 0} (first later : String → List E) (oid : String) (map : Map (List E))
    (cache : Cache E)
    → cache.modified ≡ some map
    → query_modified later oid (query_modified first oid cache).1 ≡ query_modified first oid cache
unfolding query_modified
query_modified-again first later oid map cache h = rw h (
    ap (λ r. (r.0, record cache { modified = some r.1 }))
      (remember-keeps oid (first oid) (later oid) map))
