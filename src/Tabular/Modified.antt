-- ===== src/Tabular/Modified.antt =====
-- `modified` of httpd/html/javascript/tabular.js, with no cache: after a change below `oid` the element
-- of `oid` is marked by how many separate things below it are modified. The document is the list of
-- its elements with a `data-oid`, in document order. The array method `sort` is a parameter: it gets
-- a comparison that answers true or false in place of a number, so its order is the browser's.
pub mod Laws
pub mod Roots
pub mod Tops
use uhppoted_httpd.Prelude.{
  ℕ, String, Bool, true, false, ◌&&◌, ◌||◌, not, List, [], ◌∷◌, ◌++◌, map, leb, length,
  if◌then◌else◌,
}
use uhppoted_httpd.Text.{◌==◌, starts_with, ◌++◌ as ◌<>◌}

-- `dataset.modified`
pub data Count : Type 0 where
  unset single multiple : Count

pub record Element : Type 0 where
  pub oid : String
  pub is_row : Bool  -- `nodeName === 'TR'`
  pub is_modified : Bool
  pub is_new : Bool
  pub is_newish : Bool
  pub is_deletable : Bool  -- `page && page.deletable(element)`
  pub count : Count

-- `v.startsWith(e + '.')`
abbrev pub covers : String → String → Bool
covers e v = starts_with v (e <> ".")

abbrev pub find : (String → Bool) → List String → Bool
find p [] = false
find p (x ∷ xs) = p x || find p xs

-- `queryModified`: `[data-oid^="${oid}."]:is(.modified,.new)`, its OIDs
unfoldable pub query_modified : String → List Element → List String
query_modified oid [] = []
query_modified oid (e ∷ es) =
    let rest = query_modified oid es in
    if covers oid e.oid && (e.is_modified || e.is_new) then e.oid ∷ rest else rest

-- `filter((v) => v.startsWith(oid))`
unfoldable pub keep_prefixed : String → List String → List String
keep_prefixed oid [] = []
keep_prefixed oid (v ∷ vs) =
    let rest = keep_prefixed oid vs in if starts_with v oid then v ∷ rest else rest

-- `new Set(…)`: the first of each
unfoldable pub distinct_from : List String → List String → List String
distinct_from seen [] = []
distinct_from seen (v ∷ vs) =
    let rest = distinct_from (v ∷ seen) vs in if find (λ s. s == v) seen then rest else v ∷ rest

-- the callback `r` over the sorted list: an OID below one that is there already is left out
unfoldable pub reduce : List String → List String → List String
reduce acc [] = acc
reduce acc (v ∷ vs) = reduce (if find (λ e. covers e v) acc then acc else acc ++ v ∷ []) vs

abbrev pub newish : Element → Element
newish e = if e.is_row then record e { is_newish = e.is_new && e.is_deletable } else e

unfoldable pub mark_count : ℕ → Element → Element
mark_count n e =
    if leb 2 n
    then record e { count = multiple; is_modified = true }
    else if leb 1 n
    then record e { count = single; is_modified = true }
    else record e { count = unset; is_modified = false }

-- `document.querySelector`: the first element with the OID; where there is none, nothing happens
unfoldable pub change_first : String → (Element → Element) → List Element → List Element
change_first oid f [] = []
change_first oid f (e ∷ es) =
    let rest = change_first oid f es in if e.oid == oid then f e ∷ es else e ∷ rest

module _ (sort : List String → List String) where
  unfoldable pub count_below : String → List Element → ℕ
  unfolding query_modified keep_prefixed distinct_from reduce
  count_below oid doc =
      length (reduce [] (sort (distinct_from [] (keep_prefixed oid (query_modified oid doc)))))

  unfoldable pub modified : String → List Element → List Element
  unfolding count_below change_first mark_count
  modified oid doc =
      let n = count_below oid doc in change_first oid (λ e. mark_count n (newish e)) doc
