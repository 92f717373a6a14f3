-- ===== src/Tabular/Changeset.antt =====
-- `changeset`, `getPage` and `pageForRow` of httpd/html/javascript/tabular.js with the tests
-- `deletable` of controllers.js, doors.js, cards.js, groups.js and users.js: what a commit of some
-- rows sends. `parseInt(text, 10)` is a parameter.
pub mod Laws
use uhppoted_httpd.Prelude.{
  String, Char, code, Bool, true, false, ◌&&◌, ◌||◌, not, List, [], ◌∷◌, ◌++◌, ◌≡◌, refl, ap,
  Option, none, some, arith, leb, nat_eq, Bool-cases, inl, inr, if◌then◌else◌,
}
use uhppoted_httpd.Text.{◌==◌}
use uhppoted_httpd.Value.{Value, nan, number}
use uhppoted_httpd.Tabular.Modified.{covers, find}

-- the entries of `pages`
pub data Page : Type 0 where
  overview interfaces controllers doors cards groups events logs users : Page

unfoldable pub get_page : String → Option Page
get_page tag =
    if tag == "overview"
    then some overview
    else if tag == "controller" || tag == "controllers"
    then some controllers
    else if tag == "door" || tag == "doors"
    then some doors
    else if tag == "card" || tag == "cards"
    then some cards
    else if tag == "group" || tag == "groups"
    then some groups
    else if tag == "events"
    then some events
    else if tag == "logs"
    then some logs
    else if tag == "user" || tag == "users"
    then some users
    else none

-- An element of a row with its `data-oid`; `is_input` where `td input` selects it.
pub record Element : Type 0 where
  pub oid : String
  pub value : String  -- `dataset.value`
  pub classes : List String
  pub is_input : Bool

pub record Row : Type 0 where
  pub oid : String
  pub classes : List String
  pub elements : List Element

abbrev pub has_class : String → List String → Bool
has_class c classes = find (λ s. s == c) classes

-- the classes of a row against the list, in its order
unfoldable pub page_for_row : List String → Option Page
page_for_row classes =
    if has_class "controller" classes
    then some controllers
    else if has_class "door" classes
    then some doors
    else if has_class "card" classes
    then some cards
    else if has_class "group" classes
    then some groups
    else if has_class "user" classes
    then some users
    else none

-- `/^\s*$/`
unfoldable pub is_space : Char → Bool
is_space c =
    let n = code c in
    (leb 9 n && leb n 13)
    || nat_eq n 32
    || nat_eq n 160
    || nat_eq n 5760
    || (leb 8192 n && leb n 8202)
    || nat_eq n 8232
    || nat_eq n 8233
    || nat_eq n 8239
    || nat_eq n 8287
    || nat_eq n 12288
    || nat_eq n 65279

unfoldable pub is_blank : String → Bool
is_blank String.[] = true
is_blank (String.◌∷◌ c s) = is_space c && is_blank s

-- `row.querySelector('td input.c')`
unfoldable pub input_of : String → List Element → Option Element
input_of c [] = none
input_of c (e ∷ es) = if e.is_input && has_class c e.classes then some e else input_of c es

-- an input that is there, has an OID, and is blank
unfoldable pub is_cleared : Option Element → Bool
is_cleared none = false
is_cleared (some e) = not (e.oid == "") && is_blank e.value

-- the number of a card: not a number, or 0
unfoldable pub is_unnumbered : (String → Value) → Option Element → Bool
is_unnumbered parse none = false
is_unnumbered parse (some e) =
    not (e.oid == "") && (elim (parse e.value) [ nan ↦ true | number n ↦ nat_eq n 0 | _ ↦ false ])

-- the elements that `[data-oid^="${oid}."]` selects, as far as they are modified
unfoldable pub changed : String → List Element → List Element
changed oid [] = []
changed oid (e ∷ es) =
    let rest = changed oid es in
    if covers oid e.oid && has_class "modified" e.classes then e ∷ rest else rest

-- Whether some element of a list passes a test, and whether some row does.
abbrev pub any_element : (Element → Bool) → List Element → Bool
any_element p [] = false
any_element p (e ∷ es) = p e || any_element p es

abbrev pub any_row : (Row → Bool) → List Row → Bool
any_row p [] = false
any_row p (r ∷ rs) = p r || any_row p rs

any_element-append :
    (p : Element → Bool) (xs ys : List Element)
    → any_element p (xs ++ ys) ≡ (any_element p xs || any_element p ys)
any_element-append p [] ys = refl
any_element-append p (x ∷ xs) ys = ground (arith, any_element-append p xs ys)

any_element-changed :
    (p : Element → Bool) (oid : String) (es : List Element)
    → any_element p (changed oid es)
      ≡ any_element (λ e. covers oid e.oid && has_class "modified" e.classes && p e) es
unfolding changed
any_element-changed p oid [] = refl
any_element-changed p oid (e ∷ es) = ground (arith, any_element-changed p oid es)

module _ (parse : String → Value) where
  -- `page.deletable && page.deletable(row)`
  unfoldable pub deletable : Page → Row → Bool
  deletable controllers row =
      is_cleared (input_of "name" row.elements) && is_cleared (input_of "ID" row.elements)
  deletable doors row = is_cleared (input_of "name" row.elements)
  deletable cards row =
      is_cleared (input_of "name" row.elements)
      && is_unnumbered parse (input_of "number" row.elements)
  deletable groups row = is_cleared (input_of "name" row.elements)
  deletable users row =
      is_cleared (input_of "name" row.elements) && is_cleared (input_of "uid" row.elements)
  deletable _ row = false

  -- the OIDs `updated` and `deleted`, in the order of the rows
  unfoldable pub changeset : Page → List Row → List Element × List String
  unfolding changed
  changeset page [] = ([], [])
  changeset page (r ∷ rs) =
      let rest = changeset page rs in
      if deletable page r
      then (rest.0, r.oid ∷ rest.1)
      else (changed r.oid r.elements ++ rest.0, rest.1)

  -- What is asked of the updated elements and of the deleted OIDs, row by row.
  pub changeset_lem :
      (page : Page) (rows : List Row) (p : Element → Bool) (oid : String)
      → (any_element p (changeset page rows).0
          ≡ any_row
              (λ r.
                not (deletable page r)
                && any_element
                    (λ e. covers r.oid e.oid && has_class "modified" e.classes && p e)
                    r.elements)
              rows)
        × (find (λ s. s == oid) (changeset page rows).1
            ≡ any_row (λ r. deletable page r && (r.oid == oid)) rows)
  unfolding changeset
  changeset_lem page [] p oid = (refl, refl)
  changeset_lem page (r ∷ rs) p oid =
      let rest = changeset_lem page rs p oid in
      elim (Bool-cases (deletable page r)) [
        | inl gone ↦ rw gone (rest.0, ap (λ b. (r.oid == oid) || b) rest.1)
        | inr stays ↦ rw stays (
          rw
              (
                any_element-append p (changed r.oid r.elements) (changeset page rs).0,
                any_element-changed p r.oid r.elements,
                rest.0,
              )
              refl,
          rest.1,
        )
      ]
