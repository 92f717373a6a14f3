-- ===== src/Tabular/Changeset/Laws.antt =====
-- What a commit of rows of httpd/html/javascript/tabular.js sends, and when a row is deleted with it.
use mathlib.Core.Option.{some-injective}
use uhppoted_httpd.Prelude.{
  not_true, ℕ, ap, sym, subst, String, Bool, true, false, not, ◌&&◌, ◌≡◌, ◌≢◌, ◌⊎◌, ◌↔◌, refl, inl,
  inr, List, [], ◌∷◌, Option, none, some, All, arith, eq_iff, nat_eq,
}
use uhppoted_httpd.Text.{◌==◌}
use uhppoted_httpd.Value.{Value, undefined, null, nan, boolean, number, text, array, object}
use uhppoted_httpd.Tabular.Modified.{covers, find}
use uhppoted_httpd.Tabular.Changeset.{
  Page, overview, interfaces, controllers, doors, cards, groups, events, logs, users, Element, Row,
  has_class, is_space, is_blank, input_of, is_cleared, is_unnumbered, any_element, any_row,
  deletable, changeset, changeset_lem,
}

abbrev pub AreSpaces : String → Type 0
AreSpaces String.[] = Unit
AreSpaces (String.◌∷◌ c s) = (is_space c ≡ true) × AreSpaces s

is_blank_iff : (s : String) → (is_blank s ≡ true) ↔ AreSpaces s
unfolding is_blank
is_blank_iff String.[] = (λ h. tt, λ h. refl)
is_blank_iff (String.◌∷◌ c s) = (
  (λ h. (ground (arith, h), (is_blank_iff s).0 (ground (arith, h)))),
  λ (space, more). ground (arith, space, (is_blank_iff s).1 more),
)

-- What a field must hold for its row to be deleted.
pub data Kind : Type 0 where
  blank no_number : Kind

abbrev pub Holds : (String → Value) → Kind → Element → Type 0
Holds parse blank e = AreSpaces e.value
Holds parse no_number e = (parse e.value ≡ nan) ⊎ (parse e.value ≡ number 0)

-- The fields of a page's row that must, by their classes.
abbrev pub fields : Page → List (String × Kind)
fields controllers = ("name", blank) ∷ ("ID", blank) ∷ []
fields doors = ("name", blank) ∷ []
fields cards = ("name", blank) ∷ ("number", no_number) ∷ []
fields groups = ("name", blank) ∷ []
fields users = ("name", blank) ∷ ("uid", blank) ∷ []
fields _ = []

-- A field is there, has an OID, and holds nothing, or no number.
abbrev pub IsVoid : (String → Value) → Kind → Option Element → Type 0
IsVoid parse kind field = (e : Element) × (field ≡ some e) × (e.oid ≢ "") × Holds parse kind e

-- The page has such fields, and the row's are all void.
abbrev pub IsEmptied : (String → Value) → Page → Row → Type 0
IsEmptied parse page row =
    (fields page ≢ []) × All (λ f. IsVoid parse f.1 (input_of f.0 row.elements)) (fields page)

abbrev number_in : Value → ℕ
number_in (number n) = n
number_in _ = 1

module _ (parse : String → Value) where
  IsVoid-iff :
      (kind : Kind) (e : Element) (t : Bool)
      → (t ≡ true) ↔ Holds parse kind e
      → ((not (e.oid == "") && t) ≡ true) ↔ IsVoid parse kind (some e)
  IsVoid-iff kind e t same = (
    (λ h.
        let (there, passed) = both (e.oid == "") t h in
        (e, refl, (λ gone. cc (there, (eq_iff e.oid "").1 gone)), same.0 passed)),
    λ (e', f, there, holds).
        let (there', holds') =
          subst (λ x. (x.oid ≢ "") × Holds parse kind x) (sym (some-injective _ _ f))
            (there, holds) in
        ground (arith, not_true (e.oid == "") (λ h. there' ((eq_iff e.oid "").0 h)), same.1 holds'),
  )
    where
      both : (a b : Bool) → (not a && b) ≡ true → (a ≡ false) × (b ≡ true)
      both a b h = (ground (arith, h), ground (arith, h))

  is_cleared_iff : (field : Option Element) → (is_cleared field ≡ true) ↔ IsVoid parse blank field
  unfolding is_cleared
  is_cleared_iff none = (λ h. cc h, λ v. cc v.1)
  is_cleared_iff (some e) = IsVoid-iff blank e (is_blank e.value) (is_blank_iff e.value)

  is_unnumbered_iff :
      (field : Option Element) → (is_unnumbered parse field ≡ true) ↔ IsVoid parse no_number field
  unfolding is_unnumbered
  is_unnumbered_iff none = (λ h. cc h, λ v. cc v.1)
  is_unnumbered_iff (some e) = IsVoid-iff no_number e _ (unnumbered (parse e.value))
    where
      unnumbered :
          (v : Value)
          → ((elim v [ nan ↦ true | number n ↦ nat_eq n 0 | _ ↦ false ]) ≡ true)
            ↔ ((v ≡ nan) ⊎ (v ≡ number 0))
      unnumbered nan = (λ h. inl refl, λ v. refl)
      unnumbered (number n) = (
        (λ h. inr (ap number (ground (arith, h)))),
        λ v. elim v [ inl e ↦ cc e | inr e ↦ zero_number n e ],
      )
        where
          zero_number : (n : ℕ) → number n ≡ number 0 → nat_eq n 0 ≡ true
          zero_number n e = let z : n ≡ 0 = ap number_in e in ground (arith, z)
      unnumbered undefined = (λ h. cc h, λ v. elim v [ inl e ↦ cc e | inr e ↦ cc e ])
      unnumbered null = (λ h. cc h, λ v. elim v [ inl e ↦ cc e | inr e ↦ cc e ])
      unnumbered (boolean b) = (λ h. cc h, λ v. elim v [ inl e ↦ cc e | inr e ↦ cc e ])
      unnumbered (text s) = (λ h. cc h, λ v. elim v [ inl e ↦ cc e | inr e ↦ cc e ])
      unnumbered (array vs) = (λ h. cc h, λ v. elim v [ inl e ↦ cc e | inr e ↦ cc e ])
      unnumbered (object ms) = (λ h. cc h, λ v. elim v [ inl e ↦ cc e | inr e ↦ cc e ])

  one_iff :
      {A : Type 0} {f : A} {fs : List A} {b : Bool} {P : Type 0}
      → (b ≡ true) ↔ P
      → (b ≡ true) ↔ ((f ∷ fs ≢ []) × (P × Unit {0}))
  one_iff same = ((λ h. ((λ e. cc e), (same.0 h, tt))), λ (there, (p, _)). same.1 p)

  two_iff :
      {A : Type 0} {f : A} {fs : List A} {a b : Bool} {P Q : Type 0}
      → (a ≡ true) ↔ P
      → (b ≡ true) ↔ Q
      → ((a && b) ≡ true) ↔ ((f ∷ fs ≢ []) × (P × (Q × Unit {0})))
  two_iff {a = a} {b = b} p q = (
    (λ h. ((λ e. cc e), (p.0 (ground (arith, h)), (q.0 (ground (arith, h)), tt)))),
    λ (there, (x, (y, _))). ground (arith, p.1 x, q.1 y),
  )

  none_iff : {A : Type 0} {P : Type 0} → (false ≡ true) ↔ ((◌≢◌ {A = List A} [] []) × P)
  none_iff = (λ h. cc h, λ (there, p). absurd (there refl))

  deletable_iff :
      (page : Page) (row : Row) → (deletable parse page row ≡ true) ↔ IsEmptied parse page row
  unfolding deletable
  deletable_iff controllers row =
      two_iff (is_cleared_iff (input_of "name" row.elements))
        (is_cleared_iff (input_of "ID" row.elements))
  deletable_iff doors row = one_iff (is_cleared_iff (input_of "name" row.elements))
  deletable_iff cards row =
      two_iff (is_cleared_iff (input_of "name" row.elements))
        (is_unnumbered_iff (input_of "number" row.elements))
  deletable_iff groups row = one_iff (is_cleared_iff (input_of "name" row.elements))
  deletable_iff users row =
      two_iff (is_cleared_iff (input_of "name" row.elements))
        (is_cleared_iff (input_of "uid" row.elements))
  deletable_iff overview row = none_iff
  deletable_iff interfaces row = none_iff
  deletable_iff events row = none_iff
  deletable_iff logs row = none_iff

  -- A commit of rows deletes exactly the OIDs of the rows that are emptied, and updates exactly the
  -- modified elements below the OIDs of the others: whatever is asked of an OID or an element, one
  -- that is sent meets it exactly if one of these does. A row is emptied if its page has fields that
  -- must be void and the first input of each such class is there, has an OID, and is void: the name
  -- and the ID of a controller, the name of a door or a level, the name and the uid of a user are
  -- white space; the name of a card is, and its number is not a number or 0.
  pub changeset-exact :
      (page : Page) (rows : List Row) (p : Element → Bool) (oid : String)
      → (any_element p (changeset parse page rows).0
          ≡ any_row
              (λ r.
                not (deletable parse page r)
                && any_element
                    (λ e. covers r.oid e.oid && has_class "modified" e.classes && p e)
                    r.elements)
              rows)
        × (find (λ s. s == oid) (changeset parse page rows).1
            ≡ any_row (λ r. deletable parse page r && (r.oid == oid)) rows)
        × ((r : Row) → (deletable parse page r ≡ true) ↔ IsEmptied parse page r)
  changeset-exact page rows p oid =
      let (updated, deleted) = changeset_lem parse page rows p oid in
      (updated, deleted, deletable_iff page)
