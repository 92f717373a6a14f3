-- ===== src/Lan/Laws.antt =====
-- The marks and the changes of the LAN settings page, httpd/html/javascript/interfaces.js.
use uhppoted_httpd.Prelude.{
  String, Bool, true, false, ◌≡◌, ◌∙◌, refl, sym, subst, Option, none, some, List, [], ◌∷◌, All,
  arith, if◌then◌else◌, Bool-cases, inl, inr,
}
use uhppoted_httpd.Text.{◌++◌}
use uhppoted_httpd.Tabular.Field.{Field, put}
use uhppoted_httpd.Tabular.Percolate.{percolate}
use uhppoted_httpd.Tabular.Percolate.Laws.{IsComponent, dotted}
use uhppoted_httpd.Tabular.Tree.{
  has_below, first, change, IsRight, change-still, has_below-change, has_below-modified_all,
}
use uhppoted_httpd.Tabular.Tree.Percolated.{percolate-IsRight}
use uhppoted_httpd.Schema.Interfaces.{Key, suffix}
use uhppoted_httpd.Lan.{
  oid_of, is_marked, mend, percolated, set_field, set, Interface, update_all, update_from_db,
  refreshed, reconcile, hold, take, update,
}

-- Each element with something below it is marked exactly if something marked is below it.
abbrev pub IsMarkedRight : List Field → Type 0
IsMarkedRight doc = (p : String) → IsRight oid_of is_marked is_marked p doc

-- Nothing is below the element of an OID.
abbrev pub IsLeaf : String → List Field → Type 0
IsLeaf o doc = has_below oid_of is_marked o doc ≡ false

-- A field's OID: numbers separated by dots.
abbrev pub IsDotted : String → Type 0
IsDotted o =
    (root : String) × (ds : List String) × IsComponent root
    × All IsComponent ds
    × (o ≡ dotted root ds)

walk-IsMarkedRight :
    (oid : String) (f : Field → Field) (doc : List Field)
    → IsDotted oid
    → ((e : Field) → (f e).oid ≡ e.oid)
    → IsLeaf oid doc
    → IsMarkedRight doc
    → IsMarkedRight (percolated oid (change oid_of is_marked oid f doc))
unfolding put
walk-IsMarkedRight oid f doc (root, ds, r, h, same) keep leaf right =
    subst (λ o. IsMarkedRight (percolated o (change oid_of is_marked o f doc))) (sym same)
      (percolate-IsRight oid_of is_marked is_marked mend (λ o doc e. refl) (λ o doc e. refl) root ds
        f doc r h keep (subst (λ o. IsLeaf o doc) same leaf) right)

-- Where each element with something below it is marked exactly if something marked is below it, an
-- edit of a field keeps that, if the field's OID is of numbers and nothing is below it.
pub set-IsMarkedRight :
    (oid v : String) (doc : List Field)
    → IsDotted oid
    → IsLeaf oid doc
    → IsMarkedRight doc
    → IsMarkedRight (set oid v doc)
unfolding set set_field
set-IsMarkedRight oid v doc d leaf right =
    walk-IsMarkedRight oid (set_field v) doc d (λ e. refl) leaf right

reconcile_oid : (v : String) (e : Field) → (reconcile v e).oid ≡ e.oid
unfolding reconcile
reconcile_oid v e = ground arith

pub update-IsMarkedRight :
    (oid v : String) (doc : List Field)
    → IsDotted oid
    → IsLeaf oid doc
    → IsMarkedRight doc
    → IsMarkedRight (update oid v doc)
unfolding update hold take set_field
update-IsMarkedRight oid v doc d leaf right = at (first oid_of is_marked oid doc)
  where
    choose : Bool → Bool → List Field
    choose edited sent =
        if edited
        then percolated oid (change oid_of is_marked oid (reconcile v) doc)
        else if sent
        then change oid_of is_marked oid (hold v) doc
        else percolated oid (change oid_of is_marked oid (take v) doc)

    at :
        (r : Option Field)
        → IsMarkedRight (elim r [ none ↦ doc | some e ↦ choose e.marks.modified e.marks.pending ])
    at none = right
    at (some e) = elim (Bool-cases e.marks.modified) [
      | inl edited ↦
          subst (λ b. IsMarkedRight (choose b e.marks.pending)) (sym edited)
            (walk-IsMarkedRight oid (reconcile v) doc d (reconcile_oid v) leaf right)
      | inr clean ↦ elim (Bool-cases e.marks.pending) [
        | inl sent ↦
            subst (λ b. IsMarkedRight (choose b e.marks.pending)) (sym clean)
              (subst (λ b. IsMarkedRight (choose false b)) (sym sent)
                (λ p.
                  change-still oid_of is_marked is_marked (hold v) (λ e. refl) (λ e. refl)
                    (λ e. refl) oid p doc (right p)))
        | inr free ↦
            subst (λ b. IsMarkedRight (choose b e.marks.pending)) (sym clean)
              (subst (λ b. IsMarkedRight (choose false b)) (sym free)
                (walk-IsMarkedRight oid (take v) doc d (λ e. ground arith) leaf right))
      ]
    ]

has_below-update :
    (oid v p : String) (doc : List Field)
    → has_below oid_of is_marked p (update oid v doc) ≡ has_below oid_of is_marked p doc
unfolding update hold take set_field
has_below-update oid v p doc = at (first oid_of is_marked oid doc)
  where
    walked :
        (f : Field → Field)
        → ((e : Field) → (f e).oid ≡ e.oid)
        → has_below oid_of is_marked p (percolated oid (change oid_of is_marked oid f doc))
          ≡ has_below oid_of is_marked p doc
    walked f keep =
        has_below-modified_all oid_of is_marked is_marked mend (λ o doc e. refl) (λ o doc e. refl) p
          (percolate oid) (change oid_of is_marked oid f doc)
        ∙ has_below-change oid_of is_marked f keep oid p doc

    choose :
        (edited sent : Bool)
        → has_below oid_of is_marked p (
            if edited
            then percolated oid (change oid_of is_marked oid (reconcile v) doc)
            else if sent
            then change oid_of is_marked oid (hold v) doc
            else percolated oid (change oid_of is_marked oid (take v) doc))
          ≡ has_below oid_of is_marked p doc
    choose true _ = walked (reconcile v) (reconcile_oid v)
    choose false true = has_below-change oid_of is_marked (hold v) (λ e. refl) oid p doc
    choose false false = walked (take v) (λ e. ground arith)

    at :
        (r : Option Field)
        → has_below oid_of is_marked p (elim r [
          | none ↦ doc
          | some e ↦
              if e.marks.modified
              then percolated oid (change oid_of is_marked oid (reconcile v) doc)
              else if e.marks.pending
              then change oid_of is_marked oid (hold v) doc
              else percolated oid (change oid_of is_marked oid (take v) doc)
        ])
          ≡ has_below oid_of is_marked p doc
    at none = refl
    at (some e) = choose e.marks.modified e.marks.pending

-- The OIDs of the three fields of a record of the store, with nothing below them in the document.
abbrev pub AreFields : List Field → Interface → Type 0
AreFields doc c =
    IsField (suffix Key.name) × IsField (suffix Key.bind) × IsField (suffix Key.broadcast)
  where
    IsField : String → Type 0
    IsField s = IsDotted (c.oid ++ s) × IsLeaf (c.oid ++ s) doc

fields_after :
    (doc doc' : List Field)
    → ((p : String) → has_below oid_of is_marked p doc' ≡ has_below oid_of is_marked p doc)
    → (cs : List Interface) → All (AreFields doc) cs
    → All (AreFields doc') cs
fields_after doc doc' same [] h = tt
fields_after doc doc' same (c ∷ cs) (((d1, l1), (d2, l2), (d3, l3)), h) =
    (((d1, same _ ∙ l1), (d2, same _ ∙ l2), (d3, same _ ∙ l3)), fields_after doc doc' same cs h)

has_below-update_all :
    (c : Interface) (doc : List Field) (p : String)
    → has_below oid_of is_marked p (update_all c doc) ≡ has_below oid_of is_marked p doc
unfolding update_all
has_below-update_all c doc p =
    has_below-update _ c.broadcast p _
    ∙ has_below-update _ c.bind p _
    ∙ has_below-update _ c.name p doc

update_all-IsMarkedRight :
    (c : Interface) (doc : List Field)
    → AreFields doc c
    → IsMarkedRight doc
    → IsMarkedRight (update_all c doc)
unfolding update_all
update_all-IsMarkedRight c doc ((d1, l1), (d2, l2), (d3, l3)) right =
    update-IsMarkedRight _ c.broadcast _ d3
      (has_below-update _ c.bind _ _ ∙ has_below-update _ c.name _ doc ∙ l3)
      (update-IsMarkedRight _ c.bind _ d2 (has_below-update _ c.name _ doc ∙ l2)
        (update-IsMarkedRight _ c.name doc d1 l1 right))

has_below-update_from_db :
    (c : Interface) (doc : List Field) (p : String)
    → has_below oid_of is_marked p (update_from_db c doc) ≡ has_below oid_of is_marked p doc
unfolding update_from_db
has_below-update_from_db c doc p = at (first oid_of is_marked c.oid doc)
  where
    at :
        (r : Option Field)
        → has_below oid_of is_marked p (elim r [ none ↦ doc | some _ ↦ update_all c doc ])
          ≡ has_below oid_of is_marked p doc
    at none = refl
    at (some _) = has_below-update_all c doc p

update_from_db-IsMarkedRight :
    (c : Interface) (doc : List Field)
    → AreFields doc c
    → IsMarkedRight doc
    → IsMarkedRight (update_from_db c doc)
unfolding update_from_db
update_from_db-IsMarkedRight c doc fields right = at (first oid_of is_marked c.oid doc)
  where
    at : (r : Option Field) → IsMarkedRight (elim r [ none ↦ doc | some _ ↦ update_all c doc ])
    at none = right
    at (some _) = update_all-IsMarkedRight c doc fields right

-- Where each element with something below it is marked exactly if something marked is below it, a
-- refresh with any records keeps that, if the OIDs of their fields are of numbers and nothing is
-- below these in the document.
pub refreshed-IsMarkedRight :
    (cs : List Interface) (doc : List Field)
    → All (AreFields doc) cs
    → IsMarkedRight doc
    → IsMarkedRight (refreshed cs doc)
unfolding refreshed
refreshed-IsMarkedRight [] doc h right = right
refreshed-IsMarkedRight (c ∷ cs) doc (fields, h) right =
    refreshed-IsMarkedRight cs (update_from_db c doc)
      (fields_after doc (update_from_db c doc) (has_below-update_from_db c doc) cs h)
      (update_from_db-IsMarkedRight c doc fields right)
