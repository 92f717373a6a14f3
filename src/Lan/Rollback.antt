-- ===== src/Lan/Rollback.antt =====
-- `rollback` and `changeset` of httpd/html/javascript/interfaces.js.
use uhppoted_httpd.Prelude.{
  String, false, ◌≡◌, ◌∙◌, refl, sym, ap, Option, none, some, List, [], ◌∷◌, All, if◌then◌else◌,
  eq_iff, eq_refl, Bool-cases, inl, inr,
}
use uhppoted_httpd.Text.{◌==◌}
use uhppoted_httpd.Tabular.Field.{Class, Field, put}
use uhppoted_httpd.Tabular.Modified.{covers}
use uhppoted_httpd.Tabular.Modified.Roots.{covers_irrefl}
use uhppoted_httpd.Tabular.Tree.{any_below, first, change, first-change}
use mathlib.Core.Option.{some-injective}
use uhppoted_httpd.Lan.{oid_of, is_marked, restore, restore_below, rollback, changeset}

-- what is below an OID
unfoldable pub below : String → List Field → List Field
below oid [] = []
below oid (e ∷ es) = let rest = below oid es in if covers oid e.oid then e ∷ rest else rest

-- A field with nothing of a change in it: it has and shows its original, and it is not marked as
-- modified.
abbrev pub IsRestored : Field → Type 0
IsRestored e = (e.value ≡ e.original) × (e.shown ≡ e.original) × (is_marked e ≡ false)

below-restore_below :
    (oid : String) (doc : List Field) → All IsRestored (below oid (restore_below oid doc))
unfolding below restore_below restore put
below-restore_below oid [] = tt
below-restore_below oid (e ∷ es) = elim (Bool-cases (covers oid e.oid)) [
  | inl inside ↦ rw (inside, inside) ((refl, refl, refl), below-restore_below oid es)
  | inr outside ↦ rw (outside, outside) (below-restore_below oid es)
]

-- A change of the section itself does not show below it.
below-change :
    (oid : String) (f : Field → Field) (doc : List Field)
    → ((e : Field) → (f e).oid ≡ e.oid)
    → below oid (change oid_of is_marked oid f doc) ≡ below oid doc
unfolding below change
below-change oid f [] same = refl
below-change oid f (e ∷ es) same = elim (Bool-cases (e.oid == oid)) [
  | inl here ↦
      let outside : covers oid e.oid ≡ false =
        ap (covers oid) ((eq_iff e.oid oid).0 here) ∙ covers_irrefl oid in
      rw (here, same e, outside) refl
  | inr further ↦ rw (further, below-change oid f es same) refl
]

changeset-below :
    (oid : String) (doc : List Field) → All IsRestored (below oid doc) → changeset oid doc ≡ []
unfolding changeset below
changeset-below oid [] h = refl
changeset-below oid (e ∷ es) h = elim (Bool-cases (covers oid e.oid)) [
  | inl inside ↦
      let ((value, _, _), rest) = rw inside at h in
      rw (inside, value, eq_refl e.original) (changeset-below oid es rest)
  | inr outside ↦ rw outside (changeset-below oid es (rw outside at h))
]

any_below-below :
    (oid : String) (doc : List Field)
    → All IsRestored (below oid doc)
    → any_below oid_of is_marked oid doc ≡ false
unfolding any_below below
any_below-below oid [] h = refl
any_below-below oid (e ∷ es) h = elim (Bool-cases (covers oid e.oid)) [
  | inl inside ↦
      let ((_, _, unmarked), rest) = rw inside at h in
      rw (inside, unmarked) (any_below-below oid es rest)
  | inr outside ↦ rw outside (any_below-below oid es (rw outside at h))
]

-- A rollback of a section leaves every field below it with its original as its stored and its shown
-- text and without the mark of a change, so that there is nothing to submit, and the element of the
-- section is without that mark too.
pub rollback_lem :
    (oid : String) (doc : List Field)
    → All IsRestored (below oid (rollback oid doc))
      × (changeset oid (rollback oid doc) ≡ [])
      × (any_below oid_of is_marked oid (rollback oid doc) ≡ false)
      × ((e : Field) → first oid_of is_marked oid (rollback oid doc) ≡ some e → is_marked e ≡ false)
unfolding rollback put
rollback_lem oid doc = (
  clean,
  changeset-below oid (rollback oid doc) clean,
  any_below-below oid (rollback oid doc) clean,
  λ e h. section e (first oid_of is_marked oid (restore_below oid doc)) (
      sym (
        rw (eq_refl oid) at
          (first-change oid_of is_marked unmark (λ e. refl) oid oid (restore_below oid doc)))
      ∙ h),
)
  where
    unmark : Field → Field
    unmark e = record e { marks = put Class.modified false e.marks }

    section :
        (e : Field) (r : Option Field)
        → (elim r [ none ↦ none | some d ↦ some (unmark d) ]) ≡ some e
        → is_marked e ≡ false
    section e none g = cc
    section e (some d) g = sym (ap is_marked (some-injective _ _ g))

    clean : All IsRestored (below oid (rollback oid doc))
    clean =
        rw (below-change oid unmark (restore_below oid doc) (λ e. refl))
          (below-restore_below oid doc)
