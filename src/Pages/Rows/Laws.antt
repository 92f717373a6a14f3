-- ===== src/Pages/Rows/Laws.antt =====
-- What `realize` of httpd/html/javascript/cards.js and its kind makes of the rows of a table.
use uhppoted_httpd.Prelude.{
  String, Bool, true, false, ◌≡◌, refl, ap, ◌∙◌, List, [], ◌∷◌, ◌++◌, map, All, All-if, All-append,
  or_left, or_right, Bool-cases, inl, inr, eq_iff, eq_refl, if◌then◌else◌,
}
use uhppoted_httpd.Text.{◌==◌}
use uhppoted_httpd.Console.Records.{contains}
use uhppoted_httpd.Pages.Rows.{Row, has_row, visit_all, realize}
use uhppoted_httpd.Pages.Rows.Trimmed.{AreApart, AreNamed, AreDistinct, kept, missing, trim-kept}
use uhppoted_httpd.Pages.Rows.Visited.{among, missing-All, visit_all-map, among-All}

kept-All :
    (P : Row → Type 0) (oids : List String) (rows : List Row) → All P rows → All P (kept oids rows)
kept-All P oids [] h = tt
kept-All P oids (r ∷ rows) (p, h) =
    All-if P (contains r.oid oids) r (kept oids rows) p (kept-All P oids rows h)

kept-contains :
    (oids : List String) (rows : List Row) → All (λ r. contains r.oid oids ≡ true) (kept oids rows)
kept-contains oids [] = tt
kept-contains oids (r ∷ rows) = go (contains r.oid oids) refl (kept-contains oids rows)
  where
    go :
        (b : Bool)
        → contains r.oid oids ≡ b
        → All (λ r. contains r.oid oids ≡ true) (kept oids rows)
        → All (λ r. contains r.oid oids ≡ true) (if b then r ∷ kept oids rows else kept oids rows)
    go true e h = (e, h)
    go false e h = h

kept-AreApart : (oids : List String) (rows : List Row) → AreApart rows → AreApart (kept oids rows)
kept-AreApart oids [] h = tt
kept-AreApart oids (r ∷ rows) (a, h) =
    go (contains r.oid oids) (kept-All (λ x. (r.oid == x.oid) ≡ false) oids rows a)
      (kept-AreApart oids rows h)
  where
    go :
        (b : Bool)
        → All (λ x. (r.oid == x.oid) ≡ false) (kept oids rows)
        → AreApart (kept oids rows)
        → AreApart (if b then r ∷ kept oids rows else kept oids rows)
    go true a h = (a, h)
    go false a h = h

has_row-kept :
    (o : String) (oids : List String) (rows : List Row)
    → contains o oids ≡ true
    → has_row o (kept oids rows) ≡ has_row o rows
unfolding has_row
has_row-kept o oids [] h = refl
has_row-kept o oids (r ∷ rows) h = elim (Bool-cases (contains r.oid oids)) [
  | inl listed ↦ rw (listed, has_row-kept o oids rows h) refl
  | inr gone ↦
      rw (gone, has_row-kept o oids rows h)
        (go (r.oid == o) (λ same. cc (gone, h, (eq_iff r.oid o).0 same)))
]
  where
    go : (b : Bool) → (b ≡ true → ⊥) → has_row o rows ≡ (if b then true else has_row o rows)
    go true n = absurd (n refl)
    go false n = refl

missing-kept :
    (os oids : List String) (rows : List Row)
    → All (λ o. contains o oids ≡ true) os
    → missing os (kept oids rows) ≡ missing os rows
missing-kept [] oids rows h = refl
missing-kept (o ∷ os) oids rows (c, h) =
    rw (has_row-kept o oids rows c, missing-kept os oids rows h) refl

pub self-contains : (oids : List String) → All (λ o. contains o oids ≡ true) oids
self-contains [] = tt
self-contains (o ∷ os) = (or_left _ _ (eq_refl o), further os (self-contains os))
  where
    further :
        (ps : List String)
        → All (λ p. contains p os ≡ true) ps
        → All (λ p. contains p (o ∷ os) ≡ true) ps
    further [] h = tt
    further (p ∷ ps) (c, h) = (or_right (o == p) _ c, further ps h)

module _ (fresh : String → Row) (change : Row → Row) (own : (o : String) → (fresh o).oid ≡ o)
    (keep : (r : Row) → (change r).oid ≡ r.oid) where
  -- Where every row is one of a record of the table, has its `id`, and no record has two, and no OID is
  -- listed twice: `realize` takes away exactly the rows of the records that are not listed, keeps the
  -- others in their order, adds one for each listed record that has none, in the order of the list,
  -- and does the page's change once to each.
  pub realize-exact :
      (table : String) (oids : List String) (rows : List Row)
      → AreNamed table rows
      → AreApart rows
      → AreDistinct oids
      → realize fresh change oids rows
        ≡ map change (kept oids rows ++ map fresh (missing oids rows))
  unfolding realize
  realize-exact table oids rows n h d =
      ap (visit_all fresh change oids) (trim-kept table oids rows n h)
      ∙ visit_all-map fresh change own keep oids (kept oids rows) d (kept-AreApart oids rows h)
      ∙ ap (λ t. map (among fresh change own keep oids) (kept oids rows ++ map fresh t))
          (missing-kept oids oids rows (self-contains oids))
      ∙ among-All fresh change own keep oids (kept oids rows ++ map fresh (missing oids rows)) (
          All-append _ _ _ (kept-contains oids rows) (
            added (missing oids rows)
              (missing-All (λ o. contains o oids ≡ true) oids rows (self-contains oids))))
    where
      added :
          (ps : List String)
          → All (λ o. contains o oids ≡ true) ps
          → All (λ r. contains r.oid oids ≡ true) (map fresh ps)
      added [] h = tt
      added (p ∷ ps) (c, h) = (ap (λ t. contains t oids) (own p) ∙ c, added ps h)
