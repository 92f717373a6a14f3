-- ===== src/Pages/Rows/Visited.antt =====
-- The rows of a table as `realize` of httpd/html/javascript/cards.js and its kind goes through the
-- records.
use uhppoted_httpd.Prelude.{
  String, Bool, true, false, ◌||◌, ◌≡◌, refl, sym, ap, ◌∙◌, List, [], ◌∷◌, ◌++◌, map, All,
  All-append, Bool-cases, inl, inr, eq_iff, append_nil, if◌then◌else◌,
}
use uhppoted_httpd.Text.{◌==◌}
use uhppoted_httpd.Console.Records.{contains}
use uhppoted_httpd.Pages.Rows.{Row, has_row, change_row, visit, visit_all}
use uhppoted_httpd.Pages.Rows.Trimmed.{eq_comm, AreApart, AreDistinct, missing}

map-append : (f : Row → Row) (xs ys : List Row) → map f (xs ++ ys) ≡ map f xs ++ map f ys
map-append f [] ys = refl
map-append f (x ∷ xs) ys = ap (λ t. f x ∷ t) (map-append f xs ys)

append_assoc : (xs ys zs : List Row) → (xs ++ ys) ++ zs ≡ xs ++ (ys ++ zs)
append_assoc [] ys zs = refl
append_assoc (x ∷ xs) ys zs = ap (λ t. x ∷ t) (append_assoc xs ys zs)

pub missing-All :
    (P : String → Type 0) (os : List String) (rows : List Row) → All P os → All P (missing os rows)
missing-All P [] rows h = tt
missing-All P (o ∷ os) rows (p, h) = either (has_row o rows) (missing-All P os rows h)
  where
    either :
        (b : Bool)
        → All P (missing os rows)
        → All P (if b then missing os rows else o ∷ missing os rows)
    either true h = h
    either false h = (p, h)

true≢false : true ≡ false → ⊥
true≢false e = cc e

module _ (fresh : String → Row) (change : Row → Row) (own : (o : String) → (fresh o).oid ≡ o)
    (keep : (r : Row) → (change r).oid ≡ r.oid) where
  -- the change of the rows of one record, and of those of a list
  abbrev at : String → Row → Row
  at o r = if r.oid == o then change r else r

  abbrev pub among : List String → Row → Row
  among os r = if contains r.oid os then change r else r

  at-oid : (o : String) (r : Row) → (at o r).oid ≡ r.oid
  at-oid o r = elim (Bool-cases (r.oid == o)) [ inl e ↦ rw e (keep r) | inr e ↦ rw e refl ]

  change_row-none :
      (o : String) (rows : List Row) → All (λ x. (o == x.oid) ≡ false) rows → map (at o) rows ≡ rows
  change_row-none o [] h = refl
  change_row-none o (r ∷ rows) (n, h) =
      rw (eq_comm r.oid o ∙ n) (ap (λ t. r ∷ t) (change_row-none o rows h))

  change_row-map :
      (o : String) (rows : List Row) → AreApart rows → change_row o change rows ≡ map (at o) rows
  unfolding change_row
  change_row-map o [] h = refl
  change_row-map o (r ∷ rows) (apart, h) = elim (Bool-cases (r.oid == o)) [
    | inl here ↦
        rw (change_row, here)
          (ap (λ t. change r ∷ t)
            (sym (change_row-none o rows (rw ((eq_iff r.oid o).0 here) at apart))))
    | inr other ↦ rw (change_row, other) (ap (λ t. r ∷ t) (change_row-map o rows h))
  ]

  abbrev absent : String → List Row → List Row
  absent o rows = if has_row o rows then [] else fresh o ∷ []

  has_row-apart :
      (o : String) (rows : List Row) → has_row o rows ≡ false → All (λ x. (x.oid == o) ≡ false) rows
  unfolding has_row
  has_row-apart o [] h = tt
  has_row-apart o (r ∷ rows) h = elim (Bool-cases (r.oid == o)) [
    | inl here ↦ cc (rw here at h)
    | inr other ↦ (other, has_row-apart o rows (rw other at h))
  ]

  push-AreApart :
      (r : Row) (rows : List Row)
      → AreApart rows
      → All (λ x. (x.oid == r.oid) ≡ false) rows
      → AreApart (rows ++ r ∷ [])
  push-AreApart r [] h a = (tt, tt)
  push-AreApart r (x ∷ rows) (apart, h) (n, a) = (
    All-append (λ y. (x.oid == y.oid) ≡ false) rows (r ∷ []) apart (n, tt),
    push-AreApart r rows h a,
  )

  absent-AreApart :
      (o : String) (rows : List Row) → AreApart rows → AreApart (rows ++ absent o rows)
  absent-AreApart o rows h = elim (Bool-cases (has_row o rows)) [
    | inl there ↦ rw (there, append_nil rows) h
    | inr gone ↦ rw gone (push-AreApart (fresh o) rows h (rw (own o) (has_row-apart o rows gone)))
  ]

  visit-map :
      (o : String) (rows : List Row)
      → AreApart rows
      → visit fresh change o rows ≡ map (at o) (rows ++ absent o rows)
  unfolding visit
  visit-map o rows h =
      ap (change_row o change) (ready (has_row o rows))
      ∙ change_row-map o _ (absent-AreApart o rows h)
    where
      ready :
          (b : Bool)
          → (if b then rows else rows ++ fresh o ∷ []) ≡ rows ++ (if b then [] else fresh o ∷ [])
      ready true = sym (append_nil rows)
      ready false = refl

  keeping-All :
      (f : Row → Row)
      → ((r : Row) → (f r).oid ≡ r.oid)
      → (x : Row) (rows : List Row) → All (λ y. (x.oid == y.oid) ≡ false) rows
      → All (λ y. ((f x).oid == y.oid) ≡ false) (map f rows)
  keeping-All f same x [] h = tt
  keeping-All f same x (y ∷ rows) (n, h) = (rw (same x, same y) n, keeping-All f same x rows h)

  keeping-AreApart :
      (f : Row → Row)
      → ((r : Row) → (f r).oid ≡ r.oid)
      → (rows : List Row) → AreApart rows
      → AreApart (map f rows)
  keeping-AreApart f same [] h = tt
  keeping-AreApart f same (r ∷ rows) (a, h) =
      (keeping-All f same r rows a, keeping-AreApart f same rows h)

  has_row-keeping :
      (f : Row → Row)
      → ((r : Row) → (f r).oid ≡ r.oid)
      → (o : String) (rows : List Row) → has_row o (map f rows) ≡ has_row o rows
  unfolding has_row
  has_row-keeping f same o [] = refl
  has_row-keeping f same o (r ∷ rows) = rw (same r, has_row-keeping f same o rows) refl

  has_row-absent :
      (p o : String) (rows : List Row)
      → (o == p) ≡ false
      → has_row p (rows ++ absent o rows) ≡ has_row p rows
  unfolding has_row
  has_row-absent p o rows n = go (has_row o rows)
    where
      pushed : (xs : List Row) → has_row p (xs ++ fresh o ∷ []) ≡ has_row p xs
      pushed [] = rw (has_row, own o, n) refl
      pushed (x ∷ xs) = rw (has_row, pushed xs) refl

      go : (b : Bool) → has_row p (rows ++ (if b then [] else fresh o ∷ [])) ≡ has_row p rows
      go true = ap (has_row p) (append_nil rows)
      go false = pushed rows

  missing-visit :
      (o : String) (os : List String) (rows : List Row)
      → All (λ p. (o == p) ≡ false) os
      → missing os (map (at o) (rows ++ absent o rows)) ≡ missing os rows
  missing-visit o [] rows h = refl
  missing-visit o (p ∷ os) rows (n, h) =
      rw
        (
          has_row-keeping (at o) (at-oid o) p (rows ++ absent o rows),
          has_row-absent p o rows n,
          missing-visit o os rows h,
        )
        refl

  contains-none :
      (o : String) (os : List String) → All (λ p. (o == p) ≡ false) os → contains o os ≡ false
  contains-none o [] h = refl
  contains-none o (p ∷ os) (n, h) = rw (eq_comm p o ∙ n, contains-none o os h) refl

  among-at :
      (o : String) (os : List String)
      → All (λ p. (o == p) ≡ false) os
      → (r : Row) → among os (at o r) ≡ among (o ∷ os) r
  among-at o os h r =
      ap (λ t. if contains t os then change (at o r) else at o r) (at-oid o r)
      ∙ settle (r.oid == o) (contains r.oid os)
          (λ here. ap (λ t. contains t os) ((eq_iff r.oid o).0 here) ∙ contains-none o os h)
      ∙ ap (λ b. if b || contains r.oid os then change r else r) (eq_comm r.oid o)
    where
      settle :
          (b c : Bool)
          → (b ≡ true → c ≡ false)
          → (if c then change (if b then change r else r) else if b then change r else r)
            ≡ (if b || c then change r else r)
      settle true true k = absurd (true≢false (k refl))
      settle true false k = refl
      settle false c k = refl

  map-among-at :
      (o : String) (os : List String)
      → All (λ p. (o == p) ≡ false) os
      → (rows : List Row) → map (among os) (map (at o) rows) ≡ map (among (o ∷ os)) rows
  map-among-at o os h [] = refl
  map-among-at o os h (r ∷ rows) =
      rw (map-among-at o os h rows) (ap (λ t. t ∷ map (among (o ∷ os)) rows) (among-at o os h r))

  -- The new rows are of records of the list.
  map-among-fresh :
      (o : String) (os : List String)
      → All (λ p. (o == p) ≡ false) os
      → (rows : List Row)
      → map (among os) (map fresh (missing os rows))
        ≡ map (among (o ∷ os)) (map fresh (missing os rows))
  map-among-fresh o os h rows = go (missing os rows) (missing-All (λ p. (o == p) ≡ false) os rows h)
    where
      go :
          (ps : List String)
          → All (λ p. (o == p) ≡ false) ps
          → map (among os) (map fresh ps) ≡ map (among (o ∷ os)) (map fresh ps)
      go [] h = refl
      go (p ∷ ps) (n, h) =
          ap (λ t. t ∷ map (among os) (map fresh ps))
            (ap (λ b. if b || contains (fresh p).oid os then change (fresh p) else fresh p)
              (sym (ap (λ t. o == t) (own p) ∙ n)))
          ∙ ap (λ t. among (o ∷ os) (fresh p) ∷ t) (go ps h)

  map-among-nil : (rows : List Row) → map (among []) rows ≡ rows
  map-among-nil [] = refl
  map-among-nil (r ∷ rows) = ap (λ t. r ∷ t) (map-among-nil rows)

  pub visit_all-map :
      (os : List String) (rows : List Row)
      → AreDistinct os
      → AreApart rows
      → visit_all fresh change os rows ≡ map (among os) (rows ++ map fresh (missing os rows))
  unfolding visit_all
  visit_all-map [] rows d h = sym (map-among-nil (rows ++ []) ∙ append_nil rows)
  visit_all-map (o ∷ os) rows (n, d) h =
      let ready = rows ++ absent o rows in
      let new = map fresh (missing os rows) in
      ap (visit_all fresh change os) (visit-map o rows h)
      ∙ visit_all-map os (map (at o) ready) d
          (keeping-AreApart (at o) (at-oid o) ready (absent-AreApart o rows h))
      ∙ ap (λ t. map (among os) (map (at o) ready ++ map fresh t)) (missing-visit o os rows n)
      ∙ map-append (among os) (map (at o) ready) new
      ∙ ap (λ t. t ++ map (among os) new) (map-among-at o os n ready)
      ∙ ap (λ t. map (among (o ∷ os)) ready ++ t) (map-among-fresh o os n rows)
      ∙ sym (map-append (among (o ∷ os)) ready new)
      ∙ ap (map (among (o ∷ os)))
          (append_assoc rows (absent o rows) new ∙ ap (λ t. rows ++ t) (gathered (has_row o rows)))
    where
      gathered :
          (b : Bool)
          → (if b then [] else fresh o ∷ []) ++ map fresh (missing os rows)
            ≡ map fresh (if b then missing os rows else o ∷ missing os rows)
      gathered true = refl
      gathered false = refl

  pub among-All :
      (oids : List String) (rows : List Row)
      → All (λ r. contains r.oid oids ≡ true) rows
      → map (among oids) rows ≡ map change rows
  among-All oids [] h = refl
  among-All oids (r ∷ rows) (e, h) =
      rw (among-All oids rows h) (ap (λ t. t ∷ map change rows) (rw e refl))
