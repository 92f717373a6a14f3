-- ===== src/Tabular/Tree/Percolated.antt =====
-- The marks of a document after a change of a field and the walk up from it, which `percolate` of
-- httpd/html/javascript/tabular.js and interfaces.js makes.
use uhppoted_httpd.Prelude.{
  String, Bool, true, false, ◌≡◌, sym, ap, List, [], ◌∷◌, All, eq_iff, Bool-cases, inl, inr, arith,
  subst,
}
use uhppoted_httpd.Text.{◌==◌, ◌++◌}
use uhppoted_httpd.Tabular.Modified.{covers, find}
use uhppoted_httpd.Tabular.Modified.Laws.{covers_trans}
use uhppoted_httpd.Tabular.Modified.Roots.{covers_irrefl}
use uhppoted_httpd.Tabular.Percolate.{percolate}
use uhppoted_httpd.Tabular.Percolate.Laws.{IsComponent, dotted, prefixes, percolate-prefixes}
use uhppoted_httpd.Tabular.Percolate.Above.{covers-append, percolate-covers}
use uhppoted_httpd.Tabular.Tree.{
  IsApart, IsChain, has_below, any_below, change, has_below-change, change-keeps, IsRight,
  modified_all, modified_all-keeps, modified_all-IsRight, has_below-modified_all,
}

-- Nothing is above what is above it.
covers-IsApart : (o q : String) → covers q o ≡ true → IsApart q o
covers-IsApart o q over = (never, differ)
  where
    never : covers o q ≡ false
    never = elim (Bool-cases (covers o q)) [
      | inl under ↦ cc (covers_irrefl o, covers_trans o q o under over)
      | inr other ↦ other
    ]

    differ : (q == o) ≡ false
    differ = elim (Bool-cases (q == o)) [
      | inl same ↦ cc (over, covers_irrefl o, ap (λ t. covers t o) ((eq_iff q o).0 same))
      | inr other ↦ other
    ]

All-IsApart :
    (s : String) (os : List String) → All (λ o. covers o s ≡ true) os → All (λ q. IsApart q s) os
All-IsApart s [] h = tt
All-IsApart s (o ∷ os) (over, h) = (covers-IsApart s o over, All-IsApart s os h)

deeper :
    (s d : String) (os : List String)
    → All (λ o. covers o s ≡ true) os
    → All (λ o. covers o (s ++ ("." ++ d)) ≡ true) os
deeper s d [] h = tt
deeper s d (o ∷ os) (over, h) =
    (covers_trans o s (s ++ ("." ++ d)) over (covers-append s d), deeper s d os h)

-- The OIDs that `percolate` goes through lie above its own, and each above those before it.
All-prefixes :
    (s : String) (ds above : List String)
    → All (λ o. covers o s ≡ true) above
    → All (λ o. covers o (dotted s ds) ≡ true) (prefixes s ds above)
All-prefixes s [] above h = h
All-prefixes s (d ∷ ds) above h =
    All-prefixes (s ++ ("." ++ d)) ds (s ∷ above) (covers-append s d, deeper s d above h)

prefixes-IsChain :
    (s : String) (ds above : List String)
    → All (λ o. covers o s ≡ true) above
    → IsChain above
    → IsChain (prefixes s ds above)
prefixes-IsChain s [] above h c = c
prefixes-IsChain s (d ∷ ds) above h c =
    prefixes-IsChain (s ++ ("." ++ d)) ds (s ∷ above) (covers-append s d, deeper s d above h)
      (All-IsApart s above h, c)

-- An OID that is not above a field is apart from all that are.
apart :
    (p leaf : String) (os : List String)
    → All (λ o. covers o leaf ≡ true) os
    → covers p leaf ≡ false
    → find (λ o. o == p) os ≡ false
    → All (λ o. IsApart o p) os
apart p leaf [] h n m = tt
apart p leaf (o ∷ os) (over, h) n m =
    ((not_above, ground (arith, m)), apart p leaf os h n (ground (arith, m)))
  where
    not_above : covers p o ≡ false
    not_above = elim (Bool-cases (covers p o)) [
      | inl above ↦ cc (n, covers_trans p o leaf above over)
      | inr other ↦ other
    ]

module _ {E : Type 0} (oid : E → String) (counts flag : E → Bool) (mend : String → List E → E → E)
    (keep : (o : String) (doc : List E) (e : E) → oid (mend o doc e) ≡ oid e)
    (exact : (o : String) (doc : List E) (e : E)
      → flag (mend o doc e) ≡ any_below oid counts o doc) where
  -- Where every mark of a document was right, a change of a field with nothing below it and a walk up
  -- from it leave every mark right.
  pub percolate-IsRight :
      (root : String) (ds : List String) (f : E → E) (doc : List E)
      → IsComponent root
      → All IsComponent ds
      → ((e : E) → oid (f e) ≡ oid e)
      → has_below oid counts (dotted root ds) doc ≡ false
      → ((p : String) → IsRight oid counts flag p doc)
      → (p : String)
      → IsRight oid counts flag p (
          modified_all oid counts mend
            (percolate (dotted root ds))
            (change oid counts (dotted root ds) f doc))
  percolate-IsRight root ds f doc r h same none_below right p =
      elim (Bool-cases (find (λ o. o == p) (percolate (dotted root ds)))) [
        | inl visited ↦
            modified_all-IsRight oid counts flag mend keep exact p (percolate (dotted root ds))
              (change oid counts (dotted root ds) f doc)
              (subst IsChain (sym (percolate-prefixes root ds r h))
                (prefixes-IsChain root ds [] tt tt))
              visited
        | inr beside ↦ elim (Bool-cases (p == dotted root ds)) [
          | inl leaf ↦ λ e b g. cc (
            none_below,
            (eq_iff p (dotted root ds)).0 leaf,
            ap (λ o. has_below oid counts o doc) ((eq_iff p (dotted root ds)).0 leaf),
            b,
            has_below-modified_all oid counts flag mend keep exact p (percolate (dotted root ds))
                (change oid counts (dotted root ds) f doc),
            has_below-change oid counts f same (dotted root ds) p doc,
          )
          | inr other ↦
              modified_all-keeps oid counts flag mend keep exact p (percolate (dotted root ds))
                (change oid counts (dotted root ds) f doc)
                (apart p (dotted root ds) (percolate (dotted root ds))
                  (subst (All (λ o. covers o (dotted root ds) ≡ true))
                    (sym (percolate-prefixes root ds r h)) (All-prefixes root ds [] tt))
                  (beside_IsApart beside) beside)
                (change-keeps oid counts flag f same (dotted root ds) p doc
                  (beside_IsApart beside, turned other) (right p))
        ]
      ]
    where
      beside_IsApart :
          find (λ o. o == p) (percolate (dotted root ds)) ≡ false
          → covers p (dotted root ds) ≡ false
      beside_IsApart beside = elim (Bool-cases (covers p (dotted root ds))) [
        | inl above ↦ cc (beside, percolate-covers p root ds r h above)
        | inr other ↦ other
      ]

      turned : (p == dotted root ds) ≡ false → (dotted root ds == p) ≡ false
      turned other = elim (Bool-cases (dotted root ds == p)) [
        | inl same ↦
            cc (other, (eq_iff p (dotted root ds)).1 (sym ((eq_iff (dotted root ds) p).0 same)))
        | inr differ ↦ differ
      ]
