-- ===== src/Tabular/Tree.antt =====
-- Marks that follow the marks below: what the functions `modified` of
-- httpd/html/javascript/tabular.js and interfaces.js have in common. Each looks at the elements below
-- an OID and then changes the first element with that OID (`mend`).
pub mod Percolated
use text.Mathlib.TextLemmas.{append_assoc}
use uhppoted_httpd.Prelude.{
  String, Bool, true, false, ◌&&◌, ◌||◌, ◌≡◌, ◌≢◌, refl, sym, ap, subst, eq_refl, ◌∙◌, List, [],
  ◌∷◌, All, Option, none, some, arith, eq_iff, Bool-cases, inl, inr, Option-cases, if◌then◌else◌,
}
use mathlib.Core.Option.{some-injective}
use uhppoted_httpd.Text.{◌==◌, ◌++◌}
use uhppoted_httpd.Tabular.Modified.{covers, find}
use uhppoted_httpd.Tabular.Modified.Roots.{covers_irrefl}

-- `p` is neither `o` nor above it.
abbrev pub IsApart : String → String → Type 0
IsApart o p = (covers p o ≡ false) × ((o == p) ≡ false)

-- Each OID of the list is apart from those behind it.
abbrev pub IsChain : List String → Type 0
IsChain [] = Unit
IsChain (o ∷ os) = All (λ q. IsApart q o) os × IsChain os

module _ {E : Type 0} (oid : E → String) (counts : E → Bool) where
  -- whether an element below `o` counts
  unfoldable pub any_below : String → List E → Bool
  any_below o [] = false
  any_below o (e ∷ es) = (covers o (oid e) && counts e) || any_below o es

  -- whether there is an element below `o`
  unfoldable pub has_below : String → List E → Bool
  has_below o [] = false
  has_below o (e ∷ es) = covers o (oid e) || has_below o es

  -- `document.querySelector`: the first element with an OID, and a change of it
  unfoldable pub first : String → List E → Option E
  first o [] = none
  first o (e ∷ es) = if oid e == o then some e else first o es

  unfoldable pub change : String → (E → E) → List E → List E
  change o f [] = []
  change o f (e ∷ es) = let rest = change o f es in if oid e == o then f e ∷ es else e ∷ rest

  module _ (f : E → E) (keep : (e : E) → oid (f e) ≡ oid e) where
    pub first-change :
        (o p : String) (doc : List E)
        → first p (change o f doc) ≡ (
            if o == p
            then (elim (first p doc) [ none ↦ none | some e ↦ some (f e) ])
            else first p doc)
    unfolding first change
    first-change o p [] = ground arith
    first-change o p (e ∷ es) =
        ground (arith, keep e, eq_iff (oid e) o, eq_iff (oid e) p, eq_iff o p, first-change o p es)

    pub has_below-change :
        (o p : String) (doc : List E) → has_below p (change o f doc) ≡ has_below p doc
    unfolding has_below change
    has_below-change o p [] = refl
    has_below-change o p (e ∷ es) = ground (arith, keep e, has_below-change o p es)

    -- A change of an element shows only above it.
    pub any_below-change :
        (o p : String) (doc : List E)
        → covers p o ≡ false
        → any_below p (change o f doc) ≡ any_below p doc
    unfolding any_below change
    any_below-change o p [] h = refl
    any_below-change o p (e ∷ es) h =
        ground (arith, keep e, h, eq_iff (oid e) o, ap (covers p), any_below-change o p es h)

  -- The element of `o` is marked as those below say, where there is one and something is below.
  abbrev pub IsRight : (E → Bool) → String → List E → Type 0
  IsRight flag o doc =
      (e : E) → has_below o doc ≡ true → first o doc ≡ some e → flag e ≡ any_below o doc

  -- A change elsewhere leaves it right.
  change-keeps :
      (flag : E → Bool) (f : E → E)
      → ((e : E) → oid (f e) ≡ oid e)
      → (o p : String) (doc : List E) → IsApart o p
      → IsRight flag p doc
      → IsRight flag p (change o f doc)
  change-keeps flag f same o p doc (above, other) r e b h =
      rw (any_below-change f same o p doc above) (
        r e (sym (has_below-change f same o p doc) ∙ b)
          (sym (rw other at (first-change f same o p doc)) ∙ h))

  any_below-still :
      (f : E → E)
      → ((e : E) → oid (f e) ≡ oid e)
      → ((e : E) → counts (f e) ≡ counts e)
      → (o p : String) (doc : List E) → any_below p (change o f doc) ≡ any_below p doc
  unfolding any_below change
  any_below-still f same still o p [] = refl
  any_below-still f same still o p (e ∷ es) =
      ground (arith, same e, still e, any_below-still f same still o p es)

  -- So does a change of what is neither counted nor marked.
  pub change-still :
      (flag : E → Bool) (f : E → E)
      → ((e : E) → oid (f e) ≡ oid e)
      → ((e : E) → counts (f e) ≡ counts e)
      → ((e : E) → flag (f e) ≡ flag e)
      → (o p : String) (doc : List E) → IsRight flag p doc
      → IsRight flag p (change o f doc)
  change-still flag f same still plain o p doc r e b h =
      rw (any_below-still f same still o p doc)
        (held (o == p) (first p doc) refl (sym (first-change f same o p doc) ∙ h))
    where
      before : has_below p doc ≡ true
      before = sym (has_below-change f same o p doc) ∙ b

      held :
          (there : Bool) (found : Option E)
          → first p doc ≡ found
          → (if there then (elim found [ none ↦ none | some d ↦ some (f d) ]) else found) ≡ some e
          → flag e ≡ any_below p doc
      held true none g k = cc
      held true (some d) g k = sym (ap flag (some-injective _ _ k)) ∙ plain d ∙ r d before g
      held false found g k = r e before (g ∙ k)

  module _ (mend : String → List E → E → E) where
    -- `modified` of one OID, and of the OIDs that `percolate` goes through
    unfoldable pub modified : String → List E → List E
    unfolding change
    modified o doc = change o (mend o doc) doc

    unfoldable pub modified_all : List String → List E → List E
    unfolding modified
    modified_all [] doc = doc
    modified_all (o ∷ os) doc = modified_all os (modified o doc)

  module _ (flag : E → Bool) (mend : String → List E → E → E)
      (keep : (o : String) (doc : List E) (e : E) → oid (mend o doc e) ≡ oid e)
      (exact : (o : String) (doc : List E) (e : E) → flag (mend o doc e) ≡ any_below o doc) where
    modified-IsRight : (o : String) (doc : List E) → IsRight flag o (modified mend o doc)
    unfolding modified
    modified-IsRight o doc e b h =
        rw (any_below-change (mend o doc) (keep o doc) o o doc (covers_irrefl o)) (
          mended (first o doc)
            (sym (rw (eq_refl o) at (first-change (mend o doc) (keep o doc) o o doc)) ∙ h))
      where
        mended :
            (r : Option E)
            → (elim r [ none ↦ none | some d ↦ some (mend o doc d) ]) ≡ some e
            → flag e ≡ any_below o doc
        mended none g = cc
        mended (some d) g =
            subst (λ x. flag x ≡ any_below o doc) (some-injective _ _ g) (exact o doc d)

    modified-keeps :
        (o p : String) (doc : List E)
        → IsApart o p
        → IsRight flag p doc
        → IsRight flag p (modified mend o doc)
    unfolding modified
    modified-keeps o p doc a r = change-keeps flag (mend o doc) (keep o doc) o p doc a r

    pub has_below-modified_all :
        (p : String) (os : List String) (doc : List E)
        → has_below p (modified_all mend os doc) ≡ has_below p doc
    unfolding modified_all modified
    has_below-modified_all p [] doc = refl
    has_below-modified_all p (o ∷ os) doc =
        has_below-modified_all p os (modified mend o doc)
        ∙ has_below-change (mend o doc) (keep o doc) o p doc

    modified_all-keeps :
        (p : String) (os : List String) (doc : List E)
        → All (λ o. IsApart o p) os
        → IsRight flag p doc
        → IsRight flag p (modified_all mend os doc)
    unfolding modified_all
    modified_all-keeps p [] doc a r = r
    modified_all-keeps p (o ∷ os) doc (a, as') r =
        modified_all-keeps p os (modified mend o doc) as' (modified-keeps o p doc a r)

    -- Going up a chain, each OID of it is right in the end.
    modified_all-IsRight :
        (p : String) (os : List String) (doc : List E)
        → IsChain os
        → find (λ o. o == p) os ≡ true
        → IsRight flag p (modified_all mend os doc)
    unfolding modified_all
    modified_all-IsRight p [] doc c h = cc
    modified_all-IsRight p (o ∷ os) doc (up, c) h = elim (Bool-cases (o == p)) [
      | inl here ↦
          subst (λ q. IsRight flag q (modified_all mend os (modified mend o doc)))
            ((eq_iff o p).0 here)
            (modified_all-keeps o os (modified mend o doc) up (modified-IsRight o doc))
      | inr further ↦ modified_all-IsRight p os (modified mend o doc) c (rw further at h)
    ]
