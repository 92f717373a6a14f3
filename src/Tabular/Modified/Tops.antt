-- ===== src/Tabular/Modified/Tops.antt =====
-- What the count of `modified` in httpd/html/javascript/tabular.js counts.
use mathlib.Core.List.{Memᴰ}
use uhppoted_httpd.Prelude.{
  either, String, Bool, true, false, not, ◌&&◌, ◌||◌, List, [], ◌∷◌, ◌≡◌, refl, sym, ap, ◌∙◌, subst,
  ◌⊎◌, ◌↔◌, arith, length, or_right, Bool-cases, inl, inr, eq_iff, eq_refl, if◌then◌else◌,
}
use uhppoted_httpd.Text.{◌==◌}
use uhppoted_httpd.Tabular.Modified.{
  covers, find, Element, query_modified, distinct_from, count_below,
}
use uhppoted_httpd.Tabular.Modified.Laws.{keep_prefixed-query}
use uhppoted_httpd.Tabular.Modified.Roots.{
  is_below, roots, IsParentFirst, sorted_below, reduce-roots,
}

abbrev pub has : String → List String → Bool
has v l = find (λ s. s == v) l

-- No text twice.
abbrev pub AreDistinct : List String → Type 0
AreDistinct [] = Unit
AreDistinct (v ∷ vs) = (has v vs ≡ false) × AreDistinct vs

-- An order for a list without repetitions: it loses none, adds none and repeats none.
pub record IsOrder (sort : List String → List String) : Type 0 where
  pub keeps : (l : List String) (v : String) → has v (sort l) ≡ has v l
  pub distinct : (l : List String) → AreDistinct l → AreDistinct (sort l)

-- An element below the OID that is modified or new has the OID `v`.
abbrev pub IsChanged : String → List Element → String → Type 0
IsChanged oid doc v =
    (x : Element) × Memᴰ x doc
    × (x.oid ≡ v)
    × (covers oid v ≡ true)
    × ((x.is_modified ≡ true) ⊎ (x.is_new ≡ true))

-- No other such OID lies above it.
abbrev pub IsTop : String → List Element → String → Type 0
IsTop oid doc v = IsChanged oid doc v × ((w : String) → IsChanged oid doc w → covers w v ≡ false)

query_modified-has :
    (oid v : String) (doc : List Element)
    → (has v (query_modified oid doc) ≡ true) ↔ IsChanged oid doc v
unfolding query_modified
query_modified-has oid v doc =
    (forth doc, λ (x, m, same, below, changed). back x same below changed doc m)
  where
    forth : (doc : List Element) → has v (query_modified oid doc) ≡ true → IsChanged oid doc v
    forth [] h = cc h
    forth (e ∷ es) h = go (covers oid e.oid) (e.is_modified || e.is_new) refl refl h (λ h'.
        let (x, m, same, below, changed) = forth es h' in (x, Memᴰ.tail m, same, below, changed))
      where
        go :
            (a b : Bool)
            → covers oid e.oid ≡ a
            → (e.is_modified || e.is_new) ≡ b
            → has v (if a && b then e.oid ∷ query_modified oid es else query_modified oid es) ≡ true
            → (has v (query_modified oid es) ≡ true → IsChanged oid (e ∷ es) v)
            → IsChanged oid (e ∷ es) v
        go true true p q h later = elim (Bool-cases (e.oid == v)) [
          | inl same ↦
              let own : e.oid ≡ v = (eq_iff e.oid v).0 same in
              (
                e,
                Memᴰ.head refl,
                own,
                subst (λ t. covers oid t ≡ true) own p,
                either e.is_modified e.is_new q,
              )
          | inr other ↦ later (rw other at h)
        ]
        go true false p q h later = later h
        go false b p q h later = later h

    back :
        (x : Element)
        → x.oid ≡ v
        → covers oid v ≡ true
        → (x.is_modified ≡ true) ⊎ (x.is_new ≡ true)
        → (doc : List Element) → Memᴰ x doc
        → has v (query_modified oid doc) ≡ true
    back x same below changed [] m = elim m [ ]
    back x same below changed (e ∷ es) (Memᴰ.head here) =
        rw
          (
            ap (λ y. covers oid y.oid) (sym here) ∙ ap (covers oid) same ∙ below,
            ap (λ y. y.is_modified || y.is_new) (sym here) ∙ both x.is_modified x.is_new changed,
            (eq_iff e.oid v).1 (ap (λ y. y.oid) (sym here) ∙ same),
          )
          refl
      where
        both : (a b : Bool) → (a ≡ true) ⊎ (b ≡ true) → (a || b) ≡ true
        both a b (inl h) = ground (arith, h)
        both a b (inr h) = ground (arith, h)
    back x same below changed (e ∷ es) (Memᴰ.tail m) =
        go (covers oid e.oid && (e.is_modified || e.is_new)) (back x same below changed es m)
      where
        go :
            (b : Bool)
            → has v (query_modified oid es) ≡ true
            → has v (if b then e.oid ∷ query_modified oid es else query_modified oid es) ≡ true
        go true h = ground (arith, h)
        go false h = h

distinct_from-has :
    (v : String) (seen vs : List String)
    → has v (distinct_from seen vs) ≡ (has v vs && not (has v seen))
unfolding distinct_from
distinct_from-has v seen [] = refl
distinct_from-has v seen (x ∷ xs) =
    go (has x seen) (distinct_from-has v (x ∷ seen) xs)
      (λ same. ap (λ t. has t seen) (sym ((eq_iff x v).0 same)))
  where
    push :
        (own later old : Bool)
        → (own ≡ true → old ≡ false)
        → (own || (later && not (own || old))) ≡ ((own || later) && not old)
    push true later old h = ground (arith, h refl)
    push false later old h = refl

    drop :
        (own later old : Bool)
        → (own ≡ true → old ≡ true)
        → (later && not (own || old)) ≡ ((own || later) && not old)
    drop true later old h = ground (arith, h refl)
    drop false later old h = refl

    go :
        (b : Bool)
        → has v (distinct_from (x ∷ seen) xs) ≡ (has v xs && not ((x == v) || has v seen))
        → ((x == v) ≡ true → has v seen ≡ b)
        → has v (if b then distinct_from (x ∷ seen) xs else x ∷ distinct_from (x ∷ seen) xs)
          ≡ (((x == v) || has v xs) && not (has v seen))
    go true e h = e ∙ drop (x == v) (has v xs) (has v seen) h
    go false e h = ap (λ t. (x == v) || t) e ∙ push (x == v) (has v xs) (has v seen) h

distinct_from-AreDistinct : (seen vs : List String) → AreDistinct (distinct_from seen vs)
unfolding distinct_from
distinct_from-AreDistinct seen [] = tt
distinct_from-AreDistinct seen (x ∷ xs) =
    go (has x seen) (distinct_from-AreDistinct (x ∷ seen) xs)
      (distinct_from-has x (x ∷ seen) xs ∙ out (x == x) (has x xs) (has x seen) (eq_refl x))
  where
    out : (own later old : Bool) → own ≡ true → (later && not (own || old)) ≡ false
    out own later old h = ground (arith, h)

    go :
        (b : Bool)
        → AreDistinct (distinct_from (x ∷ seen) xs)
        → has x (distinct_from (x ∷ seen) xs) ≡ false
        → AreDistinct (if b then distinct_from (x ∷ seen) xs else x ∷ distinct_from (x ∷ seen) xs)
    go true d h = d
    go false d h = (h, d)

roots-has :
    (v : String) (all vs : List String) → has v (roots all vs) ≡ (has v vs && not (is_below v all))
unfolding roots
roots-has v all [] = refl
roots-has v all (x ∷ xs) =
    go (is_below x all) (roots-has v all xs)
      (λ same. ap (λ t. is_below t all) (sym ((eq_iff x v).0 same)))
  where
    push :
        (own later below : Bool)
        → (own ≡ true → below ≡ false)
        → (own || (later && not below)) ≡ ((own || later) && not below)
    push true later below h = ground (arith, h refl)
    push false later below h = refl

    drop :
        (own later below : Bool)
        → (own ≡ true → below ≡ true)
        → (later && not below) ≡ ((own || later) && not below)
    drop true later below h = ground (arith, h refl)
    drop false later below h = refl

    go :
        (b : Bool)
        → has v (roots all xs) ≡ (has v xs && not (is_below v all))
        → ((x == v) ≡ true → is_below v all ≡ b)
        → has v (if b then roots all xs else x ∷ roots all xs)
          ≡ (((x == v) || has v xs) && not (is_below v all))
    go true e h = e ∙ drop (x == v) (has v xs) (is_below v all) h
    go false e h = ap (λ t. (x == v) || t) e ∙ push (x == v) (has v xs) (is_below v all) h

roots-AreDistinct : (all vs : List String) → AreDistinct vs → AreDistinct (roots all vs)
unfolding roots
roots-AreDistinct all [] d = tt
roots-AreDistinct all (x ∷ xs) (fresh, d) =
    go (is_below x all) (roots-AreDistinct all xs d)
      (roots-has x all xs ∙ ap (λ t. t && not (is_below x all)) fresh)
  where
    go :
        (b : Bool)
        → AreDistinct (roots all xs)
        → has x (roots all xs) ≡ false
        → AreDistinct (if b then roots all xs else x ∷ roots all xs)
    go true d h = d
    go false d h = (h, d)

none_above :
    (v : String) (all : List String)
    → (is_below v all ≡ false) ↔ ((w : String) → has w all ≡ true → covers w v ≡ false)
none_above v [] = ((λ h w m. cc m), λ h. refl)
none_above v (x ∷ xs) = (
  (λ h w m. elim (Bool-cases (x == w)) [
    | inl same ↦
        subst (λ t. covers t v ≡ false) ((eq_iff x w).0 same) (one (covers x v) (is_below v xs) h)
    | inr other ↦ (none_above v xs).0 (two (covers x v) (is_below v xs) h) w (rw other at m)
  ]),
  λ h. ground (
    arith,
    h x (rw (eq_refl x) refl),
    (none_above v xs).1 (λ w m. h w (or_right (x == w) (has w xs) m)),
  ),
)
  where
    one : (a b : Bool) → (a || b) ≡ false → a ≡ false
    one a b h = ground (arith, h)

    two : (a b : Bool) → (a || b) ≡ false → b ≡ false
    two a b h = ground (arith, h)

-- Where the browser's sort is an order for lists without repetitions and puts no OID behind one below
-- it, there are as many OIDs without repetition as the count of an element says, and these are exactly
-- the OIDs of the modified or new elements below it that have no OID of another such element above
-- them.
pub count_below-tops :
    (sort : List String → List String) (oid : String) (doc : List Element)
    → IsOrder sort
    → IsParentFirst (sorted_below sort oid doc)
    → (tops : List String) × (count_below sort oid doc ≡ length tops)
      × AreDistinct tops
      × ((v : String) → (has v tops ≡ true) ↔ IsTop oid doc v)
unfolding count_below
count_below-tops sort oid doc order h =
    let all = sorted_below sort oid doc in
    (
      roots all all,
      rw (keep_prefixed-query oid doc) (ap (λ l. length l) (reduce-roots all h)),
      roots-AreDistinct all all
          (order.distinct _ (distinct_from-AreDistinct [] (query_modified oid doc))),
      λ v. (
        (λ m.
            let (here, top) = parts (has v all) (is_below v all) (rw roots-has at m) in
            ((changed v).0 here, λ w c. (none_above v all).0 top w ((changed w).1 c))),
        λ (c, top).
            roots-has v all all
            ∙ join (has v all) (is_below v all) ((changed v).1 c)
                ((none_above v all).1 (λ w m. top w ((changed w).0 m))),
      ),
    )
  where
    parts : (a b : Bool) → (a && not b) ≡ true → (a ≡ true) × (b ≡ false)
    parts a b h = (ground (arith, h), ground (arith, h))

    join : (a b : Bool) → a ≡ true → b ≡ false → (a && not b) ≡ true
    join a b h k = ground (arith, h, k)

    held : (a : Bool) → (a && true) ≡ a
    held a = ground arith

    changed : (w : String) → (has w (sorted_below sort oid doc) ≡ true) ↔ IsChanged oid doc w
    changed w =
        let same =
          order.keeps (distinct_from [] (query_modified oid doc)) w
          ∙ distinct_from-has w [] (query_modified oid doc)
          ∙ held (has w (query_modified oid doc)) in
        (
          (λ m. (query_modified-has oid w doc).0 (sym same ∙ m)),
          λ c. same ∙ (query_modified-has oid w doc).1 c,
        )
