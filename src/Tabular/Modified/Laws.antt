-- ===== src/Tabular/Modified/Laws.antt =====
-- `modified` of httpd/html/javascript/tabular.js: when an element is marked as modified.
use package.text.Mathlib.TextLemmas.{append_assoc}
use package.text.Mathlib.TextEquality.{starts_with_iff}
use package.text.Mathlib.TextPositions.{starts_with_of_prefix}
use native.Mathlib.Nat.{le_trans}
use mathlib.Core.List.{Memᴰ}
use uhppoted_httpd.Prelude.{
  either, ◌&&◌, ◌||◌, Bool-cases, subst, ℕ, ◌≤◌, ◌<◌, String, Bool, true, false, List, [], ◌∷◌,
  ◌++◌, ◌≡◌, refl, sym, ap, ◌∙◌, ◌↔◌, inl, inr, ◌⊎◌, Option, none, some, arith, length,
  length-append, if◌then◌else◌,
}
use uhppoted_httpd.Text.{◌==◌, starts_with, ◌++◌ as ◌<>◌}
use uhppoted_httpd.Tabular.Modified.{
  Element, unset, single, multiple, covers, find, query_modified, keep_prefixed, distinct_from,
  reduce, newish, mark_count, count_below, change_first, modified,
}

-- What lies below an OID begins with it.
covers-starts : (e v : String) → covers e v ≡ true → starts_with v e ≡ true
covers-starts e v h =
    let (u, same) = (starts_with_iff v (e <> ".")).0 h in
    starts_with_of_prefix e v ("." <> u, sym (append_assoc e "." u) ∙ same)

-- Below what is below.
pub covers_trans : (a b c : String) → covers a b ≡ true → covers b c ≡ true → covers a c ≡ true
covers_trans a b c h k =
    let (u, same) = (starts_with_iff b (a <> ".")).0 h in
    let (w, same') = (starts_with_iff c (b <> ".")).0 k in
    starts_with_of_prefix (a <> ".") c (
      u <> ("." <> w),
      sym (append_assoc (a <> ".") u ("." <> w))
          ∙ ap (λ t. t <> ("." <> w)) same
          ∙ sym (append_assoc b "." w)
          ∙ same',
    )

length-push :
    (b : Bool) (acc : List String) (v : String)
    → length acc ≤ length (if b then acc else acc ++ v ∷ [])
length-push true acc v = omega arith
length-push false acc v = omega (arith, length-append {0} acc (v ∷ []))

length-reduce : (acc vs : List String) → length acc ≤ length (reduce acc vs)
unfolding reduce
length-reduce acc [] = omega arith
length-reduce acc (v ∷ vs) =
    le_trans (length-push (find (λ e. covers e v) acc) acc v)
      (length-reduce (if find (λ e. covers e v) acc then acc else acc ++ v ∷ []) vs)

-- Something is left exactly if there was something.
reduce-pos : (vs : List String) → 0 < length vs → 0 < length (reduce [] vs)
unfolding reduce
reduce-pos [] h = elim h [ ]
reduce-pos (v ∷ vs) h = length-reduce (v ∷ []) vs

distinct_from-pos : (vs : List String) → 0 < length vs → 0 < length (distinct_from [] vs)
unfolding distinct_from
distinct_from-pos [] h = elim h [ ]
distinct_from-pos (v ∷ vs) h = omega arith

pub keep_prefixed-query :
    (oid : String) (doc : List Element)
    → keep_prefixed oid (query_modified oid doc) ≡ query_modified oid doc
unfolding keep_prefixed query_modified
keep_prefixed-query oid [] = refl
keep_prefixed-query oid (e ∷ es) =
    ground (arith, keep_prefixed-query oid es, covers-starts oid e.oid)

unfoldable pub first_of : String → List Element → Option Element
first_of oid [] = none
first_of oid (e ∷ es) = if e.oid == oid then some e else first_of oid es

first_of-change_first :
    (oid : String) (f : Element → Element) (doc : List Element) (e : Element)
    → ((x : Element) → (f x).oid ≡ x.oid)
    → first_of oid doc ≡ some e
    → first_of oid (change_first oid f doc) ≡ some (f e)
unfolding first_of change_first
first_of-change_first oid f [] e keep h = cc
first_of-change_first oid f (x ∷ xs) e keep h =
    ground (arith, keep x, first_of-change_first oid f xs e keep)

length-cases : (l : List String) → (l ≡ []) ⊎ (0 < length l)
length-cases [] = inl refl
length-cases (v ∷ vs) = inr (omega arith)

length-none : (l : List String) → length l ≡ 0 → l ≡ []
length-none [] h = refl
length-none (v ∷ vs) h = ground (arith, h)

mark_count-pos : (n : ℕ) (x : Element) → 0 < n → (mark_count n x).is_modified ≡ true
unfolding mark_count
mark_count-pos n x h = ground (arith, h)

mark_count-zero : (n : ℕ) (x : Element) → n ≡ 0 → (mark_count n x).is_modified ≡ false
unfolding mark_count
mark_count-zero n x h = ground (arith, h)

reduce-none : length (reduce [] []) ≡ 0
unfolding reduce
reduce-none = refl

mark_count_oid : (n : ℕ) (x : Element) → (mark_count n (newish x)).oid ≡ x.oid
unfolding mark_count
mark_count_oid n x = ground arith

-- Some element below an OID is modified or new.
abbrev pub IsAbove : String → List Element → Type 0
IsAbove oid doc =
    (x : Element) × Memᴰ x doc
    × (covers oid x.oid ≡ true)
    × ((x.is_modified ≡ true) ⊎ (x.is_new ≡ true))

query_modified_iff :
    (oid : String) (doc : List Element) → (0 < length (query_modified oid doc)) ↔ IsAbove oid doc
unfolding query_modified
query_modified_iff oid [] = ((λ h. elim h [ ]), λ a. elim a.1 [ ])
query_modified_iff oid (e ∷ es) =
    elim (Bool-cases (covers oid e.oid && (e.is_modified || e.is_new))) [
      | inl here ↦ rw here (
        (λ h. (
          e,
          Memᴰ.head refl,
          ground (arith, here),
          either e.is_modified e.is_new (ground (arith, here)),
        )),
        λ a. omega arith,
      )
      | inr other ↦ rw other (
        (λ h.
            let (x, m, below, changed) = (query_modified_iff oid es).0 h in
            (x, Memᴰ.tail m, below, changed)),
        λ (x, m, below, changed). later x m below changed other (query_modified_iff oid es).1,
      )
    ]
  where
    neither : (a b c : Bool) → a ≡ true → (b ≡ true) ⊎ (c ≡ true) → (a && (b || c)) ≡ false → ⊥
    neither a b c h (inl k) f = ground (arith, h, k, f)
    neither a b c h (inr k) f = ground (arith, h, k, f)

    later :
        (x : Element)
        → Memᴰ x (e ∷ es)
        → covers oid x.oid ≡ true
        → (x.is_modified ≡ true) ⊎ (x.is_new ≡ true)
        → (covers oid e.oid && (e.is_modified || e.is_new)) ≡ false
        → (IsAbove oid es → 0 < length (query_modified oid es))
        → 0 < length (query_modified oid es)
    later x (Memᴰ.head same) below changed other rest = absurd (
        neither (covers oid e.oid) e.is_modified e.is_new
          (subst (λ y. covers oid y.oid ≡ true) same below)
          (subst (λ y. (y.is_modified ≡ true) ⊎ (y.is_new ≡ true)) same changed) other)
    later x (Memᴰ.tail m) below changed other rest = rest (x, m, below, changed)

-- An element once its count is shown.
pub record IsCounted (n : ℕ) (e e' : Element) : Type 0 where
  pub nothing : n ≡ 0 → e'.count ≡ unset
  pub one : n ≡ 1 → e'.count ≡ single
  pub more : 2 ≤ n → e'.count ≡ multiple
  pub row : e.is_row ≡ true → e'.is_newish ≡ (e.is_new && e.is_deletable)
  pub other : e.is_row ≡ false → e'.is_newish ≡ e.is_newish
  pub still_new : e'.is_new ≡ e.is_new

mark_count-IsCounted : (n : ℕ) (e : Element) → IsCounted n e (mark_count n (newish e))
unfolding mark_count
mark_count-IsCounted n e = record {
  nothing = λ h. ground (arith, h);
  one = λ h. ground (arith, h);
  more = λ h. ground (arith, h);
  row = λ h. ground (arith, h);
  other = λ h. ground (arith, h);
  still_new = ground arith;
}

module _ (sort : List String → List String)
    (permutes : (l : List String) → length (sort l) ≡ length l) where
  count_below-pos :
      (oid : String) (doc : List Element)
      → 0 < length (query_modified oid doc)
      → 0 < count_below sort oid doc
  unfolding count_below
  count_below-pos oid doc h =
      reduce-pos (sort (distinct_from [] (keep_prefixed oid (query_modified oid doc)))) (
        omega (
          arith,
          permutes (distinct_from [] (keep_prefixed oid (query_modified oid doc))),
          distinct_from-pos (keep_prefixed oid (query_modified oid doc))
              (omega (arith, ap length (keep_prefixed-query oid doc))),
        ))

  -- Nothing to sort, nothing to count.
  count_below-none :
      (oid : String) (doc : List Element)
      → query_modified oid doc ≡ []
      → count_below sort oid doc ≡ 0
  unfolding count_below distinct_from
  count_below-none oid doc none_below =
      ap (λ l. length (reduce [] (sort (distinct_from [] l))))
        (keep_prefixed-query oid doc ∙ none_below)
      ∙ ap (λ l. length (reduce [] l)) (length-none (sort []) (permutes []))
      ∙ reduce-none

  -- After `modified` of an OID of which there is an element, the first such element says `single` if its
  -- count is 1, `multiple` if it is more, and nothing if it is 0; it is marked as modified exactly if
  -- some element below it is modified or new, in whatever order the browser sorts, as long as it loses
  -- none and adds none; a row is newish exactly if it is new and its page would delete it.
  pub modified-exact :
      (oid : String) (doc : List Element) (e : Element)
      → first_of oid doc ≡ some e
      → (e' : Element) × (first_of oid (modified sort oid doc) ≡ some e')
        × IsCounted (count_below sort oid doc) e e'
        × ((e'.is_modified ≡ true) ↔ IsAbove oid doc)
  unfolding modified mark_count
  modified-exact oid doc e h = (
    mark_count (count_below sort oid doc) (newish e),
    first_of-change_first oid (λ x. mark_count (count_below sort oid doc) (newish x)) doc e
        (mark_count_oid (count_below sort oid doc)) h,
    mark_count-IsCounted (count_below sort oid doc) e,
    (
      (λ marked. elim (length-cases (query_modified oid doc)) [
        | inl nothing ↦ cc (
          marked,
          mark_count-zero (count_below sort oid doc) (newish e) (count_below-none oid doc nothing),
        )
        | inr below ↦ (query_modified_iff oid doc).0 below
      ]),
      λ below.
          mark_count-pos (count_below sort oid doc) (newish e)
            (count_below-pos oid doc ((query_modified_iff oid doc).1 below)),
    ),
  )
