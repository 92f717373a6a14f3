-- ===== src/Tabular/Modified/Roots.antt =====
-- What the callback `r` of `modified` in httpd/html/javascript/tabular.js keeps of a list of OIDs.
use text.Mathlib.TextLemmas.{append_assoc, append_cancel_left, append-nil, cons-append, cons-ne-nil}
use text.Mathlib.TextEquality.{starts_with_iff}
use uhppoted_httpd.Prelude.{
  String, Bool, true, false, ◌||◌, List, [], ◌∷◌, ◌++◌, ◌≡◌, refl, sym, ap, ◌∙◌, arith, append_nil,
  append_push, Bool-cases, inl, inr, if◌then◌else◌,
}
use uhppoted_httpd.Text.{◌++◌ as ◌<>◌}
use uhppoted_httpd.Tabular.Modified.{covers, find, reduce, Element, query_modified, distinct_from}
use uhppoted_httpd.Tabular.Modified.Laws.{covers_trans}

-- Whether a list holds an OID above `v`.
abbrev pub is_below : String → List String → Bool
is_below v seen = find (λ e. covers e v) seen

-- The OIDs with none above them before them.
unfoldable pub tops : List String → List String → List String
tops seen [] = []
tops seen (v ∷ vs) = let rest = tops (v ∷ seen) vs in if is_below v seen then rest else v ∷ rest

-- The OIDs with none above them in `all`.
unfoldable pub roots : List String → List String → List String
roots all [] = []
roots all (v ∷ vs) = let rest = roots all vs in if is_below v all then rest else v ∷ rest

-- No OID of the list is below a later one.
abbrev pub IsParentFirst : List String → Type 0
IsParentFirst [] = Unit
IsParentFirst (v ∷ vs) = (is_below v vs ≡ false) × IsParentFirst vs

-- What has been kept stands for all that was read.
abbrev Agree : List String → List String → Type 0
Agree acc seen = (w : String) → is_below w acc ≡ is_below w seen

find-append :
    (p : String → Bool) (xs ys : List String) → find p (xs ++ ys) ≡ (find p xs || find p ys)
find-append p [] ys = refl
find-append p (x ∷ xs) ys = ground (arith, find-append p xs ys)

-- Below an OID that is below one of the list is below one of the list.
is_below_trans :
    (v w : String) (seen : List String)
    → is_below v seen ≡ true
    → covers v w ≡ true
    → is_below w seen ≡ true
is_below_trans v w [] h k = h
is_below_trans v w (e ∷ es) h k = elim (Bool-cases (covers e v)) [
  | inl over ↦ rw (covers_trans e v w over k) refl
  | inr other ↦ rw (is_below_trans v w es (rw other at h) k) (true-right (covers e w))
]
  where
    true-right : (b : Bool) → (b || true) ≡ true
    true-right true = refl
    true-right false = refl

keep-Agree :
    (v : String) (acc seen : List String)
    → Agree acc seen
    → is_below v seen ≡ true
    → Agree acc (v ∷ seen)
keep-Agree v acc seen h below w = elim (Bool-cases (covers v w)) [
  | inl over ↦ rw over (h w ∙ is_below_trans v w seen below over)
  | inr other ↦ rw other (h w)
]

push-Agree :
    (v : String) (acc seen : List String) → Agree acc seen → Agree (acc ++ v ∷ []) (v ∷ seen)
push-Agree v acc seen h w =
    rw (find-append (λ e. covers e w) acc (v ∷ []), h w) (swap (is_below w seen) (covers v w))
  where
    swap : (a b : Bool) → (a || (b || false)) ≡ (b || a)
    swap a b = ground arith

reduce-tops : (acc seen vs : List String) → Agree acc seen → reduce acc vs ≡ acc ++ tops seen vs
unfolding reduce tops
reduce-tops acc seen [] h = sym (append_nil acc)
reduce-tops acc seen (v ∷ vs) h = elim (Bool-cases (is_below v seen)) [
  | inl below ↦ rw (h v, below) (reduce-tops acc (v ∷ seen) vs (keep-Agree v acc seen h below))
  | inr top ↦
      rw (h v, top)
        (reduce-tops (acc ++ v ∷ []) (v ∷ seen) vs (push-Agree v acc seen h)
          ∙ append_push acc v (tops (v ∷ seen) vs))
]

-- Nothing is below itself.
pub covers_irrefl : (v : String) → covers v v ≡ false
covers_irrefl v = elim (Bool-cases (covers v v)) [
  | inl self ↦
      let (u, same) = (starts_with_iff v (v <> ".")).0 self in
      let gone : "." <> u ≡ "" =
        append_cancel_left v ("." <> u) ""
          (sym (append_assoc v "." u) ∙ same ∙ sym (append-nil v)) in
      absurd (cons-ne-nil _ _ (rw cons-append at gone))
  | inr other ↦ other
]

tops-roots :
    (all seen vs : List String)
    → ((w : String) → is_below w all ≡ (is_below w seen || is_below w vs))
    → IsParentFirst vs
    → tops seen vs ≡ roots all vs
unfolding tops roots
tops-roots all seen [] same h = refl
tops-roots all seen (v ∷ vs) same (last, h) =
    rw (same v, covers_irrefl v, last)
      (decide (is_below v seen) (
        tops-roots all (v ∷ seen) vs
          (λ w. same w ∙ turn (is_below w seen) (covers v w) (is_below w vs)) h))
  where
    turn : (a b c : Bool) → (a || (b || c)) ≡ ((b || a) || c)
    turn a b c = ground arith

    decide :
        (b : Bool) {xs ys : List String}
        → xs ≡ ys
        → (if b then xs else v ∷ xs) ≡ (if b || false then ys else v ∷ ys)
    decide true e = e
    decide false e = ap (λ t. v ∷ t) e

-- Of a list in which no OID is below a later one, the callback keeps exactly the OIDs that are
-- below no other OID of the list.
pub reduce-roots : (l : List String) → IsParentFirst l → reduce [] l ≡ roots l l
reduce-roots l h = reduce-tops [] [] l (λ w. refl) ∙ tops-roots l [] l (λ w. refl) h

-- The sorted list that the callback goes through.
abbrev pub sorted_below : (List String → List String) → String → List Element → List String
sorted_below sort oid doc = sort (distinct_from [] (query_modified oid doc))

-- Of two OIDs of which the second is above the first, but not below it, the callback keeps both.
pub reduce-child_first :
    (p v : String) → covers p v ≡ true → covers v p ≡ false → reduce [] (v ∷ p ∷ []) ≡ v ∷ p ∷ []
unfolding reduce
reduce-child_first p v h k = rw k refl
