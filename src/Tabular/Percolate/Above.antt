-- ===== src/Tabular/Percolate/Above.antt =====
-- The OIDs above an OID, and those that `percolate` of httpd/html/javascript/tabular.js visits.
use text.Mathlib.TextLemmas.{
  nil-append, cons-append, append_assoc, append-nil, head-eq_of_cons-eq, tail-eq_of_cons-eq,
}
use text.Mathlib.TextEquality.{starts_with_iff}
use text.Mathlib.TextPositions.{starts_with_of_prefix}
use uhppoted_httpd.Prelude.{
  Char, String, Bool, true, false, ◌≡◌, refl, sym, ap, ◌∙◌, ◌⊎◌, inl, inr, List, [], ◌∷◌, All,
  arith, Bool-cases, eq_refl, ◌||◌,
}
use uhppoted_httpd.Text.{◌==◌, ◌++◌}
use uhppoted_httpd.Oid.{is_digit}
use uhppoted_httpd.Oid.Laws.{all_digits}
use uhppoted_httpd.Tabular.Modified.{covers, find}
use uhppoted_httpd.Tabular.Percolate.{percolate}
use uhppoted_httpd.Tabular.Percolate.Laws.{IsComponent, dotted, prefixes, percolate-prefixes}

-- Two ways of cutting a text: one of the first parts is the beginning of the other.
abbrev Cut : String → String → String → String → Type 0
Cut o s u t =
    ((w : String) × (s ≡ o ++ w) × (u ≡ w ++ t)) ⊎ ((w : String) × (o ≡ s ++ w) × (t ≡ w ++ u))

cut : (o s u t : String) → o ++ u ≡ s ++ t → Cut o s u t
cut String.[] s u t e = inl (s, sym (nil-append s), sym (nil-append u) ∙ e)
cut (String.◌∷◌ c o) String.[] u t e =
    inr (String.◌∷◌ c o, sym (nil-append _), sym (nil-append t) ∙ sym e)
cut (String.◌∷◌ c o) (String.◌∷◌ d s) u t e =
    let f : String.◌∷◌ c (o ++ u) ≡ String.◌∷◌ d (s ++ t) =
      sym (cons-append c o u) ∙ e ∙ cons-append d s t in
    let h : c ≡ d = head-eq_of_cons-eq f in
    elim (cut o s u t (tail-eq_of_cons-eq f)) [
      | inl (w, a, b) ↦ inl (w, (λ i. String.◌∷◌ (sym h i) (a i)) ∙ sym (cons-append c o w), b)
      | inr (w, a, b) ↦ inr (w, (λ i. String.◌∷◌ (h i) (a i)) ∙ sym (cons-append d s w), b)
    ]

pub covers-append : (o u : String) → covers o (o ++ ("." ++ u)) ≡ true
covers-append o u = starts_with_of_prefix (o ++ ".") (o ++ ("." ++ u)) (u, append_assoc o "." u)

no_dot : (w u : String) → all_digits (w ++ ("." ++ u)) ≡ false
unfolding all_digits is_digit
no_dot String.[] u = rw (nil-append, cons-append) refl
no_dot (String.◌∷◌ c w) u = rw cons-append (ground (arith, no_dot w u))

dot_first : (c : Char) (w u r : String) → "." ++ u ≡ String.◌∷◌ c w ++ r → String.◌∷◌ c w ≡ "." ++ w
dot_first c w u r b =
    let f = rw (cons-append, cons-append) at b in
    let same : c ≡ _ = sym (head-eq_of_cons-eq f) in
    rw (cons-append, nil-append) (λ i. String.◌∷◌ (same i) w)

dot_rest : (c : Char) (w d r : String) → "." ++ d ≡ String.◌∷◌ c w ++ r → d ≡ w ++ r
dot_rest c w d r b =
    let f = rw (cons-append, cons-append) at b in sym (nil-append d) ∙ tail-eq_of_cons-eq f

-- What is above an OID with one component more is the OID or above it.
covers-last :
    (o s d : String)
    → all_digits d ≡ true
    → covers o (s ++ ("." ++ d)) ≡ true
    → (o ≡ s) ⊎ (covers o s ≡ true)
covers-last o s d h k =
    let (u, same) = (starts_with_iff (s ++ ("." ++ d)) (o ++ ".")).0 k in
    last u (cut o s ("." ++ u) ("." ++ d) (sym (append_assoc o "." u) ∙ same))
  where
    below : (w u : String) → s ≡ o ++ w → "." ++ u ≡ w ++ ("." ++ d) → (o ≡ s) ⊎ (covers o s ≡ true)
    below String.[] u a b = inl (sym (append-nil o) ∙ sym a)
    below (String.◌∷◌ c w) u a b = inr (rw (a, dot_first c w u ("." ++ d) b) (covers-append o w))

    dotless : (w u : String) → d ≡ w ++ ("." ++ u) → ⊥
    dotless w u e = cc (h, ap all_digits e, no_dot w u)

    beyond :
        (w u : String) → o ≡ s ++ w → "." ++ d ≡ w ++ ("." ++ u) → (o ≡ s) ⊎ (covers o s ≡ true)
    beyond String.[] u a b = inl (a ∙ append-nil s)
    beyond (String.◌∷◌ c w) u a b = absurd (dotless w u (dot_rest c w d ("." ++ u) b))

    last : (u : String) → Cut o s ("." ++ u) ("." ++ d) → (o ≡ s) ⊎ (covers o s ≡ true)
    last u (inl (w, a, b)) = below w u a b
    last u (inr (w, a, b)) = beyond w u a b

-- The OIDs above one of numeric components are among those that `percolate` visits.
covers-prefixes :
    (o s : String) (ds above : List String)
    → All IsComponent ds
    → ((covers o s ≡ true) → find (λ p. p == o) above ≡ true)
    → covers o (dotted s ds) ≡ true
    → find (λ p. p == o) (prefixes s ds above) ≡ true
covers-prefixes o s [] above h known k = known k
covers-prefixes o s (d ∷ ds) above (c, h) known k =
    covers-prefixes o (s ++ ("." ++ d)) ds (s ∷ above) h
      (λ over. elim (covers-last o s d c.digits over) [
        | inl same ↦ rw (same, eq_refl s) refl
        | inr higher ↦ rw (known higher) (true-right (s == o))
      ])
      k
  where
    true-right : (b : Bool) → (b || true) ≡ true
    true-right true = refl
    true-right false = refl

-- Nothing is above a first component.
covers-root : (o root : String) → all_digits root ≡ true → covers o root ≡ false
covers-root o root h = elim (Bool-cases (covers o root)) [
  | inl over ↦
      let (u, same) = (starts_with_iff root (o ++ ".")).0 over in
      cc (h, ap all_digits (sym (append_assoc o "." u) ∙ same), no_dot o u)
  | inr other ↦ other
]

pub percolate-covers :
    (o root : String) (ds : List String)
    → IsComponent root
    → All IsComponent ds
    → covers o (dotted root ds) ≡ true
    → find (λ p. p == o) (percolate (dotted root ds)) ≡ true
percolate-covers o root ds r h k =
    rw (percolate-prefixes root ds r h)
      (covers-prefixes o root ds [] h (λ over. cc (over, covers-root o root r.digits)) k)
