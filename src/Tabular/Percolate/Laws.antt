-- ===== src/Tabular/Percolate/Laws.antt =====
-- The walk of `percolate` is complete: it stops at the root only, and its fuel never runs out.
use text.Mathlib.TextLemmas.{nil-append, cons-append, cons-ne-nil, append-ne-nil_of_right_ne-nil}
use mathlib.Core.Option.{some-injective}
use uhppoted_httpd.Prelude.{
  ℕ, zero, suc, ◌+◌, ◌≤◌, ◌<◌, Char, String, true, false, none, some, List, [], ◌∷◌, ◌≡◌, ◌≢◌, refl,
  ap, subst, ◌∙◌, inl, inr, arith, eq_iff, All, Bool-cases, Bool-ext, Option-cases, if◌then◌else◌,
}
use uhppoted_httpd.Text.{◌==◌, ◌++◌}
use uhppoted_httpd.Oid.{is_digit}
use uhppoted_httpd.Oid.Laws.{all_digits, none≢some}
use uhppoted_httpd.Tabular.Percolate.{is_last, parent, length, ancestors, percolate}

-- One component of an OID: digits, at least one.
pub record IsComponent (d : String) : Type 0 where
  pub digits : all_digits d ≡ true
  pub some_digit : d ≢ ""

dot-not_digits : (s d : String) → all_digits (s ++ ("." ++ d)) ≡ false
unfolding all_digits is_digit
dot-not_digits String.[] d = rw (nil-append, cons-append) refl
dot-not_digits (String.◌∷◌ c s) d = rw cons-append (ground (arith, dot-not_digits s d))

-- The parent of an OID is the OID without its last component.
pub parent-append : (s d : String) → IsComponent d → parent (s ++ ("." ++ d)) ≡ some s
unfolding parent is_last
parent-append String.[] d h =
    rw (nil-append, cons-append, nil-append) (ground (arith, h.digits, h.some_digit, eq_iff d ""))
parent-append (String.◌∷◌ c s) d h =
    rw cons-append (ground (arith, dot-not_digits s d, parent-append s d h))

parent-shorter : (s p : String) → parent s ≡ some p → length p < length s
unfolding parent
parent-shorter String.[] p e = cc
parent-shorter (String.◌∷◌ c s) p e = elim (Bool-cases (is_last (String.◌∷◌ c s))) [
  | inl top ↦
      let same : "" ≡ p = some-injective _ _ (rw (top, parent) at e) in
      subst (λ q. length q < suc (length s)) same (omega arith)
  | inr below ↦ elim (Option-cases (parent s)) [
    | inl root ↦ absurd (none≢some (rw (below, root, parent) at e))
    | inr (q, up) ↦
        let same : String.◌∷◌ c q ≡ p = some-injective _ _ (rw (below, up, parent) at e) in
        subst (λ r. length r < suc (length s)) same (omega (arith, parent-shorter s q up))
  ]
]

ancestors_fuel :
    (f g : ℕ) (s : String) → length s ≤ f → length s ≤ g → ancestors f s ≡ ancestors g s
unfolding ancestors parent
ancestors_fuel zero zero s h k = refl
ancestors_fuel zero (suc g) String.[] h k = refl
ancestors_fuel zero (suc g) (String.◌∷◌ c s) h k = absurd (omega arith)
ancestors_fuel (suc f) zero String.[] h k = refl
ancestors_fuel (suc f) zero (String.◌∷◌ c s) h k = absurd (omega arith)
ancestors_fuel (suc f) (suc g) s h k = elim (Option-cases (parent s)) [
  | inl root ↦ rw (root, ancestors)
  | inr (p, up) ↦
      rw (up, ancestors)
        (ap (λ r. if p == "" then [] else p ∷ r)
          (ancestors_fuel f g p (omega (arith, parent-shorter s p up))
            (omega (arith, parent-shorter s p up))))
]

length-append : (s t : String) → length (s ++ t) ≡ length s + length t
length-append String.[] t = rw nil-append (omega arith)
length-append (String.◌∷◌ c s) t = rw cons-append (omega (arith, length-append s t))

-- Above an OID come its parent and what is above that.
pub percolate-append :
    (s d : String) → s ≢ "" → IsComponent d → percolate (s ++ ("." ++ d)) ≡ s ∷ percolate s
unfolding percolate
percolate-append s d n h =
    rw (rounds, parent-append s d h, ancestors)
      (rw (Bool-ext (s == "") false (λ e. absurd (n ((eq_iff s "").0 e))) (λ e. cc)) (
        ap (λ r. s ∷ r)
          (ancestors_fuel (length s + length d) (length s) s (omega arith) (omega arith))))
  where
    rounds : length (s ++ ("." ++ d)) ≡ suc (length s + length d)
    rounds = omega (arith, length-append s ("." ++ d), length-append "." d)

-- An OID from its first component and those behind it, and its ancestors from the nearest up.
abbrev pub dotted : String → List String → String
dotted s [] = s
dotted s (d ∷ ds) = dotted (s ++ ("." ++ d)) ds

abbrev pub prefixes : String → List String → List String → List String
prefixes s [] above = above
prefixes s (d ∷ ds) above = prefixes (s ++ ("." ++ d)) ds (s ∷ above)

percolate-dotted :
    (s : String) (ds : List String)
    → s ≢ ""
    → All IsComponent ds
    → percolate (dotted s ds) ≡ prefixes s ds (percolate s)
percolate-dotted s [] n h = refl
percolate-dotted s (d ∷ ds) n (c, h) =
    rw (← percolate-append s d n c)
      (percolate-dotted (s ++ ("." ++ d)) ds (append-ne-nil_of_right_ne-nil s (longer d)) h)
  where
    longer : (t : String) → "." ++ t ≢ ""
    longer t e = cons-ne-nil _ _ (rw cons-append at e)

is_last-digits : (s : String) → all_digits s ≡ true → is_last s ≡ false
unfolding is_last
is_last-digits String.[] h = refl
is_last-digits (String.◌∷◌ c s) h = ground arith

tail_digits : (c : Char) (s : String) → all_digits (String.◌∷◌ c s) ≡ true → all_digits s ≡ true
unfolding all_digits
tail_digits c s h = ground arith

parent-digits : (s : String) → all_digits s ≡ true → parent s ≡ none
unfolding parent
parent-digits String.[] h = refl
parent-digits (String.◌∷◌ c s) h =
    rw (is_last-digits (String.◌∷◌ c s) h, parent-digits s (tail_digits c s h), parent)

ancestors-root : (s : String) (f : ℕ) → parent s ≡ none → ancestors f s ≡ []
unfolding ancestors
ancestors-root s zero h = refl
ancestors-root s (suc f) h = rw (h, ancestors)

-- For an OID of numeric components, `percolate` reaches every proper prefix of it at a dot, each
-- once, the longest first, down to the first component, and nothing else.
pub percolate-prefixes :
    (root : String) (ds : List String)
    → IsComponent root
    → All IsComponent ds
    → percolate (dotted root ds) ≡ prefixes root ds []
unfolding percolate
percolate-prefixes root ds r h = percolate-dotted root ds r.some_digit h ∙ ap (prefixes root ds) top
  where
    top : percolate root ≡ []
    top = ancestors-root root (length root) (parent-digits root r.digits)
