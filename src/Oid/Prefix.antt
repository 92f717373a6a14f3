-- ===== src/Oid/Prefix.antt =====
-- `oid.startsWith(…)` of an OID of a known table.
use Prim.Native.String.{[], ◌∷◌}
use text.Mathlib.TextEquality.{starts_with_iff}
use text.Mathlib.TextPositions.{starts_with-append}
use text.Mathlib.TextLemmas.{cons-append, append_assoc}
use uhppoted_httpd.Prelude.{
  code, String, Bool, true, false, not, ◌||◌, ◌≡◌, sym, ap, ◌∙◌, none, arith, nat_eq, inl, inr,
  Bool-cases,
}
use uhppoted_httpd.Text.{◌++◌, starts_with}
use uhppoted_httpd.Oid.{literal}
use uhppoted_httpd.Oid.Laws.{literal-append, none≢some}

-- Two texts that differ at some place.
abbrev pub clash : String → String → Bool
clash [] q = false
clash (a ∷ p) [] = false
clash (a ∷ p) (b ∷ q) = not (nat_eq (code a) (code b)) || clash p q

pub literal-clash : (p q u : String) → clash p q ≡ true → literal p (q ++ u) ≡ none
unfolding literal
literal-clash [] q u h = cc
literal-clash (a ∷ p) [] u h = cc
literal-clash (a ∷ p) (b ∷ q) u h = rw cons-append (ground (arith, literal-clash p q u))

pub starts_with-clash : (p q u : String) → clash p q ≡ true → starts_with (q ++ u) p ≡ false
starts_with-clash p q u h = elim (Bool-cases (starts_with (q ++ u) p)) [
  | inl begins ↦
      let (rest, same) = (starts_with_iff (q ++ u) p).0 begins in
      absurd (
        none≢some (sym (literal-clash p q u h) ∙ ap (literal p) (sym same) ∙ literal-append p rest))
  | inr other ↦ other
]

pub starts_with-dot : (p u : String) → starts_with ((p ++ ".") ++ u) p ≡ true
starts_with-dot p u = rw append_assoc (starts_with-append p ("." ++ u))
