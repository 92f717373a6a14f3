-- ===== src/Oid/Member.antt =====
-- The OIDs of the entries inside a record: `…5.n` of a card, `…2.n` of a group, and their fields.
use Prim.Native.String.{[], ◌∷◌}
use text.Mathlib.TextLemmas.{nil-append, cons-append, append-nil}
use uhppoted_httpd.Prelude.{
  Char, String, true, false, ◌≡◌, refl, sym, ap, ◌∙◌, Option, some, arith, eq_iff, Bool-cases, inl,
  inr,
}
use uhppoted_httpd.Text.{◌++◌, ◌==◌}
use uhppoted_httpd.Oid.{literal, is_digit, numeral, is_line, match_suffix, match_tail}
use uhppoted_httpd.Oid.Laws.{
  starts_digit, all_digits, digits_all, literal-append, numeral-append, none≢some, IsSuffix,
}
use uhppoted_httpd.Oid.Prefix.{clash, literal-clash}

-- A number as the expressions take it: digits with no zero in front.
abbrev pub IsNumber : String → Type 0
IsNumber n = numeral n ≡ some (n, "")

digits-is_line : (d s : String) → all_digits d ≡ true → is_line s ≡ true → is_line (d ++ s) ≡ true
unfolding all_digits is_line is_digit
digits-is_line [] s e h = rw nil-append h
digits-is_line (c ∷ d) s e h = rw cons-append (ground (arith, digits-is_line d s))

is_line-append : (s t : String) → is_line s ≡ true → is_line t ≡ true → is_line (s ++ t) ≡ true
unfolding is_line
is_line-append [] t h k = rw nil-append k
is_line-append (c ∷ s) t h k = rw cons-append (ground (arith, is_line-append s t))

pub number_digits : (n : String) → IsNumber n → all_digits n ≡ true
unfolding numeral all_digits
number_digits [] e = refl
number_digits (c ∷ d) e = ground (arith, digits_all d)

pub number-is_line : (n s : String) → IsNumber n → is_line s ≡ true → is_line (n ++ s) ≡ true
number-is_line n s e h = digits-is_line n s (number_digits n e) h

pub match_tail-append :
    (inner base n t : String) (suffix : Option String)
    → IsNumber n
    → starts_digit t ≡ false
    → match_suffix t ≡ some suffix
    → match_tail inner base (inner ++ (n ++ t)) ≡ some (base ++ (inner ++ n), suffix)
unfolding match_tail
match_tail-append inner base n t suffix e d m =
    rw (literal-append inner (n ++ t), numeral-append n t e d, m, match_tail)

-- A text that begins otherwise than a label is not that label.
pub clash-ne : (label p u : String) → clash label p ≡ true → (p ++ u == label) ≡ false
clash-ne label p u h = elim (Bool-cases (p ++ u == label)) [
  | inl same ↦ absurd (
      none≢some (
        sym (literal-clash label p u h)
        ∙ ap (literal label) ((eq_iff (p ++ u) label).0 same)
        ∙ rw append-nil at (literal-append label "")))
  | inr other ↦ other
]

pub starts_digit-entry :
    (c : Char) (p u : String) → is_digit c ≡ false → starts_digit ((c ∷ p) ++ u) ≡ false
starts_digit-entry c p u d = rw cons-append d

-- The suffix of an entry is one that the table's expression accepts.
pub entry-IsSuffix :
    (c : Char) (p n t : String)
    → is_digit c ≡ false
    → is_line (c ∷ p) ≡ true
    → IsNumber n
    → is_line t ≡ true
    → IsSuffix ((c ∷ p) ++ (n ++ t))
entry-IsSuffix c p n t d l e h = record {
  not_digit = rw cons-append d;
  line = is_line-append (c ∷ p) (n ++ t) l (number-is_line n t e h);
}
