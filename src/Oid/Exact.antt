-- ===== src/Oid/Exact.antt =====
-- What the expression of a table in httpd/html/javascript/schema.js matches, character by character.
use Prim.Native.String.{[], ◌∷◌}
use text.Mathlib.TextEquality.{Char-path}
use text.Mathlib.TextLemmas.{nil-append, cons-append}
use mathlib.Core.Option.{some-injective}
use uhppoted_httpd.Prelude.{
  Char, code, ℕ, ◌≤◌, ◌<◌, String, true, false, nat_eq, leb, ◌&&◌, ◌≡◌, ◌≢◌, ◌⊎◌, ◌↔◌, refl, sym,
  ap, subst, ◌∙◌, some, inl, inr, arith, Bool-cases, Option-cases,
}
use uhppoted_httpd.Text.{◌++◌}
use uhppoted_httpd.Oid.{is_leading, literal, is_digit, digits, numeral, is_line, match_record}
use uhppoted_httpd.Oid.Laws.{literal-append, none≢some}

-- `[0-9]*`, throughout, and `[1-9][0-9]*`
abbrev pub AreDigits : String → Type 0
AreDigits [] = Unit
AreDigits (c ∷ s) = (48 ≤ code c) × (code c ≤ 57) × AreDigits s

abbrev pub IsNumeral : String → Type 0
IsNumeral [] = ⊥
IsNumeral (c ∷ s) = (49 ≤ code c) × (code c ≤ 57) × AreDigits s

-- Not a digit next, and no line terminator.
abbrev pub IsOutside : String → Type 0
IsOutside [] = Unit
IsOutside (c ∷ s) = (code c < 48) ⊎ (57 < code c)

abbrev pub IsLine : String → Type 0
IsLine [] = Unit
IsLine (c ∷ s) = (code c ≢ 10) × (code c ≢ 13) × (code c ≢ 8232) × (code c ≢ 8233) × IsLine s

-- A text that begins with the table's prefix and a number without a leading zero, all its digits.
pub record IsParsed (table oid base number : String) : Type 0 where
  pub rest : String
  pub whole : oid ≡ table ++ (number ++ rest)
  pub joined : base ≡ table ++ number
  pub numbered : IsNumeral number
  pub outside : IsOutside rest
  pub line : IsLine rest

literal-inverse : (p s after : String) → literal p s ≡ some after → s ≡ p ++ after
unfolding literal
literal-inverse [] s after h = some-injective _ _ h ∙ sym (nil-append after)
literal-inverse (c ∷ p) [] after h = cc h
literal-inverse (c ∷ p) (d ∷ s) after h = elim (Bool-cases (nat_eq (code c) (code d))) [
  | inl same ↦
      let chars : c ≡ d = Char-path c d (ground (arith, same)) in
      ap (λ e. e ∷ s) (sym chars)
      ∙ ap (λ t. c ∷ t) (literal-inverse p s after (rw same at h))
      ∙ sym (cons-append c p after)
  | inr other ↦ cc (rw other at h)
]

digits-AreDigits : (s : String) → AreDigits (digits s).0
unfolding digits is_digit
digits-AreDigits [] = tt
digits-AreDigits (c ∷ s) = elim (Bool-cases (is_digit c)) [
  | inl more ↦ rw more (ground (arith, more), ground (arith, more), digits-AreDigits s)
  | inr done ↦ rw done tt
]

digits-whole : (s : String) → s ≡ (digits s).0 ++ (digits s).1
unfolding digits
digits-whole [] = sym (nil-append "")
digits-whole (c ∷ s) = elim (Bool-cases (is_digit c)) [
  | inl more ↦ rw (more, cons-append) (ap (λ t. c ∷ t) (digits-whole s))
  | inr done ↦ rw (done, nil-append) refl
]

digits-IsOutside : (s : String) → IsOutside (digits s).1
unfolding digits is_digit
digits-IsOutside [] = tt
digits-IsOutside (c ∷ s) = elim (Bool-cases (is_digit c)) [
  | inl more ↦ rw more (digits-IsOutside s)
  | inr done ↦ rw done (outside (code c) done)
]
  where
    outside : (n : ℕ) → (leb 48 n && leb n 57) ≡ false → (n < 48) ⊎ (57 < n)
    outside n h = ground (arith, h)

digits-done : (c : Char) (s : String) → IsOutside (c ∷ s) → digits (c ∷ s) ≡ ("", c ∷ s)
unfolding digits is_digit
digits-done c s (inl low) = ground (arith, low)
digits-done c s (inr high) = ground (arith, high)

digits-exact : (d s : String) → AreDigits d → IsOutside s → digits (d ++ s) ≡ (d, s)
unfolding digits is_digit
digits-exact [] [] h o = refl
digits-exact [] (c ∷ s) h o = rw nil-append (digits-done c s o)
digits-exact (c ∷ d) s (lo, hi, h) o = rw cons-append (ground (arith, digits-exact d s h o))

line_iff : (s : String) → (is_line s ≡ true) ↔ IsLine s
unfolding is_line
line_iff [] = (λ h. tt, λ h. refl)
line_iff (c ∷ s) = (
  (λ h. (
    ground (arith, h),
    ground (arith, h),
    ground (arith, h),
    ground (arith, h),
    (line_iff s).0 (ground (arith, h)),
  )),
  λ (a, b, c, d, h). ground (arith, a, b, c, d, (line_iff s).1 h),
)

numeral-parts :
    (s number rest : String)
    → numeral s ≡ some (number, rest)
    → (s ≡ number ++ rest) × IsNumeral number × IsOutside rest
unfolding numeral is_leading
numeral-parts [] number rest h = cc h
numeral-parts (c ∷ s) number rest h = elim (Bool-cases (is_leading c)) [
  | inl leading ↦
      let f : ◌≡◌ {A = String × String} (c ∷ (digits s).0, (digits s).1) (number, rest) =
        some-injective _ _ (rw leading at h) in
      let first : c ∷ (digits s).0 ≡ number = ap (λ (t : String × String). t.0) f in
      let last : (digits s).1 ≡ rest = ap (λ (t : String × String). t.1) f in
      (
        ap (λ t. c ∷ t) (digits-whole s)
            ∙ sym (cons-append c (digits s).0 (digits s).1)
            ∙ ap (λ (t : String × String). t.0 ++ t.1) f,
        subst IsNumeral first
            (ground (arith, leading), ground (arith, leading), digits-AreDigits s),
        subst IsOutside last (digits-IsOutside s),
      )
  | inr other ↦ cc (rw other at h)
]

numeral-exact :
    (number rest : String)
    → IsNumeral number
    → IsOutside rest
    → numeral (number ++ rest) ≡ some (number, rest)
unfolding numeral is_leading
numeral-exact [] rest h o = absurd h
numeral-exact (c ∷ s) rest (lo, hi, h) o =
    rw cons-append (ground (arith, lo, hi, digits-exact s rest h o))

match_record-IsParsed :
    (table oid base number : String)
    → match_record table oid ≡ some (base, number)
    → IsParsed table oid base number
unfolding match_record
match_record-IsParsed table oid base number e = elim (Option-cases (literal table oid)) [
  | inl missed ↦ absurd (none≢some (rw (missed, match_record) at e))
  | inr (after, found) ↦ elim (Option-cases (numeral after)) [
    | inl other ↦ absurd (none≢some (rw (found, other, match_record) at e))
    | inr ((n, rest), got) ↦ elim (Bool-cases (is_line rest)) [
      | inl line ↦
          let f : ◌≡◌ {A = String × String} (table ++ n, n) (base, number) =
            some-injective _ _ (rw (found, got, line, match_record) at e) in
          let same : n ≡ number = ap (λ (t : String × String). t.1) f in
          let (parts, numbered, outside) = numeral-parts after n rest got in
          record {
            rest = rest;
            whole =
                literal-inverse table oid after found
                ∙ ap (λ t. table ++ t) (parts ∙ ap (λ t. t ++ rest) same);
            joined = sym (ap (λ (t : String × String). t.0) f) ∙ ap (λ t. table ++ t) same;
            numbered = subst IsNumeral same numbered;
            outside = outside;
            line = (line_iff rest).0 line;
          }
      | inr broken ↦ absurd (none≢some (rw (found, got, broken, match_record) at e))
    ]
  ]
]

-- Whatever the texts: the expression of a table matches an OID with these two groups exactly if the
-- OID is the table's prefix, then the second group, then a rest that does not begin with a digit and
-- has no line terminator, where the second group is one or more of the digits, the first not 0, and
-- the first group is the prefix with the second.
pub match_record-exact :
    (table oid base number : String)
    → (match_record table oid ≡ some (base, number)) ↔ IsParsed table oid base number
unfolding match_record
match_record-exact table oid base number = (
  match_record-IsParsed table oid base number,
  λ h. rw h.whole (
      rw
        (
          match_record,
          literal-append table (number ++ h.rest),
          numeral-exact number h.rest h.numbered h.outside,
          (line_iff h.rest).1 h.line,
          h.joined,
        )
        refl),
)
