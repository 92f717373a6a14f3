-- ===== src/Oid/Laws.antt =====
-- What the expressions of the schema match.
use Prim.Native.String.{[], ◌∷◌}
use text.Mathlib.TextLemmas.{nil-append, cons-append, append_assoc, nil≢cons, tail-eq_of_cons-eq}
use mathlib.Core.Option.{some-injective}
use uhppoted_httpd.Prelude.{
  Char, String, Bool, true, false, ◌&&◌, ◌≡◌, refl, sym, ap, ◌∙◌, eq_iff, none, some, if◌then◌else◌,
  inl, inr, arith, Bool-cases, Option-cases,
}
use uhppoted_httpd.Text.{◌++◌, ◌==◌}
use uhppoted_httpd.Oid.{
  is_leading, literal, is_digit, digits, numeral, is_line, match_record, match_base, match_tail,
  match_member,
}

-- The text after a literal beginning.
pub literal-append : (p s : String) → literal p (p ++ s) ≡ some s
unfolding literal
literal-append [] s = rw nil-append
literal-append (c ∷ p) s = rw cons-append (ground (arith, literal-append p s))

-- `b` is the OID of a record of the table: its prefix and a number without a leading zero.
pub record IsBase (table base : String) : Type 0 where
  pub number : String
  pub same : base ≡ table ++ number
  pub exact : numeral number ≡ some (number, "")

-- A suffix begins with no digit and holds no line terminator.
abbrev pub starts_digit : String → Bool
starts_digit [] = false
starts_digit (c ∷ s) = is_digit c

pub record IsSuffix (s : String) : Type 0 where
  pub not_digit : starts_digit s ≡ false
  pub line : is_line s ≡ true

unfoldable pub all_digits : String → Bool
all_digits [] = true
all_digits (c ∷ s) = is_digit c && all_digits s

pub digits_all : (d : String) → digits d ≡ (d, "") → all_digits d ≡ true
unfolding digits all_digits
digits_all [] e = refl
digits_all (c ∷ d) e = elim (Bool-cases (is_digit c)) [
  | inl more ↦
      let f : (c ∷ (digits d).0, (digits d).1) ≡ (c ∷ d, "") = rw more at e in
      let taken : (digits d).0 ≡ d = tail-eq_of_cons-eq (ap (λ (t : String × String). t.0) f) in
      let rest : (digits d).1 ≡ "" = ap (λ (t : String × String). t.1) f in
      rw more (digits_all d (λ i. (taken i, rest i)))
  | inr done ↦
      let f : ("", c ∷ d) ≡ (c ∷ d, "") = rw done at e in
      absurd (nil≢cons (ap (λ (t : String × String). t.0) f))
]

digits-append :
    (d s : String) → all_digits d ≡ true → starts_digit s ≡ false → digits (d ++ s) ≡ (d, s)
unfolding digits all_digits
digits-append [] [] e h = refl
digits-append [] (c ∷ s) e h = rw nil-append (ground arith)
digits-append (c ∷ d) s e h = rw cons-append (ground (arith, digits-append d s))

pub numeral-append :
    (n s : String)
    → numeral n ≡ some (n, "")
    → starts_digit s ≡ false
    → numeral (n ++ s) ≡ some (n, s)
unfolding numeral
numeral-append [] s e h = cc
numeral-append (c ∷ d) s e h = rw cons-append (ground (arith, digits_all d, digits-append d s))

-- A field of a record: its table's expression captures the record's OID and number.
pub match_record-append :
    (table base s : String) (b : IsBase table base)
    → IsSuffix s
    → match_record table (base ++ s) ≡ some (base, b.number)
unfolding match_record
match_record-append table base s b h =
    rw (b.same, append_assoc)
      (rw (
        literal-append table (b.number ++ s),
        numeral-append b.number s b.exact h.not_digit,
        h.line,
        match_record,
      ))

pub match_base-append :
    (table base s : String)
    → IsBase table base
    → IsSuffix s
    → match_base table (base ++ s) ≡ some base
unfolding match_base
match_base-append table base s b h = rw (match_record-append table base s b h, match_base)

pub match_member-append :
    (table inner base s : String)
    → IsBase table base
    → starts_digit s ≡ false
    → match_member table inner (base ++ s) ≡ match_tail inner base s
unfolding match_member
match_member-append table inner base s b h =
    rw (b.same, append_assoc)
      (rw (literal-append table (b.number ++ s), numeral-append b.number s b.exact h, match_member))

-- What the greedy digits took is digits throughout.
digits_self : (s : String) → digits (digits s).0 ≡ ((digits s).0, "")
unfolding digits
digits_self [] = refl
digits_self (c ∷ s) = elim (Bool-cases (is_digit c)) [
  | inl more ↦ rw (more, digits) (rw (more, digits_self s))
  | inr done ↦ rw (done, digits)
]

numeral_cons :
    (c : Char) (s : String)
    → numeral (c ∷ s) ≡ (if is_leading c then some (c ∷ (digits s).0, (digits s).1) else none)
unfolding numeral
numeral_cons c s = refl

numeral_self : (s n rest : String) → numeral s ≡ some (n, rest) → numeral n ≡ some (n, "")
numeral_self [] n rest e = unfold numeral in cc
numeral_self (c ∷ s) n rest e =
    ground (arith, numeral_cons c s, numeral_cons c (digits s).0, digits_self s)

pub none≢some {ℓ} : {A : Type ℓ} {a : A} → none ≡ some a → ⊥
none≢some e = cc

-- Whatever the text, what a table's expression captures is the OID of a record of that table.
pub match_record-IsBase :
    (table oid base number : String)
    → match_record table oid ≡ some (base, number)
    → IsBase table base
unfolding match_record
match_record-IsBase table oid base number e = elim (Option-cases (literal table oid)) [
  | inl missed ↦ absurd (none≢some (rw (missed, match_record) at e))
  | inr (after, found) ↦ elim (Option-cases (numeral after)) [
    | inl other ↦ absurd (none≢some (rw (found, other, match_record) at e))
    | inr ((n, rest), got) ↦ elim (Bool-cases (is_line rest)) [
      | inl line ↦
          let f : ◌≡◌ {A = String × String} (table ++ n, n) (base, number) =
            some-injective _ _ (rw (found, got, line, match_record) at e) in
          record {
            number = n;
            same = ap (λ (t : String × String). t.0) (sym f);
            exact = numeral_self after n rest got;
          }
      | inr broken ↦ absurd (none≢some (rw (found, got, broken, match_record) at e))
    ]
  ]
]

pub match_base-IsBase :
    (table oid base : String) → match_base table oid ≡ some base → IsBase table base
unfolding match_base
match_base-IsBase table oid base e = elim (Option-cases (match_record table oid)) [
  | inl missed ↦ absurd (none≢some (rw (missed, match_base) at e))
  | inr ((b, n), found) ↦
      let same : b ≡ base = some-injective _ _ (rw (found, match_base) at e) in
      rw same at (match_record-IsBase table oid b n found)
]

-- A text that the table's expression does not match is the OID of no field of a record.
pub append-ne :
    (table base s t : String)
    → IsBase table base
    → IsSuffix s
    → match_base table t ≡ none
    → (base ++ s == t) ≡ false
append-ne table base s t b h missed = elim (Bool-cases (base ++ s == t)) [
  | inl same ↦ absurd (
      none≢some (
        sym missed
        ∙ ap (match_base table) (sym ((eq_iff (base ++ s) t).0 same))
        ∙ match_base-append table base s b h))
  | inr other ↦ other
]
