-- ===== src/Pages/Names.antt =====
-- The `id` of a row, `'R' + oid.replaceAll(/[^0-9]/g, '')`, as every page of
-- httpd/html/javascript with a table makes it.
use Prim.Native.String.{[], ◌∷◌}
use text.Mathlib.TextLemmas.{append_cancel_left, nil-append, cons-append}
use uhppoted_httpd.Prelude.{
  String, true, ◌≡◌, refl, sym, ap, ◌∙◌, arith, Bool-cases, inl, inr, if◌then◌else◌,
}
use uhppoted_httpd.Text.{◌++◌}
use uhppoted_httpd.Oid.{is_digit}
use uhppoted_httpd.Oid.Laws.{IsBase, all_digits}
use uhppoted_httpd.Oid.Member.{number_digits}

-- `replaceAll(/[^0-9]/g, '')`
unfoldable pub only_digits : String → String
unfolding is_digit
only_digits [] = []
only_digits (c ∷ s) = let rest = only_digits s in if is_digit c then c ∷ rest else rest

unfoldable pub row_id : String → String
unfolding only_digits
row_id oid = "R" ++ only_digits oid

only_digits-append : (s t : String) → only_digits (s ++ t) ≡ only_digits s ++ only_digits t
unfolding only_digits
only_digits-append [] t = rw (nil-append t, nil-append (only_digits t)) refl
only_digits-append (c ∷ s) t = elim (Bool-cases (is_digit c)) [
  | inl digit ↦
      rw (cons-append c s t, digit, only_digits-append s t)
        (sym (cons-append c (only_digits s) (only_digits t)))
  | inr other ↦ rw (cons-append c s t, other) (only_digits-append s t)
]

only_digits-all : (s : String) → all_digits s ≡ true → only_digits s ≡ s
unfolding only_digits all_digits
only_digits-all [] h = refl
only_digits-all (c ∷ s) h = ground (arith, h, only_digits-all s)

only_digits-base :
    (table oid : String) (b : IsBase table oid) → only_digits oid ≡ only_digits table ++ b.number
only_digits-base table oid b =
    ap only_digits b.same
    ∙ only_digits-append table b.number
    ∙ ap (λ t. only_digits table ++ t) (only_digits-all b.number (number_digits b.number b.exact))

-- Rows of different records of a table have different `id`s.
pub row_id-injective :
    (table p q : String) → IsBase table p → IsBase table q → row_id p ≡ row_id q → p ≡ q
unfolding row_id
row_id-injective table p q a b e =
    let digits =
      sym (only_digits-base table p a)
      ∙ append_cancel_left "R" _ _ e
      ∙ only_digits-base table q b in
    a.same ∙ ap (λ t. table ++ t) (append_cancel_left (only_digits table) _ _ digits) ∙ sym b.same
