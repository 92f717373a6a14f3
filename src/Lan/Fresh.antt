-- ===== src/Lan/Fresh.antt =====
-- The LAN settings page of httpd/html/javascript/interfaces.js before any change.
use mathlib.Core.Option.{some-injective}
use uhppoted_httpd.Prelude.{
  String, false, ◌≡◌, refl, sym, ap, ◌∙◌, some, List, [], ◌∷◌, All, arith, Bool-cases, inl, inr,
}
use uhppoted_httpd.Text.{◌==◌}
use uhppoted_httpd.Tabular.Field.{Field}
use uhppoted_httpd.Tabular.Tree.{any_below, first}
use uhppoted_httpd.Lan.{oid_of, is_marked}
use uhppoted_httpd.Lan.Laws.{IsMarkedRight}

abbrev pub AreUnmarked : List Field → Type 0
AreUnmarked doc = All (λ e. is_marked e ≡ false) doc

any_below-none :
    (p : String) (doc : List Field) → AreUnmarked doc → any_below oid_of is_marked p doc ≡ false
unfolding any_below
any_below-none p [] h = refl
any_below-none p (e ∷ es) (u, h) = ground (arith, u, any_below-none p es h)

first-unmarked :
    (p : String) (doc : List Field) (e : Field)
    → AreUnmarked doc
    → first oid_of is_marked p doc ≡ some e
    → is_marked e ≡ false
unfolding first
first-unmarked p [] e h f = cc f
first-unmarked p (d ∷ ds) e (u, h) f = elim (Bool-cases (d.oid == p)) [
  | inl here ↦ sym (ap is_marked (some-injective _ _ (rw here at f))) ∙ u
  | inr other ↦ first-unmarked p ds e h (rw other at f)
]

-- Where nothing is marked every mark is right.
pub unmarked-IsMarkedRight : (doc : List Field) → AreUnmarked doc → IsMarkedRight doc
unmarked-IsMarkedRight doc h p e below f = first-unmarked p doc e h f ∙ sym (any_below-none p doc h)
