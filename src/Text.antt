-- ===== src/Text.antt =====
-- Comparing texts that share a beginning: the labels of a `switch (oid)` are `${base}${suffix}`.
pub use text.Mathlib.Text.{◌==◌, starts_with}
pub use Prim.Native.String.{◌++◌}
use text.Mathlib.TextLemmas.{append_cancel_left}
use uhppoted_httpd.Prelude.{String, ◌≡◌, ap, eq_iff, Bool-ext}

pub append-eq-append : (s t u : String) → ((s ++ t) == (s ++ u)) ≡ (t == u)
append-eq-append s t u =
    Bool-ext _ _ (λ h. (eq_iff t u).1 (append_cancel_left s t u ((eq_iff (s ++ t) (s ++ u)).0 h)))
      (λ h. (eq_iff (s ++ t) (s ++ u)).1 (ap (λ x. s ++ x) ((eq_iff t u).0 h)))
