-- ===== src/Switch.antt =====
-- The `switch (oid)` of the handlers of httpd/html/javascript/db.js: its labels are
-- `${base}${suffix}`, tried in their order; the last argument is the default branch.
use uhppoted_httpd.Prelude.{String, ◌≡◌, refl, false, All, List, [], ◌∷◌, if◌then◌else◌}
use uhppoted_httpd.Text.{◌==◌, ◌++◌, append-eq-append}

module _ {ℓ} {A : Type ℓ} where
  unfoldable pub switch : String → String → List (String × A) → A → A
  switch base oid [] default = default
  switch base oid ((suffix, action) ∷ cases) default =
      if oid == base ++ suffix then action else switch base oid cases default

  -- the same over the suffixes alone
  unfoldable pub select : String → List (String × A) → A → A
  select s [] default = default
  select s ((suffix, action) ∷ cases) default =
      if s == suffix then action else select s cases default

  -- With a common base only the suffixes are compared.
  pub switch-eq-select :
      (base s : String) (cases : List (String × A)) (default : A)
      → switch base (base ++ s) cases default ≡ select s cases default
  unfolding switch select
  switch-eq-select base s [] default = refl
  switch-eq-select base s ((suffix, action) ∷ cases) default =
      rw (append-eq-append, switch-eq-select base s cases default)

  -- No label is chosen by a text that differs from all of them.
  pub select-default :
      (s : String) (cases : List (String × A)) (default : A)
      → All (λ c. (s == c.0) ≡ false) cases
      → select s cases default ≡ default
  unfolding select
  select-default s [] default h = refl
  select-default s ((suffix, action) ∷ cases) default (here, later) =
      rw here (select-default s cases default later)
