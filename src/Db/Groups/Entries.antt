-- ===== src/Db/Groups/Entries.antt =====
-- The default branch of `groups`: the permissions that a record holds in its map `doors`.
use uhppoted_httpd.Prelude.{ℕ, String, All, true, false, ◌≡◌, refl, Option, none, some}
use package.text.Mathlib.TextLemmas.{append-nil}
use uhppoted_httpd.Text.{◌++◌, ◌==◌}
use uhppoted_httpd.Value.{Value, text, is_text, Runtime}
use uhppoted_httpd.Oid.{is_digit, is_line, match_suffix}
use uhppoted_httpd.Oid.Laws.{IsBase, starts_digit, match_member-append}
use uhppoted_httpd.Oid.Member.{
  IsNumber, starts_digit-entry, entry-IsSuffix, match_tail-append, clash-ne,
}
use uhppoted_httpd.OrderedMap.{Map, upsert}
use uhppoted_httpd.Switch.{select-default}
use uhppoted_httpd.Db.Handler.{handle-suffix}
use uhppoted_httpd.Db.Groups.{Group, fresh, cases, permission, permissions, groups}

-- The OID of entry `n`, and behind it `t`.
abbrev pub entry : String → String → String
entry n t = ".2." ++ (n ++ t)

entry-labels :
    (js : Runtime) (u : String) (x : Value) → All (λ c. ((".2." ++ u) == c.0) ≡ false) (cases js x)
unfolding cases
entry-labels js u x = (
  clash-ne _ ".2." u refl,
  (
    clash-ne _ ".2." u refl,
    (
      clash-ne _ ".2." u refl,
      (clash-ne _ ".2." u refl, (clash-ne _ ".2." u refl, (clash-ne _ ".2." u refl, tt))),
    ),
  ),
)

permissions-entry :
    (base n t : String) (suffix : Option String) (x : Value) (v : Group)
    → IsBase "0.5." base
    → IsNumber n
    → starts_digit t ≡ false
    → match_suffix t ≡ some suffix
    → permissions (base ++ entry n t) x v ≡ record v {
      doors =
          upsert
            (base ++ (".2." ++ n))
            (record { door = text ""; allowed = false })
            (permission suffix x)
            v.doors;
    }
unfolding permissions
permissions-entry base n t suffix x v b e d m = rw (
  match_member-append "0.5." ".2." base (entry n t) b
      (starts_digit-entry _ _ (n ++ t) (unfold is_digit in refl)),
  match_tail-append ".2." base n t suffix e d m,
  permissions,
)

groups-entry :
    (js : Runtime) (base n t : String) (suffix : Option String) (x : Value) (now : ℕ)
    (table : Map Group)
    → IsBase "0.5." base
    → IsNumber n
    → starts_digit t ≡ false
    → is_line t ≡ true
    → match_suffix t ≡ some suffix
    → groups js (record { oid = base ++ entry n t; value = x }) now table
      ≡ upsert base
          (fresh base x now)
          (λ v. record v {
            doors =
                upsert
                  (base ++ (".2." ++ n))
                  (record { door = text ""; allowed = false })
                  (permission suffix x)
                  v.doors;
            touched = now;
          })
          table
unfolding groups
groups-entry js base n t suffix x now table b e d l m =
    handle-suffix "0.5." base (entry n t) (λ b. fresh b x now) (cases js x)
      (permissions (base ++ entry n t) x) (λ v. record v { touched = now })
      (λ v. record v {
        doors =
            upsert (base ++ (".2." ++ n)) (record { door = text ""; allowed = false })
              (permission suffix x) v.doors;
      })
      table b (unfold is_digit is_line in entry-IsSuffix _ _ n t refl refl e l)
      (λ v.
        rw (select-default (entry n t) (cases js x) _ (entry-labels js (n ++ t) x))
          (permissions-entry base n t suffix x v b e d m))

-- An object for entry `n` of a record sets whether a door is allowed: exactly if the value is the text
-- `true`. One for field `.1` of the entry sets the OID of a door. Nothing else of the record changes
-- but its time, and no other record; the record and the entry are made first if they are missing.
pub groups-permission :
    (js : Runtime) (base n : String) (x : Value) (now : ℕ) (table : Map Group)
    → IsBase "0.5." base
    → IsNumber n
    → (groups js (record { oid = base ++ (".2." ++ n); value = x }) now table
        ≡ upsert base
            (fresh base x now)
            (λ v. record v {
              doors =
                  upsert
                    (base ++ (".2." ++ n))
                    (record { door = text ""; allowed = false })
                    (λ g. record g { allowed = is_text "true" x })
                    v.doors;
              touched = now;
            })
            table)
      × (groups js (record { oid = base ++ (".2." ++ (n ++ ".1")); value = x }) now table
          ≡ upsert base
              (fresh base x now)
              (λ v. record v {
                doors =
                    upsert
                      (base ++ (".2." ++ n))
                      (record { door = text ""; allowed = false })
                      (λ g. record g { door = x })
                      v.doors;
                touched = now;
              })
              table)
unfolding permission
groups-permission js base n x now table b e = (
  rw append-nil at (
      groups-entry js base n "" none x now table b e refl (unfold is_line in refl)
        (unfold match_suffix in refl)),
  groups-entry js base n ".1" (some ".1") x now table b e (unfold is_digit in refl)
      (unfold is_line in refl) (unfold match_suffix in refl),
)
