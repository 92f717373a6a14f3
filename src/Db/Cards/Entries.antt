-- ===== src/Db/Cards/Entries.antt =====
-- The default branch of `cards`: the memberships that a record holds in its map `groups`.
use uhppoted_httpd.Prelude.{ℕ, String, All, true, false, ◌≡◌, refl, Option, none, some}
use package.text.Mathlib.TextLemmas.{append-nil}
use uhppoted_httpd.Text.{◌++◌, ◌==◌}
use uhppoted_httpd.Value.{Value, text, is_text}
use uhppoted_httpd.Oid.{is_digit, is_line, match_suffix}
use uhppoted_httpd.Oid.Laws.{IsBase, starts_digit, match_member-append}
use uhppoted_httpd.Oid.Member.{
  IsNumber, starts_digit-entry, entry-IsSuffix, match_tail-append, clash-ne,
}
use uhppoted_httpd.OrderedMap.{Map, upsert}
use uhppoted_httpd.Switch.{select-default}
use uhppoted_httpd.Db.Handler.{handle-suffix}
use uhppoted_httpd.Db.Cards.{Card, fresh, cases, membership, memberships, cards}

-- The OID of entry `n`, and behind it `t`.
abbrev pub entry : String → String → String
entry n t = ".5." ++ (n ++ t)

entry-labels : (u : String) (x : Value) → All (λ c. ((".5." ++ u) == c.0) ≡ false) (cases x)
unfolding cases
entry-labels u x = (
  clash-ne _ ".5." u refl,
  (
    clash-ne _ ".5." u refl,
    (
      clash-ne _ ".5." u refl,
      (
        clash-ne _ ".5." u refl,
        (
          clash-ne _ ".5." u refl,
          (
            clash-ne _ ".5." u refl,
            (
              clash-ne _ ".5." u refl,
              (
                clash-ne _ ".5." u refl,
                (clash-ne _ ".5." u refl, (clash-ne _ ".5." u refl, (clash-ne _ ".5." u refl, tt))),
              ),
            ),
          ),
        ),
      ),
    ),
  ),
)

memberships-entry :
    (base n t : String) (suffix : Option String) (x : Value) (v : Card)
    → IsBase "0.4." base
    → IsNumber n
    → starts_digit t ≡ false
    → match_suffix t ≡ some suffix
    → memberships (base ++ entry n t) x v ≡ record v {
      groups =
          upsert
            (base ++ (".5." ++ n))
            (record { group = text ""; member = false })
            (membership suffix x)
            v.groups;
    }
unfolding memberships
memberships-entry base n t suffix x v b e d m = rw (
  match_member-append "0.4." ".5." base (entry n t) b
      (starts_digit-entry _ _ (n ++ t) (unfold is_digit in refl)),
  match_tail-append ".5." base n t suffix e d m,
  memberships,
)

cards-entry :
    (base n t : String) (suffix : Option String) (x : Value) (now : ℕ) (table : Map Card)
    → IsBase "0.4." base
    → IsNumber n
    → starts_digit t ≡ false
    → is_line t ≡ true
    → match_suffix t ≡ some suffix
    → cards (record { oid = base ++ entry n t; value = x }) now table
      ≡ upsert base
          (fresh base x now)
          (λ v. record v {
            groups =
                upsert
                  (base ++ (".5." ++ n))
                  (record { group = text ""; member = false })
                  (membership suffix x)
                  v.groups;
            touched = now;
          })
          table
unfolding cards
cards-entry base n t suffix x now table b e d l m =
    handle-suffix "0.4." base (entry n t) (λ b. fresh b x now) (cases x)
      (memberships (base ++ entry n t) x) (λ v. record v { touched = now })
      (λ v. record v {
        groups =
            upsert (base ++ (".5." ++ n)) (record { group = text ""; member = false })
              (membership suffix x) v.groups;
      })
      table b (unfold is_digit is_line in entry-IsSuffix _ _ n t refl refl e l)
      (λ v.
        rw (select-default (entry n t) (cases x) _ (entry-labels (n ++ t) x))
          (memberships-entry base n t suffix x v b e d m))

-- An object for entry `n` of a record sets whether a group is a member: exactly if the value is the text
-- `true`. One for field `.1` of the entry sets the OID of a group. Nothing else of the record changes
-- but its time, and no other record; the record and the entry are made first if they are missing.
pub cards-membership :
    (base n : String) (x : Value) (now : ℕ) (table : Map Card)
    → IsBase "0.4." base
    → IsNumber n
    → (cards (record { oid = base ++ (".5." ++ n); value = x }) now table
        ≡ upsert base
            (fresh base x now)
            (λ v. record v {
              groups =
                  upsert
                    (base ++ (".5." ++ n))
                    (record { group = text ""; member = false })
                    (λ g. record g { member = is_text "true" x })
                    v.groups;
              touched = now;
            })
            table)
      × (cards (record { oid = base ++ (".5." ++ (n ++ ".1")); value = x }) now table
          ≡ upsert base
              (fresh base x now)
              (λ v. record v {
                groups =
                    upsert
                      (base ++ (".5." ++ n))
                      (record { group = text ""; member = false })
                      (λ g. record g { group = x })
                      v.groups;
                touched = now;
              })
              table)
unfolding membership
cards-membership base n x now table b e = (
  rw append-nil at (
      cards-entry base n "" none x now table b e refl (unfold is_line in refl)
        (unfold match_suffix in refl)),
  cards-entry base n ".1" (some ".1") x now table b e (unfold is_digit in refl)
      (unfold is_line in refl) (unfold match_suffix in refl),
)
