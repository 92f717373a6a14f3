-- ===== src/Db/Cards/Laws.antt =====
-- The `switch` of `cards` against the fields of a record, and the table kept well formed.
use uhppoted_httpd.Prelude.{ℕ, String, All, ◌≡◌, refl, arith}
use uhppoted_httpd.Text.{◌++◌}
use uhppoted_httpd.Value.{Value, text, or_default, Object}
use uhppoted_httpd.Oid.{is_digit, is_line, match_tail}
use uhppoted_httpd.Oid.Laws.{IsBase, IsSuffix, match_member-append}
use uhppoted_httpd.OrderedMap.{Map, upsert}
use uhppoted_httpd.Switch.{select, switch}
use uhppoted_httpd.Db.Handler.{handle-suffix, IsTable, handle-IsTable, switch-keeps}
use uhppoted_httpd.Schema.Cards.{Key, suffix}
use uhppoted_httpd.Db.Cards.{Card, fresh, cases, cards, memberships}

-- The field that a key of the schema stands for; the other keys have none.
pub write : Key → Value → Card → Card
write Key.status x v = record v { status = x }
write Key.created x v = record v { created = x }
write Key.deleted x v = record v { deleted = x }
write Key.name x v = record v { name = x }
write Key.management_group x v = record v { management_group = x }
write Key.label x v = record v { label = x }
write Key.kind x v = record v { kind = or_default x (text "card") }
write Key.card x v = record v { number = x }
write Key.pin x v = record v { pin = x }
write Key.from x v = record v { from = x }
write Key.to x v = record v { to = x }
write _ x v = v

pub suffix-IsSuffix : (k : Key) → IsSuffix (suffix k)
unfolding is_digit is_line
suffix-IsSuffix Key.status = record { not_digit = refl; line = refl }
suffix-IsSuffix _ = record { not_digit = refl; line = refl }

-- The OID of a field of the schema is that of no membership.
memberships-none :
    (base : String) (k : Key) (x : Value) (v : Card)
    → IsBase "0.4." base
    → memberships (base ++ suffix k) x v ≡ v
unfolding memberships match_tail
memberships-none base Key.status x v b = rw (
  match_member-append "0.4." ".5." base (suffix Key.status) b
      (suffix-IsSuffix Key.status).not_digit,
  memberships,
)
memberships-none base k x v b =
    rw (
      match_member-append "0.4." ".5." base (suffix k) b (suffix-IsSuffix k).not_digit,
      memberships,
    )

select-cases :
    (base : String) (k : Key) (x : Value) (v : Card)
    → IsBase "0.4." base
    → select (suffix k) (cases x) (memberships (base ++ suffix k) x) v ≡ write k x v
unfolding select cases write
select-cases base Key.status x v b = refl
select-cases base Key.created x v b = refl
select-cases base Key.deleted x v b = refl
select-cases base Key.name x v b = refl
select-cases base Key.management_group x v b = refl
select-cases base Key.label x v b = refl
select-cases base Key.kind x v b = refl
select-cases base Key.card x v b = refl
select-cases base Key.pin x v b = refl
select-cases base Key.from x v b = refl
select-cases base Key.to x v b = refl
select-cases base k x v b = memberships-none base k x v b

-- An object for a field of a record of the table writes that field, and no other, of that record,
-- made first if the table has none.
pub cards-suffix :
    (base : String) (k : Key) (x : Value) (now : ℕ) (table : Map Card)
    → IsBase "0.4." base
    → cards (record { oid = base ++ suffix k; value = x }) now table
      ≡ upsert base (fresh base x now) (λ v. write k x (record v { touched = now })) table
unfolding cards
cards-suffix base k x now table b =
    handle-suffix "0.4." base (suffix k) (λ b. fresh b x now) (cases x)
      (memberships (base ++ suffix k) x) (λ v. record v { touched = now }) (write k x) table b
      (suffix-IsSuffix k) (λ v. select-cases base k x v b)

memberships-oid : (oid : String) (x : Value) (v : Card) → (memberships oid x v).oid ≡ v.oid
unfolding memberships
memberships-oid oid x v = ground arith

cases-oid : (x : Value) → All (λ c. (v : Card) → (c.1 v).oid ≡ v.oid) (cases x)
unfolding cases
cases-oid x = (
  (λ v. refl),
  (
    (λ v. refl),
    (
      (λ v. refl),
      (
        (λ v. refl),
        (
          (λ v. refl),
          (
            (λ v. refl),
            ((λ v. refl), ((λ v. refl), ((λ v. refl), ((λ v. refl), ((λ v. refl), tt))))),
          ),
        ),
      ),
    ),
  ),
)

pub cards-IsTable :
    (o : Object) (now : ℕ) (table : Map Card)
    → IsTable "0.4." (λ v. v.oid) table
    → IsTable "0.4." (λ v. v.oid) (cards o now table)
unfolding cards fresh
cards-IsTable o now table h =
    handle-IsTable "0.4." (λ v. v.oid) o.oid (λ b. fresh b o.value now)
      (λ b v.
        switch b o.oid (cases o.value) (memberships o.oid o.value) (record v { touched = now }))
      table (λ b. refl)
      (λ b v.
        switch-keeps (λ w. w.oid) b o.oid (cases o.value) (memberships o.oid o.value)
          (cases-oid o.value) (memberships-oid o.oid o.value) (record v { touched = now }))
      h
