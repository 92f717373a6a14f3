-- ===== src/Db/Groups/Laws.antt =====
-- The `switch` of `groups` against the fields of a record, and the table kept well formed.
use uhppoted_httpd.Prelude.{ℕ, String, All, ◌||◌, ◌≡◌, refl, arith}
use uhppoted_httpd.Text.{◌++◌}
use uhppoted_httpd.Value.{Value, is_text, is_true, Object, Runtime}
use uhppoted_httpd.Oid.{is_digit, is_line, match_tail}
use uhppoted_httpd.Oid.Laws.{IsBase, IsSuffix, match_member-append}
use uhppoted_httpd.OrderedMap.{Map, upsert}
use uhppoted_httpd.Switch.{select, switch}
use uhppoted_httpd.Db.Handler.{handle-suffix, IsTable, handle-IsTable, switch-keeps}
use uhppoted_httpd.Schema.Groups.{Key, suffix}
use uhppoted_httpd.Db.Groups.{Group, fresh, cases, groups, parsed_schedule, permissions}

-- The field that a key of the schema stands for; the other keys have none.
pub write : (js : Runtime) → Key → Value → Group → Group
write js Key.status x v = record v { status = x }
write js Key.created x v = record v { created = x }
write js Key.deleted x v = record v { deleted = x }
write js Key.name x v = record v { name = x }
write js Key.firstcard x v = record v { firstcard = is_true x || is_text "true" x }
write js Key.schedule x v = record v { schedule = parsed_schedule js x }
write js _ x v = v

pub suffix-IsSuffix : (k : Key) → IsSuffix (suffix k)
unfolding is_digit is_line
suffix-IsSuffix Key.status = record { not_digit = refl; line = refl }
suffix-IsSuffix _ = record { not_digit = refl; line = refl }

-- The OID of a field of the schema is that of no permission.
permissions-none :
    (base : String) (k : Key) (x : Value) (v : Group)
    → IsBase "0.5." base
    → permissions (base ++ suffix k) x v ≡ v
unfolding permissions match_tail
permissions-none base Key.status x v b = rw (
  match_member-append "0.5." ".2." base (suffix Key.status) b
      (suffix-IsSuffix Key.status).not_digit,
  permissions,
)
permissions-none base k x v b =
    rw (
      match_member-append "0.5." ".2." base (suffix k) b (suffix-IsSuffix k).not_digit,
      permissions,
    )

select-cases :
    (js : Runtime) (base : String) (k : Key) (x : Value) (v : Group)
    → IsBase "0.5." base
    → select (suffix k) (cases js x) (permissions (base ++ suffix k) x) v ≡ write js k x v
unfolding select cases write
select-cases js base Key.status x v b = refl
select-cases js base Key.created x v b = refl
select-cases js base Key.deleted x v b = refl
select-cases js base Key.name x v b = refl
select-cases js base Key.firstcard x v b = refl
select-cases js base Key.schedule x v b = refl
select-cases js base k x v b = permissions-none base k x v b

-- An object for a field of a record of the table writes that field, and no other, of that record,
-- made first if the table has none.
pub groups-suffix :
    (js : Runtime) (base : String) (k : Key) (x : Value) (now : ℕ) (table : Map Group)
    → IsBase "0.5." base
    → groups js (record { oid = base ++ suffix k; value = x }) now table
      ≡ upsert base (fresh base x now) (λ v. write js k x (record v { touched = now })) table
unfolding groups
groups-suffix js base k x now table b =
    handle-suffix "0.5." base (suffix k) (λ b. fresh b x now) (cases js x)
      (permissions (base ++ suffix k) x) (λ v. record v { touched = now }) (write js k x) table b
      (suffix-IsSuffix k) (λ v. select-cases js base k x v b)

permissions-oid : (oid : String) (x : Value) (v : Group) → (permissions oid x v).oid ≡ v.oid
unfolding permissions
permissions-oid oid x v = ground arith

cases-oid : (js : Runtime) (x : Value) → All (λ c. (v : Group) → (c.1 v).oid ≡ v.oid) (cases js x)
unfolding cases
cases-oid js x =
    ((λ v. refl), ((λ v. refl), ((λ v. refl), ((λ v. refl), ((λ v. refl), ((λ v. refl), tt))))))

pub groups-IsTable :
    (js : Runtime) (o : Object) (now : ℕ) (table : Map Group)
    → IsTable "0.5." (λ v. v.oid) table
    → IsTable "0.5." (λ v. v.oid) (groups js o now table)
unfolding groups fresh
groups-IsTable js o now table h =
    handle-IsTable "0.5." (λ v. v.oid) o.oid (λ b. fresh b o.value now)
      (λ b v.
        switch b o.oid (cases js o.value) (permissions o.oid o.value) (record v { touched = now }))
      table (λ b. refl)
      (λ b v.
        switch-keeps (λ w. w.oid) b o.oid (cases js o.value) (permissions o.oid o.value)
          (cases-oid js o.value) (permissions-oid o.oid o.value) (record v { touched = now }))
      h
