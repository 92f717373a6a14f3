-- ===== src/Db/Users/Laws.antt =====
-- The `switch` of `users` against the fields of a record, and the table kept well formed.
use uhppoted_httpd.Prelude.{ℕ, String, All, ◌≡◌, refl}
use uhppoted_httpd.Text.{◌++◌}
use uhppoted_httpd.Value.{Value, Object}
use uhppoted_httpd.Oid.{is_digit, is_line}
use uhppoted_httpd.Oid.Laws.{IsBase, IsSuffix}
use uhppoted_httpd.OrderedMap.{Map, upsert}
use uhppoted_httpd.Switch.{select, switch}
use uhppoted_httpd.Db.Handler.{handle-suffix, IsTable, handle-IsTable, switch-keeps}
use uhppoted_httpd.Schema.Users.{Key, suffix}
use uhppoted_httpd.Db.Users.{User, fresh, cases, users}

-- The field that a key of the schema stands for; the other keys have none.
pub write : Key → Value → User → User
write Key.status x v = record v { status = x }
write Key.created x v = record v { created = x }
write Key.deleted x v = record v { deleted = x }
write Key.name x v = record v { name = x }
write Key.uid x v = record v { uid = x }
write Key.role x v = record v { role = x }
write Key.password x v = record v { password = x }
write Key.otp x v = record v { otp = x }
write Key.locked x v = record v { locked = x }
write _ x v = v

pub suffix-IsSuffix : (k : Key) → IsSuffix (suffix k)
unfolding is_digit is_line
suffix-IsSuffix Key.status = record { not_digit = refl; line = refl }
suffix-IsSuffix _ = record { not_digit = refl; line = refl }

select-cases :
    (k : Key) (x : Value) (v : User) → select (suffix k) (cases x) (λ w. w) v ≡ write k x v
unfolding select cases write
select-cases Key.status x v = refl
select-cases _ x v = refl

-- An object for a field of a record of the table writes that field, and no other, of that record,
-- made first if the table has none.
pub users-suffix :
    (base : String) (k : Key) (x : Value) (now : ℕ) (table : Map User)
    → IsBase "0.8." base
    → users (record { oid = base ++ suffix k; value = x }) now table
      ≡ upsert base (fresh base x now) (λ v. write k x (record v { touched = now })) table
unfolding users
users-suffix base k x now table b =
    handle-suffix "0.8." base (suffix k) (λ b. fresh b x now) (cases x) (λ w. w)
      (λ v. record v { touched = now }) (write k x) table b (suffix-IsSuffix k) (select-cases k x)

cases-oid : (x : Value) → All (λ c. (v : User) → (c.1 v).oid ≡ v.oid) (cases x)
unfolding cases
cases-oid x = (
  (λ v. refl),
  (
    (λ v. refl),
    (
      (λ v. refl),
      ((λ v. refl), ((λ v. refl), ((λ v. refl), ((λ v. refl), ((λ v. refl), ((λ v. refl), tt)))))),
    ),
  ),
)

pub users-IsTable :
    (o : Object) (now : ℕ) (table : Map User)
    → IsTable "0.8." (λ v. v.oid) table
    → IsTable "0.8." (λ v. v.oid) (users o now table)
unfolding users fresh
users-IsTable o now table h =
    handle-IsTable "0.8." (λ v. v.oid) o.oid (λ b. fresh b o.value now)
      (λ b v. switch b o.oid (cases o.value) (λ w. w) (record v { touched = now })) table
      (λ b. refl)
      (λ b v.
        switch-keeps (λ w. w.oid) b o.oid (cases o.value) (λ w. w) (cases-oid o.value) (λ v. refl)
          (record v { touched = now }))
      h
