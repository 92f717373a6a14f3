-- ===== src/Db/Interfaces/Laws.antt =====
-- The `switch` of `interfaces` against the fields of a record, and the table kept well formed.
use uhppoted_httpd.Prelude.{ℕ, String, All, ◌≡◌, refl}
use uhppoted_httpd.Text.{◌++◌}
use uhppoted_httpd.Value.{Value, Object}
use uhppoted_httpd.Oid.{is_digit, is_line}
use uhppoted_httpd.Oid.Laws.{IsBase, IsSuffix}
use uhppoted_httpd.OrderedMap.{Map, upsert}
use uhppoted_httpd.Switch.{select, switch}
use uhppoted_httpd.Db.Handler.{handle-suffix, IsTable, handle-IsTable, switch-keeps}
use uhppoted_httpd.Schema.Interfaces.{Key, suffix}
use uhppoted_httpd.Db.Interfaces.{Interface, fresh, cases, interfaces}

-- The field that a key of the schema stands for; the other keys have none.
pub write : Key → Value → Interface → Interface
write Key.status x v = record v { status = x }
write Key.type x v = record v { type = x }
write Key.name x v = record v { name = x }
write Key.bind x v = record v { bind = x }
write Key.broadcast x v = record v { broadcast = x }
write Key.listen x v = record v { listen = x }
write _ x v = v

pub suffix-IsSuffix : (k : Key) → IsSuffix (suffix k)
unfolding is_digit is_line
suffix-IsSuffix Key.status = record { not_digit = refl; line = refl }
suffix-IsSuffix _ = record { not_digit = refl; line = refl }

select-cases :
    (k : Key) (x : Value) (v : Interface) → select (suffix k) (cases x) (λ w. w) v ≡ write k x v
unfolding select cases write
select-cases Key.status x v = refl
select-cases _ x v = refl

-- An object for a field of a record of the table writes that field, and no other, of that record,
-- made first if the table has none.
pub interfaces-suffix :
    (base : String) (k : Key) (x : Value) (now : ℕ) (table : Map Interface)
    → IsBase "0.1." base
    → interfaces (record { oid = base ++ suffix k; value = x }) now table
      ≡ upsert base (fresh base now) (λ v. write k x (record v { touched = now })) table
unfolding interfaces
interfaces-suffix base k x now table b =
    handle-suffix "0.1." base (suffix k) (λ b. fresh b now) (cases x) (λ w. w)
      (λ v. record v { touched = now }) (write k x) table b (suffix-IsSuffix k) (select-cases k x)

cases-oid : (x : Value) → All (λ c. (v : Interface) → (c.1 v).oid ≡ v.oid) (cases x)
unfolding cases
cases-oid x =
    ((λ v. refl), ((λ v. refl), ((λ v. refl), ((λ v. refl), ((λ v. refl), ((λ v. refl), tt))))))

pub interfaces-IsTable :
    (o : Object) (now : ℕ) (table : Map Interface)
    → IsTable "0.1." (λ v. v.oid) table
    → IsTable "0.1." (λ v. v.oid) (interfaces o now table)
unfolding interfaces fresh
interfaces-IsTable o now table h =
    handle-IsTable "0.1." (λ v. v.oid) o.oid (λ b. fresh b now)
      (λ b v. switch b o.oid (cases o.value) (λ w. w) (record v { touched = now })) table
      (λ b. refl)
      (λ b v.
        switch-keeps (λ w. w.oid) b o.oid (cases o.value) (λ w. w) (cases-oid o.value) (λ v. refl)
          (record v { touched = now }))
      h
