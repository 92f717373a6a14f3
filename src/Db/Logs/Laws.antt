-- ===== src/Db/Logs/Laws.antt =====
-- The `switch` of `logs` against the fields of a record, and the table kept well formed.
use uhppoted_httpd.Prelude.{ℕ, String, All, ◌≡◌, refl, none, ap, arith}
use uhppoted_httpd.Text.{◌++◌}
use uhppoted_httpd.Value.{Value, Object}
use uhppoted_httpd.Oid.{is_digit, is_line, match_base}
use uhppoted_httpd.Oid.Laws.{IsBase, IsSuffix, append-ne}
use uhppoted_httpd.OrderedMap.{Map, upsert}
use uhppoted_httpd.Switch.{select, switch}
use uhppoted_httpd.Db.Handler.{handle-suffix, IsTable, handle-IsTable, switch-keeps}
use uhppoted_httpd.Schema.Logs.{Key, suffix}
use uhppoted_httpd.Db.Logs.{Log, fresh, cases, log, logs, LogTable}

-- The field that a key of the schema stands for.
pub write : Key → Value → Log → Log
write Key.timestamp x v = record v { timestamp = x }
write Key.uid x v = record v { uid = x }
write Key.item x v = record v { item = record v.item { type = x } }
write Key.item_id x v = record v { item = record v.item { id = x } }
write Key.item_name x v = record v { item = record v.item { name = x } }
write Key.field x v = record v { item = record v.item { field = x } }
write Key.details x v = record v { item = record v.item { details = x } }
write _ x v = v

pub suffix-IsSuffix : (k : Key) → IsSuffix (suffix k)
unfolding is_digit is_line
suffix-IsSuffix Key.timestamp = record { not_digit = refl; line = refl }
suffix-IsSuffix _ = record { not_digit = refl; line = refl }

select-cases :
    (k : Key) (x : Value) (v : Log) → select (suffix k) (cases x) (λ w. w) v ≡ write k x v
unfolding select cases write
select-cases Key.timestamp x v = refl
select-cases _ x v = refl

-- An object for a field of a record of the table writes that field, and no other, of that record,
-- made first if the table has none.
first_missed : match_base "0.7." ("0.7" ++ suffix Key.first) ≡ none
unfolding match_base
first_missed = refl

last_missed : match_base "0.7." ("0.7" ++ suffix Key.last) ≡ none
unfolding match_base
last_missed = refl

log-suffix :
    (base : String) (k : Key) (x : Value) (now : ℕ) (table : Map Log)
    → IsBase "0.7." base
    → log (record { oid = base ++ suffix k; value = x }) now table
      ≡ upsert base (fresh base now) (λ v. write k x (record v { touched = now })) table
unfolding log
log-suffix base k x now table b =
    handle-suffix "0.7." base (suffix k) (λ b. fresh b now) (cases x) (λ w. w)
      (λ v. record v { touched = now }) (write k x) table b (suffix-IsSuffix k) (select-cases k x)

pub logs-suffix :
    (base : String) (k : Key) (x : Value) (now : ℕ) (t : LogTable)
    → IsBase "0.7." base
    → logs (record { oid = base ++ suffix k; value = x }) now t ≡ record t {
      logs = upsert base (fresh base now) (λ v. write k x (record v { touched = now })) t.logs;
    }
unfolding logs
logs-suffix base k x now t b =
    let h = suffix-IsSuffix k in
    rw
      (
        append-ne "0.7." base (suffix k) ("0.7" ++ suffix Key.first) b h first_missed,
        append-ne "0.7." base (suffix k) ("0.7" ++ suffix Key.last) b h last_missed,
      )
      (ap (λ (m : Map Log). record t { logs = m }) (log-suffix base k x now t.logs b))

cases-oid : (x : Value) → All (λ c. (v : Log) → (c.1 v).oid ≡ v.oid) (cases x)
unfolding cases
cases-oid x = (
  (λ v. refl),
  ((λ v. refl), ((λ v. refl), ((λ v. refl), ((λ v. refl), ((λ v. refl), ((λ v. refl), tt)))))),
)

log-IsTable :
    (o : Object) (now : ℕ) (table : Map Log)
    → IsTable "0.7." (λ v. v.oid) table
    → IsTable "0.7." (λ v. v.oid) (log o now table)
unfolding log fresh
log-IsTable o now table h =
    handle-IsTable "0.7." (λ v. v.oid) o.oid (λ b. fresh b now)
      (λ b v. switch b o.oid (cases o.value) (λ w. w) (record v { touched = now })) table
      (λ b. refl)
      (λ b v.
        switch-keeps (λ w. w.oid) b o.oid (cases o.value) (λ w. w) (cases-oid o.value) (λ v. refl)
          (record v { touched = now }))
      h

pub logs-IsTable :
    (o : Object) (now : ℕ) (t : LogTable)
    → IsTable "0.7." (λ v. v.oid) t.logs
    → IsTable "0.7." (λ v. v.oid) (logs o now t).logs
unfolding logs
logs-IsTable o now t h = grind (arith, log-IsTable o now t.logs h)
