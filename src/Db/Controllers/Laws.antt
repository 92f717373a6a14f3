-- ===== src/Db/Controllers/Laws.antt =====
-- The `switch` of `controllers` against the fields of a record, and the table kept well formed.
use uhppoted_httpd.Prelude.{ℕ, String, All, ◌≡◌, refl}
use uhppoted_httpd.Text.{◌++◌}
use uhppoted_httpd.Value.{Value, Object}
use uhppoted_httpd.Oid.{is_digit, is_line}
use uhppoted_httpd.Oid.Laws.{IsBase, IsSuffix}
use uhppoted_httpd.OrderedMap.{Map, upsert}
use uhppoted_httpd.Switch.{select, switch}
use uhppoted_httpd.Db.Handler.{handle-suffix, IsTable, handle-IsTable, switch-keeps}
use uhppoted_httpd.Schema.Controllers.{Key, suffix}
use uhppoted_httpd.Db.Controllers.{Controller, fresh, cases, controllers}

-- The field that a key of the schema stands for; the other keys have none.
unfoldable pub write : Key → Value → Controller → Controller
write Key.status x v = record v { status = x }
write Key.created x v = record v { created = x }
write Key.deleted x v = record v { deleted = x }
write Key.name x v = record v { name = x }
write Key.device_id x v = record v { device_id = x }
write Key.endpoint_status x v = record v { address = record v.address { status = x } }
write Key.endpoint_address x v = record v { address = record v.address { address = x } }
write Key.endpoint_protocol x v = record v { protocol = x }
write Key.endpoint_configured x v = record v { address = record v.address { configured = x } }
write Key.datetime_status x v = record v { datetime = record v.datetime { status = x } }
write Key.datetime_current x v = record v { datetime = record v.datetime { datetime = x } }
write Key.datetime_configured x v = record v { datetime = record v.datetime { configured = x } }
write Key.interlock x v = record v { interlock = x }
write Key.antipassback_antipassback x v = record v {
  antipassback = record v.antipassback { antipassback = x };
}
write Key.antipassback_configured x v = record v {
  antipassback = record v.antipassback { configured = x };
}
write Key.antipassback_status x v = record v { antipassback = record v.antipassback { status = x } }
write Key.cards_status x v = record v { cards = record v.cards { status = x } }
write Key.cards_count x v = record v { cards = record v.cards { cards = x } }
write Key.events_status x v = record v { events = record v.events { status = x } }
write Key.events_first x v = record v { events = record v.events { first = x } }
write Key.events_last x v = record v { events = record v.events { last = x } }
write Key.events_current x v = record v { events = record v.events { current = x } }
write Key.door1 x v = record v { doors = record v.doors { door1 = x } }
write Key.door2 x v = record v { doors = record v.doors { door2 = x } }
write Key.door3 x v = record v { doors = record v.doors { door3 = x } }
write Key.door4 x v = record v { doors = record v.doors { door4 = x } }
write _ x v = v

pub suffix-IsSuffix : (k : Key) → IsSuffix (suffix k)
unfolding is_digit is_line
suffix-IsSuffix Key.status = record { not_digit = refl; line = refl }
suffix-IsSuffix _ = record { not_digit = refl; line = refl }

select-cases :
    (k : Key) (x : Value) (v : Controller) → select (suffix k) (cases x) (λ w. w) v ≡ write k x v
unfolding select cases write
select-cases Key.status x v = refl
select-cases _ x v = refl

-- An object for a field of a record of the table writes that field, and no other, of that record,
-- made first if the table has none.
pub controllers-suffix :
    (base : String) (k : Key) (x : Value) (now : ℕ) (table : Map Controller)
    → IsBase "0.2." base
    → controllers (record { oid = base ++ suffix k; value = x }) now table
      ≡ upsert base (fresh base x now) (λ v. write k x (record v { touched = now })) table
unfolding controllers
controllers-suffix base k x now table b =
    handle-suffix "0.2." base (suffix k) (λ b. fresh b x now) (cases x) (λ w. w)
      (λ v. record v { touched = now }) (write k x) table b (suffix-IsSuffix k) (select-cases k x)

cases-oid : (x : Value) → All (λ c. (v : Controller) → (c.1 v).oid ≡ v.oid) (cases x)
unfolding cases
cases-oid x = (
  (λ v. refl),
  (
    (λ v. refl),
    (
      (λ v. refl),
      (
        (λ v. refl),
        (
          (λ v. refl),
          (
            (λ v. refl),
            (
              (λ v. refl),
              (
                (λ v. refl),
                (
                  (λ v. refl),
                  (
                    (λ v. refl),
                    (
                      (λ v. refl),
                      (
                        (λ v. refl),
                        (
                          (λ v. refl),
                          (
                            (λ v. refl),
                            (
                              (λ v. refl),
                              (
                                (λ v. refl),
                                (
                                  (λ v. refl),
                                  (
                                    (λ v. refl),
                                    (
                                      (λ v. refl),
                                      (
                                        (λ v. refl),
                                        (
                                          (λ v. refl),
                                          (
                                            (λ v. refl),
                                            (
                                              (λ v. refl),
                                              ((λ v. refl), ((λ v. refl), ((λ v. refl), tt))),
                                            ),
                                          ),
                                        ),
                                      ),
                                    ),
                                  ),
                                ),
                              ),
                            ),
                          ),
                        ),
                      ),
                    ),
                  ),
                ),
              ),
            ),
          ),
        ),
      ),
    ),
  ),
)

pub controllers-IsTable :
    (o : Object) (now : ℕ) (table : Map Controller)
    → IsTable "0.2." (λ v. v.oid) table
    → IsTable "0.2." (λ v. v.oid) (controllers o now table)
unfolding controllers fresh
controllers-IsTable o now table h =
    handle-IsTable "0.2." (λ v. v.oid) o.oid (λ b. fresh b o.value now)
      (λ b v. switch b o.oid (cases o.value) (λ w. w) (record v { touched = now })) table
      (λ b. refl)
      (λ b v.
        switch-keeps (λ w. w.oid) b o.oid (cases o.value) (λ w. w) (cases-oid o.value) (λ v. refl)
          (record v { touched = now }))
      h
