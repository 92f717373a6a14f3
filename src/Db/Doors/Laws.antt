-- ===== src/Db/Doors/Laws.antt =====
-- The `switch` of `doors` against the fields of a record, and the table kept well formed.
use uhppoted_httpd.Prelude.{ℕ, String, All, ◌≡◌, refl}
use uhppoted_httpd.Text.{◌++◌}
use uhppoted_httpd.Value.{Value, boolean, is_text, Object}
use uhppoted_httpd.Oid.{is_digit, is_line}
use uhppoted_httpd.Oid.Laws.{IsBase, IsSuffix}
use uhppoted_httpd.OrderedMap.{Map, upsert}
use uhppoted_httpd.Switch.{select, switch}
use uhppoted_httpd.Db.Handler.{handle-suffix, IsTable, handle-IsTable, switch-keeps}
use uhppoted_httpd.Schema.Doors.{Key, suffix}
use uhppoted_httpd.Db.Doors.{Door, fresh, cases, doors}

-- The fields of a door; those of the first card are named in the code alone.
pub data Field : Type 0 where
  status created deleted name delay delay_status delay_configured delay_err mode mode_status
        mode_configured mode_err keypad passcodes reader_entry reader_exit firstcard_start_time
        firstcard_end_time firstcard_active_mode firstcard_inactive_mode firstcard_monday
        firstcard_tuesday firstcard_wednesday firstcard_thursday firstcard_friday firstcard_saturday
        firstcard_sunday :
      Field

abbrev pub field_suffix : Field → String
field_suffix Field.status = suffix Key.status
field_suffix Field.created = suffix Key.created
field_suffix Field.deleted = suffix Key.deleted
field_suffix Field.name = ".1"
field_suffix Field.delay = ".2"
field_suffix Field.delay_status = ".2.1"
field_suffix Field.delay_configured = ".2.2"
field_suffix Field.delay_err = ".2.3"
field_suffix Field.mode = ".3"
field_suffix Field.mode_status = ".3.1"
field_suffix Field.mode_configured = ".3.2"
field_suffix Field.mode_err = ".3.3"
field_suffix Field.keypad = ".4"
field_suffix Field.passcodes = ".5"
field_suffix Field.reader_entry = ".7.1"
field_suffix Field.reader_exit = ".7.2"
field_suffix Field.firstcard_start_time = ".6.1"
field_suffix Field.firstcard_end_time = ".6.2"
field_suffix Field.firstcard_active_mode = ".6.3"
field_suffix Field.firstcard_inactive_mode = ".6.4"
field_suffix Field.firstcard_monday = ".6.5.1"
field_suffix Field.firstcard_tuesday = ".6.5.2"
field_suffix Field.firstcard_wednesday = ".6.5.3"
field_suffix Field.firstcard_thursday = ".6.5.4"
field_suffix Field.firstcard_friday = ".6.5.5"
field_suffix Field.firstcard_saturday = ".6.5.6"
field_suffix Field.firstcard_sunday = ".6.5.7"

-- The field that a field name stands for.
pub write : Field → Value → Door → Door
write Field.status x v = record v { status = x }
write Field.created x v = record v { created = x }
write Field.deleted x v = record v { deleted = x }
write Field.name x v = record v { name = x }
write Field.delay x v = record v { delay = record v.delay { delay = x } }
write Field.delay_status x v = record v { delay = record v.delay { status = x } }
write Field.delay_configured x v = record v { delay = record v.delay { configured = x } }
write Field.delay_err x v = record v { delay = record v.delay { err = x } }
write Field.mode x v = record v { mode = record v.mode { mode = x } }
write Field.mode_status x v = record v { mode = record v.mode { status = x } }
write Field.mode_configured x v = record v { mode = record v.mode { configured = x } }
write Field.mode_err x v = record v { mode = record v.mode { err = x } }
write Field.keypad x v = record v { keypad = boolean (is_text "true" x) }
write Field.passcodes x v = record v { passcodes = x }
write Field.reader_entry x v = record v { reader_entry = x }
write Field.reader_exit x v = record v { reader_exit = x }
write Field.firstcard_start_time x v = record v {
  firstcard = record v.firstcard { start_time = x };
}
write Field.firstcard_end_time x v = record v { firstcard = record v.firstcard { end_time = x } }
write Field.firstcard_active_mode x v = record v {
  firstcard = record v.firstcard { active_mode = x };
}
write Field.firstcard_inactive_mode x v = record v {
  firstcard = record v.firstcard { inactive_mode = x };
}
write Field.firstcard_monday x v = record v {
  firstcard = record v.firstcard { weekdays = record v.firstcard.weekdays { monday = x } };
}
write Field.firstcard_tuesday x v = record v {
  firstcard = record v.firstcard { weekdays = record v.firstcard.weekdays { tuesday = x } };
}
write Field.firstcard_wednesday x v = record v {
  firstcard = record v.firstcard { weekdays = record v.firstcard.weekdays { wednesday = x } };
}
write Field.firstcard_thursday x v = record v {
  firstcard = record v.firstcard { weekdays = record v.firstcard.weekdays { thursday = x } };
}
write Field.firstcard_friday x v = record v {
  firstcard = record v.firstcard { weekdays = record v.firstcard.weekdays { friday = x } };
}
write Field.firstcard_saturday x v = record v {
  firstcard = record v.firstcard { weekdays = record v.firstcard.weekdays { saturday = x } };
}
write Field.firstcard_sunday x v = record v {
  firstcard = record v.firstcard { weekdays = record v.firstcard.weekdays { sunday = x } };
}

pub field_suffix-IsSuffix : (k : Field) → IsSuffix (field_suffix k)
unfolding is_digit is_line
field_suffix-IsSuffix Field.status = record { not_digit = refl; line = refl }
field_suffix-IsSuffix _ = record { not_digit = refl; line = refl }

select-cases :
    (k : Field) (x : Value) (v : Door) → select (field_suffix k) (cases x) (λ w. w) v ≡ write k x v
unfolding select cases write
select-cases Field.status x v = refl
select-cases _ x v = refl

-- An object for a field of a record of the table writes that field, and no other, of that record,
-- made first if the table has none.
pub doors-suffix :
    (base : String) (k : Field) (x : Value) (now : ℕ) (table : Map Door)
    → IsBase "0.3." base
    → doors (record { oid = base ++ field_suffix k; value = x }) now table
      ≡ upsert base (fresh base x now) (λ v. write k x (record v { touched = now })) table
unfolding doors
doors-suffix base k x now table b =
    handle-suffix "0.3." base (field_suffix k) (λ b. fresh b x now) (cases x) (λ w. w)
      (λ v. record v { touched = now }) (write k x) table b (field_suffix-IsSuffix k)
      (select-cases k x)

cases-oid : (x : Value) → All (λ c. (v : Door) → (c.1 v).oid ≡ v.oid) (cases x)
unfolding cases
cases-oid x = (
  (λ v. refl),
  (
    (λ v. refl),
    (
      (λ v. refl),
      (
        (λ v. refl),
        (
          (λ v. refl),
          (
            (λ v. refl),
            (
              (λ v. refl),
              (
                (λ v. refl),
                (
                  (λ v. refl),
                  (
                    (λ v. refl),
                    (
                      (λ v. refl),
                      (
                        (λ v. refl),
                        (
                          (λ v. refl),
                          (
                            (λ v. refl),
                            (
                              (λ v. refl),
                              (
                                (λ v. refl),
                                (
                                  (λ v. refl),
                                  (
                                    (λ v. refl),
                                    (
                                      (λ v. refl),
                                      (
                                        (λ v. refl),
                                        (
                                          (λ v. refl),
                                          (
                                            (λ v. refl),
                                            (
                                              (λ v. refl),
                                              (
                                                (λ v. refl),
                                                ((λ v. refl), ((λ v. refl), ((λ v. refl), tt))),
                                              ),
                                            ),
                                          ),
                                        ),
                                      ),
                                    ),
                                  ),
                                ),
                              ),
                            ),
                          ),
                        ),
                      ),
                    ),
                  ),
                ),
              ),
            ),
          ),
        ),
      ),
    ),
  ),
)

pub doors-IsTable :
    (o : Object) (now : ℕ) (table : Map Door)
    → IsTable "0.3." (λ v. v.oid) table
    → IsTable "0.3." (λ v. v.oid) (doors o now table)
unfolding doors fresh
doors-IsTable o now table h =
    handle-IsTable "0.3." (λ v. v.oid) o.oid (λ b. fresh b o.value now)
      (λ b v. switch b o.oid (cases o.value) (λ w. w) (record v { touched = now })) table
      (λ b. refl)
      (λ b v.
        switch-keeps (λ w. w.oid) b o.oid (cases o.value) (λ w. w) (cases-oid o.value) (λ v. refl)
          (record v { touched = now }))
      h
