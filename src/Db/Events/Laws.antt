-- ===== src/Db/Events/Laws.antt =====
-- The `switch` of `events` against the fields of a record, and the table kept well formed.
use uhppoted_httpd.Prelude.{ℕ, String, All, ◌≡◌, refl, none, ap, arith}
use uhppoted_httpd.Text.{◌++◌}
use uhppoted_httpd.Value.{Value, Object, Runtime}
use uhppoted_httpd.Oid.{is_digit, is_line, match_base}
use uhppoted_httpd.Oid.Laws.{IsBase, IsSuffix, append-ne}
use uhppoted_httpd.OrderedMap.{Map, upsert}
use uhppoted_httpd.Switch.{select, switch}
use uhppoted_httpd.Db.Handler.{handle-suffix, IsTable, handle-IsTable, switch-keeps}
use uhppoted_httpd.Schema.Events.{Key, suffix}
use uhppoted_httpd.Db.Events.{Event, fresh, cases, event, events, EventTable}

-- The field that a key of the schema stands for.
pub write : (js : Runtime) → Key → Value → Event → Event
write js Key.timestamp x v = record v { timestamp = x }
write js Key.device_id x v = record v { device_id = x }
write js Key.index x v = record v { index = js.parse_int x }
write js Key.type x v = record v { event_type = x }
write js Key.door x v = record v { door = x }
write js Key.direction x v = record v { direction = x }
write js Key.card x v = record v { card = x }
write js Key.granted x v = record v { granted = x }
write js Key.reason x v = record v { reason = x }
write js Key.device_name x v = record v { device_name = x }
write js Key.door_name x v = record v { door_name = x }
write js Key.card_name x v = record v { card_name = x }
write js _ x v = v

pub suffix-IsSuffix : (k : Key) → IsSuffix (suffix k)
unfolding is_digit is_line
suffix-IsSuffix Key.timestamp = record { not_digit = refl; line = refl }
suffix-IsSuffix _ = record { not_digit = refl; line = refl }

select-cases :
    (js : Runtime) (k : Key) (x : Value) (v : Event)
    → select (suffix k) (cases js x) (λ w. w) v ≡ write js k x v
unfolding select cases write
select-cases js Key.timestamp x v = refl
select-cases js _ x v = refl

-- An object for a field of a record of the table writes that field, and no other, of that record,
-- made first if the table has none.
status_missed : match_base "0.6." ("0.6" ++ suffix Key.status) ≡ none
unfolding match_base
status_missed = refl

first_missed : match_base "0.6." ("0.6" ++ suffix Key.first) ≡ none
unfolding match_base
first_missed = refl

last_missed : match_base "0.6." ("0.6" ++ suffix Key.last) ≡ none
unfolding match_base
last_missed = refl

event-suffix :
    (js : Runtime) (base : String) (k : Key) (x : Value) (now : ℕ) (table : Map Event)
    → IsBase "0.6." base
    → event js (record { oid = base ++ suffix k; value = x }) now table
      ≡ upsert base (fresh base now) (λ v. write js k x (record v { touched = now })) table
unfolding event
event-suffix js base k x now table b =
    handle-suffix "0.6." base (suffix k) (λ b. fresh b now) (cases js x) (λ w. w)
      (λ v. record v { touched = now }) (write js k x) table b (suffix-IsSuffix k)
      (select-cases js k x)

pub events-suffix :
    (js : Runtime) (base : String) (k : Key) (x : Value) (now : ℕ) (t : EventTable)
    → IsBase "0.6." base
    → events js (record { oid = base ++ suffix k; value = x }) now t ≡ record t {
      events =
          upsert base (fresh base now) (λ v. write js k x (record v { touched = now })) t.events;
    }
unfolding events
events-suffix js base k x now t b =
    let h = suffix-IsSuffix k in
    rw
      (
        append-ne "0.6." base (suffix k) ("0.6" ++ suffix Key.status) b h status_missed,
        append-ne "0.6." base (suffix k) ("0.6" ++ suffix Key.first) b h first_missed,
        append-ne "0.6." base (suffix k) ("0.6" ++ suffix Key.last) b h last_missed,
      )
      (ap (λ (m : Map Event). record t { events = m }) (event-suffix js base k x now t.events b))

cases-oid : (js : Runtime) (x : Value) → All (λ c. (v : Event) → (c.1 v).oid ≡ v.oid) (cases js x)
unfolding cases
cases-oid js x = (
  (λ v. refl),
  (
    (λ v. refl),
    (
      (λ v. refl),
      (
        (λ v. refl),
        (
          (λ v. refl),
          (
            (λ v. refl),
            (
              (λ v. refl),
              ((λ v. refl), ((λ v. refl), ((λ v. refl), ((λ v. refl), ((λ v. refl), tt))))),
            ),
          ),
        ),
      ),
    ),
  ),
)

event-IsTable :
    (js : Runtime) (o : Object) (now : ℕ) (table : Map Event)
    → IsTable "0.6." (λ v. v.oid) table
    → IsTable "0.6." (λ v. v.oid) (event js o now table)
unfolding event fresh
event-IsTable js o now table h =
    handle-IsTable "0.6." (λ v. v.oid) o.oid (λ b. fresh b now)
      (λ b v. switch b o.oid (cases js o.value) (λ w. w) (record v { touched = now })) table
      (λ b. refl)
      (λ b v.
        switch-keeps (λ w. w.oid) b o.oid (cases js o.value) (λ w. w) (cases-oid js o.value)
          (λ v. refl) (record v { touched = now }))
      h

pub events-IsTable :
    (js : Runtime) (o : Object) (now : ℕ) (t : EventTable)
    → IsTable "0.6." (λ v. v.oid) t.events
    → IsTable "0.6." (λ v. v.oid) (events js o now t).events
unfolding events
events-IsTable js o now t h = grind (arith, event-IsTable js o now t.events h)
