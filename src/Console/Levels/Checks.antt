-- ===== src/Console/Levels/Checks.antt =====
-- What `saveGroup` of httpd/html/javascript/gate-control.js lets through to the server.
use Prim.Native.Nat.{Ordering}
use Prim.Native.String.{compare}
use uhppoted_httpd.Prelude.{
  eq_iff, String, Bool, true, false, not, ◌&&◌, All, ◌≢◌, ◌||◌, ◌≡◌, refl, List, [], ◌∷◌, ◌⊎◌, inl,
  inr, Bool-cases, arith, if◌then◌else◌,
}
use uhppoted_httpd.Text.{◌==◌}
use uhppoted_httpd.Value.{Value}
use uhppoted_httpd.Db.Store.{Dbc}
use uhppoted_httpd.Db.Groups.{Group}
use uhppoted_httpd.Console.Session.{
  Request, Server, Outcome, returned, thrown, Session, pure, throw, ◌>>=◌, or_text,
}
use uhppoted_httpd.Console.Records.{records, Browser}
use uhppoted_httpd.Console.Levels.{
  GroupForm, some_day, selected_group_schedule, name_taken, create_group, send_updates,
  group_updates, save_group,
}

abbrev named_of : Browser → Group → String
named_of browser g = browser.lower (browser.trim (browser.template_of g.name))

-- A level that may be stored: no other level has its name in any case, and if it has a schedule, that
-- is for some day and ends after it starts.
pub record IsSavable (browser : Browser) (db : Dbc) (form : GroupForm) : Type 0 where
  pub unique :
      All
        (λ g. (g.oid ≡ form.oid) ⊎ (named_of browser g ≢ browser.lower (browser.trim form.name)))
        (records (λ g. g.deleted) db.groups)
  pub some_weekday : form.enabled ≡ true → some_day form ≡ true
  pub ordered :
      form.enabled ≡ true
      → compare (or_text form.end_ "17:00") (or_text form.start "08:00") ≡ Ordering.gt

name_taken-All :
    (browser : Browser) (db : Dbc) (name oid : String) (gs : List Group)
    → name_taken browser db name oid gs ≡ false
    → All (λ g. (g.oid ≡ oid) ⊎ (named_of browser g ≢ browser.lower name)) gs
unfolding name_taken
name_taken-All browser db name oid [] e = tt
name_taken-All browser db name oid (g ∷ gs) e = (
  free (neither_left _ _ e),
  name_taken-All browser db name oid gs
      (neither_right (not (g.oid == oid) && (named_of browser g == browser.lower name)) _ e),
)
  where
    neither_left : (a b : Bool) → (a || b) ≡ false → a ≡ false
    neither_left a b h = ground (arith, h)

    neither_right : (a b : Bool) → (a || b) ≡ false → b ≡ false
    neither_right a b h = ground (arith, h)

    free :
        (not (g.oid == oid) && (named_of browser g == browser.lower name)) ≡ false
        → (g.oid ≡ oid) ⊎ (named_of browser g ≢ browser.lower name)
    free h = elim (Bool-cases (g.oid == oid)) [
      | inl same ↦ inl ((eq_iff g.oid oid).0 same)
      | inr other ↦
          inr (λ n. cc (rw other at h, (eq_iff (named_of browser g) (browser.lower name)).1 n))
    ]

later_end :
    (s t : String)
    → (elim (compare s t) [ Ordering.gt ↦ false | _ ↦ true ]) ≡ false
    → compare s t ≡ Ordering.gt
later_end s t h = go (compare s t) h
  where
    go : (o : Ordering) → (elim o [ Ordering.gt ↦ false | _ ↦ true ]) ≡ false → o ≡ Ordering.gt
    go Ordering.gt h = refl
    go Ordering.lt h = cc h
    go Ordering.eq h = cc h

-- Where the schedule of the form is read, it is one that may be stored.
schedule-IsSavable :
    (form : GroupForm) (schedule : Value)
    → selected_group_schedule form ≡ returned schedule
    → (form.enabled ≡ true → some_day form ≡ true)
      × (form.enabled ≡ true
          → compare (or_text form.end_ "17:00") (or_text form.start "08:00") ≡ Ordering.gt)
unfolding selected_group_schedule
schedule-IsSavable form schedule e =
    let (day, late) = gates form.enabled (some_day form) _ _ e in
    (day, λ on. later_end _ _ (late on))
  where
    gates :
        (on day late : Bool) (v : Value)
        → (if on && not day
            then thrown "Select at least one access weekday."
            else if on && late
            then thrown "Access ends must be after Access starts."
            else returned v)
          ≡ returned schedule
        → (on ≡ true → day ≡ true) × (on ≡ true → late ≡ false)
    gates false day late v e = (λ h. cc h, λ h. cc h)
    gates true false late v e = cc e
    gates true true true v e = cc e
    gates true true false v e = (λ h. refl, λ h. refl)

-- Whatever the server replies, saving an access level throws before any request is made, or no other
-- listed level has its name in any case, and its schedule, if it has one, is for some day of the week
-- and ends after it starts.
pub save_group-IsSavable :
    (browser : Browser) (db : Dbc) (form : GroupForm) (server : Server) (log : List Request)
    → ((message : String) × ((save_group browser db form).run server log ≡ (thrown message, log)))
      ⊎ IsSavable browser db form
unfolding save_group throw
save_group-IsSavable browser db form server log = scheduled (selected_group_schedule form) refl
  where
    taken : Bool
    taken =
        name_taken browser db (browser.trim form.name) form.oid (records (λ g. g.deleted) db.groups)

    rest : Value → Session (Unit {0})
    rest schedule = (if form.oid == "" then create_group browser db else pure form.oid) >>= λ oid.
        send_updates browser db (group_updates browser db form schedule oid)

    named :
        (schedule : Value) (b : Bool)
        → selected_group_schedule form ≡ returned schedule
        → taken ≡ b
        → ((message : String) × ((if b
                  then throw "An access level with that name already exists."
                  else rest schedule).run
                server log
              ≡ (thrown message, log)))
          ⊎ IsSavable browser db form
    named schedule true e f = inl (_, refl)
    named schedule false e f =
        let (day, late) = schedule-IsSavable form schedule e in
        inr (record {
          unique = name_taken-All browser db _ form.oid _ f;
          some_weekday = day;
          ordered = late;
        })

    scheduled :
        (r : Outcome Value)
        → selected_group_schedule form ≡ r
        → ((message : String) × (Session.run
                (elim r [
                  | thrown message ↦ throw message
                  | returned schedule ↦
                      if taken
                      then throw "An access level with that name already exists."
                      else rest schedule
                ])
                server
                log
              ≡ (thrown message, log)))
          ⊎ IsSavable browser db form
    scheduled (thrown message) e = inl (message, refl)
    scheduled (returned schedule) e = named schedule taken e refl
