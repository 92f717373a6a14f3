-- ===== src/Console/Levels.antt =====
-- The form of an access level in httpd/html/javascript/gate-control.js: `selectedGroupSchedule` and
-- `saveGroup`.
pub mod Checks
use Prim.Native.Nat.{Ordering}
use Prim.Native.String.{compare}
use uhppoted_httpd.Prelude.{
  String, Bool, true, false, not, ◌&&◌, ◌||◌, List, [], ◌∷◌, ◌++◌, Option, none, if◌then◌else◌,
}
use uhppoted_httpd.Text.{◌==◌}
use uhppoted_httpd.Value.{Value, Members, text, boolean, object, member, end, or_default}
use uhppoted_httpd.OrderedMap.{get}
use uhppoted_httpd.Schema.Groups.{Key, suffix}
use uhppoted_httpd.Db.Groups.{Group}
use uhppoted_httpd.Db.Doors.{Door}
use uhppoted_httpd.Db.Store.{Dbc}
use uhppoted_httpd.Access.Membership.{group_door_oid, group_allows_door}
use uhppoted_httpd.Console.Session.{
  Update, Outcome, returned, thrown, Session, pure, throw, ◌>>=◌, ◌>>◌, or_text,
  synchronize_hardware, post_updates, create, changed,
}
use uhppoted_httpd.Console.Records.{
  records, Browser, is_there, original_text, text_of_bool, differs, contains,
}

-- The form; `days` are the days of the week with their tick boxes, `selected` the OIDs of the doors
-- whose boxes are ticked.
pub record GroupForm : Type 0 where
  pub oid : String
  pub name : String
  pub firstcard : Bool
  pub enabled : Bool
  pub start : String
  pub end_ : String
  pub monday : Bool
  pub tuesday : Bool
  pub wednesday : Bool
  pub thursday : Bool
  pub friday : Bool
  pub saturday : Bool
  pub sunday : Bool
  pub selected : List String

-- `selectedGroupSchedule`: the schedule, or the message of the error that it throws
abbrev pub some_day : GroupForm → Bool
some_day f =
    f.monday
    || (f.tuesday || (f.wednesday || (f.thursday || (f.friday || (f.saturday || f.sunday)))))

abbrev pub weekdays : GroupForm → Members
weekdays f = member "monday" (boolean f.monday) (
    member "tuesday" (boolean f.tuesday) (
      member "wednesday" (boolean f.wednesday) (
        member "thursday" (boolean f.thursday) (
          member "friday" (boolean f.friday)
            (member "saturday" (boolean f.saturday) (member "sunday" (boolean f.sunday) end))))))

unfoldable pub selected_group_schedule : GroupForm → Outcome Value
selected_group_schedule f =
    let start = or_text f.start "08:00" in
    let finish = or_text f.end_ "17:00" in
    if f.enabled && not (some_day f)
    then thrown "Select at least one access weekday."
    else if f.enabled && (elim (compare finish start) [ Ordering.gt ↦ false | _ ↦ true ])
    then thrown "Access ends must be after Access starts."
    else returned (
        object (
          member "enabled" (boolean f.enabled) (
            member "start" (text start)
              (member "end" (text finish) (member "weekdays" (object (weekdays f)) end)))))

module _ (browser : Browser) (db : Dbc) where
  abbrev pub existing_group : GroupForm → Option Group
  existing_group form = if form.oid == "" then none else get form.oid db.groups

  -- whether another level has the name, in any case
  unfoldable pub name_taken : String → String → List Group → Bool
  name_taken name oid [] = false
  name_taken name oid (g ∷ gs) =
      let rest = name_taken name oid gs in
      (not (g.oid == oid)
        && (browser.lower (browser.trim (browser.template_of g.name)) == browser.lower name))
      || rest

  -- the updates of the permissions
  unfoldable pub permission_updates : Option Group → String → List String → List Door → List Update
  permission_updates group oid selected [] = []
  permission_updates group oid selected (d ∷ ds) =
      let later = permission_updates group oid selected ds in
      let permission = group_door_oid oid d.oid in
      let chosen = contains d.oid selected in
      if not (permission == "")
        && (not (is_there group) || differs chosen (group_allows_door group d.oid))
      then record { oid = permission; value = text_of_bool chosen } ∷ later
      else later

  -- `updates` of `saveGroup`
  unfoldable pub group_updates : GroupForm → Value → String → List Update
  unfolding permission_updates
  group_updates form schedule oid =
      let group = existing_group form in
      let field =
        λ (suffix value original : String). changed (is_there group) oid suffix value original in
      field (suffix Key.name) (browser.trim form.name)
        (original_text (λ g. browser.text_of g.name) group)
      ++ field (suffix Key.firstcard) (text_of_bool form.firstcard)
          (original_text (λ g. text_of_bool g.firstcard) group)
      ++ field (suffix Key.schedule) (browser.stringify schedule)
          (original_text (λ g. browser.stringify (or_default g.schedule (object end))) group)
      ++ permission_updates group oid form.selected (records (λ d. d.deleted) db.doors)

  unfoldable pub create_group : Session String
  create_group = create "/groups" "groups" "The server did not return the new access level ID."

  -- the updates, with the synchronization that follows them
  unfoldable pub send_updates : List Update → Session (Unit {0})
  send_updates [] = pure tt
  send_updates (u ∷ us) =
      post_updates "/groups" (u ∷ us)
      >> synchronize_hardware browser.trim "/synchronize/ACL" "Access level"

  -- `saveGroup`, up to the refresh of the levels
  unfoldable pub save_group : GroupForm → Session (Unit {0})
  unfolding group_updates create_group send_updates selected_group_schedule name_taken
  save_group form = elim (selected_group_schedule form) [
    | thrown message ↦ throw message
    | returned schedule ↦
        if name_taken (browser.trim form.name) form.oid (records (λ g. g.deleted) db.groups)
        then throw "An access level with that name already exists."
        else (if form.oid == "" then create_group else pure form.oid) >>= λ oid.
            send_updates (group_updates form schedule oid)
  ]
