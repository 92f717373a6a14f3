-- ===== src/Console/Relays.antt =====
-- The relay form of httpd/html/javascript/gate-control.js: which controller's channel a door is
-- assigned to, and what saving and deleting a door sends to the server.
pub mod Slots
pub mod Taken
pub mod Saved
pub mod Cleared
pub mod Deleted
use uhppoted_httpd.Prelude.{
  ℕ, String, Bool, true, false, not, ◌&&◌, ◌||◌, List, [], ◌∷◌, ◌++◌, Option, none, some, nat_eq,
  or_else, if◌then◌else◌,
}
use uhppoted_httpd.Text.{◌==◌, ◌++◌ as ◌<>◌}
use uhppoted_httpd.Value.{Value, undefined, text, number, truthy, is_text, or_default}
use uhppoted_httpd.OrderedMap.{Map, get}
use uhppoted_httpd.Schema
use uhppoted_httpd.Schema.Controllers.{Key, suffix}
use uhppoted_httpd.Db.Controllers.{Controller, DoorSlots}
use uhppoted_httpd.Db.Doors.{Door}
use uhppoted_httpd.Db.Store.{Dbc}
use uhppoted_httpd.Console.Session.{
  Update, Session, pure, throw, ◌>>=◌, ◌>>◌, post_configuration, synchronize_hardware, post_updates,
  create, changed,
}
use uhppoted_httpd.Console.Records.{records, Browser, is_there, original_text, text_of_bool}

-- `controller.doors[channel]` and `schema.controllers[`door${channel}`]`, as texts of a template
unfoldable pub slot : ℕ → DoorSlots → Value
slot n d =
    if nat_eq n 1
    then d.door1
    else if nat_eq n 2
    then d.door2
    else if nat_eq n 3
    then d.door3
    else if nat_eq n 4
    then d.door4
    else undefined

unfoldable pub door_suffix : ℕ → String
door_suffix n =
    if nat_eq n 1
    then suffix Key.door1
    else if nat_eq n 2
    then suffix Key.door2
    else if nat_eq n 3
    then suffix Key.door3
    else if nat_eq n 4
    then suffix Key.door4
    else "undefined"

-- `Object.entries(controller.doors)`
abbrev pub entries : DoorSlots → List (ℕ × Value)
entries d = (1, d.door1) ∷ (2, d.door2) ∷ (3, d.door3) ∷ (4, d.door4) ∷ []

-- the controllers that are not deleted
abbrev pub controllers_of : Dbc → List Controller
controllers_of db = records (λ c. c.deleted) db.controllers

-- the inner and the outer loop of `doorAssignment`
unfoldable pub assigned_channel : String → List (ℕ × Value) → Option ℕ
assigned_channel oid [] = none
assigned_channel oid ((channel, assigned) ∷ rest) =
    let later = assigned_channel oid rest in if is_text oid assigned then some channel else later

unfoldable pub door_assignment : String → List Controller → Option (Controller × ℕ)
unfolding assigned_channel
door_assignment oid [] = none
door_assignment oid (c ∷ cs) =
    let later = door_assignment oid cs in
    elim (assigned_channel oid (entries c.doors)) [
      | none ↦ later
      | some channel ↦ some (c, channel)
    ]

-- The form: `dataset` and `elements`; a channel is `Number(text) || null`, where 0 stands for `null`.
pub record DoorForm : Type 0 where
  pub oid : String
  pub original_controller : String
  pub original_channel : ℕ
  pub name : String
  pub delay : String
  pub mode : String
  pub keypad : Bool
  pub reader_entry : String
  pub reader_exit : String
  pub controller : String
  pub channel : ℕ

-- `a?.OID !== b?.OID` of controllers of the table
abbrev pub is_other : Option Controller → Option Controller → Bool
is_other none none = false
is_other none (some c) = true
is_other (some c) none = true
is_other (some c) (some d) = not (c.oid == d.oid)

-- the slot that the door leaves, if it is assigned elsewhere or nowhere
unfoldable pub vacated : Option Controller → ℕ → Option Controller → ℕ → List Update
vacated none from target to = []
vacated (some c) from target to =
    if is_other (some c) target || not (nat_eq from to)
    then record { oid = c.oid <> door_suffix from; value = "" } ∷ []
    else []

-- Whether the door is to be moved to a slot, and what that sends; it throws where another door is.
abbrev pub is_moved : Option Controller → ℕ → Controller → ℕ → Bool
is_moved original from c to =
    not (nat_eq to 0) && (is_other original (some c) || not (nat_eq from to))

abbrev pub is_taken : String → Controller → ℕ → Bool
is_taken oid c to = truthy (slot to c.doors) && not (is_text oid (slot to c.doors))

-- Whether there is a record that the form edits: `oid ? DB.doors.get(oid) : null`.
abbrev pub existing_door : DoorForm → Dbc → Option Door
existing_door form db = if form.oid == "" then none else get form.oid db.doors

-- the loops of `deleteDoor` over the controllers and their channels
unfoldable pub clear_slots : String → String → List (ℕ × Value) → List Update
clear_slots oid controller [] = []
clear_slots oid controller ((channel, assigned) ∷ rest) =
    let later = clear_slots oid controller rest in
    if is_text oid assigned
    then record { oid = controller <> door_suffix channel; value = "" } ∷ later
    else later

unfoldable pub clear_door : String → List Controller → List Update
unfolding clear_slots
clear_door oid [] = []
clear_door oid (c ∷ cs) = clear_slots oid c.oid (entries c.doors) ++ clear_door oid cs

module _ (browser : Browser) (db : Dbc) where
  unfoldable pub occupied :
      String → Option Controller → ℕ → Option Controller → ℕ → Session (List Update)
  unfolding slot
  occupied oid original from none to = pure []
  occupied oid original from (some c) to =
      if is_moved original from c to
      then (if is_taken oid c to
          then throw ("Physical door " <> (browser.text_of (number to) <> " is already assigned."))
          else pure (record { oid = c.oid <> door_suffix to; value = oid } ∷ []))
      else pure []

  -- `assignmentUpdates` of `saveDoor`
  unfoldable pub assignment_updates : DoorForm → String → Session (List Update)
  unfolding occupied vacated
  assignment_updates form oid =
      let original = get form.original_controller db.controllers in
      let target = get form.controller db.controllers in
      occupied oid original form.original_channel target form.channel >>= λ moved.
      pure (vacated original form.original_channel target form.channel ++ moved)

  -- `updates` of `saveDoor`
  unfoldable pub door_updates : DoorForm → String → List Update
  door_updates form oid =
      let door = existing_door form db in
      let field =
        λ (suffix value original : String). changed (is_there door) oid suffix value original in
      field (Schema.Doors.suffix Schema.Doors.Key.name) (browser.trim form.name)
        (original_text (λ d. browser.text_of d.name) door)
      ++ field (Schema.Doors.suffix Schema.Doors.Key.delay) form.delay
          (original_text (λ d. browser.text_of (or_default d.delay.configured d.delay.delay)) door)
      ++ field (Schema.Doors.suffix Schema.Doors.Key.mode) form.mode
          (original_text (λ d. browser.text_of (or_default d.mode.configured d.mode.mode)) door)
      ++ field (Schema.Doors.suffix Schema.Doors.Key.keypad) (text_of_bool form.keypad)
          (original_text (λ d. text_of_bool (truthy d.keypad)) door)
      ++ field (Schema.Doors.suffix Schema.Doors.Key.reader_entry) (browser.trim form.reader_entry)
          (original_text (λ d. browser.text_of d.reader_entry) door)
      ++ field (Schema.Doors.suffix Schema.Doors.Key.reader_exit) (browser.trim form.reader_exit)
          (original_text (λ d. browser.text_of d.reader_exit) door)

  -- what `saveDoor` does with the OID of the door, up to the notice that it shows; and the whole
  unfoldable pub save_fields : DoorForm → String → Session String
  unfolding door_updates assignment_updates
  save_fields form oid = do
    post_updates "/doors" (door_updates form oid)
    updates ← assignment_updates form oid
    post_updates "/controllers" updates
    synchronize_hardware browser.trim "/synchronize/doors" "Relay"
    pure (
        if is_there (existing_door form db)
        then "Door configuration saved and synchronized."
        else "Door added, assigned, and synchronized.")

  unfoldable pub create_door : Session String
  create_door = create "/doors" "doors" "The server did not return the new door ID."

  unfoldable pub save_door : DoorForm → Session String
  unfolding create_door
  save_door form = (if form.oid == "" then create_door else pure form.oid) >>= save_fields form

  -- `deleteDoor` of a door of the store, once it is confirmed, up to the notice
  unfoldable pub delete_door : String → Session (Unit {0})
  unfolding clear_door
  delete_door oid = do
    post_updates "/controllers" (clear_door oid (controllers_of db))
    _ ← post_configuration "/doors" (record { created = []; updated = []; deleted = oid ∷ [] })
    synchronize_hardware browser.trim "/synchronize/ACL" "Access rules"
