-- ===== src/Console/Panels.antt =====
-- The controller form and the list of doors of httpd/html/javascript/gate-control.js:
-- `controllerCapacity`, `controllerForDoor`, `controllerDoors` and `saveController`.
pub mod Listed
use uhppoted_httpd.Prelude.{
  ℕ, zero, suc, ◌+◌, ◌-◌, String, Bool, true, false, not, ◌&&◌, ◌||◌, List, [], ◌∷◌, ◌++◌, Option,
  none, some, leb, if◌then◌else◌,
}
use uhppoted_httpd.Text.{starts_with, ◌==◌, ◌++◌ as ◌<>◌}
use uhppoted_httpd.Value.{Value, text, truthy, is_text, or_default}
use uhppoted_httpd.OrderedMap.{Map, get}
use uhppoted_httpd.Schema.Controllers.{Key, suffix}
use uhppoted_httpd.Db.Controllers.{Controller, DoorSlots}
use uhppoted_httpd.Db.Doors.{Door}
use uhppoted_httpd.Db.Store.{Dbc}
use uhppoted_httpd.Console.Session.{
  Update, request, post, Session, pure, ◌>>=◌, ◌>>◌, or_text, synchronize_hardware, post_updates,
  changed,
}
use uhppoted_httpd.Console.Records.{records, Browser}
use uhppoted_httpd.Console.Relays.{slot, door_suffix, entries, controllers_of}

-- a row of the list: the controller, its channel and the door, as far as there are any
pub record DoorRow : Type 0 where
  pub controller : Option Controller
  pub channel : Option ℕ
  pub door : Option Door

-- `DB.doors.get(doorOID)` of what a channel holds
unfoldable pub door_of : Value → Map Door → Option Door
door_of (text s) doors = if s == "" then none else get s doors
door_of _ doors = none

-- whether a channel of the list holds the door
unfoldable pub is_listed : String → List (ℕ × Value) → Bool
is_listed oid [] = false
is_listed oid ((n, v) ∷ rest) = is_text oid v || is_listed oid rest

-- `controllerForDoor`
unfoldable pub controller_for_door : String → List Controller → Option Controller
unfolding is_listed
controller_for_door oid [] = none
controller_for_door oid (c ∷ cs) =
    let rest = controller_for_door oid cs in
    if is_listed oid (entries c.doors) then some c else rest

module _ (browser : Browser) where
  -- `controllerCapacity`: the first character of the trimmed device ID
  unfoldable pub controller_capacity : Controller → ℕ
  controller_capacity c =
      let id = browser.trim (browser.text_of (or_default c.device_id (text ""))) in
      if starts_with id "1" then 1 else if starts_with id "2" then 2 else 4

  -- the channels of a controller up to its capacity
  unfoldable pub within : ℕ → List (ℕ × Value) → List (ℕ × Value)
  within capacity [] = []
  within capacity ((n, v) ∷ rest) =
      let later = within capacity rest in if leb n capacity then (n, v) ∷ later else later

  abbrev pub channels : Controller → List (ℕ × Value)
  channels c = within (controller_capacity c) (entries c.doors)

  -- the rows of the channels, of one controller and of all
  unfoldable pub channel_rows : Controller → Map Door → List (ℕ × Value) → List DoorRow
  unfolding door_of
  channel_rows c doors [] = []
  channel_rows c doors ((n, v) ∷ rest) =
      record { controller = some c; channel = some n; door = door_of v doors }
      ∷ channel_rows c doors rest

  unfoldable pub controller_rows : Map Door → List Controller → List DoorRow
  unfolding channel_rows within
  controller_rows doors [] = []
  controller_rows doors (c ∷ cs) = channel_rows c doors (channels c) ++ controller_rows doors cs

  -- `assigned.has(door.OID)`
  unfoldable pub is_assigned : String → List Controller → Bool
  unfolding is_listed within
  is_assigned oid [] = false
  is_assigned oid (c ∷ cs) = is_listed oid (channels c) || is_assigned oid cs

  -- the rows of the doors that no listed channel has
  unfoldable pub other_rows : List Controller → List Door → List DoorRow
  unfolding is_assigned controller_for_door
  other_rows cs [] = []
  other_rows cs (d ∷ ds) =
      let rest = other_rows cs ds in
      if is_assigned d.oid cs
      then rest
      else record { controller = controller_for_door d.oid cs; channel = none; door = some d }
        ∷ rest

  -- `controllerDoors`
  unfoldable pub controller_doors : Dbc → List DoorRow
  unfolding controller_rows other_rows
  controller_doors db =
      controller_rows db.doors (controllers_of db)
      ++ other_rows (controllers_of db) (records (λ d. d.deleted) db.doors)

-- The form of a controller.
pub record ControllerForm : Type 0 where
  pub oid : String
  pub name : String
  pub device_id : String
  pub address : String
  pub protocol : String
  pub interlock : String
  pub antipassback : String
  pub doors : List (ℕ × String)  -- the fields `door1` to `door4` that the form has

module _ (browser : Browser) where
  -- the updates of the channels
  unfoldable pub channel_updates : Controller → String → List (ℕ × String) → List Update
  unfolding slot door_suffix
  channel_updates c oid [] = []
  channel_updates c oid ((n, value) ∷ rest) =
      changed true oid (door_suffix n) value (browser.text_of (slot n c.doors))
      ++ channel_updates c oid rest

  -- `updates` of `saveController`
  unfoldable pub controller_updates : ControllerForm → Controller → List Update
  unfolding channel_updates
  controller_updates form c =
      let field = λ (suffix value : String) (original : Value).
        changed true form.oid suffix value (browser.text_of original) in
      field (suffix Key.name) (browser.trim form.name) c.name
      ++ field (suffix Key.device_id) (browser.trim form.device_id) c.device_id
      ++ field (suffix Key.endpoint_address) (browser.trim form.address) c.address.configured
      ++ field (suffix Key.endpoint_protocol) form.protocol c.protocol
      ++ field (suffix Key.interlock) form.interlock c.interlock
      ++ field (suffix Key.antipassback_antipassback) form.antipassback c.antipassback.antipassback
      ++ channel_updates c form.oid form.doors

  -- `saveController` of a controller of the store, up to the notice
  unfoldable pub send_controller : List Update → Session (Unit {0})
  send_controller [] = pure tt
  send_controller (u ∷ us) = do
    _ ←
        request (post "/controllers" (record { created = []; updated = u ∷ us; deleted = [] }))
          (λ text status. or_text text ("Controller update failed (" <> (status <> ")")))
    synchronize_hardware browser.trim "/synchronize/doors" "Relay"
    synchronize_hardware browser.trim "/synchronize/ACL" "Card"

  unfoldable pub save_controller : Dbc → ControllerForm → Session (Unit {0})
  unfolding controller_updates send_controller
  save_controller db form = elim (get form.oid db.controllers) [
    | none ↦ pure tt
    | some c ↦ send_controller (controller_updates form c)
  ]
