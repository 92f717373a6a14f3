-- ===== src/Console/Relays/Taken.antt =====
-- The relay form of httpd/html/javascript/gate-control.js where another door is in the slot.
use uhppoted_httpd.Prelude.{
  ℕ, String, true, ◌≡◌, ◌≢◌, refl, List, Option, some, Bool-cases, inl, inr, eq_iff,
}
use uhppoted_httpd.Text.{◌==◌, ◌++◌ as ◌<>◌}
use uhppoted_httpd.Value.{number}
use uhppoted_httpd.OrderedMap.{get}
use uhppoted_httpd.Db.Controllers.{Controller}
use uhppoted_httpd.Db.Store.{Dbc}
use uhppoted_httpd.Console.Session.{Update, Request, post, synchronize, read_snapshot, throw, ◌>>◌}
use uhppoted_httpd.Console.Session.Laws.{
  Only, Fails, throw-Only, bind-Only, post_updates-Only, throw-Fails, bind-Fails, later-Fails,
  throw-bind, pure-bind,
}
use uhppoted_httpd.Console.Records.{Browser}
use uhppoted_httpd.Console.Relays.{
  DoorForm, is_moved, is_taken, occupied, assignment_updates, door_updates, save_door, save_fields,
}

-- a post to the doors of the store, and nothing else
abbrev pub IsDoorPost : Request → Type 0
IsDoorPost (post url body) = url ≡ "/doors"
IsDoorPost (synchronize path) = ⊥
IsDoorPost read_snapshot = ⊥

taken_message : Browser → ℕ → String
taken_message browser to =
    "Physical door " <> (browser.text_of (number to) <> " is already assigned.")

occupied-taken :
    (browser : Browser) (db : Dbc) (oid : String) (original : Option Controller) (from : ℕ)
    (c : Controller) (to : ℕ)
    → is_moved original from c to ≡ true
    → is_taken oid c to ≡ true
    → occupied browser db oid original from (some c) to ≡ throw (taken_message browser to)
unfolding occupied taken_message
occupied-taken browser db oid original from c to h k = rw (h, k) refl

assignment_updates-taken :
    (browser : Browser) (db : Dbc) (form : DoorForm) (oid : String) (c : Controller)
    → get form.controller db.controllers ≡ some c
    → is_moved (get form.original_controller db.controllers) form.original_channel c form.channel
      ≡ true
    → is_taken oid c form.channel ≡ true
    → assignment_updates browser db form oid ≡ throw (taken_message browser form.channel)
unfolding assignment_updates
assignment_updates-taken browser db form oid c e moved taken =
    rw
      (
        e,
        occupied-taken browser db oid (get form.original_controller db.controllers)
            form.original_channel c form.channel moved taken,
      )
      (throw-bind (taken_message browser form.channel) _)

save_fields-taken :
    (browser : Browser) (db : Dbc) (form : DoorForm) (c : Controller)
    → get form.controller db.controllers ≡ some c
    → is_moved (get form.original_controller db.controllers) form.original_channel c form.channel
      ≡ true
    → (oid : String) → is_taken oid c form.channel ≡ true
    → Fails (save_fields browser db form oid) × Only IsDoorPost (save_fields browser db form oid)
unfolding save_fields ◌>>◌
save_fields-taken browser db form c e moved oid taken = (
  later-Fails _ _ (λ _.
      rw (assignment_updates-taken browser db form oid c e moved taken)
        (bind-Fails _ _ (throw-Fails (List Update) (taken_message browser form.channel)))),
  bind-Only IsDoorPost _ _
      (post_updates-Only IsDoorPost "/doors" (door_updates browser db form oid) (λ body. refl))
      (λ _.
        rw
          (
            assignment_updates-taken browser db form oid c e moved taken,
            throw-bind (taken_message browser form.channel),
          )
          (throw-Only IsDoorPost String (taken_message browser form.channel))),
)

-- Saving a door that has an OID into a slot of a controller of the store, other than the form's
-- original one, that holds another door throws, whatever the server replies, and posts nothing but to
-- the doors: neither an assignment nor a synchronization.
pub save_door-taken :
    (browser : Browser) (db : Dbc) (form : DoorForm) (c : Controller)
    → form.oid ≢ ""
    → get form.controller db.controllers ≡ some c
    → is_moved (get form.original_controller db.controllers) form.original_channel c form.channel
      ≡ true
    → is_taken form.oid c form.channel ≡ true
    → Fails (save_door browser db form) × Only IsDoorPost (save_door browser db form)
unfolding save_door
save_door-taken browser db form c old e moved taken = elim (Bool-cases (form.oid == "")) [
  | inl new ↦ absurd (old ((eq_iff form.oid "").0 new))
  | inr known ↦
      rw (known, pure-bind form.oid (save_fields browser db form))
        (save_fields-taken browser db form c e moved form.oid taken)
]
