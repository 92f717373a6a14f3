-- ===== src/Console/Session.antt =====
-- The requests of httpd/html/javascript/gate-control.js and their replies (`postConfiguration`,
-- `synchronizeHardware` and the `fetch` calls), one after the other: an `async` function runs until
-- it returns or throws, and each `await` of a request adds the request to those made so far. What the
-- server replies may depend on all of them.
pub mod Laws
use uhppoted_httpd.Prelude.{
  String, Bool, true, false, List, [], ◌∷◌, Option, none, some, if◌then◌else◌,
}
use uhppoted_httpd.Text.{◌==◌, ◌++◌}
use uhppoted_httpd.Value.{Value, is_text, Object}

-- an object `{ oid, value }` of a body
pub record Update : Type 0 where
  pub oid : String
  pub value : String

pub record Body : Type 0 where
  pub created : List Update
  pub updated : List Update
  pub deleted : List String

-- A post of a body to a URL, a post of `{}` to a path of `/synchronize`, and a read of the snapshot.
pub data Request : Type 0 where
  post : String → Body → Request
  synchronize : String → Request
  read_snapshot : Request

-- the recordsets of a JSON document by their names; a missing one is empty
abbrev pub Document : Type 0
Document = String → List Object

-- A reply with a document, one that is not `ok` with its text and its status, and none that can be
-- read, with the message of the error that `fetch`, `text` or `json` throws.
pub data Reply : Type 0 where
  accepted : Document → Reply
  refused : String → String → Reply
  lost : String → Reply

-- What the server replies to a request after those before it, the latest first.
abbrev pub Server : Type 0
Server = List Request → Request → Reply

-- How a call ends: with a value, or with the message of the error that it throws.
pub data Outcome (A : Type 0) : Type 0 where
  returned : A → Outcome A
  thrown : String → Outcome A

-- A call: from the requests made so far to how it ends and the requests made then.
pub record Session (A : Type 0) : Type 0 where
  pub run : Server → List Request → Outcome A × List Request

unfoldable pub pure : {A : Type 0} → A → Session A
pure a = record { run = λ server log. (returned a, log) }

unfoldable pub throw : {A : Type 0} → String → Session A
throw message = record { run = λ server log. (thrown message, log) }

-- `await`
unfoldable pub and_then :
    {A B : Type 0} → (A → Session B) → Server → Outcome A × List Request → Outcome B × List Request
and_then f server (returned a, log) = (f a).run server log
and_then f server (thrown message, log) = (thrown message, log)

infixl 5 ◌>>=◌ ◌>>◌
unfoldable pub ◌>>=◌ : {A B : Type 0} → Session A → (A → Session B) → Session B
unfolding and_then
m >>= f = record { run = λ server log. and_then f server (m.run server log) }

unfoldable pub ◌>>◌ : {B : Type 0} → Session (Unit {0}) → Session B → Session B
m >> k = m >>= λ _. k

-- `s || d` of texts
abbrev pub or_text : String → String → String
or_text s d = if s == "" then d else s

-- the reply of a request as `if (!response.ok) throw …; return response.json()` has it
abbrev pub read_reply : (String → String → String) → Reply → Outcome Document
read_reply complain (accepted document) = returned document
read_reply complain (refused text status) = thrown (complain text status)
read_reply complain (lost message) = thrown message

unfoldable pub request : Request → (String → String → String) → Session Document
request r complain = record { run = λ server log. (read_reply complain (server log r), r ∷ log) }

unfoldable pub post_configuration : String → Body → Session Document
post_configuration url body =
    request (post url body)
      (λ text status. or_text text ("Configuration update failed (" ++ (status ++ ")")))

-- `trim` is the browser's
unfoldable pub synchronize_hardware : (String → String) → String → String → Session (Unit {0})
synchronize_hardware trim path label =
    request (synchronize path) (λ text status.
      label
      ++ (" saved locally, but controller synchronization failed: "
          ++ or_text (trim text) ("request failed (" ++ (status ++ ")"))))
    >>= λ _. pure tt

-- `postConfiguration(url, { created: [], updated, deleted: [] })`, where `updated` is not empty
unfoldable pub post_updates : String → List Update → Session (Unit {0})
post_updates url [] = pure tt
post_updates url (u ∷ us) =
    post_configuration url (record { created = []; updated = u ∷ us; deleted = [] }) >>= λ _.
    pure tt

-- `created.doors?.find((item) => item.value === 'new')?.OID`, and the like of the other forms; none
-- is the empty text
unfoldable pub first_new : List Object → String
first_new [] = ""
first_new (o ∷ os) = let rest = first_new os in if is_text "new" o.value then o.oid else rest

-- The record that a form adds: its OID is the server's.
unfoldable pub create : String → String → String → Session String
unfolding first_new
create url name message = do
  document ←
      post_configuration url
        (record { created = record { oid = "<new>"; value = "" } ∷ []; updated = []; deleted = [] })
  let oid = first_new (document name)
  if oid == "" then throw message else pure oid

-- `changed(suffix, value, original)`, where `existing` says whether the record is there
abbrev pub changed : Bool → String → String → String → String → List Update
changed existing oid suffix value original =
    let updates = record { oid = oid ++ suffix; value = value } ∷ [] in
    if existing then (if value == original then [] else updates) else updates
