-- ===== src/Tabular/Request.antt =====
-- `commit`, `post` and `get` of httpd/html/javascript/tabular.js: what a page sends and what becomes
-- of the replies. Each function is cut where it waits: `send` runs at once, `arrive` when the
-- response is there, `settle` is the `finally`, and `deliver` comes after that, since the promise of
-- the body is not handed on. Drawing the page anew is counted only. What the request tells the banner
-- of the link is in Connection.Monitor.
pub mod Laws
pub mod Refresh
use uhppoted_httpd.Prelude.{
  ℕ, zero, suc, ◌+◌, ◌-◌, String, Bool, true, false, ◌||◌, ◌&&◌, List, [], ◌∷◌, map, Option, none,
  some, nat_eq, if◌then◌else◌,
}
use uhppoted_httpd.Text.{◌++◌ as ◌<>◌}
use uhppoted_httpd.Value.{Object, Runtime}
use uhppoted_httpd.Db.Tag.{Tag}
use uhppoted_httpd.Db.Store.{Dbc, updated}
use uhppoted_httpd.Connection.Busy.{busy, unbusy}
use uhppoted_httpd.Tabular.Field.{Field, submit, reset, cleanup}

-- the entries of the JSON object of a reply, each object with the clock reading of its handling
abbrev pub Recordsets : Type 0
Recordsets = List (Tag × Option (List (Object × ℕ)))

pub record World : Type 0 where
  pub windmill : Option ℕ
  pub message : Option String  -- what `warning` shows
  pub location : Option String  -- the page that the browser has been sent to
  pub db : Dbc
  pub fields : List Field  -- the elements of the commit
  pub redraws : ℕ

-- A redirection, a response with its status, its text and its JSON if it is that, or an error.
pub data Reply : Type 0 where
  redirected : String → Reply
  answered : ℕ → String → Option Recordsets → Reply
  lost : String → Reply

-- the texts' `toUpperCase` and `toLowerCase`
pub record Letters : Type 0 where
  pub upper : String → String
  pub lower : String → String

-- `for (const k in object) DB.updated(k, object[k])`
unfoldable pub updated_all : Runtime → Recordsets → Dbc → Dbc
updated_all js [] db = db
updated_all js ((tag, recordset) ∷ rest) db = updated_all js rest (updated js tag recordset db)

abbrev pub on_fields : (Field → Field) → World → World
on_fields f w = record w { fields = map f w.fields }

module _ (js : Runtime) (letters : Letters) where
  -- up to the request; `postAsJSON` begins with `dismiss`
  unfoldable pub send : World → World
  send w = record w { windmill = busy w.windmill; message = none }

  unfoldable pub arrive : Reply → World → World
  arrive (redirected url) w = record w { location = some url }
  arrive (answered status body json) w = if nat_eq status 200 then w else on_fields reset w
  arrive (lost why) w = record (on_fields reset w) {
    message = some ("Error committing changes (ERR:" <> (letters.lower why <> ")"));
  }

  unfoldable pub settle : World → World
  settle w = record (on_fields cleanup w) { windmill = unbusy w.windmill }

  unfoldable pub deliver : Reply → World → World
  deliver (answered status body json) w =
      if nat_eq status 200
      then (elim json [
        | none ↦ w
        | some recordsets ↦ record w {
          db = updated_all js recordsets w.db;
          redraws = w.redraws + 1;
        }
      ])
      else if nat_eq status 401
      then record w { message = some (letters.upper body) }
      else record w { message = some body }
  deliver _ w = w

  unfoldable pub post : Reply → World → World
  unfolding send arrive settle deliver
  post reply w = deliver reply (settle (arrive reply (send w)))

  unfoldable pub commit : Reply → World → World
  unfolding post
  commit reply w = post reply (on_fields submit w)

-- `get`: the promises that are still open, or how `Promise.all` has ended
pub data Progress : Type 0 where
  open_ : ℕ → Progress
  resolved rejected : Progress

unfoldable pub is_open : Progress → Bool
is_open (open_ n) = true
is_open _ = false

-- `then`, or `catch`, and `finally`
unfoldable pub resolve : World → World
resolve w = record w { redraws = w.redraws + 1; windmill = unbusy w.windmill }

unfoldable pub reject : String → World → World
reject why w = record w { message = some why; windmill = unbusy w.windmill }

module _ (js : Runtime) where
  -- One reply. Of a promise whose request was redirected or lost, or whose JSON cannot be read,
  -- neither `resolve` nor `reject` is ever called.
  unfoldable pub receive : Reply → Progress × World → Progress × World
  unfolding resolve reject
  receive (redirected url) (p, w) = (p, record w { location = some url })
  receive (lost why) (p, w) = (p, w)
  receive (answered status body json) (p, w) =
      if nat_eq status 200
      then (elim json [
        | none ↦ (p, w)
        | some recordsets ↦
            let w' = record w { db = updated_all js recordsets w.db } in
            elim p [
              | open_ n ↦ if nat_eq n 1 then (resolved, resolve w') else (open_ (n - 1), w')
              | q ↦ (q, w')
            ]
      ])
      else (elim p [ open_ n ↦ (rejected, reject body w) | q ↦ (q, w) ])

  -- the replies in the order in which they come
  unfoldable pub receive_all : List Reply → Progress × World → Progress × World
  unfolding receive
  receive_all [] s = s
  receive_all (r ∷ rs) s = receive_all rs (receive r s)

  -- `get` of as many URLs as there are replies
  unfoldable pub get : ℕ → List Reply → World → World
  unfolding receive_all
  get n replies w = if nat_eq n 0 then resolve w else (receive_all replies (open_ n, w)).1

  -- `onRefresh` of a page that is there; only the button `refresh` counts as a request
  unfoldable pub on_refresh : Bool → ℕ → List Reply → World → World
  unfolding get
  on_refresh button n replies w =
      get n replies (if button then record w { windmill = busy w.windmill; message = none } else w)
