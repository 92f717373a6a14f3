-- ===== src/Console/Loading.antt =====
-- `load` of httpd/html/javascript/gate-control.js: the store is filled from a snapshot of the server.
-- On the page of the credentials a snapshot without any credential does not empty the list at once:
-- it is read again, a few times, with growing delays.
pub mod Laws
use uhppoted_httpd.Prelude.{
  ℕ, zero, suc, ◌+◌, ◌*◌, String, Bool, true, false, not, ◌&&◌, ◌||◌, List, [], ◌∷◌, Option, none,
  some, length, ltb, nat_eq, if◌then◌else◌,
}
use uhppoted_httpd.Value.{Object, Runtime}
use uhppoted_httpd.Oid.{match_record}
use uhppoted_httpd.Db.Tag.{Tag}
use uhppoted_httpd.Db.Store.{Dbc, replace}
use uhppoted_httpd.Console.Records.{records}

-- The entries of a snapshot by their names, in their order, with the clock at which each object is
-- handled.
abbrev pub Snapshot : Type 0
Snapshot = List (Tag × List (Object × ℕ))

-- a status 401, a snapshot, or a failure with its message: a request or its JSON that fails, or another
-- status
pub data Reply : Type 0 where
  unauthorized : Reply
  refused : String → Reply
  read : Snapshot → Reply

-- What `load` reads and writes: the store, the notice, whether the server is shown as online, the
-- count of the retries, and the delay of the timer in milliseconds, if it is set.
pub record Page : Type 0 where
  pub store : Dbc
  pub notice : String
  pub online : Bool
  pub retries : ℕ
  pub timer : Option ℕ

-- whether an object is of a credential, and whether the entry `cards` of a snapshot has one
unfoldable pub some_card : List (Object × ℕ) → Bool
some_card [] = false
some_card ((o, _) ∷ os) =
    let rest = some_card os in elim (match_record "0.4." o.oid) [ none ↦ rest | some _ ↦ true ]

unfoldable pub has_cards : Snapshot → Bool
unfolding some_card
has_cards [] = false
has_cards ((Tag.cards, values) ∷ rest) = some_card values
has_cards (_ ∷ rest) = has_cards rest

-- `records(DB.cards).length > 0`
abbrev pub shows_cards : Dbc → Bool
shows_cards db = ltb 0 (length (records (λ c. c.deleted) db.cards))

abbrev pub is_cards : Tag → Bool
is_cards Tag.cards = true
is_cards _ = false

module _ (js : Runtime) where
  -- the loop over the entries of the snapshot
  unfoldable pub replace_all : Bool → Snapshot → Dbc → Dbc
  replace_all retain [] db = db
  replace_all retain ((name, values) ∷ rest) db =
      replace_all retain rest
        (if not (retain && is_cards name) then replace js name (some values) db else db)

  abbrev pub retains : Bool → Snapshot → Page → Bool
  retains on_cards snapshot page =
      on_cards && (shows_cards page.store && (not (has_cards snapshot) && ltb page.retries 4))

  -- `load` of a snapshot, and of any reply
  unfoldable pub load_snapshot : Bool → Snapshot → Page → Page
  unfolding replace_all has_cards
  load_snapshot on_cards snapshot page =
      let retain = retains on_cards snapshot page in
      let store' = replace_all retain snapshot page.store in
      let page' = record page { store = store'; online = true; notice = "" } in
      if retain || (on_cards && (not (shows_cards store') && ltb page.retries 4))
      then record page' { retries = page.retries + 1; timer = some ((page.retries + 1) * 500) }
      else if shows_cards store'
      then record page' { retries = 0; timer = none }
      else page'

  unfoldable pub load : Bool → Reply → Page → Page
  unfolding load_snapshot
  load on_cards unauthorized page = record page { notice = "" }
  load on_cards (refused message) page = record page { notice = message; online = false }
  load on_cards (read snapshot) page = load_snapshot on_cards snapshot page

  -- The loads that the timer starts, one after another, with the page shown and the reply that the
  -- server gives at each: they end when a load does not set the timer again.
  unfoldable pub follow : ℕ → (ℕ → Bool) → (ℕ → Reply) → Page → Page
  unfolding load
  follow zero on_cards replies page = page
  follow (suc n) on_cards replies page =
      let page' = load (on_cards n) (replies n) (record page { timer = none }) in
      let rest = follow n on_cards replies page' in
      elim page'.timer [ none ↦ page' | some _ ↦ rest ]
