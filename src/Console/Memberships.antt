-- ===== src/Console/Memberships.antt =====
-- The access levels of credentials in httpd/html/javascript/gate-control.js: the updates of
-- memberships, the form for several credentials (`saveBulkCredentialAccess`), and what goes with the
-- deletion of a level (`deleteGroup`).
pub mod Entries
pub mod Aligned
pub mod Written
pub mod Saved
pub mod Revoked
pub mod Updates
use uhppoted_httpd.Prelude.{
  String, Bool, true, false, not, ◌&&◌, ◌||◌, List, [], ◌∷◌, ◌++◌, Option, none, some, length,
  nat_eq, if◌then◌else◌,
}
use uhppoted_httpd.Text.{◌==◌}
use uhppoted_httpd.OrderedMap.{get}
use uhppoted_httpd.Db.Cards.{Card}
use uhppoted_httpd.Db.Groups.{Group}
use uhppoted_httpd.Db.Store.{Dbc}
use uhppoted_httpd.Access.Membership.{card_group_oid, card_in_group}
use uhppoted_httpd.Console.Session.{
  Update, Session, pure, throw, ◌>>=◌, ◌>>◌, post_configuration, synchronize_hardware, post_updates,
}
use uhppoted_httpd.Console.Records.{records, Browser, text_of_bool, differs, contains}

-- the groups and the cards that are not deleted
abbrev pub groups_of : Dbc → List Group
groups_of db = records (λ g. g.deleted) db.groups

abbrev pub cards_of : Dbc → List Card
cards_of db = records (λ c. c.deleted) db.cards

-- `mode` of the form for several credentials
pub data Mode : Type 0 where
  add remove replace : Mode

-- whether a credential is to have a level of which it has `current`
unfoldable pub next : Mode → Bool → Bool → Bool
next replace current chosen = chosen
next remove current chosen = current && not chosen
next add current chosen = current || chosen

-- the updates of one credential, and of several
unfoldable pub card_updates :
    (Bool → Bool → Bool) → Option Card → String → List String → List Group → List Update
unfolding card_in_group card_group_oid
card_updates change card oid selected [] = []
card_updates change card oid selected (g ∷ gs) =
    let later = card_updates change card oid selected gs in
    let current = card_in_group card g.oid in
    let wanted = change current (contains g.oid selected) in
    let member = card_group_oid oid g.oid in
    if not (member == "") && differs wanted current
    then record { oid = member; value = text_of_bool wanted } ∷ later
    else later

unfoldable pub bulk_updates : Mode → List Card → List String → List Group → List Update
unfolding card_updates next
bulk_updates mode [] selected groups = []
bulk_updates mode (c ∷ cs) selected groups =
    card_updates (next mode) (some c) c.oid selected groups ++ bulk_updates mode cs selected groups

-- the memberships that `deleteGroup` takes back
unfoldable pub revoked : String → List Card → List Update
unfolding card_in_group card_group_oid
revoked oid [] = []
revoked oid (c ∷ cs) =
    let rest = revoked oid cs in
    if card_in_group (some c) oid && not (card_group_oid c.oid oid == "")
    then record { oid = card_group_oid c.oid oid; value = "false" } ∷ rest
    else rest

-- `.filter(Boolean)` of what `DB.cards.get` finds
abbrev pub with_found : Option Card → List Card → List Card
with_found none cs = cs
with_found (some c) cs = c ∷ cs

module _ (browser : Browser) (db : Dbc) where
  -- `saveBulkCredentialAccess` with the cards that it finds, up to the notice; `confirmed` is the
  -- answer to its question
  unfoldable pub find_cards : List String → List Card
  find_cards [] = []
  find_cards (oid ∷ oids) = with_found (get oid db.cards) (find_cards oids)

  abbrev pub is_replace : Mode → Bool
  is_replace replace = true
  is_replace _ = false

  unfoldable pub save_bulk : List String → List String → Mode → Bool → Session (Unit {0})
  unfolding find_cards bulk_updates
  save_bulk oids selected mode confirmed =
      let cards = find_cards oids in
      let updates = bulk_updates mode cards selected (groups_of db) in
      if nat_eq (length cards) 0
      then throw "No credentials are selected."
      else if not (is_replace mode) && nat_eq (length selected) 0
      then throw "Select at least one access level."
      else if is_replace mode && (nat_eq (length selected) 0 && not confirmed)
      then pure tt
      else (elim updates [
        | [] ↦ pure tt
        | u ∷ us ↦
            post_updates "/cards" (u ∷ us)
            >> synchronize_hardware browser.trim "/synchronize/ACL" "Credential group"
      ])

  -- `deleteGroup`, once it is confirmed, up to the reload
  unfoldable pub delete_group : String → Session (Unit {0})
  unfolding revoked
  delete_group oid = do
    post_updates "/cards" (revoked oid (cards_of db))
    _ ← post_configuration "/groups" (record { created = []; updated = []; deleted = oid ∷ [] })
    synchronize_hardware browser.trim "/synchronize/ACL" "Access rules"
