-- ===== src/Console/People.antt =====
-- The people and the management groups of httpd/html/javascript/gate-control.js:
-- `updateManagementGroup` and `savePerson`.
use uhppoted_httpd.Prelude.{String, not, ◌&&◌, List, [], ◌∷◌, ◌++◌, if◌then◌else◌}
use uhppoted_httpd.Text.{◌==◌, ◌++◌ as ◌<>◌}
use uhppoted_httpd.Value.{text, or_default}
use uhppoted_httpd.Schema.Cards.{Key, suffix}
use uhppoted_httpd.Db.Cards.{Card}
use uhppoted_httpd.Db.Store.{Dbc}
use uhppoted_httpd.Console.Session.{Update, Outcome, returned, thrown, Session, throw, post_updates}
use uhppoted_httpd.Console.Records.{Browser, contains}
use uhppoted_httpd.Console.Memberships.{cards_of, find_cards}
use uhppoted_httpd.Console.Credentials.{normalized, group_name}

module _ (browser : Browser) (db : Dbc) where
  -- the cards of a management group, in any case, moved to another
  unfoldable pub moved_cards : String → String → List Card → List Update
  moved_cards source target [] = []
  moved_cards source target (c ∷ cs) =
      let rest = moved_cards source target cs in
      if browser.locale_lower (group_name browser db c)
        == browser.locale_lower (browser.trim source)
      then record { oid = c.oid <> suffix Key.management_group; value = browser.trim target } ∷ rest
      else rest

  unfoldable pub send_moves : List Update → Session (Unit {0})
  send_moves [] = throw "That management group no longer has any credentials."
  send_moves (u ∷ us) = post_updates "/cards" (u ∷ us)

  -- `updateManagementGroup`, up to the load that follows
  unfoldable pub update_management_group : String → String → Session (Unit {0})
  unfolding moved_cards send_moves
  update_management_group source target = send_moves (moved_cards source target (cards_of db))

  -- the cards of others with a person's name
  unfoldable pub others : String → List String → List Card → List Card
  others name oids [] = []
  others name oids (c ∷ cs) =
      let rest = others name oids cs in
      if not (contains c.oid oids)
        && (normalized browser db (browser.text_of (or_default c.name (text "")))
            == normalized browser db name)
      then c ∷ rest
      else rest

  -- the updates of a person's cards
  abbrev pub person_name : Card → String
  person_name c = browser.trim (browser.text_of (or_default c.name (text "")))

  unfoldable pub person_updates : String → String → List Card → List Update
  person_updates name group [] = []
  person_updates name group (c ∷ cs) =
      (if not (person_name c == name)
        then record { oid = c.oid <> suffix Key.name; value = name } ∷ []
        else [])
      ++ (if not (group_name browser db c == group)
          then record { oid = c.oid <> suffix Key.management_group; value = group } ∷ []
          else [])
      ++ person_updates name group cs

  -- `savePerson` with the name and the outcome of `selectedManagementGroup`, up to the notice
  unfoldable pub save_person : List String → String → Outcome String → Session (Unit {0})
  unfolding others person_updates
  save_person oids typed (thrown message) = throw message
  save_person oids typed (returned group) =
      let cards = find_cards browser db oids in
      let name = browser.squeeze (browser.trim typed) in
      elim cards [
        | [] ↦ throw "That person no longer has any credentials."
        | c ∷ cs ↦
            if name == ""
            then throw "Full name is required."
            else (elim (browser.sort_cards (others name oids (cards_of db))) [
              | [] ↦ post_updates "/cards" (person_updates name group (c ∷ cs))
              | person ∷ _ ↦
                  post_updates "/cards"
                    (person_updates (person_name person) (group_name browser db person) (c ∷ cs))
            ])
      ]
