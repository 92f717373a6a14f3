-- ===== src/Console/Credentials.antt =====
-- The form of a credential in httpd/html/javascript/gate-control.js: `saveCard` and `deleteCard`.
pub mod Checks
pub mod Current
use uhppoted_httpd.Prelude.{
  ℕ, zero, suc, String, Bool, true, false, not, ◌&&◌, ◌||◌, List, [], ◌∷◌, ◌++◌, Option, none, some,
  length, ltb, nat_eq, if◌then◌else◌,
}
use Prim.Native.Nat.{Ordering}
use Prim.Native.String.{compare}
use uhppoted_httpd.Text.{starts_with, ◌==◌, ◌++◌ as ◌<>◌}
use uhppoted_httpd.Value.{Value, text, is_text, or_default, truthy, Object}
use uhppoted_httpd.OrderedMap.{Map, get}
use uhppoted_httpd.Oid.{match_record}
use uhppoted_httpd.Schema.Cards.{Key, suffix}
use uhppoted_httpd.Db.Cards.{Card}
use uhppoted_httpd.Db.Groups.{Group}
use uhppoted_httpd.Db.Store.{Dbc}
use uhppoted_httpd.Access.Membership.{card_group_oid, card_in_group}
use uhppoted_httpd.Access.Exclusive.{no_access_level_oid}
use uhppoted_httpd.Console.Session.{
  Update, Outcome, returned, thrown, Session, Document, pure, throw, ◌>>=◌, ◌>>◌, request,
  read_snapshot, or_text, post_configuration, synchronize_hardware, post_updates, create, changed,
}
use uhppoted_httpd.Console.Records.{
  records, Browser, is_there, original_text, text_of_bool, differs, contains,
}
use uhppoted_httpd.Console.Memberships.{groups_of, cards_of, card_updates}

-- `s < t` of texts
abbrev pub before : String → String → Bool
before s t = elim (compare s t) [ Ordering.lt ↦ true | _ ↦ false ]

-- The form of one credential: `dataset.oid`, the fields, and the ticked levels.
pub record CardForm : Type 0 where
  pub oid : String
  pub management_group : String
  pub management_group_new : String
  pub name : String
  pub label : String
  pub kind : String
  pub number : String
  pub pin : String
  pub from : String
  pub to : String
  pub selected : List String

module _ (browser : Browser) (db : Dbc) where
  -- `normalizedPersonName`, and `existingPerson`
  unfoldable pub normalized : String → String
  normalized name = browser.locale_lower (browser.squeeze (browser.trim name))

  unfoldable pub namesakes : String → String → List Card → List Card
  unfolding normalized
  namesakes name exclude [] = []
  namesakes name exclude (c ∷ cs) =
      let rest = namesakes name exclude cs in
      if not (c.oid == exclude)
        && (normalized (browser.text_of (or_default c.name (text ""))) == normalized name)
      then c ∷ rest
      else rest

  unfoldable pub existing_person : String → String → Option Card
  unfolding namesakes
  existing_person name exclude =
      if normalized name == ""
      then none
      else (elim (browser.sort_cards (namesakes name exclude (cards_of db))) [
        | [] ↦ none
        | c ∷ cs ↦ some c
      ])

  -- the name of a card's management group, and the first of those that differ from a name in case only
  abbrev pub group_name : Card → String
  group_name c = browser.trim (browser.text_of (or_default c.management_group (text "")))

  unfoldable pub same_group : String → List Card → Option String
  same_group name [] = none
  same_group name (c ∷ cs) =
      let rest = same_group name cs in
      if not (group_name c == "")
        && (browser.locale_lower (group_name c) == browser.locale_lower name)
      then some (group_name c)
      else rest

  -- `selectedManagementGroup`: the group, or the message of the error that it throws
  unfoldable pub selected_management_group : CardForm → Outcome String
  unfolding same_group
  selected_management_group form =
      let name = browser.trim form.management_group_new in
      if not (form.management_group == "__new__")
      then returned (browser.trim form.management_group)
      else if name == ""
      then thrown "Enter a name for the new management group."
      else (elim (same_group name (cards_of db)) [
        | none ↦ returned name
        | some other ↦ returned other
      ])

  abbrev pub existing_card : CardForm → Option Card
  existing_card form = if form.oid == "" then none else get form.oid db.cards

  -- whether another card has the number
  unfoldable pub number_taken : String → Option Card → List Card → Bool
  number_taken number card [] = false
  number_taken number card (c ∷ cs) =
      let rest = number_taken number card cs in
      (not (elim card [ none ↦ false | some d ↦ c.oid == d.oid ])
        && (browser.trim (browser.template_of c.number) == number))
      || rest

  -- the guards of `saveCard`, in their order: the message of the first that throws
  unfoldable pub card_error : CardForm → Option String
  unfolding number_taken
  card_error form =
      if (form.from == "") || ((form.to == "") || before form.to form.from)
      then some "Valid until must be on or after Valid from."
      else if number_taken (browser.trim form.number) (existing_card form) (cards_of db)
      then some "A credential with that number already exists."
      else if nat_eq (length form.selected) 0
      then some "Select at least one access level. Use Level 0 for no access."
      else if contains no_access_level_oid form.selected && ltb 1 (length form.selected)
      then some "No Access cannot be combined with another access level."
      else none

  -- the search of `currentCardOID` in a snapshot, and its rounds
  unfoldable pub find_number : String → List Object → Option String
  find_number number [] = none
  find_number number (o ∷ os) =
      let rest = find_number number os in
      elim (match_record "0.4." o.oid) [
        | none ↦ rest
        | some (base, _) ↦
            if (o.oid == base <> suffix Key.card) && (browser.template_of o.value == number)
            then some base
            else rest
      ]

  unfoldable pub card_oid_rounds : ℕ → String → Session String
  unfolding find_number
  card_oid_rounds zero number =
      throw "The credential list is refreshing. Please save again in a moment."
  card_oid_rounds (suc n) number =
      let again = card_oid_rounds n number in
      request read_snapshot
        (λ text status. or_text text ("Unable to refresh credentials (" <> (status <> ")")))
      >>= λ document. elim (find_number number (document "cards")) [
        | none ↦ again
        | some base ↦ pure base
      ]

  unfoldable pub current_card_oid : Card → Session String
  unfolding card_oid_rounds
  current_card_oid card =
      if truthy card.number
      then card_oid_rounds 4 (browser.template_of card.number)
      else pure card.oid

  -- `updates` of `saveCard`
  unfoldable pub field_updates : CardForm → String → String → String → List Update
  unfolding card_updates
  field_updates form group name oid =
      let card = existing_card form in
      let field =
        λ (suffix value original : String). changed (is_there card) oid suffix value original in
      field (suffix Key.management_group) group
        (original_text (λ c. browser.text_of c.management_group) card)
      ++ field (suffix Key.name) name (original_text (λ c. browser.text_of c.name) card)
      ++ field (suffix Key.label) (browser.trim form.label)
          (original_text (λ c. browser.text_of c.label) card)
      ++ field (suffix Key.kind) form.kind
          (original_text (λ c. browser.text_of (or_default c.kind (text "card"))) card)
      ++ field (suffix Key.card) (browser.trim form.number)
          (original_text (λ c. browser.text_of c.number) card)
      ++ field (suffix Key.pin) (browser.trim form.pin)
          (original_text (λ c. browser.text_of c.pin) card)
      ++ field (suffix Key.from) form.from (original_text (λ c. browser.text_of c.from) card)
      ++ field (suffix Key.to) form.to (original_text (λ c. browser.text_of c.to) card)
      ++ card_updates (λ current chosen. chosen) card oid form.selected (groups_of db)

  -- whether the reply has an object of the card
  unfoldable pub some_field_of : String → List Object → Bool
  some_field_of oid [] = false
  some_field_of oid (o ∷ os) = starts_with o.oid (oid <> ".") || some_field_of oid os

  -- the post of the updates and what follows it
  unfoldable pub send_updates : String → List Update → Session (Unit {0})
  unfolding some_field_of
  send_updates oid [] = pure tt
  send_updates oid (u ∷ us) =
      post_configuration "/cards" (record { created = []; updated = u ∷ us; deleted = [] })
      >>= λ saved.
          if some_field_of oid (saved "cards")
          then synchronize_hardware browser.trim "/synchronize/ACL" "Credential"
          else throw "The credential changed while it was being saved. Please try again."

  unfoldable pub create_card : Session String
  create_card = create "/cards" "cards" "The server did not return the new card ID."

  -- `saveCard` behind its guards, up to the notice
  unfoldable pub submit_card : CardForm → String → String → Session (Unit {0})
  unfolding field_updates send_updates current_card_oid create_card
  submit_card form group name =
      elim (existing_card form) [ none ↦ pure form.oid | some card ↦ current_card_oid card ]
      >>= λ found. (if found == "" then create_card else pure found) >>= λ oid.
          send_updates oid (field_updates form group name oid)

  -- `saveCard`: with a person of the same name, that name and its group are taken
  unfoldable pub submit_person : CardForm → String → Session (Unit {0})
  unfolding submit_card existing_person
  submit_person form group =
      let name = browser.squeeze (browser.trim form.name) in
      let exclude : String = elim (existing_card form) [ none ↦ "" | some c ↦ c.oid ] in
      elim (existing_person name exclude) [
        | none ↦ submit_card form group name
        | some person ↦
            submit_card form
              (browser.trim (browser.text_of (or_default person.management_group (text ""))))
              (browser.trim (browser.text_of (or_default person.name (text ""))))
      ]

  unfoldable pub save_card : CardForm → Session (Unit {0})
  unfolding card_error submit_person selected_management_group
  save_card form = elim (selected_management_group form) [
    | thrown message ↦ throw message
    | returned group ↦ elim (card_error form) [
      | some message ↦ throw message
      | none ↦ submit_person form group
    ]
  ]

  -- `deleteCard` of a card of the store, once it is confirmed, up to the notice
  unfoldable pub delete_card : String → Session (Unit {0})
  delete_card oid = do
    _ ← post_configuration "/cards" (record { created = []; updated = []; deleted = oid ∷ [] })
    synchronize_hardware browser.trim "/synchronize/ACL" "Credential"
