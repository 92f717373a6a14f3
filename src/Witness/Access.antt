-- ===== src/Witness/Access.antt =====
-- Access levels and credentials in the console, httpd/html/javascript/gate-control.js, over a store of
-- one credential and one access level.
use uhppoted_httpd.Prelude.{
  or_else, List, String, true, false, ◌≡◌, ◌⊎◌, inl, inr, refl, [], ◌∷◌, some, none, Bool-cases,
}
use uhppoted_httpd.Text.{◌++◌, ◌==◌}
use uhppoted_httpd.Oid.{numeral, match_record, match_base, match_member}
use uhppoted_httpd.Oid.Laws.{IsBase}
use uhppoted_httpd.Value.{Value, text, Runtime}
use uhppoted_httpd.OrderedMap.{get, has, set, upsert}
use uhppoted_httpd.Db.Handler.{nil-IsTable, upsert-IsTable}
use uhppoted_httpd.Switch.{switch}
use uhppoted_httpd.Db.Cards.{Card, cards, cases, memberships}
use uhppoted_httpd.Db.Groups.{Group, fresh as fresh_group}
use uhppoted_httpd.Db.Sweep.{alive}
use uhppoted_httpd.Db.Store.{Dbc, empty, dispatch, table_of}
use uhppoted_httpd.Db.Invariant.{IsStore, empty-IsStore}
use uhppoted_httpd.Access.Membership.{card_in_group}
use uhppoted_httpd.Console.Session.{
  Update, read_snapshot, Server, Document, accepted, thrown, pure, ◌>>=◌, and_then, request,
}
use uhppoted_httpd.Console.Records.{Browser}
use uhppoted_httpd.Console.Relays.Slots.{apply}
use uhppoted_httpd.Console.Memberships.{
  groups_of, cards_of, Mode, bulk_updates, find_cards, revoked,
}
use uhppoted_httpd.Console.Memberships.Entries.{groups_at}
use uhppoted_httpd.Console.Memberships.Aligned.{IsAligned}
use uhppoted_httpd.Console.Memberships.Written.{apply-IsLinked, IsLinked}
use uhppoted_httpd.Console.Memberships.Saved.{IsSaved, bulk_updates-IsSaved}
use uhppoted_httpd.Console.Memberships.Revoked.{revoked-clears}
use uhppoted_httpd.Console.Credentials.{current_card_oid, card_oid_rounds, find_number}
use uhppoted_httpd.Console.Credentials.Current.{IsFound, current_card_oid-IsFound}
use uhppoted_httpd.Console.Levels.{GroupForm, save_group}
use uhppoted_httpd.Console.Levels.Checks.{IsSavable, save_group-IsSavable}

abbrev js : Runtime
js = record { parse_int = λ v. v; json_parse = λ s. none }

abbrev text_of : Value → String
text_of (text s) = s
text_of _ = ""

abbrev browser : Browser
browser = record {
  text_of = text_of;
  template_of = text_of;
  trim = λ s. s;
  squeeze = λ s. s;
  lower = λ s. s;
  locale_lower = λ s. s;
  stringify = text_of;
  sort_cards = λ cs. cs;
}

abbrev albus : Card
albus = record {
  oid = "0.4.17";
  created = text "";
  deleted = text "";
  name = text "Albus";
  management_group = text "";
  label = text "";
  kind = text "card";
  number = text "12345678";
  pin = text "";
  from = text "";
  to = text "";
  groups = [];
  status = text "";
  touched = 1000;
}

abbrev teachers : Group
teachers = fresh_group "0.5.5" (text "new") 1000

abbrev db : Dbc
db = record empty {
  cards = upsert "0.4.17" albus (λ v. v) [];
  groups = upsert "0.5.5" teachers (λ v. v) [];
}

base17 : (table : String) → IsBase table (table ++ "17")
unfolding numeral
base17 table = record { number = "17"; same = refl; exact = refl }

base5 : (table : String) → IsBase table (table ++ "5")
unfolding numeral
base5 table = record { number = "5"; same = refl; exact = refl }

db-IsStore : IsStore db
unfolding fresh_group
db-IsStore = record {
  interfaces = empty-IsStore.interfaces;
  controllers = empty-IsStore.controllers;
  doors = empty-IsStore.doors;
  cards =
      upsert-IsTable "0.4." (λ c. c.oid) "0.4.17" albus (λ v. v) [] (base17 "0.4.") refl (λ v. refl)
        (nil-IsTable "0.4." _);
  groups =
      upsert-IsTable "0.5." (λ g. g.oid) "0.5.5" teachers (λ v. v) [] (base5 "0.5.") refl
        (λ v. refl) (nil-IsTable "0.5." _);
  events = empty-IsStore.events;
  logs = empty-IsStore.logs;
  users = empty-IsStore.users;
}

nil-IsAligned : (k : String) → IsAligned k []
unfolding get
nil-IsAligned k = record { distinct = tt; keyed = λ group g j e f. cc f }

no_groups : (k : String) → groups_at db.cards k ≡ []
unfolding groups_at get upsert has set
no_groups k = elim (Bool-cases ("0.4.17" == k)) [
  | inl e ↦ rw (groups_at, e) refl
  | inr e ↦ rw (groups_at, e) refl
]

db-IsLinked : IsLinked db
db-IsLinked = record { store = db-IsStore; aligned = λ k. rw (no_groups k) (nil-IsAligned k) }

bulk_updates-IsSaved_example :
    IsSaved db Mode.add ("0.4.17" ∷ []) ("0.5.5" ∷ []) "0.4.17" albus (λ l.
      card_in_group
        (get "0.4.17"
          (apply js 2000
            (bulk_updates Mode.add
              (find_cards browser db ("0.4.17" ∷ []))
              ("0.5.5" ∷ [])
              (groups_of db))
            db).cards)
        l)
unfolding get upsert has set fresh_group card_in_group
bulk_updates-IsSaved_example =
    bulk_updates-IsSaved browser db db-IsLinked js 2000 Mode.add ("0.4.17" ∷ []) ("0.5.5" ∷ [])
      "0.4.17" albus refl (λ h. cc h) (λ h. cc h) (λ adds. ((λ h. cc h), λ h. cc h))

-- the store once the credential has been given a level
abbrev given : List Update
given = record { oid = "0.4.17.5.5"; value = "true" } ∷ []

abbrev taught : Dbc
taught = apply js 1500 given db

taught-IsLinked : IsLinked taught
unfolding numeral
taught-IsLinked =
    apply-IsLinked js 1500 given db (("0.4.17", "5", base17 "0.4.", refl, refl), tt) db-IsLinked

abbrev teacher : Card
teacher = or_else albus (get "0.4.17" taught.cards)

revoked-clears_example :
    let db' = apply js 2000 (revoked "0.5.5" (cards_of taught)) taught in
    (alive (some teacher.deleted) ≡ true → card_in_group (get "0.4.17" db'.cards) "0.5.5" ≡ false)
    × (("0.5.5" == "0.5.17") ≡ false
        → card_in_group (get "0.4.17" db'.cards) "0.5.17" ≡ card_in_group (some teacher) "0.5.17")
unfolding get upsert has set apply dispatch table_of cards match_base
revoked-clears_example =
    revoked-clears js 2000 taught "0.5.5" "0.4.17" "0.5.17" teacher taught-IsLinked (base5 "0.5.")
      (base17 "0.5.") refl

-- It had the level.
teacher_has : card_in_group (some teacher) "0.5.5" ≡ true
unfolding get upsert has set apply card_in_group dispatch table_of cards match_base switch cases
    memberships match_member
teacher_has = refl

-- a snapshot in which the credential has another OID
abbrev snapshot : Document
snapshot name = record { oid = "0.4.18.2"; value = text "12345678" } ∷ []

abbrev server : Server
server log request = accepted snapshot

current_card_oid-IsFound_example :
    IsFound browser db 4 "12345678" server [] "0.4.18" (read_snapshot ∷ [])
unfolding current_card_oid card_oid_rounds find_number request ◌>>=◌ and_then pure match_record
current_card_oid-IsFound_example =
    current_card_oid-IsFound browser db albus server [] "0.4.18" (read_snapshot ∷ []) refl refl

abbrev group_form : GroupForm
group_form = record {
  oid = "0.5.5";
  name = "Teachers";
  firstcard = false;
  enabled = true;
  start = "08:00";
  end_ = "17:00";
  monday = true;
  tuesday = false;
  wednesday = false;
  thursday = false;
  friday = false;
  saturday = false;
  sunday = false;
  selected = [];
}

save_group-IsSavable_example :
    ((message : String) × ((save_group browser db group_form).run server [] ≡ (thrown message, [])))
    ⊎ IsSavable browser db group_form
save_group-IsSavable_example = save_group-IsSavable browser db group_form server []
