-- ===== src/Access/Membership.antt =====
-- `cardGroupOID`, `cardInGroup`, `groupDoorOID` and `groupAllowsDoor` of
-- httpd/html/javascript/gate-control.js, over the tables of cards and groups.
pub mod Laws
use mathlib.Core.Option.{some-injective}
use package.text.Mathlib.TextLemmas.{append_assoc, append-nil}
use uhppoted_httpd.Prelude.{
  ℕ, String, Bool, true, false, ◌||◌, ◌&&◌, List, [], ◌∷◌, ◌≡◌, refl, sym, ap, ◌∙◌, Option, none,
  some, eq_refl, Bool-cases, or_else, Option-cases, inl, inr,
}
use uhppoted_httpd.Text.{◌++◌, ◌==◌}
use uhppoted_httpd.Value.{text, is_text, Runtime}
use uhppoted_httpd.Oid.{match_record, is_line, numeral}
use uhppoted_httpd.Oid.Laws.{IsBase, match_record-append, IsSuffix}
use uhppoted_httpd.Oid.Member.{IsNumber}
use uhppoted_httpd.OrderedMap.{Map, get, values, upsert}
use uhppoted_httpd.OrderedMap.Laws.{get-upsert}
use uhppoted_httpd.Schema
use uhppoted_httpd.Db.Handler.{IsTable}
use uhppoted_httpd.Db.Cards.{Card, Membership, cards, fresh as fresh_card}
use uhppoted_httpd.Db.Cards.Entries.{cards-membership}
use uhppoted_httpd.Db.Groups.{Group, Permission, groups, fresh as fresh_group}
use uhppoted_httpd.Db.Groups.Entries.{groups-permission}

-- `match` with `schema.groups.regex`, whose second group is the number; no match gives the empty text
unfoldable pub card_group_oid : String → String → String
card_group_oid card_oid group_oid = elim (match_record "0.5." group_oid) [
  | none ↦ ""
  | some (_, number) ↦ card_oid ++ (Schema.Cards.suffix Schema.Cards.Key.group ++ number)
]

-- `[...card.groups.values()].some(…)`
unfoldable pub some_member : String → List Membership → Bool
some_member group_oid [] = false
some_member group_oid (m ∷ ms) = (m.member && is_text group_oid m.group) || some_member group_oid ms

-- `card.groups.get(oid)?.member`
abbrev pub is_member : Option Membership → Bool
is_member none = false
is_member (some m) = m.member

-- `none` is no card; `group_oid` is the group's OID
unfoldable pub card_in_group : Option Card → String → Bool
unfolding card_group_oid some_member
card_in_group none group_oid = false
card_in_group (some card) group_oid =
    is_member (get (card_group_oid card.oid group_oid) card.groups)
    || some_member group_oid (values card.groups)

unfoldable pub group_door_oid : String → String → String
group_door_oid group_oid door_oid = elim (match_record "0.3." door_oid) [
  | none ↦ ""
  | some (_, number) ↦ group_oid ++ (Schema.Groups.suffix Schema.Groups.Key.door ++ ("." ++ number))
]

unfoldable pub some_permission : String → List Permission → Bool
some_permission door_oid [] = false
some_permission door_oid (p ∷ ps) =
    (p.allowed && is_text door_oid p.door) || some_permission door_oid ps

unfoldable pub group_allows_door : Option Group → String → Bool
unfolding some_permission
group_allows_door none door_oid = false
group_allows_door (some group) door_oid = some_permission door_oid (values group.doors)
