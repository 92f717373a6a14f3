-- ===== src/Witness/Links.antt =====
-- Calls and forms of httpd/html/javascript/uhppoted.js and gate-control.js.
use uhppoted_httpd.Prelude.{
  ℕ, ◌+◌, ◌≤◌, String, Bool, true, false, List, ◌≡◌, ◌↔◌, ◌⊎◌, inl, refl, none, some, [], ◌∷◌,
  arith,
}
use uhppoted_httpd.Text.{◌++◌}
use uhppoted_httpd.Value.{text, Runtime}
use uhppoted_httpd.Oid.{numeral}
use uhppoted_httpd.Oid.Laws.{IsBase}
use uhppoted_httpd.OrderedMap.{get}
use uhppoted_httpd.Db.Groups.{groups}
use uhppoted_httpd.Connection.Busy.{Call, began, ended, outstanding, shown, run, run-shown}
use uhppoted_httpd.Connection.Monitor.{
  Link, connected, failing_since, run as run_replies, offline-exact,
}
use uhppoted_httpd.Access.Membership.{group_door_oid, group_allows_door}
use uhppoted_httpd.Access.Membership.Laws.{group_allows_door-granted}
use uhppoted_httpd.Access.Exclusive.{
  Box, IsExclusive, enforce_exclusive_no_access, enforce-IsExclusive,
}
use uhppoted_httpd.Access.Facility.{}

abbrev calls : List Call
calls = ended ∷ began ∷ began ∷ ended ∷ []

run-shown_example : run calls none ≡ shown (outstanding calls 0)
run-shown_example = run-shown calls (omega arith)

abbrev new_link : Link
new_link = record { banner = none; disconnected = none; is_offline = false }

abbrev replies : List (Bool × ℕ)
replies = (true, 1000) ∷ (false, 2000) ∷ (false, 40000) ∷ []

offline-exact_example :
    let l' = run_replies false replies new_link in
    ((connected false false 62500 l').is_offline ≡ true) ↔ (
      (l'.is_offline ≡ true)
      ⊎ ((t : ℕ) × (failing_since replies none ≡ some t) × (t + 60500 ≤ 62500)))
offline-exact_example = offline-exact false replies 62500 new_link

numbered : (table : String) → IsBase table (table ++ "3")
unfolding numeral
numbered table = record { number = "3"; same = refl; exact = refl }

abbrev no_json : Runtime
no_json = record { parse_int = λ v. v; json_parse = λ s. none }

group_allows_door-granted_example :
    let oid = group_door_oid "0.5.3" "0.3.3" in
    group_allows_door
      (get "0.5.3" (
        groups no_json
          (record { oid = oid ++ ".1"; value = text "0.3.3" })
          8
          (groups no_json (record { oid = oid; value = text "true" }) 7 [])))
      "0.3.3"
    ≡ true
group_allows_door-granted_example =
    group_allows_door-granted no_json "0.5.3" "0.3.3" 7 8 [] (numbered "0.5.") (numbered "0.3.")

abbrev box : String → Bool → Box
box group checked = record { group = group; checked = checked }

enforce-IsExclusive_example : IsExclusive (
    enforce_exclusive_no_access
      (box "0.5.254" true ∷ [])
      (box "0.5.1" true)
      (box "0.5.2" true ∷ []))
enforce-IsExclusive_example =
    enforce-IsExclusive (box "0.5.254" true ∷ []) (box "0.5.1" true) (box "0.5.2" true ∷ [])
      (inl refl)
