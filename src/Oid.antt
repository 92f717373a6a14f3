-- ===== src/Oid.antt =====
-- The object identifiers: httpd/html/javascript/schema.js, its regular expressions. An OID such as
-- `0.2.7.3.1` names a field (`.3.1`) of a record (`0.2.7`). The four shapes of expression of the
-- schema are matchers over a text, each returning its capture groups.
pub mod Laws
pub mod Prefix
pub mod Exact
pub mod Member
use Prim.Native.String.{[], ◌∷◌}
use uhppoted_httpd.Prelude.{
  Char, code, String, Bool, true, false, not, ◌&&◌, ◌||◌, Option, none, some, leb, nat_eq,
  if◌then◌else◌,
}
use uhppoted_httpd.Text.{◌++◌, ◌==◌}

-- a literal beginning of the expression: what follows it in the text
unfoldable pub literal : String → String → Option String
literal [] s = some s
literal (p ∷ ps) [] = none
literal (p ∷ ps) (c ∷ s) = if nat_eq (code p) (code c) then literal ps s else none

unfoldable pub is_digit : Char → Bool
is_digit c = leb b'0' (code c) && leb (code c) b'9'

-- `[0-9]*`, greedy: what it takes and what follows
unfoldable pub digits : String → String × String
digits [] = ([], [])
digits (c ∷ s) =
    let (taken, rest) = digits s in if is_digit c then (c ∷ taken, rest) else ([], c ∷ s)

unfoldable pub is_leading : Char → Bool
is_leading c = leb b'1' (code c) && leb (code c) b'9'

-- `[1-9][0-9]*`
unfoldable pub numeral : String → Option (String × String)
unfolding digits is_digit is_leading
numeral [] = none
numeral (c ∷ s) = if is_leading c then some (c ∷ (digits s).0, (digits s).1) else none

-- `.*$`: a dot matches all but the four line terminators
unfoldable pub is_line : String → Bool
is_line [] = true
is_line (c ∷ s) =
    not (nat_eq (code c) 10 || nat_eq (code c) 13 || nat_eq (code c) 8232 || nat_eq (code c) 8233)
    && is_line s

-- `/^(0\.k\.([1-9][0-9]*)).*$/` with `table` the text `0.k.`: both capture groups
unfoldable pub match_record : String → String → Option (String × String)
unfolding literal numeral is_line
match_record table oid = elim (literal table oid) [
  | none ↦ none
  | some after ↦ elim (numeral after) [
    | none ↦ none
    | some (number, rest) ↦ if is_line rest then some (table ++ number, number) else none
  ]
]

-- `(\.[1-3])?$`: the optional group, or no match
unfoldable pub match_suffix : String → Option (Option String)
match_suffix s =
    if s == ""
    then some none
    else if s == ".1" || s == ".2" || s == ".3"
    then some (some s)
    else none

-- `(\.n\.[1-9][0-9]*)(\.[1-3])?$` behind `base`, with `inner` the text `.n.`: both groups
unfoldable pub match_tail : String → String → String → Option (String × Option String)
unfolding literal numeral match_suffix
match_tail inner base rest = elim (literal inner rest) [
  | none ↦ none
  | some more ↦ elim (numeral more) [
    | none ↦ none
    | some (member, tail) ↦ elim (match_suffix tail) [
      | none ↦ none
      | some suffix ↦ some (base ++ (inner ++ member), suffix)
    ]
  ]
]

-- `/^(0\.k\.[1-9][0-9]*\.n\.[1-9][0-9]*)(\.[1-3])?$/`: both groups
unfoldable pub match_member : String → String → String → Option (String × Option String)
unfolding literal numeral match_tail
match_member table inner oid = elim (literal table oid) [
  | none ↦ none
  | some after ↦ elim (numeral after) [
    | none ↦ none
    | some (number, rest) ↦ match_tail inner (table ++ number) rest
  ]
]

-- `match[1]` of the expression of a table
unfoldable pub match_base : String → String → Option String
unfolding match_record
match_base table oid = elim (match_record table oid) [ none ↦ none | some (base, _) ↦ some base ]
