-- ===== src/Tabular/Percolate.antt =====
-- `percolate` of httpd/html/javascript/tabular.js: the OIDs above a field, for each of which
-- `modified` is called, from the nearest up.
pub mod Laws
pub mod Above
use Prim.Native.String
use uhppoted_httpd.Prelude.{
  ℕ, zero, suc, Char, code, String, Bool, true, false, not, ◌&&◌, Option, none, some, List, [], ◌∷◌,
  nat_eq, if◌then◌else◌,
}
use uhppoted_httpd.Text.{◌==◌}
use uhppoted_httpd.Oid.{is_digit}
use uhppoted_httpd.Oid.Laws.{all_digits}

-- `(?:[.][0-9]+)$`
unfoldable pub is_last : String → Bool
unfolding all_digits is_digit
is_last String.[] = false
is_last (String.◌∷◌ c s) = nat_eq (code c) b'.' && not (s == "") && all_digits s

abbrev extend : Char → Option String → Option String
extend c none = none
extend c (some p) = some (String.◌∷◌ c p)

-- `/(.*?)(?:[.][0-9]+)$/.exec(oid)`: the first group. OIDs hold no line terminators, so the lazy
-- group starts at the beginning, and what is cut off is the last dot with the digits behind it.
unfoldable pub parent : String → Option String
parent String.[] = none
parent (String.◌∷◌ c s) =
    let further = parent s in if is_last (String.◌∷◌ c s) then some "" else extend c further

abbrev pub length : String → ℕ
length String.[] = zero
length (String.◌∷◌ c s) = suc (length s)

-- the `while` loop, on fuel: the OIDs that `modified` is called with
unfoldable pub ancestors : ℕ → String → List String
ancestors zero oid = []
ancestors (suc fuel) oid = elim (parent oid) [
  | none ↦ []
  | some p ↦ if p == "" then [] else p ∷ ancestors fuel p
]

-- each round shortens the OID, so its length is fuel enough
unfoldable pub percolate : String → List String
unfolding ancestors parent is_last
percolate oid = ancestors (length oid) oid
