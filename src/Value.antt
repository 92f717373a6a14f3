-- ===== src/Value.antt =====
-- The values that the server's JSON documents carry (`o.value` in httpd/html/javascript/db.js), and
-- the built-ins of the browser that the store calls on them. Numbers are the unsigned integers that
-- the server sends; `nan` is what `parseInt` makes of other text.
use uhppoted_httpd.Prelude.{ℕ, String, Bool, true, false, not, Option, nat_eq}
use uhppoted_httpd.Text.{◌==◌}

mutual
  pub data Value : Type 0 where
    undefined null nan : Value
    boolean : Bool → Value
    number : ℕ → Value
    text : String → Value
    array : Items → Value
    object : Members → Value

  pub data Items : Type 0 where
    nil : Items
    cons : Value → Items → Items

  pub data Members : Type 0 where
    end : Members
    member : String → Value → Members → Members

-- `if (v)`
abbrev pub truthy : Value → Bool
truthy undefined = false
truthy null = false
truthy nan = false
truthy (boolean b) = b
truthy (number n) = not (nat_eq n 0)
truthy (text s) = not (s == "")
truthy (array _) = true
truthy (object _) = true

-- `v === 'text'`
abbrev pub is_text : String → Value → Bool
is_text t (text s) = s == t
is_text t _ = false

-- `v === true`
abbrev pub is_true : Value → Bool
is_true (boolean b) = b
is_true _ = false

-- `v || d`
abbrev pub or_default : Value → Value → Value
or_default v d = elim (truthy v) [ true ↦ v | false ↦ d ]

-- What an object of a reply holds: `{ OID, value }`.
pub record Object : Type 0 where
  pub oid : String
  pub value : Value

-- The browser's `parseInt`, and its `JSON.parse`, which is `none` where that throws.
pub record Runtime : Type 0 where
  pub parse_int : Value → Value
  pub json_parse : String → Option Value
