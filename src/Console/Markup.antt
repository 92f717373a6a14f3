-- ===== src/Console/Markup.antt =====
-- How httpd/html/javascript/gate-control.js writes a text into markup: `escapeHTML`, `display` and
-- `statusBadge`.
pub mod Laws
use Prim.Native.String.{[], ◌∷◌}
use uhppoted_httpd.Prelude.{ℕ, Char, code, String, Bool, true, false, ◌||◌, nat_eq, if◌then◌else◌}
use uhppoted_httpd.Text.{◌++◌, ◌==◌, starts_with}
use uhppoted_httpd.Value.{Value}
use uhppoted_httpd.Console.Records.{Browser}

-- `replaceAll(c, t)`, where the text to replace is one character
unfoldable pub replace_all : ℕ → String → String → String
replace_all c t [] = []
replace_all c t (d ∷ s) =
    let rest = replace_all c t s in if nat_eq (code d) c then t ++ rest else d ∷ rest

-- the codes of `&`, `<`, `>` and the two quotes
abbrev pub ampersand : ℕ
ampersand = 38

abbrev pub less : ℕ
less = 60

abbrev pub greater : ℕ
greater = 62

abbrev pub quote : ℕ
quote = 34

abbrev pub apostrophe : ℕ
apostrophe = 39

-- `escapeHTML` of a text
unfoldable pub escape_html : String → String
unfolding replace_all
escape_html s = replace_all apostrophe "&#039;" (
    replace_all quote "&quot;"
      (replace_all greater "&gt;" (replace_all less "&lt;" (replace_all ampersand "&amp;" s))))

-- `includes`
unfoldable pub includes : String → String → Bool
includes part [] = part == ""
includes part (c ∷ s) = starts_with (c ∷ s) part || includes part s

module _ (browser : Browser) where
  unfoldable pub display : Value → String → String
  unfolding escape_html
  display value fallback =
      let shown = browser.trim (browser.text_of value) in
      escape_html (if shown == "" then fallback else shown)

  -- `status` is the text of the record's, `unknown` if that is empty
  unfoldable pub status_badge : String → String
  unfolding escape_html includes
  status_badge status =
      let value = browser.lower (if status == "" then "unknown" else status) in
      let warning =
        includes "error" value || (includes "offline" value || includes "unknown" value) in
      "<span class=\"badge "
      ++ ((if warning then "warn" else "") ++ ("\">" ++ (escape_html value ++ "</span>")))
