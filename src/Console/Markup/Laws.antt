-- ===== src/Console/Markup/Laws.antt =====
-- What `escapeHTML` of httpd/html/javascript/gate-control.js makes of a text.
use Prim.Native.String.{[], ◌∷◌}
use package.text.Mathlib.TextLemmas.{append_assoc, nil-append, cons-append}
use uhppoted_httpd.Prelude.{
  arith, ℕ, Char, code, String, Bool, true, false, not, ◌||◌, ◌&&◌, ◌≡◌, refl, ap, sym, ◌∙◌, nat_eq,
  inl, inr, Bool-cases, if◌then◌else◌,
}
use uhppoted_httpd.Text.{◌++◌}
use uhppoted_httpd.Console.Markup.{
  replace_all, ampersand, less, greater, quote, apostrophe, escape_html,
}

-- a character in markup, on its own
unfoldable pub entity : Char → String
entity c =
    if nat_eq (code c) ampersand
    then "&amp;"
    else if nat_eq (code c) less
    then "&lt;"
    else if nat_eq (code c) greater
    then "&gt;"
    else if nat_eq (code c) quote
    then "&quot;"
    else if nat_eq (code c) apostrophe
    then "&#039;"
    else c ∷ []

-- a text in markup, each character on its own
unfoldable pub entities : String → String
entities [] = []
entities (c ∷ s) = entity c ++ entities s

replace_all-append :
    (c : ℕ) (t s u : String) → replace_all c t (s ++ u) ≡ replace_all c t s ++ replace_all c t u
unfolding replace_all
replace_all-append c t [] u = rw (nil-append u, nil-append (replace_all c t u)) refl
replace_all-append c t (d ∷ s) u = elim (Bool-cases (nat_eq (code d) c)) [
  | inl hit ↦
      rw (cons-append d s u, hit, replace_all-append c t s u)
        (sym (append_assoc t (replace_all c t s) (replace_all c t u)))
  | inr other ↦
      rw (cons-append d s u, other, cons-append d (replace_all c t s) (replace_all c t u))
        (ap (λ x. d ∷ x) (replace_all-append c t s u))
]

escape_html-append : (s u : String) → escape_html (s ++ u) ≡ escape_html s ++ escape_html u
unfolding escape_html
escape_html-append s u = simp (replace_all-append)

escape_html-one : (c : Char) → escape_html (c ∷ []) ≡ entity c
unfolding escape_html entity replace_all
escape_html-one c = elim (Bool-cases (nat_eq (code c) ampersand)) [
  | inl h ↦ rw h refl
  | inr h ↦ elim (Bool-cases (nat_eq (code c) less)) [
    | inl k ↦ rw (h, k) refl
    | inr k ↦ elim (Bool-cases (nat_eq (code c) greater)) [
      | inl l ↦ rw (h, k, l) refl
      | inr l ↦ elim (Bool-cases (nat_eq (code c) quote)) [
        | inl m ↦ rw (h, k, l, m) refl
        | inr m ↦ elim (Bool-cases (nat_eq (code c) apostrophe)) [
          | inl n ↦ rw (h, k, l, m, n) refl
          | inr n ↦ rw (h, k, l, m, n) refl
        ]
      ]
    ]
  ]
]

-- `escapeHTML`, which replaces one character after the other in the whole text, writes each character
-- of the text once: its entity if it has one, and otherwise as it is.
pub escape_html-entities : (s : String) → escape_html s ≡ entities s
unfolding entities
escape_html-entities [] = unfold escape_html replace_all in refl
escape_html-entities (c ∷ s) =
    ap escape_html (one-append c s)
    ∙ escape_html-append (c ∷ []) s
    ∙ rw (escape_html-one c, escape_html-entities s) refl
  where
    one-append : (c : Char) (s : String) → c ∷ s ≡ (c ∷ []) ++ s
    one-append c s = sym (cons-append c [] s ∙ ap (λ t. c ∷ t) (nil-append s))

-- whether a text has none of the characters that end a text or the value of an attribute in markup
unfoldable pub is_inert : String → Bool
is_inert [] = true
is_inert (c ∷ s) =
    not (
      nat_eq (code c) less
      || (nat_eq (code c) greater || (nat_eq (code c) quote || nat_eq (code c) apostrophe)))
    && is_inert s

is_inert-append : (s u : String) → is_inert s ≡ true → is_inert u ≡ true → is_inert (s ++ u) ≡ true
unfolding is_inert
is_inert-append [] u h k = rw (nil-append u) k
is_inert-append (c ∷ s) u h k = rw (cons-append c s u) (ground (arith, h, is_inert-append s u, k))

if-inert :
    (b : Bool) (x y : String)
    → is_inert x ≡ true
    → (b ≡ false → is_inert y ≡ true)
    → is_inert (if b then x else y) ≡ true
if-inert true x y h k = h
if-inert false x y h k = k refl

is_inert-entity : (c : Char) → is_inert (entity c) ≡ true
unfolding is_inert entity
is_inert-entity c =
    let d = code c in
    let a = if nat_eq d apostrophe then "&#039;" else c ∷ [] in
    let q = if nat_eq d quote then "&quot;" else a in
    let g = if nat_eq d greater then "&gt;" else q in
    let l = if nat_eq d less then "&lt;" else g in
    if-inert (nat_eq d ampersand) "&amp;" l refl (λ _. if-inert (nat_eq d less) "&lt;" g refl (λ h.
      if-inert (nat_eq d greater) "&gt;" q refl (λ k.
        if-inert (nat_eq d quote) "&quot;" a refl (λ m.
          if-inert (nat_eq d apostrophe) "&#039;" (c ∷ []) refl (λ n. rw (h, k, m, n) refl)))))

is_inert-entities : (s : String) → is_inert (entities s) ≡ true
unfolding entities
is_inert-entities [] = unfold is_inert in refl
is_inert-entities (c ∷ s) =
    is_inert-append (entity c) (entities s) (is_inert-entity c) (is_inert-entities s)

-- Whatever the text, what `escapeHTML` makes of it has no angle bracket and no quote.
pub escape_html-inert : (s : String) → is_inert (escape_html s) ≡ true
escape_html-inert s = rw (escape_html-entities s) (is_inert-entities s)
