-- ===== src/Console/Memberships/Entries.antt =====
-- The entries of the cards of the store, `groups`, and what updates of memberships, read into the
-- store (`updated` of httpd/html/javascript/db.js), do to them.
use mathlib.Core.Option.{some-injective}
use package.text.Mathlib.TextLemmas.{append-nil}
use uhppoted_httpd.Prelude.{
  ℕ, String, Bool, false, ◌||◌, ◌≡◌, refl, sym, ap, ◌∙◌, List, [], ◌∷◌, Option, none, some, or_else,
  All, if◌then◌else◌, Bool-cases, inl, inr, eq_iff,
}
use uhppoted_httpd.Text.{◌==◌, ◌++◌}
use uhppoted_httpd.Value.{Value, text, Runtime}
use uhppoted_httpd.OrderedMap.{Map, get, upsert}
use uhppoted_httpd.OrderedMap.Laws.{get-upsert}
use uhppoted_httpd.Oid.Laws.{IsBase, match_base-append, IsSuffix}
use uhppoted_httpd.Oid.Member.{IsNumber, entry-IsSuffix}
use uhppoted_httpd.Oid.{match_base, is_digit, is_line}
use uhppoted_httpd.Db.Cards.{Card, Membership, fresh}
use uhppoted_httpd.Db.Cards.Entries.{cards-membership}
use uhppoted_httpd.Db.Store.{Dbc, object, dispatch}
use uhppoted_httpd.Db.Routing.Tables.{table_of-cards}
use uhppoted_httpd.Access.Membership.{is_member}
use uhppoted_httpd.Console.Session.{Update}

-- the entries of a card; none where there is no such card
unfoldable pub groups_at : Map Card → String → Map Membership
groups_at table k = elim (get k table) [ none ↦ [] | some c ↦ c.groups ]

abbrev pub unset : Membership
unset = record { group = text ""; member = false }

-- the OID of an entry
abbrev pub entry_oid : String → String → String
entry_oid k n = k ++ (".5." ++ n)

groups_at-upsert :
    (b h : String) (x : Value) (now : ℕ) (f : Map Membership → Map Membership) (table : Map Card)
    → groups_at
        (upsert b (fresh b x now) (λ v. record v { groups = f v.groups; touched = now }) table)
        h
      ≡ (if b == h then f (groups_at table b) else groups_at table h)
unfolding groups_at
groups_at-upsert b h x now f table =
    rw
      (
        groups_at,
        get-upsert b h (fresh b x now) (λ v. record v { groups = f v.groups; touched = now }) table,
      )
      (elim (Bool-cases (b == h)) [
        | inl here ↦ rw here (held (get b table))
        | inr other ↦ rw other refl
      ])
  where
    held :
        (r : Option Card)
        → f (or_else (fresh b x now) r).groups ≡ f (elim r [ none ↦ [] | some c ↦ c.groups ])
    held none = unfold fresh in refl
    held (some c) = refl

module _ (js : Runtime) (now : ℕ) where
  -- An update of an entry writes that entry of that card, and no other card's.
  pub groups_at-object :
      (b n x h : String) (db : Dbc)
      → IsBase "0.4." b
      → IsNumber n
      → groups_at (object js (record { oid = entry_oid b n; value = text x }) now db).cards h ≡ (
          if b == h
          then upsert
              (entry_oid b n)
              unset
              (λ g. record g { member = x == "true" })
              (groups_at db.cards b)
          else groups_at db.cards h)
  unfolding object dispatch
  groups_at-object b n x h db base e =
      rw
        (
          table_of-cards b (".5." ++ n) base,
          object,
          dispatch,
          (cards-membership b n (text x) now db.cards base e).0,
        )
        (groups_at-upsert b h (text x) now _ db.cards)

-- An update of an entry of some card.
abbrev pub IsEntry : Update → Type 0
IsEntry u = (k : String) × (n : String) × IsBase "0.4." k × IsNumber n × (u.oid ≡ entry_oid k n)

-- whether an update has the OID
abbrev pub hit : List Update → String → Bool
hit [] j = false
hit (u ∷ us) j = (u.oid == j) || hit us j

-- No update has an OID that none may have.
pub no-hit : (us : List Update) (j : String) → All (λ u. u.oid ≡ j → ⊥) us → hit us j ≡ false
no-hit [] j h = refl
no-hit (u ∷ us) j (n, h) = elim (Bool-cases (u.oid == j)) [
  | inl same ↦ absurd (n ((eq_iff u.oid j).0 same))
  | inr other ↦ rw other (no-hit us j h)
]

-- What follows for each follows for all.
pub All-map :
    {P Q : Update → Type 0} (us : List Update) → ((u : Update) → P u → Q u) → All P us → All Q us
All-map [] f h = tt
All-map (u ∷ us) f (p, h) = (f u p, All-map us f h)

pub suffix-IsSuffix : (n : String) → IsNumber n → IsSuffix (".5." ++ n)
unfolding is_digit is_line
suffix-IsSuffix n e = rw append-nil at (entry-IsSuffix "." "5." n "" refl refl e refl)

-- The OID of an entry is that of one card only.
pub entry_oid-card :
    (k n h m : String)
    → IsBase "0.4." k
    → IsNumber n
    → IsBase "0.4." h
    → IsNumber m
    → entry_oid k n ≡ entry_oid h m
    → k ≡ h
entry_oid-card k n h m b e c f same = some-injective _ _ (
    sym (match_base-append "0.4." k (".5." ++ n) b (suffix-IsSuffix n e))
    ∙ ap (match_base "0.4.") same
    ∙ match_base-append "0.4." h (".5." ++ m) c (suffix-IsSuffix m f))

module _ (js : Runtime) (now : ℕ) (k n : String) (base : IsBase "0.4." k)
    (number : IsNumber n) where
  abbrev pub member_at : Dbc → Bool
  member_at db = is_member (get (entry_oid k n) (groups_at db.cards k))

  pub member_at-object :
      (u : Update) (db : Dbc)
      → IsEntry u
      → member_at (object js (record { oid = u.oid; value = text u.value }) now db)
        ≡ (if u.oid == entry_oid k n then u.value == "true" else member_at db)
  member_at-object u db (h, m, b, e, same) =
      rw (same, groups_at-object js now h m u.value k db b e)
        (elim (Bool-cases (h == k)) [
          | inl here ↦
              rw (here, sym ((eq_iff h k).0 here)) (written h m (groups_at db.cards h) u.value)
          | inr other ↦ rw (other, apart h m b e other) refl
        ])
    where
      written :
          (h m : String) (t : Map Membership) (x : String)
          → is_member (
              get
                (entry_oid h n)
                (upsert (entry_oid h m) unset (λ g. record g { member = x == "true" }) t))
            ≡ (if entry_oid h m == entry_oid h n
                then x == "true"
                else is_member (get (entry_oid h n) t))
      written h m t x =
          rw (get-upsert (entry_oid h m) (entry_oid h n) unset _ t)
            (elim (Bool-cases (entry_oid h m == entry_oid h n)) [
              | inl same ↦ rw same refl
              | inr ne ↦ rw ne refl
            ])

      apart :
          (h m : String)
          → IsBase "0.4." h
          → IsNumber m
          → (h == k) ≡ false
          → (entry_oid h m == entry_oid k n) ≡ false
      apart h m b e other = elim (Bool-cases (entry_oid h m == entry_oid k n)) [
        | inl same ↦
            cc
              (other, (eq_iff h k).1 (entry_oid-card h m k n b e base number ((eq_iff _ _).0 same)))
        | inr ne ↦ ne
      ]
