-- ===== src/Console/Memberships/Updates.antt =====
-- The updates of memberships that httpd/html/javascript/gate-control.js sends: of which entries they
-- are, and what they set them to.
use mathlib.Core.List.{Memᴰ}
use text.Mathlib.TextLemmas.{append_cancel_left}
use uhppoted_httpd.Prelude.{
  String, Bool, true, false, ◌≡◌, refl, sym, ap, ◌∙◌, subst, List, [], ◌∷◌, some, All, All-if,
  or_left, or_right, if◌then◌else◌, eq_refl,
}
use uhppoted_httpd.Text.{◌==◌, ◌++◌ as ◌<>◌}
use uhppoted_httpd.Oid.{numeral, match_base, match_record, literal}
use uhppoted_httpd.Oid.Laws.{IsBase, append-ne}
use uhppoted_httpd.Oid.Member.{IsNumber}
use uhppoted_httpd.Db.Cards.{Card}
use uhppoted_httpd.Db.Groups.{Group}
use uhppoted_httpd.Access.Membership.{card_group_oid, card_in_group}
use uhppoted_httpd.Access.Membership.Laws.{card_group_oid_lem}
use uhppoted_httpd.Console.Session.{Update}
use uhppoted_httpd.Console.Records.{text_of_bool, differs, contains}
use uhppoted_httpd.Console.Memberships.{card_updates}
use uhppoted_httpd.Console.Memberships.Entries.{
  entry_oid, entry_oid-card, suffix-IsSuffix, IsEntry, hit,
}

pub number_of : (group : String) (g : IsBase "0.5." group) → IsNumber g.number
number_of group g = unfold numeral in g.exact

-- The OID of an entry names the card and the group.
pub entry-injective :
    (k group h other : String)
    → IsBase "0.4." k
    → IsBase "0.5." group
    → IsBase "0.4." h
    → IsBase "0.5." other
    → card_group_oid k group ≡ card_group_oid h other
    → (k ≡ h) × (group ≡ other)
entry-injective k group h other b g c o same =
    let e : entry_oid k g.number ≡ entry_oid h o.number =
      sym (card_group_oid_lem k group g) ∙ same ∙ card_group_oid_lem h other o in
    let card = entry_oid-card k g.number h o.number b (number_of group g) c (number_of other o) e in
    let number : g.number ≡ o.number =
      append_cancel_left ".5." _ _
        (append_cancel_left k _ _ (e ∙ ap (λ t. entry_oid t o.number) (sym card))) in
    (card, g.same ∙ ap (λ t. "0.5." <> t) number ∙ sym o.same)

pub entry-present :
    (k group : String)
    → IsBase "0.4." k
    → IsBase "0.5." group
    → (card_group_oid k group == "") ≡ false
unfolding match_base match_record literal
entry-present k group b g = rw (card_group_oid_lem k group g) (
    append-ne "0.4." k (".5." <> g.number) "" b (suffix-IsSuffix g.number (number_of group g)) refl)

abbrev pub AreBases : List Group → Type 0
AreBases gs = All (λ g. IsBase "0.5." g.oid) gs

module _ (change : Bool → Bool → Bool) (v : Card) (base : IsBase "0.4." v.oid)
    (selected : List String) where
  abbrev updates : List Group → List Update
  updates gs = card_updates change (some v) v.oid selected gs

  abbrev wanted : String → Bool
  wanted group = change (card_in_group (some v) group) (contains group selected)

  pub card_updates-IsEntry : (gs : List Group) → AreBases gs → All IsEntry (updates gs)
  unfolding card_updates
  card_updates-IsEntry [] h = tt
  card_updates-IsEntry (g ∷ gs) (b, h) =
      All-if IsEntry _ _ _
        (v.oid, b.number, base, number_of g.oid b, card_group_oid_lem v.oid g.oid b)
        (card_updates-IsEntry gs h)

  -- An update of the entry of a card and a group is of that card, and sets what is wanted.
  pub card_updates-value :
      (k group : String)
      → IsBase "0.4." k
      → IsBase "0.5." group
      → (gs : List Group) → AreBases gs
      → All
          (λ u.
            u.oid ≡ card_group_oid k group → (v.oid ≡ k) × (u.value ≡ text_of_bool (wanted group)))
          (updates gs)
  unfolding card_updates
  card_updates-value k group b c [] h = tt
  card_updates-value k group b c (g ∷ gs) (d, h) =
      All-if _ _ _ _
        (λ same.
          let (card, other) = entry-injective v.oid g.oid k group base d b c same in
          (card, ap (λ t. text_of_bool (wanted t)) other))
        (card_updates-value k group b c gs h)

  -- Where the card is not what is wanted, there is an update.
  pub card_updates-hit :
      (g : Group) (gs : List Group)
      → AreBases gs
      → Memᴰ g gs
      → differs (wanted g.oid) (card_in_group (some v) g.oid) ≡ true
      → hit (updates gs) (card_group_oid v.oid g.oid) ≡ true
  unfolding card_updates
  card_updates-hit g [] h m d = elim m [ ]
  card_updates-hit g (x ∷ gs) (b, h) (Memᴰ.head same) d =
      rw
        (
          sym same,
          entry-present v.oid g.oid base (subst (λ t. IsBase "0.5." t.oid) (sym same) b),
          d,
        )
        (or_left _ _ (eq_refl (card_group_oid v.oid g.oid)))
  card_updates-hit g (x ∷ gs) (b, h) (Memᴰ.tail more) d =
      later _ _ _ (card_updates-hit g gs h more d)
    where
      later :
          (c : Bool) (u : Update) (us : List Update)
          → hit us (card_group_oid v.oid g.oid) ≡ true
          → hit (if c then u ∷ us else us) (card_group_oid v.oid g.oid) ≡ true
      later true u us e = or_right (u.oid == card_group_oid v.oid g.oid) _ e
      later false u us e = e
