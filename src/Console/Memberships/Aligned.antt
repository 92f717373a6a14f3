-- ===== src/Console/Memberships/Aligned.antt =====
-- Cards of which each entry that names an access level stands under the OID that the page builds for
-- it, as the server keeps them.
use mathlib.Core.Option.{some-injective}
use uhppoted_httpd.Prelude.{
  String, Bool, true, false, ◌&&◌, ◌||◌, ◌≡◌, refl, sym, ap, ◌∙◌, [], ◌∷◌, Option, none, some,
  arith, or_else, Bool-cases, Option-cases, inl, inr, eq_iff, eq_refl,
}
use uhppoted_httpd.Text.{◌==◌}
use uhppoted_httpd.Value.{is_text}
use uhppoted_httpd.OrderedMap.{Map, get, upsert, values}
use uhppoted_httpd.OrderedMap.Laws.{get-upsert, HasDistinctKeys, upsert-HasDistinctKeys}
use uhppoted_httpd.Oid.Laws.{IsBase, literal-append, none≢some}
use uhppoted_httpd.Oid.{literal}
use uhppoted_httpd.Db.Handler.{IsTable}
use uhppoted_httpd.Db.Cards.{Card, Membership}
use uhppoted_httpd.Access.Membership.{card_group_oid, card_in_group, some_member, is_member}
use uhppoted_httpd.Console.Memberships.Entries.{groups_at, unset}

-- the entries of the card `k`
pub record IsAligned (k : String) (m : Map Membership) : Type 0 where
  pub distinct : HasDistinctKeys m
  pub keyed :
      (group : String)
      → IsBase "0.5." group
      → (j : String) (e : Membership) → get j m ≡ some e
      → is_text group e.group ≡ true
      → j ≡ card_group_oid k group

module _ (key group : String) where
  some_member-keyed :
      (m : Map Membership)
      → HasDistinctKeys m
      → ((j : String) (e : Membership) → get j m ≡ some e → is_text group e.group ≡ true → j ≡ key)
      → some_member group (values m) ≡ true
      → is_member (get key m) ≡ true
  unfolding some_member get
  some_member-keyed [] d keyed h = cc h
  some_member-keyed ((i, e) ∷ m) (fresh, d) keyed h =
      elim (Bool-cases (e.member && is_text group e.group)) [
        | inl both ↦
            rw
              ((eq_iff i key).1
                (keyed i e (rw (eq_refl i) refl) (right e.member (is_text group e.group) both)))
              (left e.member (is_text group e.group) both)
        | inr other ↦
            let ih = some_member-keyed m d later (rest e h other) in
            elim (Bool-cases (i == key)) [
              | inl same ↦ cc (fresh, ih, (eq_iff i key).0 same)
              | inr ne ↦ rw ne ih
            ]
      ]
    where
      left : (a b : Bool) → (a && b) ≡ true → a ≡ true
      left a b h = ground (arith, h)

      right : (a b : Bool) → (a && b) ≡ true → b ≡ true
      right a b h = ground (arith, h)

      rest :
          (e : Membership)
          → some_member group (e ∷ values m) ≡ true
          → (e.member && is_text group e.group) ≡ false
          → some_member group (values m) ≡ true
      rest e h other = rw other at h

      later :
          (j : String) (w : Membership) → get j m ≡ some w → is_text group w.group ≡ true → j ≡ key
      later j w f t = elim (Bool-cases (i == j)) [
        | inl same ↦ cc (fresh, f, (eq_iff i j).0 same)
        | inr ne ↦ keyed j w (rw ne f) t
      ]

-- Such a card is in a group exactly if its entry for the group is a member.
pub card_in_group-entry :
    (k group : String) (table : Map Card)
    → IsTable "0.4." (λ v. v.oid) table
    → IsBase "0.5." group
    → IsAligned k (groups_at table k)
    → card_in_group (get k table) group
      ≡ is_member (get (card_group_oid k group) (groups_at table k))
unfolding groups_at card_in_group
card_in_group-entry k group table t g a = elim (Option-cases (get k table)) [
  | inl absent ↦ rw (groups_at, absent) (unfold get in refl)
  | inr (v, here) ↦
      let b : IsAligned k v.groups = rw (groups_at, here) at a in
      rw (groups_at, here, t.own k v here)
        (absorb _ _
          (some_member-keyed (card_group_oid k group) group v.groups b.distinct (b.keyed group g)))
]
  where
    absorb : (p q : Bool) → (q ≡ true → p ≡ true) → (p || q) ≡ p
    absorb true q h = refl
    absorb false true h = sym (h refl)
    absorb false false h = refl

base-nonempty : (group : String) → IsBase "0.5." group → group ≡ "" → ⊥
unfolding literal
base-nonempty group g empty =
    none≢some (ap (literal "0.5.") (sym empty ∙ g.same) ∙ literal-append "0.5." g.number)

-- An update of an entry keeps that.
pub upsert-IsAligned :
    (k j : String) (b : Bool) (m : Map Membership)
    → IsAligned k m
    → IsAligned k (upsert j unset (λ g. record g { member = b }) m)
upsert-IsAligned k j b m a = record {
  distinct = upsert-HasDistinctKeys j unset _ m a.distinct;
  keyed = λ group g i e f t. elim (Bool-cases (j == i)) [
    | inl here ↦
        sym ((eq_iff j i).0 here)
        ∙ held group g (get j m) e refl (some-injective _ _ (rw (get-upsert, here) at f)) t
    | inr other ↦ a.keyed group g i e (rw (get-upsert, other) at f) t
  ];
}
  where
    held :
        (group : String)
        → IsBase "0.5." group
        → (r : Option Membership) (e : Membership) → get j m ≡ r
        → record (or_else unset r) { member = b } ≡ e
        → is_text group e.group ≡ true
        → j ≡ card_group_oid k group
    held group g none e absent made t = absurd (
        base-nonempty group g
          (sym ((eq_iff "" group).0 (ap (λ x. is_text group x.group) made ∙ t))))
    held group g (some w) e there made t =
        a.keyed group g j w there (ap (λ x. is_text group x.group) made ∙ t)
