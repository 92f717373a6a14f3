-- ===== src/Console/Credentials/Checks.antt =====
-- What the guards of `saveCard` in httpd/html/javascript/gate-control.js let through.
use Prim.Native.Nat.{Ordering}
use Prim.Native.String.{compare}
use uhppoted_httpd.Db.Cards.{Card}
use uhppoted_httpd.OrderedMap.{get}
use uhppoted_httpd.Prelude.{
  All, not, if◌then◌else◌, ℕ, suc, String, Bool, true, false, ◌&&◌, ◌||◌, ◌≡◌, ◌≢◌, ◌⊎◌, inl, inr,
  refl, ap, List, [], ◌∷◌, Option, none, some, length, ltb, nat_eq, arith, eq_iff,
}
use uhppoted_httpd.Text.{◌==◌}
use uhppoted_httpd.Db.Store.{Dbc}
use uhppoted_httpd.Access.Exclusive.{no_access_level_oid}
use uhppoted_httpd.Console.Session.{Outcome, returned, thrown, Server, Request, Session, throw}
use uhppoted_httpd.Console.Records.{Browser, contains, guard}
use uhppoted_httpd.Console.Memberships.{cards_of}
use uhppoted_httpd.Console.Credentials.{
  before, CardForm, existing_card, number_taken, card_error, selected_management_group,
  submit_person, save_card,
}

-- The card is the one that the form edits, and it has another number than the form.
abbrev pub IsSelf : Dbc → CardForm → Card → Type 0
IsSelf db form c =
    (form.oid ≢ "") × ((d : Card) × (get form.oid db.cards ≡ some d) × (c.oid ≡ d.oid))

abbrev pub HasOther : Browser → CardForm → Card → Type 0
HasOther browser form c = browser.trim (browser.template_of c.number) ≢ browser.trim form.number

-- A form whose credential may be stored: its dates are given and in order, no other credential has
-- its number, and it has a level, No Access only alone.
pub record IsSavable (browser : Browser) (db : Dbc) (form : CardForm) : Type 0 where
  pub from_given : form.from ≢ ""
  pub to_given : form.to ≢ ""
  pub ordered : compare form.to form.from ≢ Ordering.lt
  pub unique : All (λ c. IsSelf db form c ⊎ HasOther browser form c) (cards_of db)
  pub some_level : form.selected ≢ []
  pub exclusive :
      contains no_access_level_oid form.selected ≡ true → form.selected ≡ no_access_level_oid ∷ []

existing_card-IsSelf :
    (browser : Browser) (db : Dbc) (form : CardForm) (c : Card)
    → (elim (existing_card browser db form) [ none ↦ false | some d ↦ c.oid == d.oid ]) ≡ true
    → IsSelf db form c
existing_card-IsSelf browser db form c h = edits (form.oid == "") refl h
  where
    stored :
        (r : Option Card)
        → get form.oid db.cards ≡ r
        → (elim r [ none ↦ false | some d ↦ c.oid == d.oid ]) ≡ true
        → (d : Card) × (get form.oid db.cards ≡ some d) × (c.oid ≡ d.oid)
    stored none e h = cc h
    stored (some d) e h = (d, e, (eq_iff c.oid d.oid).0 h)

    edits :
        (b : Bool)
        → (form.oid == "") ≡ b
        → (elim (if b then none else get form.oid db.cards) [
          | none ↦ false
          | some d ↦ c.oid == d.oid
        ])
          ≡ true
        → IsSelf db form c
    edits true e h = cc h
    edits false e h =
        ((λ blank. cc (e, (eq_iff form.oid "").1 blank)), stored (get form.oid db.cards) refl h)

number_taken-All :
    (browser : Browser) (db : Dbc) (form : CardForm) (cs : List Card)
    → number_taken browser db (browser.trim form.number) (existing_card browser db form) cs ≡ false
    → All (λ c. IsSelf db form c ⊎ HasOther browser form c) cs
unfolding number_taken
number_taken-All browser db form [] h = tt
number_taken-All browser db form (c ∷ cs) h =
    let number = browser.trim (browser.template_of c.number) in
    let own : Bool = elim (existing_card browser db form) [
      | none ↦ false
      | some d ↦ c.oid == d.oid
    ] in
    (
      free own (number == browser.trim form.number) _ h (existing_card-IsSelf browser db form c)
          (λ other same. cc (other, (eq_iff number (browser.trim form.number)).1 same)),
      number_taken-All browser db form cs (rest own (number == browser.trim form.number) _ h),
    )
  where
    rest : (a b r : Bool) → ((not a && b) || r) ≡ false → r ≡ false
    rest a b r h = ground (arith, h)

    free :
        (a b r : Bool) {P Q : Type 0}
        → ((not a && b) || r) ≡ false
        → (a ≡ true → P)
        → (b ≡ false → Q)
        → P ⊎ Q
    free true b r h p q = inl (p refl)
    free false false r h p q = inr (q refl)
    free false true r h p q = cc h

not_before : (s t : String) → before s t ≡ false → compare s t ≢ Ordering.lt
not_before s t h e = cc (rw (before, e) at h)

exclusive_lem :
    (selected : List String)
    → nat_eq (length selected) 0 ≡ false
    → (contains no_access_level_oid selected && ltb 1 (length selected)) ≡ false
    → (selected ≢ [])
      × (contains no_access_level_oid selected ≡ true → selected ≡ no_access_level_oid ∷ [])
exclusive_lem [] some' h = cc some'
exclusive_lem (s ∷ []) some' h = (
  (λ e. cc e),
  λ only. ap (λ t. t ∷ []) ((eq_iff s no_access_level_oid).0 (ground (arith, only))),
)
exclusive_lem (s ∷ t ∷ ss) some' h = (
  (λ e. cc e),
  λ both. absurd (two (contains no_access_level_oid (s ∷ t ∷ ss)) (length ss) both h),
)
  where
    two : (b : Bool) (n : ℕ) → b ≡ true → (b && ltb 1 (suc (suc n))) ≡ false → ⊥
    two b n e g = ground (arith, e, g)

card_error-IsSavable :
    (browser : Browser) (db : Dbc) (form : CardForm)
    → card_error browser db form ≡ none
    → IsSavable browser db form
unfolding card_error
card_error-IsSavable browser db form e =
    let undated = (form.from == "") || ((form.to == "") || before form.to form.from) in
    let taken =
      number_taken browser db (browser.trim form.number) (existing_card browser db form)
        (cards_of db) in
    let combined = contains no_access_level_oid form.selected && ltb 1 (length form.selected) in
    let (dates, e1) = guard undated _ _ e in
    let (number, e2) = guard taken _ _ e1 in
    let (level, e3) = guard (nat_eq (length form.selected) 0) _ _ e2 in
    let (alone, _) = guard combined _ none e3 in
    let (some', only) = exclusive_lem form.selected level alone in
    record {
      from_given = ground (arith, dates, eq_iff form.from "");
      to_given = ground (arith, dates, eq_iff form.to "");
      ordered = not_before form.to form.from (ground (arith, dates));
      unique = number_taken-All browser db form (cards_of db) number;
      some_level = some';
      exclusive = only;
    }

-- The call throws before any request is made, or the form is one whose credential may be stored.
abbrev IsGuarded : Browser → Dbc → CardForm → Session (Unit {0}) → Type 0
IsGuarded browser db form call =
    (server : Server) (log : List Request)
    → ((message : String) × (call.run server log ≡ (thrown message, log)))
      ⊎ IsSavable browser db form

guarded :
    (browser : Browser) (db : Dbc) (form : CardForm)
    → IsGuarded browser db form (save_card browser db form)
unfolding save_card throw
guarded browser db form = named (selected_management_group browser db form)
  where
    checked :
        (group : String) (r : Option String)
        → card_error browser db form ≡ r
        → IsGuarded browser db form
            (elim r [ some message ↦ throw message | none ↦ submit_person browser db form group ])
    checked group (some message) e = λ server log. inl (message, refl)
    checked group none e = λ server log. inr (card_error-IsSavable browser db form e)

    named :
        (r : Outcome String)
        → IsGuarded browser db form (elim r [
          | thrown message ↦ throw message
          | returned group ↦ elim (card_error browser db form) [
            | some message ↦ throw message
            | none ↦ submit_person browser db form group
          ]
        ])
    named (thrown message) = λ server log. inl (message, refl)
    named (returned group) = checked group (card_error browser db form) refl

-- Whatever the server replies, saving a credential throws before any request is made, or the form is
-- one whose credential may be stored: its dates are given and in order, no other credential of the
-- store has its number, and it has an access level, No Access only alone.
pub save_card-IsSavable :
    (browser : Browser) (db : Dbc) (form : CardForm) (server : Server) (log : List Request)
    → ((message : String) × ((save_card browser db form).run server log ≡ (thrown message, log)))
      ⊎ IsSavable browser db form
save_card-IsSavable browser db form server log = guarded browser db form server log
