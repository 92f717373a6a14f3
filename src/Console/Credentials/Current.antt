-- ===== src/Console/Credentials/Current.antt =====
-- `currentCardOID` of httpd/html/javascript/gate-control.js: the OID that a credential has now.
use mathlib.Core.List.{Memᴰ}
use mathlib.Core.Option.{some-injective}
use uhppoted_httpd.Prelude.{
  ℕ, zero, suc, ◌<◌, String, true, ◌≡◌, refl, sym, ap, ◌∙◌, List, [], ◌∷◌, Option, none, some,
  Bool-cases, inl, inr, arith, eq_iff, both_left, both_right, if◌then◌else◌, ◌&&◌,
}
use uhppoted_httpd.Text.{◌==◌, ◌++◌ as ◌<>◌}
use uhppoted_httpd.Value.{Object, truthy}
use uhppoted_httpd.Oid.Laws.{IsBase, match_record-IsBase}
use uhppoted_httpd.Oid.{match_record}
use uhppoted_httpd.Schema.Cards.{Key, suffix}
use uhppoted_httpd.Db.Cards.{Card}
use uhppoted_httpd.Db.Store.{Dbc}
use uhppoted_httpd.Console.Session.{
  Request, read_snapshot, Reply, accepted, refused, lost, Server, Document, returned, Session, pure,
  throw, and_then, ◌>>=◌, request, read_reply, or_text,
}
use uhppoted_httpd.Console.Session.Laws.{returned-injective}
use uhppoted_httpd.Console.Records.{Browser}
use uhppoted_httpd.Console.Credentials.{find_number, card_oid_rounds, current_card_oid}

-- so many reads of the snapshot after other requests
unfoldable pub reads : ℕ → List Request → List Request
reads zero log = log
reads (suc n) log = reads n (read_snapshot ∷ log)

-- An object of a list is the number of the credential `base`.
abbrev pub HasNumber : (Object → String) → String → String → List Object → Type 0
HasNumber text_of number base os =
    (o : Object) × Memᴰ o os
    × (o.oid ≡ base <> suffix Key.card)
    × (text_of o ≡ number)
    × IsBase "0.4." base

module _ (browser : Browser) (db : Dbc) where
  find_number-HasNumber :
      (number base : String) (os : List Object)
      → find_number browser db number os ≡ some base
      → HasNumber (λ o. browser.template_of o.value) number base os
  unfolding find_number
  find_number-HasNumber number base [] e = cc e
  find_number-HasNumber number base (o ∷ os) e =
      go (match_record "0.4." o.oid) refl e (find_number-HasNumber number base os)
    where
      later :
          HasNumber (λ o. browser.template_of o.value) number base os
          → HasNumber (λ o. browser.template_of o.value) number base (o ∷ os)
      later (p, m, at, n, b) = (p, Memᴰ.tail m, at, n, b)

      go :
          (r : Option (String × String))
          → match_record "0.4." o.oid ≡ r
          → (elim r [
            | none ↦ find_number browser db number os
            | some (b, _) ↦
                if (o.oid == b <> suffix Key.card) && (browser.template_of o.value == number)
                then some b
                else find_number browser db number os
          ])
            ≡ some base
          → (find_number browser db number os ≡ some base
              → HasNumber (λ o. browser.template_of o.value) number base os)
          → HasNumber (λ o. browser.template_of o.value) number base (o ∷ os)
      go none f e h = later (h e)
      go (some (b, n)) f e h =
          elim (Bool-cases
            ((o.oid == b <> suffix Key.card) && (browser.template_of o.value == number))) [
              | inl both ↦
                  let same : b ≡ base = some-injective _ _ (rw both at e) in
                  (
                    o,
                    Memᴰ.head refl,
                    (eq_iff _ _).0 (both_left _ _ both) ∙ ap (λ t. t <> suffix Key.card) same,
                    (eq_iff _ _).0 (both_right (o.oid == b <> suffix Key.card) _ both),
                    rw same at (match_record-IsBase "0.4." o.oid b n f),
                  )
              | inr other ↦ later (h (rw other at e))
            ]

  -- How the rounds for a number may end in an OID.
  abbrev pub IsFound : ℕ → String → Server → List Request → String → List Request → Type 0
  IsFound n number server log base log' =
      (i : ℕ) × (i < n)
      × (log' ≡ reads (suc i) log)
      × ((document : Document) × (server (reads i log) read_snapshot ≡ accepted document)
          × HasNumber (λ o. browser.template_of o.value) number base (document "cards"))

  card_oid_rounds-IsFound :
      (n : ℕ) (number : String) (server : Server) (log : List Request) (base : String)
      (log' : List Request)
      → (card_oid_rounds browser db n number).run server log ≡ (returned base, log')
      → IsFound n number server log base log'
  unfolding card_oid_rounds throw pure ◌>>=◌ and_then request reads
  card_oid_rounds-IsFound zero number server log base log' e = cc (ap (λ t. t.0) e)
  card_oid_rounds-IsFound (suc n) number server log base log' e =
      replied (server log read_snapshot) refl e
        (card_oid_rounds-IsFound n number server (read_snapshot ∷ log) base log')
    where
      further :
          IsFound n number server (read_snapshot ∷ log) base log'
          → IsFound (suc n) number server log base log'
      further (i, below, l, h) = (suc i, omega (arith, below), l, h)

      rest : Document → Option String → Session String
      rest document found = elim found [
        | none ↦ card_oid_rounds browser db n number
        | some b ↦ pure b
      ]

      searched :
          (document : Document) (found : Option String)
          → server log read_snapshot ≡ accepted document
          → find_number browser db number (document "cards") ≡ found
          → (rest document found).run server (read_snapshot ∷ log) ≡ (returned base, log')
          → ((card_oid_rounds browser db n number).run server (read_snapshot ∷ log)
                ≡ (returned base, log')
              → IsFound n number server (read_snapshot ∷ log) base log')
          → IsFound (suc n) number server log base log'
      searched document none a f e ih = further (ih e)
      searched document (some b) a f e ih =
          let same : b ≡ base = returned-injective b base (ap (λ t. t.0) e) in
          (
            0,
            omega arith,
            ap (λ t. t.1) (sym e),
            (document, a, find_number-HasNumber number base (document "cards") (f ∙ ap some same)),
          )

      replied :
          (r : Reply)
          → server log read_snapshot ≡ r
          → and_then {A = Document} {B = String}
              (λ document. rest document (find_number browser db number (document "cards")))
              server
              (
                read_reply
                    (λ text status.
                      or_text text ("Unable to refresh credentials (" <> (status <> ")")))
                    r,
                read_snapshot ∷ log,
              )
            ≡ (returned base, log')
          → ((card_oid_rounds browser db n number).run server (read_snapshot ∷ log)
                ≡ (returned base, log')
              → IsFound n number server (read_snapshot ∷ log) base log')
          → IsFound (suc n) number server log base log'
      replied (accepted document) a e ih =
          searched document (find_number browser db number (document "cards")) a refl e ih
      replied (refused t u) a e ih = cc (ap (λ t. t.0) e)
      replied (lost t) a e ih = cc (ap (λ t. t.0) e)

-- Where looking up the OID of a credential that has a number returns one, it has read the snapshot
-- at least once and at most four times and made no other request, and the last snapshot that it read
-- has the number of the credential under that OID, which is one of a credential.
pub current_card_oid-IsFound :
    (browser : Browser) (db : Dbc) (card : Card) (server : Server) (log : List Request)
    (base : String) (log' : List Request)
    → truthy card.number ≡ true
    → (current_card_oid browser db card).run server log ≡ (returned base, log')
    → IsFound browser db 4 (browser.template_of card.number) server log base log'
unfolding current_card_oid
current_card_oid-IsFound browser db card server log base log' h e =
    card_oid_rounds-IsFound browser db 4 (browser.template_of card.number) server log base log'
      (rw h at e)
