-- ===== src/Console/Relays/Saved.antt =====
-- Where a door is after the relay form of httpd/html/javascript/gate-control.js has been saved.
use uhppoted_httpd.Prelude.{
  ℕ, String, Bool, true, false, not, ◌&&◌, ◌||◌, ◌≡◌, refl, sym, ap, subst, ◌∙◌, List, [], ◌∷◌,
  ◌++◌, Option, none, some, nat_eq, arith, if◌then◌else◌, inl, inr, ◌⊎◌, eq_iff,
}
use uhppoted_httpd.Text.{◌==◌, ◌++◌ as ◌<>◌}
use uhppoted_httpd.Oid.Laws.{IsBase}
use uhppoted_httpd.Value.{text, number, Runtime}
use uhppoted_httpd.OrderedMap.{get}
use uhppoted_httpd.Db.Handler.{IsTable}
use uhppoted_httpd.Db.Controllers.{Controller}
use uhppoted_httpd.Db.Store.{Dbc}
use uhppoted_httpd.Console.Session.{Update, Request, Server, returned, pure, throw}
use uhppoted_httpd.Console.Session.Laws.{returned-injective, bind-returned}
use uhppoted_httpd.Console.Records.{Browser}
use uhppoted_httpd.Console.Relays.{
  door_suffix, DoorForm, is_other, vacated, is_moved, is_taken, occupied, assignment_updates,
}
use uhppoted_httpd.Console.Relays.Slots.{
  at_slot, is_present, IsChannel, apply, at_slot-object, is_present-slot,
}

-- the update of the slot that the door goes to, where it does
abbrev moved : String → Option Controller → ℕ → Option Controller → ℕ → List Update
moved oid original from none to = []
moved oid original from (some c) to =
    if is_moved original from c to
    then record { oid = c.oid <> door_suffix to; value = oid } ∷ []
    else []

occupied-moved :
    (browser : Browser) (db : Dbc) (oid : String) (original : Option Controller) (from : ℕ)
    (target : Option Controller) (to : ℕ) (server : Server) (log : List Request) (us : List Update)
    → ((occupied browser db oid original from target to).run server log).0 ≡ returned us
    → us ≡ moved oid original from target to
unfolding occupied pure throw
occupied-moved browser db oid original from none to server log us e = returned-injective _ _ (sym e)
occupied-moved browser db oid original from (some c) to server log us e =
    decide (is_moved original from c to) (is_taken oid c to) e
  where
    decide :
        (b taken : Bool)
        → ((if b
              then (if taken
                  then throw
                      ("Physical door " <> (browser.text_of (number to) <> " is already assigned."))
                  else pure (record { oid = c.oid <> door_suffix to; value = oid } ∷ []))
              else pure []).run
            server log).0
          ≡ returned us
        → us ≡ (if b then record { oid = c.oid <> door_suffix to; value = oid } ∷ [] else [])
    decide true true f = cc f
    decide true false f = returned-injective _ _ (sym f)
    decide false taken f = returned-injective _ _ (sym f)

-- Where the door is, as an original or a target.
abbrev pub is_at : Option Controller → ℕ → String → ℕ → Bool
is_at none n k m = false
is_at (some c) n k m = not (nat_eq n 0) && ((c.oid == k) && nat_eq n m)

-- a choice of the form: a controller of the store and one of its channels, or none
abbrev pub IsChoice : Dbc → Option Controller → ℕ → Type 0
IsChoice db none n = Unit
IsChoice db (some c) n =
    IsBase "0.2." c.oid × (is_present db.controllers c.oid ≡ true) × ((n ≡ 0) ⊎ IsChannel n)

abbrev pub Holds : Dbc → Option Controller → ℕ → String → Type 0
Holds db none n oid = Unit
Holds db (some c) n oid = IsChannel n × (at_slot db.controllers c.oid n ≡ text oid)

module _ (js : Runtime) (now : ℕ) (db : Dbc) (oid : String) where
  -- one update, where there is one
  abbrev one : Bool → String → ℕ → String → List Update
  one b k n x = if b then record { oid = k <> door_suffix n; value = x } ∷ [] else []

  abbrev IsSlot : Bool → String → ℕ → Type 0
  IsSlot b k n = b ≡ true → IsChannel n × IsBase "0.2." k × (is_present db.controllers k ≡ true)

  two-slots :
      (b1 b2 : Bool) (k1 k2 x1 x2 : String) (n1 n2 : ℕ)
      → IsSlot b1 k1 n1
      → IsSlot b2 k2 n2
      → (k : String) (m : ℕ)
      → at_slot (apply js now (one b1 k1 n1 x1 ++ one b2 k2 n2 x2) db).controllers k m ≡ (
          if b2 && ((k2 == k) && nat_eq n2 m)
          then text x2
          else if b1 && ((k1 == k) && nat_eq n1 m)
          then text x1
          else at_slot db.controllers k m)
  unfolding apply
  two-slots false false k1 k2 x1 x2 n1 n2 h1 h2 k m = refl
  two-slots true false k1 k2 x1 x2 n1 n2 h1 h2 k m =
      let (c, b, p) = h1 refl in at_slot-object js now n1 k1 x1 k m db c b p
  two-slots false true k1 k2 x1 x2 n1 n2 h1 h2 k m =
      let (c, b, p) = h2 refl in at_slot-object js now n2 k2 x2 k m db c b p
  two-slots true true k1 k2 x1 x2 n1 n2 h1 h2 k m =
      let (c1, b1, p1) = h1 refl in
      let (c2, b2, p2) = h2 refl in
      at_slot-object js now n2 k2 x2 k m _ c2 b2 (is_present-slot js now n1 k1 x1 k2 db c1 b1 p2)
      ∙ ap (λ t. if (k2 == k) && nat_eq n2 m then text x2 else t)
          (at_slot-object js now n1 k1 x1 k m db c1 b1 p1)

  same_slot :
      (c : Controller) (n : ℕ) (k : String) (m : ℕ)
      → at_slot db.controllers c.oid n ≡ text oid
      → ((c.oid == k) && nat_eq n m) ≡ true
      → at_slot db.controllers k m ≡ text oid
  same_slot c n k m h e =
      subst (λ t. at_slot db.controllers t m ≡ text oid) ((eq_iff c.oid k).0 (ground (arith, e)))
        (subst (λ t. at_slot db.controllers c.oid t ≡ text oid) (ground (arith, e)) h)

  nonzero : (n : ℕ) → IsChannel n → nat_eq n 0 ≡ false
  nonzero n h = ground (arith, h)

  chosen :
      (original : Option Controller) (from : ℕ) (d : Controller) (to : ℕ)
      → (to ≡ 0) ⊎ IsChannel to
      → is_moved original from d to ≡ true
      → IsChannel to
  chosen original from d to (inl zero) e = cc (e, ap (λ t. is_moved original from d t) zero)
  chosen original from d to (inr channel) e = channel

  moved-slots :
      (original : Option Controller) (from : ℕ) (target : Option Controller) (to : ℕ)
      → IsChoice db original from
      → IsChoice db target to
      → Holds db original from oid
      → (k : String) (m : ℕ)
      → at_slot
          (apply js now
            (vacated original from target to ++ moved oid original from target to)
            db).controllers
          k
          m
        ≡ (if is_at target to k m
            then text oid
            else if is_at original from k m
            then text ""
            else at_slot db.controllers k m)
  unfolding vacated apply
  moved-slots none from none to ho ht h k m = refl
  moved-slots (some c) from none to (base, there, _) ht (channel, held) k m =
      two-slots true false c.oid "" "" "" from 0 (λ _. (channel, base, there)) (λ e. cc e) k m
      ∙ ground (arith, nonzero from channel)
  moved-slots none from (some d) to ho (base, there, channel) h k m =
      two-slots false (is_moved none from d to) "" d.oid "" oid 0 to (λ e. cc e)
        (λ e. (chosen none from d to channel e, base, there)) k m
      ∙ ground arith
  moved-slots (some c) from (some d) to (base', there', _) (base, there, channel) (channel', held) k
        m =
      two-slots (is_other (some c) (some d) || not (nat_eq from to)) (is_moved (some c) from d to)
        c.oid d.oid "" oid from to (λ e. (channel', base', there'))
        (λ e. (chosen (some c) from d to channel e, base, there)) k m
      ∙ ground (
        arith,
        nonzero from channel',
        same_slot c from k m held,
        eq_iff c.oid d.oid,
        eq_iff c.oid k,
        eq_iff d.oid k,
      )

choice :
    (db : Dbc) (k : String) (n : ℕ) (r : Option Controller)
    → IsTable "0.2." (λ c. c.oid) db.controllers
    → get k db.controllers ≡ r
    → ((c : Controller) → r ≡ some c → (n ≡ 0) ⊎ IsChannel n)
    → IsChoice db r n
choice db k n none table e channel = tt
choice db k n (some c) table e channel =
    let own : c.oid ≡ k = table.own k c e in
    (
      subst (IsBase "0.2.") (sym own) (table.base k c e),
      rw (own, is_present, e) refl,
      channel c refl,
    )

held-IsChannel :
    (db : Dbc) (n : ℕ) (oid : String) (r : Option Controller)
    → Holds db r n oid
    → (c : Controller) → r ≡ some c
    → (n ≡ 0) ⊎ IsChannel n
held-IsChannel db n oid none h c e = cc e
held-IsChannel db n oid (some d) (channel, _) c e = inr channel

-- Where the table of controllers is well formed, the slot that the form has as the door's original, if
-- any, holds the door, and the form's channel is none or one of the four: if saving does not throw
-- for the slot, its updates, read into the store, leave the door in the slot that the form names, if
-- it names one, and the original slot empty, if it is another; every other channel of every
-- controller holds what it held.
pub assignment_updates-slots :
    (js : Runtime) (now : ℕ) (browser : Browser) (db : Dbc) (form : DoorForm) (oid : String)
    (server : Server) (log : List Request) (us : List Update)
    → IsTable "0.2." (λ c. c.oid) db.controllers
    → Holds db (get form.original_controller db.controllers) form.original_channel oid
    → (form.channel ≡ 0) ⊎ IsChannel form.channel
    → ((assignment_updates browser db form oid).run server log).0 ≡ returned us
    → (k : String) (m : ℕ)
    → at_slot (apply js now us db).controllers k m ≡ (
        if is_at (get form.controller db.controllers) form.channel k m
        then text oid
        else if is_at (get form.original_controller db.controllers) form.original_channel k m
        then text ""
        else at_slot db.controllers k m)
unfolding assignment_updates
assignment_updates-slots js now browser db form oid server log us table held channel e k m =
    let original = get form.original_controller db.controllers in
    let target = get form.controller db.controllers in
    let (vs, awaited, sent) =
      bind-returned (occupied browser db oid original form.original_channel target form.channel)
        (λ moved. vacated original form.original_channel target form.channel ++ moved) server log us
        e in
    let exact =
      occupied-moved browser db oid original form.original_channel target form.channel server log vs
        awaited in
    rw (sent, exact)
      (moved-slots js now db oid original form.original_channel target form.channel
        (choice db form.original_controller form.original_channel original table refl
          (held-IsChannel db form.original_channel oid original held))
        (choice db form.controller form.channel target table refl (λ c e. channel)) held k m)
