-- ===== src/Console/Memberships/Written.antt =====
-- The entries of the cards after some updates of memberships have been read into the store.
use uhppoted_httpd.Prelude.{
  ℕ, String, Bool, true, false, ◌≡◌, refl, ap, ◌∙◌, List, [], ◌∷◌, All, if◌then◌else◌, Bool-cases,
  inl, inr, eq_iff,
}
use uhppoted_httpd.Text.{◌==◌}
use uhppoted_httpd.Value.{text, Runtime}
use uhppoted_httpd.Oid.Laws.{IsBase}
use uhppoted_httpd.Oid.Member.{IsNumber}
use uhppoted_httpd.Db.Store.{Dbc, object}
use uhppoted_httpd.Db.Invariant.{IsStore, object-IsStore}
use uhppoted_httpd.Console.Session.{Update}
use uhppoted_httpd.Console.Relays.Slots.{apply}
use uhppoted_httpd.Console.Memberships.Entries.{
  groups_at, entry_oid, groups_at-object, IsEntry, hit, member_at, member_at-object,
}
use uhppoted_httpd.Console.Memberships.Aligned.{IsAligned, upsert-IsAligned}

-- A well-formed store in which every card is aligned.
pub record IsLinked (db : Dbc) : Type 0 where
  pub store : IsStore db
  pub aligned : (k : String) → IsAligned k (groups_at db.cards k)

module _ (js : Runtime) (now : ℕ) where
  object-IsLinked :
      (u : Update) (db : Dbc)
      → IsEntry u
      → IsLinked db
      → IsLinked (object js (record { oid = u.oid; value = text u.value }) now db)
  object-IsLinked u db (b, n, base, number, same) h = record {
    store = object-IsStore js _ now db h.store;
    aligned = λ k.
        rw (same, groups_at-object js now b n u.value k db base number)
          (elim (Bool-cases (b == k)) [
            | inl here ↦
                rw (here, (eq_iff b k).0 here)
                  (upsert-IsAligned k (entry_oid k n) (u.value == "true") (groups_at db.cards k)
                    (h.aligned k))
            | inr other ↦ rw other (h.aligned k)
          ]);
  }

  pub apply-IsLinked :
      (us : List Update) (db : Dbc) → All IsEntry us → IsLinked db → IsLinked (apply js now us db)
  unfolding apply
  apply-IsLinked [] db each h = h
  apply-IsLinked (u ∷ us) db (e, each) h = apply-IsLinked us _ each (object-IsLinked u db e h)

  module _ (k n : String) (base : IsBase "0.4." k) (number : IsNumber n) (w : Bool) where
    -- Where all updates of an entry set it to the same, it is set to that if there is one, and
    -- otherwise kept.
    pub apply-member :
        (us : List Update) (db : Dbc)
        → All IsEntry us
        → All (λ u. u.oid ≡ entry_oid k n → (u.value == "true") ≡ w) us
        → member_at js now k n base number (apply js now us db)
          ≡ (if hit us (entry_oid k n) then w else member_at js now k n base number db)
    unfolding apply
    apply-member [] db each same = refl
    apply-member (u ∷ us) db (e, each) (first, same) =
        apply-member us _ each same
        ∙ ap (λ t. if hit us (entry_oid k n) then w else t)
            (member_at-object js now k n base number u db e)
        ∙ (elim (Bool-cases (u.oid == entry_oid k n)) [
          | inl here ↦
              rw (here, first ((eq_iff u.oid (entry_oid k n)).0 here))
                (either (hit us (entry_oid k n)))
          | inr other ↦ rw other refl
        ])
      where
        either : (b : Bool) → (if b then w else w) ≡ w
        either true = refl
        either false = refl
