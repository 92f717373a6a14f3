-- ===== src/Pages/Options/Laws.antt =====
-- What a drop-down list of doors holds after httpd/html/javascript/controllers.js has updated it.
use mathlib.Core.List.{Memᴰ}
use package.text.Mathlib.TextLemmas.{append_assoc, nil-append, cons-append}
use uhppoted_httpd.Oid.{is_digit}
use uhppoted_httpd.Oid.Laws.{IsBase, all_digits}
use uhppoted_httpd.Oid.Member.{number_digits}
use uhppoted_httpd.Db.Sweep.{alive}
use uhppoted_httpd.Console.Markup.{replace_all}
use uhppoted_httpd.Prelude.{
  not_true, subst, sym, ◌≢◌, ◌↔◌, some, not, ◌&&◌, eq_refl, code, nat_eq, if◌then◌else◌, Bool, ℕ,
  zero, suc, String, true, false, ◌≡◌, refl, ap, ◌∙◌, arith, List, [], ◌∷◌, ◌++◌, ◌+◌, ◌≤◌, length,
  length-append, append_push, append_nil, ltb, map, Bool-cases, inl, inr, eq_iff,
}
use uhppoted_httpd.Text.{◌==◌, ◌++◌ as ◌<>◌}
use uhppoted_httpd.Value.{
  Value, undefined, null, nan, boolean, number, text, array, object, truthy, is_text,
}
use uhppoted_httpd.OrderedMap.{Map}
use uhppoted_httpd.Db.Doors.{Door}
use uhppoted_httpd.Pages.Options.{
  Item, put, put_all, remove_last, shorten, populate, shown, item_of, populate_doors,
}

-- Whatever stood at an index, the option put there stands there then.
put-there :
    (pre : List Item) (item : Item) (rest : List Item)
    → (later : List Item) × (put (length pre) item (pre ++ rest) ≡ (pre ++ item ∷ []) ++ later)
unfolding put
put-there [] item [] = ([], refl)
put-there [] item (o ∷ os) = elim (Bool-cases (o.value == item.value)) [
  | inr other ↦ (o ∷ os, rw other refl)
  | inl same ↦ elim (Bool-cases (o.label == item.label)) [
    | inr renamed ↦ (
      os,
      rw (same, renamed)
          (ap (λ v. record { value = v; label = item.label } ∷ os)
            ((eq_iff o.value item.value).0 same)),
    )
    | inl kept ↦ (
      os,
      rw (same, kept)
          (ap (λ v. record { value = v; label = o.label } ∷ os) ((eq_iff o.value item.value).0 same)
            ∙ ap (λ l. record { value = item.value; label = l } ∷ os)
                ((eq_iff o.label item.label).0 kept)),
    )
  ]
]
put-there (p ∷ pre) item rest =
    let there = put-there pre item rest in (there.0, ap (λ t. p ∷ t) there.1)

put_all-there :
    (pre items rest : List Item)
    → (later : List Item) × (put_all (length pre) items (pre ++ rest) ≡ (pre ++ items) ++ later)
unfolding put_all
put_all-there pre [] rest = (rest, rw (append_nil pre) refl)
put_all-there pre (item ∷ items) rest =
    let first = put-there pre item rest in
    let then_ = put_all-there (pre ++ item ∷ []) items first.0 in
    (
      then_.0,
      rw first.1 (
          ap (λ n. put_all n items ((pre ++ item ∷ []) ++ first.0)) (more pre item)
          ∙ then_.1
          ∙ ap (λ t. t ++ then_.0) (append_push pre item items)),
    )
  where
    more : (pre : List Item) (item : Item) → suc (length pre) ≡ length (pre ++ item ∷ [])
    more pre item = omega (arith, length-append pre (item ∷ []))

remove_last-append :
    (keep : List Item) (o : Item) (later : List Item)
    → (os : List Item) × (remove_last (keep ++ o ∷ later) ≡ keep ++ os)
      × (suc (length os) ≡ length (o ∷ later))
unfolding remove_last
remove_last-append [] o [] = ([], refl, refl)
remove_last-append [] o (p ∷ later) =
    let further = remove_last-append [] p later in
    (o ∷ further.0, ap (λ t. o ∷ t) further.1, ap suc further.2)
remove_last-append (k ∷ []) o later =
    let further = remove_last-append [] o later in (further.0, ap (λ t. k ∷ t) further.1, further.2)
remove_last-append (k ∷ l ∷ keep) o later =
    let further = remove_last-append (l ∷ keep) o later in
    (further.0, ap (λ t. k ∷ t) further.1, further.2)

ltb_self : (n : ℕ) → ltb n n ≡ false
ltb_self n = ground arith

longer :
    (keep : List Item) (o : Item) (later : List Item)
    → ltb (length keep) (length (keep ++ o ∷ later)) ≡ true
longer keep o later = ground (arith, length-append keep (o ∷ later))

shorten-exact :
    (n : ℕ) (keep later : List Item)
    → length later ≤ n
    → shorten n (length keep) (keep ++ later) ≡ keep
unfolding shorten
shorten-exact zero keep [] h = append_nil keep
shorten-exact zero keep (o ∷ later) h = ground arith
shorten-exact (suc n) keep [] h = rw (append_nil keep, ltb_self (length keep)) refl
shorten-exact (suc n) keep (o ∷ later) h =
    let shorter = remove_last-append keep o later in
    rw (longer keep o later, shorter.1)
      (shorten-exact n keep shorter.0 (omega (arith, h, shorter.2)))

-- A door that the lists show: it has a status, other than that of one that is being made, and is not
-- deleted.
abbrev pub IsListed : Door → Type 0
IsListed d = (truthy d.status ≡ true) × (d.status ≢ text "<new>") × (truthy d.deleted ≡ false)

is_text_iff : (t : String) (v : Value) → (is_text t v ≡ true) ↔ (v ≡ text t)
is_text_iff t v = (forth v, λ e. ap (is_text t) e ∙ eq_refl t)
  where
    forth : (v : Value) → is_text t v ≡ true → v ≡ text t
    forth (text s) h = ap text ((eq_iff s t).0 h)
    forth undefined h = cc h
    forth null h = cc h
    forth nan h = cc h
    forth (boolean b) h = cc h
    forth (number n) h = cc h
    forth (array vs) h = cc h
    forth (object ms) h = cc h

alive_lem : (v : Value) → alive (some v) ≡ not (truthy v)
unfolding alive
alive_lem undefined = refl
alive_lem null = refl
alive_lem nan = refl
alive_lem (boolean b) = ground arith
alive_lem (number n) = ground arith
alive_lem (text s) = ground arith
alive_lem (array vs) = refl
alive_lem (object ms) = refl

abbrev is_shown : Door → Bool
is_shown d = truthy d.status && (not (is_text "<new>" d.status) && alive (some d.deleted))

is_shown_iff : (d : Door) → (is_shown d ≡ true) ↔ IsListed d
is_shown_iff d =
    let new = is_text_iff "<new>" d.status in
    let (forth, back) = parts (truthy d.status) (is_text "<new>" d.status) (truthy d.deleted) in
    (
      (λ h.
          let (has, old, kept) = forth (rw alive_lem at h) in
          (has, (λ e. cc (old, new.1 e)), kept)),
      (λ (has, old, kept).
          rw alive_lem (back has (not_true (is_text "<new>" d.status) (λ e. old (new.0 e))) kept)),
    )
  where
    parts :
        (a b c : Bool)
        → ((a && (not b && not c)) ≡ true → (a ≡ true) × (b ≡ false) × (c ≡ false))
          × (a ≡ true → b ≡ false → c ≡ false → (a && (not b && not c)) ≡ true)
    parts a b c = (
      (λ h. (ground (arith, h), ground (arith, h), ground (arith, h))),
      λ h k l. ground (arith, h, k, l),
    )

shown_iff :
    (doors : Map Door) (d : Door)
    → Memᴰ d (shown doors) ↔ (((k : String) × Memᴰ (k, d) doors) × IsListed d)
unfolding shown
shown_iff doors d =
    (forth doors, λ (here, listed). back doors here.0 here.1 ((is_shown_iff d).1 listed))
  where
    forth :
        (doors : Map Door) → Memᴰ d (shown doors) → ((k : String) × Memᴰ (k, d) doors) × IsListed d
    forth [] m = elim m [ ]
    forth ((k, e) ∷ rest) m =
        go (is_shown e) refl m
          (λ m'. let (here, listed) = forth rest m' in ((here.0, Memᴰ.tail here.1), listed))
      where
        go :
            (b : Bool)
            → is_shown e ≡ b
            → Memᴰ d (if b then e ∷ shown rest else shown rest)
            → (Memᴰ d (shown rest) → ((j : String) × Memᴰ (j, d) ((k, e) ∷ rest)) × IsListed d)
            → ((j : String) × Memᴰ (j, d) ((k, e) ∷ rest)) × IsListed d
        go true h (Memᴰ.head same) there = (
          (k, Memᴰ.head (ap (λ t. (k, t)) same)),
          subst IsListed (sym same) ((is_shown_iff e).0 h),
        )
        go true h (Memᴰ.tail m) there = there m
        go false h m there = there m

    back :
        (doors : Map Door) (k : String)
        → Memᴰ (k, d) doors
        → is_shown d ≡ true
        → Memᴰ d (shown doors)
    back [] k m h = elim m [ ]
    back ((j, e) ∷ rest) k (Memᴰ.head same) h =
        let here : d ≡ e = ap (λ (t : String × Door). t.1) same in
        rw (ap is_shown (sym here) ∙ h) (Memᴰ.head here)
    back ((j, e) ∷ rest) k (Memᴰ.tail m) h = go (is_shown e) (back rest k m h)
      where
        go : (b : Bool) → Memᴰ d (shown rest) → Memᴰ d (if b then e ∷ shown rest else shown rest)
        go true m = Memᴰ.tail m
        go false m = m

replace_all-append :
    (c : ℕ) (t s u : String) → replace_all c t (s <> u) ≡ replace_all c t s <> replace_all c t u
unfolding replace_all
replace_all-append c t String.[] u = rw (nil-append u, nil-append) refl
replace_all-append c t (String.◌∷◌ d s) u = elim (Bool-cases (nat_eq (code d) c)) [
  | inl hit ↦ rw (cons-append d s u, hit, replace_all-append c t s u) (sym (append_assoc t _ _))
  | inr other ↦ rw (cons-append d s u, other, replace_all-append c t s u, cons-append) refl
]

dots-digits : (s : String) → all_digits s ≡ true → replace_all 46 "" s ≡ s
unfolding replace_all all_digits is_digit
dots-digits String.[] h = refl
dots-digits (String.◌∷◌ c s) h = ground (arith, h, dots-digits s)

-- The option of a door: its OID, with the name of the door or, where that is empty, its number.
pub record IsOptionOf (text_of : Value → String) (d : Door) (o : Item) : Type 0 where
  pub value : o.value ≡ d.oid
  pub named : d.name ≢ text "" → o.label ≡ text_of d.name
  pub numbered :
      d.name ≡ text "" → (b : IsBase "0.3." d.oid) → o.label ≡ "<D03" <> (b.number <> ">")

item_of-IsOptionOf :
    (text_of : Value → String) (d : Door) → IsOptionOf text_of d (item_of text_of d)
unfolding item_of replace_all
item_of-IsOptionOf text_of d = record {
  value = refl;
  named = λ h. rw (not_true (is_text "" d.name) (λ e. h ((is_text_iff "" d.name).0 e))) refl;
  numbered = λ h b. rw ((is_text_iff "" d.name).1 h) (numbered b);
}
  where
    numbered :
        (b : IsBase "0.3." d.oid)
        → replace_all 46 "" ("<D" <> (d.oid <> ">")) ≡ "<D03" <> (b.number <> ">")
    numbered b =
        rw
          (
            b.same,
            replace_all-append,
            replace_all-append,
            replace_all-append,
            dots-digits b.number (number_digits b.number b.exact),
          )
          (ap (λ t. "<D" <> t) (append_assoc "03" b.number ">")
            ∙ sym (append_assoc "<D" "03" (b.number <> ">")))

-- Whatever options the list has after its first: `populate_doors` leaves the first, and then puts, in
-- the order that they are sorted in, exactly one option for each listed door. The listed doors are
-- those of the table that have a status other than `<new>` and are not deleted; the option of a door
-- has its OID as the value and its name as the label, or, if the name is empty and the OID is that of a
-- door, `<D03`, its number and `>`.
pub populate_doors-exact :
    (text_of : Value → String) (sort : List Door → List Door) (doors : Map Door) (head : Item)
    (rest : List Item)
    → (populate_doors text_of sort doors (head ∷ rest)
        ≡ head ∷ map (item_of text_of) (sort (shown doors)))
      × ((d : Door)
          → (Memᴰ d (shown doors) ↔ (((k : String) × Memᴰ (k, d) doors) × IsListed d))
            × IsOptionOf text_of d (item_of text_of d))
unfolding populate_doors populate
populate_doors-exact text_of sort doors head rest =
    let items = map (item_of text_of) (sort (shown doors)) in
    let filled = put_all-there (head ∷ []) items rest in
    let one : length items + 1 ≡ length (head ∷ items) = omega arith in
    (
      rw filled.1 (
          ap (λ n. shorten (length ((head ∷ items) ++ filled.0)) n ((head ∷ items) ++ filled.0)) one
          ∙ shorten-exact (length ((head ∷ items) ++ filled.0)) (head ∷ items) filled.0
              (omega (arith, length-append (head ∷ items) filled.0))),
      λ d. (shown_iff doors d, item_of-IsOptionOf text_of d),
    )
