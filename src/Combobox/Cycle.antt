-- ===== src/Combobox/Cycle.antt =====
-- Going through the options of httpd/html/javascript/combobox.js with the arrow keys.
use uhppoted_httpd.Prelude.{
  ℕ, zero, suc, true, false, ◌≡◌, refl, sym, ap, ◌∙◌, List, [], ◌∷◌, Option, none, some, Bool-cases,
  Option-cases, inl, inr, arith, nat_eq,
}
use uhppoted_httpd.Combobox.{
  Choice, Box, same, nth, last_of, index_of, get_previous_option, get_next_option,
}
use mathlib.Core.Option.{some-injective}
use uhppoted_httpd.Oid.Laws.{none≢some}
use uhppoted_httpd.Combobox.Laws.{IsSound}

-- No element stands twice in the list.
abbrev pub AreDistinct : List Choice → Type 0
AreDistinct [] = Unit
AreDistinct (c ∷ cs) = (index_of (some c) cs ≡ none) × AreDistinct cs

nat_eq_refl : (n : ℕ) → nat_eq n n ≡ true
nat_eq_refl n = ground arith

index_of-id :
    (cs : List Choice) (a b : Choice)
    → nat_eq a.id b.id ≡ true
    → index_of (some a) cs ≡ index_of (some b) cs
index_of-id [] a b e = refl
index_of-id (c ∷ cs) a b e = rw (index_of-id cs a b e, nat_eq-both c.id a.id b.id e) refl
  where
    nat_eq-both : (m n o : ℕ) → nat_eq n o ≡ true → nat_eq m n ≡ nat_eq m o
    nat_eq-both m n o e = ground (arith, e)

-- The index of an element is where it stands.
index_of-nth :
    (cs : List Choice) (i : ℕ) (c : Choice)
    → AreDistinct cs
    → nth cs i ≡ some c
    → index_of (some c) cs ≡ some i
index_of-nth [] i c d e = cc e
index_of-nth (x ∷ cs) zero c d e = rw (some-injective _ _ e, nat_eq_refl c.id) refl
index_of-nth (x ∷ cs) (suc i) c (fresh, d) e =
    let rest = index_of-nth cs i c d e in
    elim (Bool-cases (nat_eq x.id c.id)) [
      | inl twice ↦ absurd (none≢some (sym fresh ∙ index_of-id cs x c twice ∙ rest))
      | inr other ↦ rw (other, rest) refl
    ]

-- The last element has none after it, and it is the only one.
last_of-nth :
    (cs : List Choice) (c : Choice)
    → last_of cs ≡ some c
    → (m : ℕ) × (nth cs m ≡ some c) × (nth cs (suc m) ≡ none)
last_of-nth [] c e = cc e
last_of-nth (x ∷ []) c e = (0, e, refl)
last_of-nth (x ∷ y ∷ cs) c e = let (m, at, end_) = last_of-nth (y ∷ cs) c e in (suc m, at, end_)

last_of-end :
    (cs : List Choice) (i : ℕ) (c : Choice)
    → nth cs i ≡ some c
    → nth cs (suc i) ≡ none
    → last_of cs ≡ some c
last_of-end [] i c e n = cc e
last_of-end (x ∷ []) zero c e n = e
last_of-end (x ∷ []) (suc i) c e n = cc e
last_of-end (x ∷ y ∷ cs) zero c e n = cc n
last_of-end (x ∷ y ∷ cs) (suc i) c e n = last_of-end (y ∷ cs) i c e n

-- Elements with the same number are the same.
nth_unique :
    (cs : List Choice) (i j : ℕ) (c d : Choice)
    → AreDistinct cs
    → nth cs i ≡ some c
    → nth cs j ≡ some d
    → nat_eq c.id d.id ≡ true
    → (i ≡ j) × (c ≡ d)
nth_unique cs i j c d distinct e f same =
    let index : i ≡ j = some-injective _ _ (
      sym (index_of-nth cs i c distinct e)
      ∙ index_of-id cs c d same
      ∙ index_of-nth cs j d distinct f) in
    (index, some-injective _ _ (sym e ∙ ap (nth cs) index ∙ f))

pub nth-first :
    (cs : List Choice) (i : ℕ) (c : Choice) → nth cs i ≡ some c → (d : Choice) × (nth cs 0 ≡ some d)
nth-first [] i c e = cc e
nth-first (x ∷ cs) i c e = (x, refl)

pub nth-below :
    (cs : List Choice) (i : ℕ) (c : Choice)
    → nth cs (suc i) ≡ some c
    → (d : Choice) × (nth cs i ≡ some d)
nth-below [] i c e = cc e
nth-below (x ∷ cs) zero c e = (x, refl)
nth-below (x ∷ cs) (suc i) c e = nth-below cs i c e

last_of-exists :
    (cs : List Choice) (c : Choice) → nth cs 0 ≡ some c → (d : Choice) × (last_of cs ≡ some d)
last_of-exists [] c e = cc e
last_of-exists (x ∷ []) c e = (x, refl)
last_of-exists (x ∷ y ∷ cs) c e = last_of-exists (y ∷ cs) y refl

module _ (box : Box) (sound : IsSound box) (distinct : AreDistinct box.options) where
  not_last :
      (i : ℕ) (c d : Choice)
      → nth box.options i ≡ some c
      → nth box.options (suc i) ≡ some d
      → same (some c) box.last ≡ false
  not_last i c d e f = rw sound.last (go (last_of box.options) refl)
    where
      go : (l : Option Choice) → last_of box.options ≡ l → same (some c) l ≡ false
      go none h = refl
      go (some l) h =
          let (m, at, end_) = last_of-nth box.options l h in
          elim (Bool-cases (nat_eq c.id l.id)) [
            | inl twice ↦
                let (index, _) = nth_unique box.options i m c l distinct e at twice in
                absurd (none≢some (sym end_ ∙ ap (λ t. nth box.options (suc t)) (sym index) ∙ f))
            | inr other ↦ other
          ]

  not_first :
      (i : ℕ) (c : Choice) → nth box.options (suc i) ≡ some c → same (some c) box.first ≡ false
  not_first i c e = rw sound.first (go (nth box.options 0) refl)
    where
      zero≢suc : (n : ℕ) → suc n ≡ 0 → ⊥
      zero≢suc n e = omega (arith, e)

      go : (l : Option Choice) → nth box.options 0 ≡ l → same (some c) l ≡ false
      go none h = refl
      go (some l) h = elim (Bool-cases (nat_eq c.id l.id)) [
        | inl twice ↦
            absurd (zero≢suc i (nth_unique box.options (suc i) 0 c l distinct e h twice).0)
        | inr other ↦ other
      ]

  -- The option after one that is not the last, and after the last.
  pub next-inner :
      (i : ℕ) (c d : Choice)
      → nth box.options i ≡ some c
      → nth box.options (suc i) ≡ some d
      → get_next_option (some c) box ≡ some d
  unfolding get_next_option
  next-inner i c d e f = rw (not_last i c d e f, index_of-nth box.options i c distinct e) f

  next-last :
      (c : Choice) → last_of box.options ≡ some c → get_next_option (some c) box ≡ nth box.options 0
  unfolding get_next_option
  next-last c e = rw (sound.last, e, nat_eq_refl c.id) sound.first

  previous-inner :
      (i : ℕ) (c d : Choice)
      → nth box.options i ≡ some c
      → nth box.options (suc i) ≡ some d
      → get_previous_option (some d) box ≡ some c
  unfolding get_previous_option
  previous-inner i c d e f = rw (not_first i d f, index_of-nth box.options (suc i) d distinct f) e

  previous-first :
      (c : Choice)
      → nth box.options 0 ≡ some c
      → get_previous_option (some c) box ≡ last_of box.options
  unfolding get_previous_option
  previous-first c e = rw (sound.first, e, nat_eq_refl c.id) sound.last

  next_previous :
      (i : ℕ) (c : Choice)
      → nth box.options i ≡ some c
      → get_previous_option (get_next_option (some c) box) box ≡ some c
  next_previous i c at = elim (Option-cases (nth box.options (suc i))) [
    | inl end_ ↦
        let last = last_of-end box.options i c at end_ in
        let (d, top) = nth-first box.options i c at in
        rw (next-last c last, top) (previous-first d top ∙ last)
    | inr (d, later) ↦ rw (next-inner i c d at later) (previous-inner i c d at later)
  ]

  previous_next :
      (i : ℕ) (c : Choice)
      → nth box.options i ≡ some c
      → get_next_option (get_previous_option (some c) box) box ≡ some c
  previous_next zero c at =
      let (d, last) = last_of-exists box.options c at in
      rw (previous-first c at, last) (next-last d last ∙ at)
  previous_next (suc i) c at =
      let (d, below) = nth-below box.options i c at in
      rw (previous-inner i d c below at) (next-inner i d c below at)

-- In a sound box whose list has no element twice, the option before the one after an option of the
-- list is that option, and so is the one after the one before it, past the ends of the list too.
pub next_option-previous_option :
    (box : Box) (i : ℕ) (c : Choice)
    → IsSound box
    → AreDistinct box.options
    → nth box.options i ≡ some c
    → (get_previous_option (get_next_option (some c) box) box ≡ some c)
      × (get_next_option (get_previous_option (some c) box) box ≡ some c)
next_option-previous_option box i c sound distinct at =
    (next_previous box sound distinct i c at, previous_next box sound distinct i c at)
