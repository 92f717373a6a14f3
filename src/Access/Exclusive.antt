-- ===== src/Access/Exclusive.antt =====
-- `enforceExclusiveNoAccess` of httpd/html/javascript/gate-control.js: the tick boxes of a form, one
-- for each access level. The box that changed is told from the others by where it stands.
use uhppoted_httpd.Prelude.{
  String, Bool, true, false, ◌&&◌, ◌||◌, not, List, [], ◌∷◌, ◌++◌, map, ◌≡◌, refl, ◌⊎◌, inl, inr,
  arith, if◌then◌else◌, Bool-cases,
}
use uhppoted_httpd.Text.{◌==◌}

pub record Box : Type 0 where
  pub group : String  -- `dataset.cardGroup`
  pub checked : Bool

abbrev pub no_access_level_oid : String
no_access_level_oid = "0.5.254"

-- one round of the loop, for a box that is not the one that changed
unfoldable pub yield_to : Box → Box → Box
yield_to changed field =
    if changed.group == no_access_level_oid || field.group == no_access_level_oid
    then record field { checked = false }
    else field

-- the form after the change: the boxes before the one that changed, that one, and those behind it
unfoldable pub enforce_exclusive_no_access : List Box → Box → List Box → List Box
unfolding yield_to
enforce_exclusive_no_access before changed after =
    if changed.checked
    then map (yield_to changed) before ++ (changed ∷ map (yield_to changed) after)
    else before ++ (changed ∷ after)

-- Whether any box but No Access is checked, and whether No Access is.
unfoldable pub any_other : List Box → Bool
any_other [] = false
any_other (b ∷ bs) = (b.checked && not (b.group == no_access_level_oid)) || any_other bs

unfoldable pub any_no_access : List Box → Bool
any_no_access [] = false
any_no_access (b ∷ bs) = (b.checked && (b.group == no_access_level_oid)) || any_no_access bs

-- No Access is not checked along with another level.
abbrev pub IsExclusive : List Box → Type 0
IsExclusive boxes = (any_no_access boxes && any_other boxes) ≡ false

any_other-append : (xs bs : List Box) → any_other (xs ++ bs) ≡ (any_other xs || any_other bs)
unfolding any_other
any_other-append [] bs = refl
any_other-append (a ∷ xs) bs = ground (arith, any_other-append xs bs)

any_no_access-append :
    (xs bs : List Box) → any_no_access (xs ++ bs) ≡ (any_no_access xs || any_no_access bs)
unfolding any_no_access
any_no_access-append [] bs = refl
any_no_access-append (a ∷ xs) bs = ground (arith, any_no_access-append xs bs)

-- What a ticked box leaves of the others.
yield-any_other :
    (c : Box) (bs : List Box)
    → (c.group == no_access_level_oid) ≡ true
    → any_other (map (yield_to c) bs) ≡ false
unfolding any_other yield_to
yield-any_other c [] h = refl
yield-any_other c (b ∷ bs) h = ground (arith, h, yield-any_other c bs h)

yield-any_no_access : (c : Box) (bs : List Box) → any_no_access (map (yield_to c) bs) ≡ false
unfolding any_no_access yield_to
yield-any_no_access c [] = refl
yield-any_no_access c (b ∷ bs) = ground (arith, yield-any_no_access c bs)

IsExclusive-ticked :
    (before : List Box) (changed : Box) (after : List Box)
    → changed.checked ≡ true
    → IsExclusive (enforce_exclusive_no_access before changed after)
unfolding enforce_exclusive_no_access any_other any_no_access
IsExclusive-ticked before changed after h = rw h (
    rw (any_other-append, any_no_access-append)
      (elim (Bool-cases (changed.group == no_access_level_oid)) [
        | inl only ↦
            rw
              (
                yield-any_other changed before only,
                yield-any_other changed after only,
                yield-any_no_access changed before,
                yield-any_no_access changed after,
              )
              (ground (arith, only))
        | inr level ↦
            rw (yield-any_no_access changed before, yield-any_no_access changed after)
              (ground (arith, level))
      ]))

IsExclusive-unticked :
    (before : List Box) (changed : Box) (after : List Box)
    → changed.checked ≡ false
    → IsExclusive (before ++ (record changed { checked = true } ∷ after))
    → IsExclusive (enforce_exclusive_no_access before changed after)
unfolding enforce_exclusive_no_access any_other any_no_access
IsExclusive-unticked before changed after h was =
    let was' = rw (any_other-append, any_no_access-append) at was in
    rw h (rw (any_other-append, any_no_access-append) (ground (arith, h, was')))

-- Whichever box is ticked, and in whatever state the form was, No Access is not checked along with
-- another level afterwards; and where a box of an exclusive form is unticked, it stays exclusive.
pub enforce-IsExclusive :
    (before : List Box) (changed : Box) (after : List Box)
    → (changed.checked ≡ true) ⊎ IsExclusive (before ++ (record changed { checked = true } ∷ after))
    → IsExclusive (enforce_exclusive_no_access before changed after)
enforce-IsExclusive before changed after (inl ticked) =
    IsExclusive-ticked before changed after ticked
enforce-IsExclusive before changed after (inr was) = elim (Bool-cases changed.checked) [
  | inl ticked ↦ IsExclusive-ticked before changed after ticked
  | inr unticked ↦ IsExclusive-unticked before changed after unticked was
]
