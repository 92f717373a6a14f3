-- ===== src/Connection/Monitor.antt =====
-- `connected` of httpd/html/javascript/uhppoted.js. The clock is in milliseconds; `Math.round` and
-- `Math.floor` are written out on whole numbers, and `Math.max(0, …)` is the difference that stops at 0.
use Prim.Native.Nat.{◌/◌}
use mathlib.Core.Option.{some-injective}
use uhppoted_httpd.Prelude.{
  ℕ, ◌+◌, ◌-◌, ◌≤◌, String, Bool, true, false, ◌||◌, not, ◌≡◌, refl, Option, none, some, List, [],
  ◌∷◌, ◌↔◌, arith, ltb, or_else, ◌⊎◌, inl, inr, if◌then◌else◌,
}

-- `header #disconnected`
pub record Banner : Type 0 where
  pub visible : Bool
  pub message : String

pub record Link : Type 0 where
  pub banner : Option Banner
  pub disconnected : Option ℕ
  pub is_offline : Bool  -- `offline()` has run

-- the first `if (element)`; `monitor` is the mode of the page's constants
unfoldable pub announce : Bool → Bool → Banner → Banner
announce monitor ok b =
    if not ok
    then record b { visible = true; message = "disconnected" }
    else if monitor
    then record b { visible = true; message = "monitor" }
    else record b { visible = false }

unfoldable pub seconds : ℕ → ℕ → ℕ
seconds now since = (now - since + 500) / 1000

unfoldable pub connected : Bool → Bool → ℕ → Link → Link
unfolding announce seconds
connected monitor ok now l =
    let l' = record l {
      banner = elim l.banner [ none ↦ none | some b ↦ some (announce monitor ok b) ];
    } in
    if ok then record l' { disconnected = none } else elim l.disconnected [
      | none ↦ record l' { disconnected = some now }
      | some since ↦ if ltb 60 (seconds now since) then record l' { is_offline = true } else l'
    ]

-- The replies to the requests, each with whether it came and when.
unfoldable pub run : Bool → List (Bool × ℕ) → Link → Link
run monitor [] l = l
run monitor ((ok, now) ∷ rest) l = run monitor rest (connected monitor ok now l)

-- When the first failure since the last success was; `since` is the answer for the calls before.
unfoldable pub failing_since : List (Bool × ℕ) → Option ℕ → Option ℕ
failing_since [] since = since
failing_since ((true, now) ∷ rest) since = failing_since rest none
failing_since ((false, now) ∷ rest) since = failing_since rest (some (or_else now since))

long : (now since : ℕ) → (ltb 60 (seconds now since) ≡ true) ↔ (since + 60500 ≤ now)
unfolding seconds
long now since = ground arith

-- What a failure does: to the time of the first one, and to the page.
failed-since :
    (monitor : Bool) (now : ℕ) (l : Link)
    → (connected monitor false now l).disconnected ≡ some (or_else now l.disconnected)
unfolding connected
failed-since monitor now l = ground arith

ok-since :
    (monitor : Bool) (now : ℕ) (l : Link) → (connected monitor true now l).disconnected ≡ none
unfolding connected
ok-since monitor now l = refl

failed-offline_since :
    (monitor : Bool) (now s : ℕ) (l : Link)
    → l.disconnected ≡ some s
    → (connected monitor false now l).is_offline ≡ (l.is_offline || ltb 60 (seconds now s))
unfolding connected
failed-offline_since monitor now s l h = rw h (
    branch
      (record l {
        banner = elim l.banner [ none ↦ none | some b ↦ some (announce monitor false b) ];
      })
      (ltb 60 (seconds now s)))
  where
    branch :
        (m : Link) (late : Bool)
        → (if late then record m { is_offline = true } else m).is_offline ≡ (m.is_offline || late)
    branch m late = ground arith

late_iff :
    (off : Bool) (now s : ℕ)
    → ((off || ltb 60 (seconds now s)) ≡ true)
      ↔ ((off ≡ true) ⊎ ((t : ℕ) × (some s ≡ some t) × (t + 60500 ≤ now)))
late_iff true now s = (λ _. inl refl, λ _. refl)
late_iff false now s = (
  (λ late. inr (s, refl, (long now s).0 late)),
  λ g. elim g [
    | inl off ↦ cc
    | inr (t, same, le) ↦
        let e : s ≡ t = some-injective _ _ same in (long now s).1 (omega (arith, e, le))
  ],
)

failed-offline :
    (monitor : Bool) (now : ℕ) (l : Link) (since : Option ℕ)
    → l.disconnected ≡ since
    → ((connected monitor false now l).is_offline ≡ true)
      ↔ ((l.is_offline ≡ true) ⊎ ((t : ℕ) × (since ≡ some t) × (t + 60500 ≤ now)))
unfolding connected
failed-offline monitor now l none h =
    rw h ((λ off. inl off), λ g. elim g [ inl off ↦ off | inr (t, same, _) ↦ cc ])
failed-offline monitor now l (some s) h =
    rw (failed-offline_since monitor now s l h) (late_iff l.is_offline now s)

run-since :
    (monitor : Bool) (replies : List (Bool × ℕ)) (l : Link)
    → (run monitor replies l).disconnected ≡ failing_since replies l.disconnected
unfolding run failing_since
run-since monitor [] l = refl
run-since monitor ((true, now) ∷ rest) l =
    rw (run-since monitor rest (connected monitor true now l), ok-since monitor now l) refl
run-since monitor ((false, now) ∷ rest) l =
    rw (run-since monitor rest (connected monitor false now l), failed-since monitor now l) refl

-- Whatever replies there were, a request that fails leaves the page offline exactly if it was so
-- already, or the first failure after the last success was at least 60.5 seconds before.
pub offline-exact :
    (monitor : Bool) (replies : List (Bool × ℕ)) (now : ℕ) (l : Link)
    → let l' = run monitor replies l in
      ((connected monitor false now l').is_offline ≡ true) ↔ (
        (l'.is_offline ≡ true)
        ⊎ ((t : ℕ) × (failing_since replies l.disconnected ≡ some t) × (t + 60500 ≤ now)))
offline-exact monitor replies now l =
    failed-offline monitor now (run monitor replies l) (failing_since replies l.disconnected)
      (run-since monitor replies l)
