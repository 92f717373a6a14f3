-- ===== src/Connection/Busy.antt =====
-- `busy` and `unbusy` of httpd/html/javascript/uhppoted.js: `dataset.count` of the windmill, whose
-- text is always the decimal that `toString` gave, so it is kept as the number; `none` where the
-- attribute is missing, which is when the windmill is still.
use Prim.Native.Nat.{◌%◌}
use uhppoted_httpd.Prelude.{
  ℕ, ◌+◌, ◌-◌, ◌<◌, ◌≡◌, refl, ap, ◌∙◌, Option, none, some, List, [], ◌∷◌, arith, ltb, length,
  if◌then◌else◌,
}

-- `n | 0`, then `Math.max(0, …)`: the low 32 bits, read with their sign, and 0 below 0
unfoldable pub clamp : ℕ → ℕ
clamp n = let w = n % 4294967296 in if ltb w 2147483648 then w else 0

unfoldable pub queued : Option ℕ → ℕ
unfolding clamp
queued none = 0
queued (some n) = clamp n

unfoldable pub busy : Option ℕ → Option ℕ
unfolding queued
busy count = some (queued count + 1)

unfoldable pub unbusy : Option ℕ → Option ℕ
unfolding queued
unbusy count = if ltb 1 (queued count) then some (queued count - 1) else none

pub data Call : Type 0 where
  began ended : Call

unfoldable pub step : Call → Option ℕ → Option ℕ
unfolding busy unbusy
step began count = busy count
step ended count = unbusy count

unfoldable pub run : List Call → Option ℕ → Option ℕ
run [] count = count
run (c ∷ cs) count = run cs (step c count)

-- The requests that are out, as a number: one more for each that began, one fewer for each that
-- ended, and never fewer than none.
unfoldable pub outstanding : List Call → ℕ → ℕ
outstanding [] n = n
outstanding (began ∷ cs) n = outstanding cs (n + 1)
outstanding (ended ∷ cs) n = outstanding cs (n - 1)

-- The attribute that stands for a number of requests.
unfoldable pub shown : ℕ → Option ℕ
shown n = if ltb 0 n then some n else none

clamp-small : (n : ℕ) → n < 2147483648 → clamp n ≡ n
unfolding clamp
clamp-small n h = ground (arith, h)

queued-shown : (n : ℕ) → n < 2147483648 → queued (shown n) ≡ n
unfolding queued shown
queued-shown n h = ground (arith, clamp-small n h)

step-began : (n : ℕ) → n < 2147483648 → step began (shown n) ≡ shown (n + 1)
unfolding step busy
step-began n h = rw (queued-shown n h) (unfold shown in ground arith)

step-ended : (n : ℕ) → n < 2147483648 → step ended (shown n) ≡ shown (n - 1)
unfolding step unbusy
step-ended n h = rw (queued-shown n h) (unfold shown in ground arith)

pub busy-shown : (n : ℕ) → n < 2147483648 → busy (shown n) ≡ shown (n + 1)
unfolding step
busy-shown n h = step-began n h

pub unbusy-shown : (n : ℕ) → n < 2147483648 → unbusy (shown n) ≡ shown (n - 1)
unfolding step
unbusy-shown n h = step-ended n h

pub unbusy-busy : (n : ℕ) → n < 2147483647 → unbusy (busy (shown n)) ≡ shown n
unfolding step
unbusy-busy n h =
    ap (step ended) (step-began n (omega (arith, h)))
    ∙ step-ended (n + 1) (omega (arith, h))
    ∙ ap shown (omega arith)

run-shown_from :
    (cs : List Call) (n : ℕ)
    → n + length cs < 2147483648
    → run cs (shown n) ≡ shown (outstanding cs n)
unfolding run outstanding
run-shown_from [] n h = refl
run-shown_from (began ∷ cs) n h =
    rw (step-began n (omega (arith, h))) (run-shown_from cs (n + 1) (omega (arith, h)))
run-shown_from (ended ∷ cs) n h =
    rw (step-ended n (omega (arith, h))) (run-shown_from cs (n - 1) (omega (arith, h)))

-- After any sequence of fewer than 2^31 calls the windmill shows exactly the requests that are out:
-- it is still if there are none, and counts them otherwise.
pub run-shown : (cs : List Call) → length cs < 2147483648 → run cs none ≡ shown (outstanding cs 0)
unfolding shown
run-shown cs h = run-shown_from cs 0 (omega (arith, h))
