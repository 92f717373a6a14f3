-- ===== src/Tabular/Request/Refresh.antt =====
-- How long `get` and `onRefresh` of httpd/html/javascript/tabular.js show the windmill.
use uhppoted_httpd.Prelude.{
  ℕ, ◌+◌, ◌-◌, ◌<◌, Bool, true, false, not, ◌||◌, ◌&&◌, List, [], ◌∷◌, Option, none, some, nat_eq,
  length, if◌then◌else◌, arith, ◌≡◌, refl, ap, ◌∙◌,
}
use uhppoted_httpd.Value.{Runtime}
use uhppoted_httpd.Connection.Busy.{busy, unbusy, shown, unbusy-busy, busy-shown, unbusy-shown}
use uhppoted_httpd.Tabular.Field.{}
use uhppoted_httpd.Tabular.Request.{
  Progress, is_open, open_, resolved, rejected, receive, receive_all, get, on_refresh, resolve,
  reject, World, Reply, redirected, answered, lost,
}

-- How far a refresh comes with a list of replies.
unfoldable pub is_accepted : Reply → Bool
is_accepted (answered status body json) =
    nat_eq status 200 && (elim json [ none ↦ false | some _ ↦ true ])
is_accepted _ = false

unfoldable pub is_refused : Reply → Bool
is_refused (answered status body json) = not (nat_eq status 200)
is_refused _ = false

unfoldable pub all_accepted : List Reply → Bool
all_accepted [] = true
all_accepted (r ∷ rs) = is_accepted r && all_accepted rs

unfoldable pub any_refused : List Reply → Bool
any_refused [] = false
any_refused (r ∷ rs) = is_refused r || any_refused rs

-- How one reply, and a list of them, moves the promises.
unfoldable pub next : Reply → Progress → Progress
next r (open_ n) =
    if is_accepted r
    then (if nat_eq n 1 then resolved else open_ (n - 1))
    else if is_refused r
    then rejected
    else open_ n
next r p = p

unfoldable pub ends : List Reply → Progress → Progress
ends [] p = p
ends (r ∷ rs) p = ends rs (next r p)

receive-next :
    (js : Runtime) (r : Reply) (p : Progress) (w : World) → (receive js r (p, w)).0 ≡ next r p
unfolding receive next is_accepted is_refused
receive-next js (redirected url) (open_ n) w = refl
receive-next js (lost why) (open_ n) w = refl
receive-next js (answered status body none) (open_ n) w = ground arith
receive-next js (answered status body (some recordsets)) (open_ n) w = ground arith
receive-next js (redirected url) _ w = refl
receive-next js (lost why) _ w = refl
receive-next js (answered status body none) _ w = ground arith
receive-next js (answered status body (some recordsets)) _ w = ground arith

receive-windmill :
    (js : Runtime) (r : Reply) (p : Progress) (w : World)
    → (receive js r (p, w)).1.windmill
      ≡ (if is_open p && not (is_open (next r p)) then unbusy w.windmill else w.windmill)
unfolding receive next is_accepted is_refused is_open resolve reject
receive-windmill js (redirected url) (open_ n) w = refl
receive-windmill js (lost why) (open_ n) w = refl
receive-windmill js (answered status body none) (open_ n) w = ground arith
receive-windmill js (answered status body (some recordsets)) (open_ n) w = ground arith
receive-windmill js (redirected url) _ w = refl
receive-windmill js (lost why) _ w = refl
receive-windmill js (answered status body none) _ w = ground arith
receive-windmill js (answered status body (some recordsets)) _ w = ground arith

-- What has ended stays so.
next-ended : (r : Reply) (p : Progress) → is_open p ≡ false → next r p ≡ p
unfolding next is_open
next-ended r (open_ n) h = cc
next-ended r resolved h = refl
next-ended r rejected h = refl

ends-ended : (rs : List Reply) (p : Progress) → is_open p ≡ false → is_open (ends rs p) ≡ false
unfolding ends
ends-ended [] p h = h
ends-ended (r ∷ rs) p h = rw (next-ended r p h) (ends-ended rs p h)

-- The windmill is released once, when the last promise closes or the first is refused.
once :
    (before now after : Bool) (n : Option ℕ)
    → (before ≡ false → now ≡ false)
    → (now ≡ false → after ≡ false)
    → (if now && not after
        then unbusy (if before && not now then unbusy n else n)
        else (if before && not now then unbusy n else n))
      ≡ (if before && not after then unbusy n else n)
once true true after n h k = ground arith
once true false after n h k = rw (k refl) refl
once false now after n h k = rw (k (h refl), h refl) refl

receive_all-windmill :
    (js : Runtime) (rs : List Reply) (p : Progress) (w : World)
    → (receive_all js rs (p, w)).1.windmill
      ≡ (if is_open p && not (is_open (ends rs p)) then unbusy w.windmill else w.windmill)
unfolding receive_all ends
receive_all-windmill js [] p w = nothing (is_open p)
  where
    nothing : (a : Bool) → w.windmill ≡ (if a && not a then unbusy w.windmill else w.windmill)
    nothing a = ground arith
receive_all-windmill js (r ∷ rs) p w =
    rw
      (
        receive_all-windmill js rs (receive js r (p, w)).0 (receive js r (p, w)).1,
        receive-next js r p w,
        receive-windmill js r p w,
      )
      (once (is_open p) (is_open (next r p)) (is_open (ends rs (next r p))) w.windmill
        (λ h. rw (next-ended r p h) h) (ends-ended rs (next r p)))

accepted-not_refused : (r : Reply) → is_accepted r ≡ true → is_refused r ≡ false
unfolding is_accepted is_refused
accepted-not_refused (redirected url) h = refl
accepted-not_refused (lost why) h = refl
accepted-not_refused (answered status body json) h = ground arith

-- What the first reply does to the promises, as an equation.
is_open-next :
    (r : Reply) (rs : List Reply) (n : ℕ)
    → is_open (ends rs (next r (open_ n))) ≡ (
        if is_accepted r
        then (if nat_eq n 1 then false else is_open (ends rs (open_ (n - 1))))
        else if is_refused r
        then false
        else is_open (ends rs (open_ n)))
unfolding next
is_open-next r rs n = ground (
  arith,
  ends-ended rs resolved (unfold is_open in refl),
  ends-ended rs rejected (unfold is_open in refl),
)

-- With fewer replies than open promises only a refusal ends the refresh.
ends_few :
    (rs : List Reply) (n : ℕ) → length rs < n → is_open (ends rs (open_ n)) ≡ not (any_refused rs)
unfolding ends any_refused is_open
ends_few [] n h = refl
ends_few (r ∷ rs) n h =
    rw (is_open-next r rs n)
      (ground (arith, accepted-not_refused r, ends_few rs (n - 1), ends_few rs n))

-- With as many, that or their all being accepted.
ends_all :
    (rs : List Reply) (n : ℕ)
    → length rs ≡ n
    → 0 < n
    → is_open (ends rs (open_ n)) ≡ not (all_accepted rs || any_refused rs)
unfolding ends any_refused all_accepted is_open
ends_all [] n h k = absurd (omega (arith, h, k))
ends_all (r ∷ []) n h k =
    rw (is_open-next r [] n) (ground (arith, accepted-not_refused r, ends_few [] n))
ends_all (r ∷ q ∷ rs) n h k =
    rw (is_open-next r (q ∷ rs) n)
      (ground (arith, accepted-not_refused r, ends_few (q ∷ rs) n, ends_all (q ∷ rs) (n - 1)))

get-windmill :
    (js : Runtime) (n : ℕ) (replies : List Reply) (w : World)
    → length replies ≡ n
    → 0 < n
    → (get js n replies w).windmill
      ≡ (if all_accepted replies || any_refused replies then unbusy w.windmill else w.windmill)
unfolding get is_open
get-windmill js n replies w h k =
    ground (arith, receive_all-windmill js replies (open_ n) w, ends_all replies n h k)

-- A refresh of a page with at least one URL and fewer than 2^31 - 1 requests out, once all replies are
-- there: the windmill counts one request more if it was asked for by the button, and one fewer if
-- every reply was taken or one was refused. Where a reply was a redirection, was lost or could not be
-- read, and none was refused, the count is never taken down again.
pub refresh-windmill :
    (js : Runtime) (button : Bool) (replies : List Reply) (w : World) (m : ℕ)
    → 0 < length replies
    → w.windmill ≡ shown m
    → m < 2147483647
    → (on_refresh js button (length replies) replies w).windmill
      ≡ shown (
          (m + (if button then 1 else 0))
          - (if all_accepted replies || any_refused replies then 1 else 0))
unfolding on_refresh
refresh-windmill js true replies w m k h b =
    rw
      (
        get-windmill js (length replies) replies
            (record w { windmill = busy w.windmill; message = none }) refl k,
        h,
      )
      (release (all_accepted replies || any_refused replies))
  where
    release :
        (done : Bool)
        → (if done then unbusy (busy (shown m)) else busy (shown m))
          ≡ shown ((m + 1) - (if done then 1 else 0))
    release true = unbusy-busy m b ∙ ap shown (omega arith)
    release false = busy-shown m (omega (arith, b)) ∙ ap shown (omega arith)
refresh-windmill js false replies w m k h b =
    rw (get-windmill js (length replies) replies w refl k, h)
      (release (all_accepted replies || any_refused replies))
  where
    release :
        (done : Bool)
        → (if done then unbusy (shown m) else shown m) ≡ shown ((m + 0) - (if done then 1 else 0))
    release true = unbusy-shown m (omega (arith, b)) ∙ ap shown (omega arith)
    release false = ap shown (omega arith)
