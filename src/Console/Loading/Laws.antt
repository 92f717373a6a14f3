-- ===== src/Console/Loading/Laws.antt =====
-- How the loads that follow an empty list of credentials end, `load` of
-- httpd/html/javascript/gate-control.js.
use uhppoted_httpd.Prelude.{
  ℕ, zero, suc, ◌+◌, ◌*◌, ◌≤◌, ◌<◌, Bool, true, false, not, ◌&&◌, ◌≡◌, refl, [], ◌∷◌, none, some,
  ltb, arith, Bool-cases, inl, inr, ◌⊎◌, if◌then◌else◌,
}
use uhppoted_httpd.Value.{Runtime}
use uhppoted_httpd.Db.Tag.{Tag}
use uhppoted_httpd.Db.Store.{Dbc, replace}
use uhppoted_httpd.Console.Loading.{
  Snapshot, Reply, unauthorized, refused, read, Page, shows_cards, has_cards, replace_all,
  load_snapshot, load, follow,
}

-- A snapshot without its entries for the credentials.
abbrev pub without_cards : Snapshot → Snapshot
without_cards [] = []
without_cards ((Tag.cards, values) ∷ rest) = without_cards rest
without_cards (entry ∷ rest) = entry ∷ without_cards rest

module _ (js : Runtime) where
  -- The store once every table that a snapshot names has been replaced by what it holds.
  abbrev pub filled : Snapshot → Dbc → Dbc
  filled [] db = db
  filled ((name, values) ∷ rest) db = filled rest (replace js name (some values) db)

  replace_all-filled : (s : Snapshot) (db : Dbc) → replace_all js false s db ≡ filled s db
  unfolding replace_all
  replace_all-filled [] db = refl
  replace_all-filled ((name, values) ∷ rest) db = replace_all-filled rest _

  retained_lem : (s : Snapshot) (db : Dbc) → replace_all js true s db ≡ filled (without_cards s) db
  unfolding replace_all
  retained_lem [] db = refl
  retained_lem ((Tag.cards, values) ∷ rest) db = retained_lem rest db
  retained_lem ((Tag.interfaces, values) ∷ rest) db = retained_lem rest _
  retained_lem ((Tag.controllers, values) ∷ rest) db = retained_lem rest _
  retained_lem ((Tag.doors, values) ∷ rest) db = retained_lem rest _
  retained_lem ((Tag.groups, values) ∷ rest) db = retained_lem rest _
  retained_lem ((Tag.events, values) ∷ rest) db = retained_lem rest _
  retained_lem ((Tag.logs, values) ∷ rest) db = retained_lem rest _
  retained_lem ((Tag.users, values) ∷ rest) db = retained_lem rest _
  retained_lem ((Tag.other, values) ∷ rest) db = retained_lem rest _

  -- A load after which another is to follow: the page shows the credentials, and the snapshot has
  -- replaced every table that it names, but for the credentials where the page had some and the
  -- snapshot has none.
  pub record IsRetry (on_cards : Bool) (s : Snapshot) (page page' : Page) : Type 0 where
    pub shown : on_cards ≡ true
    pub counted : page'.retries ≡ page.retries + 1
    pub few : page'.retries ≤ 4
    pub delay : page'.timer ≡ some (page'.retries * 500)
    pub store :
        page'.store
        ≡ filled
            (if shows_cards page.store && not (has_cards s) then without_cards s else s)
            page.store

  -- A load after which none is to follow, for each reply: a snapshot has replaced every table that it
  -- names, and a failure leaves the store as it was.
  abbrev pub IsLast : Reply → Page → Page → Type 0
  IsLast unauthorized page page' = (page'.store ≡ page.store) × (page'.timer ≡ none)
  IsLast (refused message) page page' =
      (page'.store ≡ page.store)
      × (page'.notice ≡ message)
      × (page'.online ≡ false)
      × (page'.timer ≡ none)
  IsLast (read s) page page' =
      (page'.store ≡ filled s page.store) × (page'.online ≡ true) × (page'.timer ≡ none)

  -- Loads one after another, the last of which is the last, and all others of which are followed by one.
  pub data IsTaken (on_cards : ℕ → Bool) (replies : ℕ → Reply) : ℕ → Page → Page → Type 0 where
    last :
        {n : ℕ} {page page' : Page}
        → IsLast (replies n) page page'
        → IsTaken on_cards replies (suc n) page page'
    retry :
        {n : ℕ} {page next page' : Page} (s : Snapshot)
        → replies n ≡ read s
        → IsRetry (on_cards n) s page next
        → IsTaken on_cards replies n next page'
        → IsTaken on_cards replies (suc n) page page'

  finish :
      (on_cards shown few : Bool) (s : Snapshot) (page : Page) (store' : Dbc)
      → store' ≡ filled s page.store
      → (few ≡ true → page.retries < 4)
      → (on_cards && ((shows_cards page.store) && (not (has_cards s) && few))) ≡ false
      → let page' : Page = record page {
        store = store';
        online = true;
        notice = "";
        timer = none;
      } in
        let next : Page =
          if on_cards && (not shown && few)
          then record page' { retries = page.retries + 1; timer = some ((page.retries + 1) * 500) }
          else if shown
          then record page' { retries = 0; timer = none }
          else page' in
        IsRetry on_cards s page next ⊎ IsLast (read s) page next
  finish true false true s page store' e h w = inl (record {
    shown = refl;
    counted = refl;
    few = omega (arith, h refl);
    delay = refl;
    store = rw (whole (shows_cards page.store) (has_cards s) w) e;
  })
    where
      whole : (a b : Bool) → (a && (not b && true)) ≡ false → (a && not b) ≡ false
      whole a b h = ground (arith, h)
  finish true false false s page store' e h w = inr (e, refl, refl)
  finish true true few s page store' e h w = inr (e, refl, refl)
  finish false false few s page store' e h w = inr (e, refl, refl)
  finish false true few s page store' e h w = inr (e, refl, refl)

  load_snapshot-cases :
      (on_cards : Bool) (s : Snapshot) (page : Page)
      → let next = load_snapshot js on_cards s (record page { timer = none }) in
        IsRetry on_cards s page next ⊎ IsLast (read s) page next
  unfolding load_snapshot
  load_snapshot-cases on_cards s page =
      elim (Bool-cases
        (on_cards && (shows_cards page.store && (not (has_cards s) && ltb page.retries 4)))) [
          | inl kept ↦ rw kept (
              inl (record {
                shown = ground (arith, kept);
                counted = refl;
                few = ground (arith, kept);
                delay = refl;
                store =
                    rw (has_one on_cards (shows_cards page.store) (has_cards s) _ kept)
                      (retained_lem s page.store);
              }))
          | inr whole ↦ rw whole (
              finish on_cards (shows_cards (replace_all js false s page.store)) (ltb page.retries 4)
                s page (replace_all js false s page.store) (replace_all-filled s page.store)
                (λ e. ground (arith, e)) whole)
        ]
    where
      has_one : (a b c d : Bool) → (a && (b && (not c && d))) ≡ true → (b && not c) ≡ true
      has_one a b c d h = ground (arith, h)

  abbrev IsFollowed : (ℕ → Bool) → (ℕ → Reply) → ℕ → Type 0
  IsFollowed on_cards replies n =
      (next : Page)
      → 4 < n + next.retries
      → 0 < n
      → IsTaken on_cards replies n next (follow js n on_cards replies next)

  -- Where `n` loads and the retries counted before are more than four, with at least one load, the
  -- loads that the timer starts come to an end within `n`, whatever page is shown and whatever the
  -- server replies at each: each load that another follows is of a snapshot, on the page of the
  -- credentials, is counted, at most the fourth, sets the timer for that many half seconds, and has
  -- replaced every table that its snapshot names, but for the credentials where there were some and
  -- the snapshot has none; the last load, of a snapshot, has replaced every table that it names, the
  -- credentials too, and one that fails has left the store as it was; the timer is then not set.
  pub follow-IsTaken :
      (n : ℕ) (on_cards : ℕ → Bool) (replies : ℕ → Reply) (page : Page)
      → 4 < n + page.retries
      → 0 < n
      → IsTaken on_cards replies n page (follow js n on_cards replies page)
  unfolding follow load
  follow-IsTaken zero on_cards replies page enough some' = absurd (omega arith)
  follow-IsTaken (suc n) on_cards replies page enough some' =
      answered (replies n) refl (λ next. follow-IsTaken n on_cards replies next)
    where
      again :
          (s : Snapshot) (next : Page)
          → replies n ≡ read s
          → IsFollowed on_cards replies n
          → IsRetry (on_cards n) s page next ⊎ IsLast (read s) page next
          → IsTaken on_cards replies
              (suc n)
              page
              (elim next.timer [ none ↦ next | some _ ↦ follow js n on_cards replies next ])
      again s next e later (inl more) = rw more.delay (
          IsTaken.retry s e more (
            later next (omega (arith, more.counted, more.few, enough))
              (omega (arith, more.counted, more.few, enough))))
      again s next e later (inr (whole, online, stopped)) =
          rw stopped (IsTaken.last (rw e (whole, online, stopped)))

      answered :
          (r : Reply)
          → replies n ≡ r
          → IsFollowed on_cards replies n
          → let next = load js (on_cards n) r (record page { timer = none }) in
            IsTaken on_cards replies
              (suc n)
              page
              (elim next.timer [ none ↦ next | some _ ↦ follow js n on_cards replies next ])
      answered unauthorized e later = IsTaken.last (rw e (refl, refl))
      answered (refused message) e later = IsTaken.last (rw e (refl, refl, refl, refl))
      answered (read s) e later = again s _ e later (load_snapshot-cases (on_cards n) s page)
