-- ===== src/Pages/Columns/Laws.antt =====
-- What becomes of the columns of a row of httpd/html/javascript/cards.js and groups.js.
use uhppoted_httpd.Prelude.{
  String, Bool, true, false, not, ◌||◌, ◌&&◌, ◌≡◌, refl, sym, ap, ◌∙◌, List, [], ◌∷◌, ◌++◌, map,
  All, All-if, Bool-cases, inl, inr, eq_iff, eq_refl, if◌then◌else◌,
}
use uhppoted_httpd.Text.{◌==◌}
use uhppoted_httpd.Oid.Laws.{IsBase}
use uhppoted_httpd.Console.Records.{contains}
use uhppoted_httpd.Access.Membership.{card_group_oid, group_door_oid}
use uhppoted_httpd.Access.Membership.Laws.{match_record_self}
use uhppoted_httpd.Pages.Rows.{Column, Row}
use uhppoted_httpd.Pages.Rows.Laws.{self-contains}
use uhppoted_httpd.Pages.Columns.{
  has_column, missing_columns, surplus_columns, remove_columns, number_in, group_column,
  door_column, sync_columns,
}

-- the columns whose record is listed
abbrev pub listed_columns : List String → List Column → List Column
listed_columns oids [] = []
listed_columns oids (c ∷ cs) =
    if contains c.key oids then c ∷ listed_columns oids cs else listed_columns oids cs

surplus_columns-contains :
    (k : String) (oids : List String) (cols : List Column)
    → contains k (surplus_columns oids cols) ≡ (has_column k cols && not (contains k oids))
unfolding surplus_columns has_column
surplus_columns-contains k oids [] = refl
surplus_columns-contains k oids (c ∷ cs) = elim (Bool-cases (contains c.key oids)) [
  | inl listed ↦ rw listed (
      surplus_columns-contains k oids cs
      ∙ kept (c.key == k) (has_column k cs) (contains k oids)
          (λ here. ap (λ t. contains t oids) (sym ((eq_iff c.key k).0 here)) ∙ listed))
  | inr gone ↦ rw gone (
      ap (λ t. (c.key == k) || t) (surplus_columns-contains k oids cs)
      ∙ taken (c.key == k) (has_column k cs) (contains k oids)
          (λ here. ap (λ t. contains t oids) (sym ((eq_iff c.key k).0 here)) ∙ gone))
]
  where
    kept :
        (hit has there : Bool)
        → (hit ≡ true → there ≡ true)
        → (has && not there) ≡ ((if hit then true else has) && not there)
    kept true has there h = rw (h refl) (none has)
      where
        none : (has : Bool) → (has && false) ≡ false
        none true = refl
        none false = refl
    kept false has there h = refl

    taken :
        (hit has there : Bool)
        → (hit ≡ true → there ≡ false)
        → (hit || (has && not there)) ≡ ((if hit then true else has) && not there)
    taken true has there h = rw (h refl) refl
    taken false has there h = refl

remove_columns-append :
    (keys : List String) (cs ds : List Column)
    → remove_columns keys (cs ++ ds) ≡ remove_columns keys cs ++ remove_columns keys ds
unfolding remove_columns
remove_columns-append keys [] ds = refl
remove_columns-append keys (c ∷ cs) ds = go (contains c.key keys) (remove_columns-append keys cs ds)
  where
    go :
        (b : Bool)
        → remove_columns keys (cs ++ ds) ≡ remove_columns keys cs ++ remove_columns keys ds
        → (if b then remove_columns keys (cs ++ ds) else c ∷ remove_columns keys (cs ++ ds))
          ≡ (if b then remove_columns keys cs else c ∷ remove_columns keys cs)
            ++ remove_columns keys ds
    go true e = e
    go false e = ap (λ t. c ∷ t) e

-- A column that is there is taken out exactly if its record is not listed, and none that is put in.
remove_columns-listed :
    (oids : List String) (all cs : List Column)
    → All (λ c. has_column c.key all ≡ true) cs
    → remove_columns (surplus_columns oids all) cs ≡ listed_columns oids cs
unfolding remove_columns
remove_columns-listed oids all [] h = refl
remove_columns-listed oids all (c ∷ cs) (e, h) =
    rw (surplus_columns-contains c.key oids all, e, remove_columns-listed oids all cs h)
      (swap (contains c.key oids))
  where
    swap :
        (b : Bool)
        → (if not b then listed_columns oids cs else c ∷ listed_columns oids cs)
          ≡ (if b then c ∷ listed_columns oids cs else listed_columns oids cs)
    swap true = refl
    swap false = refl

remove_columns-new :
    (oids : List String) (all : List Column) (make : String → Column)
    → ((k : String) → (make k).key ≡ k)
    → (ks : List String) → All (λ k. contains k oids ≡ true) ks
    → remove_columns (surplus_columns oids all) (map make ks) ≡ map make ks
unfolding remove_columns
remove_columns-new oids all make own [] h = refl
remove_columns-new oids all make own (k ∷ ks) (e, h) =
    rw (remove_columns-new oids all make own ks h) (
      ap (λ b. if b then map make ks else make k ∷ map make ks)
        (ap (λ t. contains t (surplus_columns oids all)) (own k)
          ∙ surplus_columns-contains k oids all
          ∙ ap (λ t. has_column k all && not t) e
          ∙ none (has_column k all)))
  where
    none : (has : Bool) → (has && false) ≡ false
    none true = refl
    none false = refl

self-has_column : (cs : List Column) → All (λ c. has_column c.key cs ≡ true) cs
unfolding has_column
self-has_column [] = tt
self-has_column (c ∷ cs) = (rw (eq_refl c.key) refl, further cs (self-has_column cs))
  where
    further :
        (ds : List Column)
        → All (λ d. has_column d.key cs ≡ true) ds
        → All (λ d. has_column d.key (c ∷ cs) ≡ true) ds
    further [] h = tt
    further (d ∷ ds) (e, h) = (either (c.key == d.key) (has_column d.key cs) e, further ds h)
      where
        either : (b has : Bool) → has ≡ true → (if b then true else has) ≡ true
        either true has e = refl
        either false has e = e

missing_columns-contains :
    (all oids : List String) (cols : List Column)
    → All (λ k. contains k all ≡ true) oids
    → All (λ k. contains k all ≡ true) (missing_columns oids cols)
unfolding missing_columns
missing_columns-contains all [] cols h = tt
missing_columns-contains all (o ∷ os) cols (e, h) =
    All-if (λ k. contains k all ≡ true) _ o (missing_columns os cols) e
      (missing_columns-contains all os cols h)

has_column-append :
    (k : String) (cs ds : List Column)
    → has_column k (cs ++ ds) ≡ (has_column k cs || has_column k ds)
unfolding has_column
has_column-append k [] ds = refl
has_column-append k (c ∷ cs) ds =
    ap (λ t. if c.key == k then true else t) (has_column-append k cs ds)
    ∙ either (c.key == k) (has_column k cs) (has_column k ds)
  where
    either : (b x y : Bool) → (if b then true else (x || y)) ≡ ((if b then true else x) || y)
    either true x y = refl
    either false x y = refl

listed_columns-has :
    (k : String) (oids : List String) (cs : List Column)
    → has_column k (listed_columns oids cs) ≡ (has_column k cs && contains k oids)
unfolding has_column
listed_columns-has k oids [] = refl
listed_columns-has k oids (c ∷ cs) = elim (Bool-cases (contains c.key oids)) [
  | inl listed ↦
      rw (listed, listed_columns-has k oids cs)
        (kept (c.key == k) (has_column k cs) (contains k oids)
          (λ here. ap (λ t. contains t oids) (sym ((eq_iff c.key k).0 here)) ∙ listed))
  | inr gone ↦
      rw (gone, listed_columns-has k oids cs)
        (left (c.key == k) (has_column k cs) (contains k oids)
          (λ here. ap (λ t. contains t oids) (sym ((eq_iff c.key k).0 here)) ∙ gone))
]
  where
    kept :
        (hit has there : Bool)
        → (hit ≡ true → there ≡ true)
        → (if hit then true else (has && there)) ≡ ((if hit then true else has) && there)
    kept true has there h = sym (h refl)
    kept false has there h = refl

    left :
        (hit has there : Bool)
        → (hit ≡ true → there ≡ false)
        → (has && there) ≡ ((if hit then true else has) && there)
    left true true there h = refl
    left true false there h = sym (h refl)
    left false has there h = refl

made-has :
    (make : String → Column)
    → ((k : String) → (make k).key ≡ k)
    → (k : String) (ks : List String) → has_column k (map make ks) ≡ contains k ks
unfolding has_column
made-has make own k [] = refl
made-has make own k (x ∷ ks) = rw (own x, made-has make own k ks) (either (x == k) (contains k ks))
  where
    either : (b t : Bool) → (if b then true else t) ≡ (b || t)
    either true t = refl
    either false t = refl

missing_columns-has :
    (k : String) (oids : List String) (cols : List Column)
    → contains k (missing_columns oids cols)
      ≡ (contains k oids && ((k == "") || not (has_column k cols)))
unfolding missing_columns
missing_columns-has k [] cols = refl
missing_columns-has k (o ∷ os) cols = elim (Bool-cases ((o == "") || not (has_column o cols))) [
  | inl put ↦
      rw (put, missing_columns-has k os cols)
        (kept (o == k) (contains k os) ((k == "") || not (has_column k cols)) (λ here.
          ap (λ t. (t == "") || not (has_column t cols)) (sym ((eq_iff o k).0 here)) ∙ put))
  | inr out ↦
      rw (out, missing_columns-has k os cols)
        (left (o == k) (contains k os) ((k == "") || not (has_column k cols)) (λ here.
          ap (λ t. (t == "") || not (has_column t cols)) (sym ((eq_iff o k).0 here)) ∙ out))
]
  where
    kept :
        (hit has there : Bool)
        → (hit ≡ true → there ≡ true)
        → (hit || (has && there)) ≡ ((hit || has) && there)
    kept true has there h = sym (h refl)
    kept false has there h = refl

    left :
        (hit has there : Bool)
        → (hit ≡ true → there ≡ false)
        → (has && there) ≡ ((hit || has) && there)
    left true true there h = refl
    left true false there h = sym (h refl)
    left false has there h = refl

-- The columns after `realize` are those of the listed records.
synced-has :
    (make : String → Column)
    → ((k : String) → (make k).key ≡ k)
    → (k : String) (oids : List String) (cols : List Column)
    → has_column k (listed_columns oids cols ++ map make (missing_columns oids cols))
      ≡ contains k oids
synced-has make own k oids cols =
    has_column-append k (listed_columns oids cols) _
    ∙ rw
        (
          listed_columns-has k oids cols,
          made-has make own k (missing_columns oids cols),
          missing_columns-has k oids cols,
        )
        (whole (has_column k cols) (contains k oids) (k == ""))
  where
    whole : (has there e : Bool) → ((has && there) || (there && (e || not has))) ≡ there
    whole true true e = refl
    whole true false e = refl
    whole false true true = refl
    whole false true false = refl
    whole false false e = refl

-- Whatever the columns of a row and the listed records: after `realize`, the row of a card has the
-- columns of the listed access levels that it had, in their order, and then one for each listed level
-- that had none (or has no OID), whose field has the OID of the membership; and likewise that of a
-- level for the doors, with the OIDs of the permissions. The rest of the row is as it was, and a
-- record has a column in the row exactly if it is listed.
pub sync_columns-exact :
    (oids : List String) (row : Row)
    → (sync_columns group_column oids row ≡ record row {
      columns =
          listed_columns oids row.columns
          ++ map (group_column row) (missing_columns oids row.columns);
    })
      × (sync_columns door_column oids row ≡ record row {
        columns =
            listed_columns oids row.columns
            ++ map (door_column row) (missing_columns oids row.columns);
      })
      × ((group : String)
          → IsBase "0.5." group
          → (group_column row group).cell.oid ≡ card_group_oid row.oid group)
      × ((door : String)
          → IsBase "0.3." door
          → (door_column row door).cell.oid ≡ group_door_oid row.oid door)
      × ((key : String)
          → (has_column key (sync_columns group_column oids row).columns ≡ contains key oids)
            × (has_column key (sync_columns door_column oids row).columns ≡ contains key oids))
unfolding sync_columns group_column door_column number_in card_group_oid group_door_oid
sync_columns-exact oids row = (
  ap (λ t. record row { columns = t }) (columns (group_column row) (λ k. refl)),
  ap (λ t. record row { columns = t }) (columns (door_column row) (λ k. refl)),
  (λ group g. rw (card_group_oid, number_in, match_record_self "0.5." group g) refl),
  (λ door d. rw (group_door_oid, number_in, match_record_self "0.3." door d) refl),
  (λ key. (has (group_column row) (λ k. refl) key, has (door_column row) (λ k. refl) key)),
)
  where
    columns :
        (make : String → Column)
        → ((k : String) → (make k).key ≡ k)
        → remove_columns
            (surplus_columns oids row.columns)
            (row.columns ++ map make (missing_columns oids row.columns))
          ≡ listed_columns oids row.columns ++ map make (missing_columns oids row.columns)
    columns make own =
        remove_columns-append (surplus_columns oids row.columns) row.columns _
        ∙ ap
            (λ t.
              t
              ++ remove_columns (surplus_columns oids row.columns)
                  (map make (missing_columns oids row.columns)))
            (remove_columns-listed oids row.columns row.columns (self-has_column row.columns))
        ∙ ap (λ t. listed_columns oids row.columns ++ t)
            (remove_columns-new oids row.columns make own (missing_columns oids row.columns)
              (missing_columns-contains oids oids row.columns (self-contains oids)))

    has :
        (make : String → Column)
        → ((k : String) → (make k).key ≡ k)
        → (k : String)
        → has_column k (
            remove_columns
              (surplus_columns oids row.columns)
              (row.columns ++ map make (missing_columns oids row.columns)))
          ≡ contains k oids
    has make own k = ap (has_column k) (columns make own) ∙ synced-has make own k oids row.columns
