-- ===== src/Tabular/Request/Laws.antt =====
-- How `commit` of httpd/html/javascript/tabular.js ends, for each reply.
use uhppoted_httpd.Prelude.{
  ℕ, ◌<◌, String, Bool, true, false, not, List, [], ◌∷◌, map, Option, none, some, nat_eq,
  if◌then◌else◌, arith, ◌≡◌, refl,
}
use uhppoted_httpd.Text.{◌++◌ as ◌<>◌}
use uhppoted_httpd.Db.Store.{Dbc}
use uhppoted_httpd.Value.{Runtime}
use uhppoted_httpd.Connection.Busy.{shown, unbusy-busy}
use uhppoted_httpd.Tabular.Field.{
  Field, Class, Place, mark_parent, put, put_parent, submit, reset, cleanup,
}
use uhppoted_httpd.Tabular.Request.{
  World, Recordsets, Reply, redirected, answered, lost, Letters, updated_all, send, arrive, settle,
  deliver, post, commit,
}

-- Whether a reply makes the changes unsaved again: all but a redirection and an answer 200.
unfoldable pub is_failure : Reply → Bool
is_failure (redirected url) = false
is_failure (answered status body json) = not (nat_eq status 200)
is_failure (lost why) = true

-- A field as it is before the commit but for two marks, on it and on its parent: not pending, and
-- modified or not.
abbrev pub left_as : Bool → Field → Field
left_as b e = record e {
  marks = record e.marks { modified = b; pending = false };
  place = put_parent Class.modified b (put_parent Class.pending false e.place);
}

place-failed :
    (p : Place)
    → put_parent Class.pending false (
        put_parent Class.modified true (
          put_parent Class.pending false
            (put_parent Class.modified false (put_parent Class.pending true p))))
      ≡ put_parent Class.modified true (put_parent Class.pending false p)
unfolding put_parent put
place-failed (Place.in_td td) = refl
place-failed (Place.in_label label td) = refl
place-failed (Place.elsewhere parent) = refl

place-sent :
    (p : Place)
    → put_parent Class.pending false
        (put_parent Class.modified false (put_parent Class.pending true p))
      ≡ put_parent Class.modified false (put_parent Class.pending false p)
unfolding put_parent put
place-sent (Place.in_td td) = refl
place-sent (Place.in_label label td) = refl
place-sent (Place.elsewhere parent) = refl

fields-failed : (es : List Field) → map cleanup (map reset (map submit es)) ≡ map (left_as true) es
unfolding cleanup reset submit mark_parent put
fields-failed [] = refl
fields-failed (e ∷ es) = rw (place-failed e.place, fields-failed es) refl

fields-sent : (es : List Field) → map cleanup (map submit es) ≡ map (left_as false) es
unfolding cleanup submit mark_parent put
fields-sent [] = refl
fields-sent (e ∷ es) = rw (place-sent e.place, fields-sent es) refl

-- What the store takes from a reply, and what the page shows of it.
unfoldable pub accepted : Reply → Option Recordsets
accepted (answered status body json) = if nat_eq status 200 then json else none
accepted _ = none

unfoldable pub complaint : Letters → Reply → Option String
complaint letters (redirected url) = none
complaint letters (answered status body json) =
    if nat_eq status 200
    then none
    else if nat_eq status 401
    then some (letters.upper body)
    else some body
complaint letters (lost why) = some ("Error committing changes (ERR:" <> (letters.lower why <> ")"))

abbrev pub taken : Runtime → Option Recordsets → Dbc → Dbc
taken js none db = db
taken js (some recordsets) db = updated_all js recordsets db

-- A commit with fewer than 2^31 - 1 requests out, whatever the reply: none of its fields is pending
-- afterwards, all are modified if the reply is a failure and none otherwise, with the marks on their
-- parents alike, and nothing else of them changes; the windmill shows the requests that were out before; the store takes what an answer 200
-- holds and nothing else; and the page shows the complaint of the server or the browser, if there is
-- one.
pub commit-outcome :
    (js : Runtime) (letters : Letters) (reply : Reply) (w : World) (n : ℕ)
    → w.windmill ≡ shown n
    → n < 2147483647
    → let w' = commit js letters reply w in
      (w'.fields ≡ map (left_as (is_failure reply)) w.fields)
      × (w'.windmill ≡ shown n)
      × (w'.db ≡ taken js (accepted reply) w.db)
      × (w'.message ≡ complaint letters reply)
unfolding commit post send arrive settle deliver is_failure accepted complaint
commit-outcome js letters (redirected url) w n h k =
    (fields-sent w.fields, rw h (unbusy-busy n k), refl, refl)
commit-outcome js letters (lost why) w n h k =
    (fields-failed w.fields, rw h (unbusy-busy n k), refl, refl)
commit-outcome js letters (answered status body json) w n h k =
    rw h (ground (arith, fields-sent w.fields, fields-failed w.fields, unbusy-busy n k))
