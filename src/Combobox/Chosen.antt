-- ===== src/Combobox/Chosen.antt =====
-- Choosing an option of httpd/html/javascript/combobox.js with the keys.
use uhppoted_httpd.Prelude.{
  ℕ, zero, suc, ◌+◌, Bool, true, false, not, ◌≡◌, refl, sym, ap, ◌∙◌, subst, List, [], ◌∷◌, Option,
  none, some, arith, if◌then◌else◌, nat_eq, length,
}
use uhppoted_httpd.Combobox.{
  Choice, Box, nth, set_value, set_current_option_style, set_option, set_focus_combobox,
  set_visual_focus_listbox, get_next_option, open_list, close_list, Key, key_enter, key_down,
  on_input_key_down, Event, key_pressed, step, run, dispatch_change,
}
use uhppoted_httpd.Combobox.Laws.{IsSound}
use uhppoted_httpd.Combobox.Cycle.{AreDistinct, next-inner, nth-first, nth-below}

-- `ArrowDown` so often, and then `Enter`
unfoldable pub down_and_enter : ℕ → List Event
down_and_enter zero = key_pressed false false Key.enter ∷ []
down_and_enter (suc n) = key_pressed false false Key.down ∷ down_and_enter n

-- The list has the focus and its option is the one at `j`.
record IsAt (start : Box) (j : ℕ) (box : Box) : Type 0 where
  sound : IsSound box
  options : box.options ≡ start.options
  changes : box.changes ≡ start.changes
  focus : box.list_has_focus ≡ true
  option : box.option ≡ nth start.options j

some-has_options :
    (cs : List Choice) (c : Choice) → nth cs 0 ≡ some c → not (not (nat_eq (length cs) 0)) ≡ false
some-has_options [] c e = cc e
some-has_options (x ∷ cs) c e = ground arith

-- What is chosen: the value of the input, the list gone, and one `change`.
abbrev pub IsChosen : Box → Choice → Box → Type 0
IsChosen start c box =
    (box.value ≡ c.label)
    × (box.shown ≡ false)
    × (box.list_has_focus ≡ false)
    × (box.changes ≡ c.label ∷ start.changes)

taken :
    {A : Type 0} (K : Choice → A) (z : Option A) (f : Bool) (o : Option Choice) (c : Choice)
    → f ≡ true
    → o ≡ some c
    → (if f then elim o [ none ↦ none | some x ↦ some (K x) ] else z) ≡ some (K c)
taken K z f o c h e = rw (h, e) refl

nth-upto :
    (cs : List Choice) (n j : ℕ) (c : Choice)
    → nth cs (n + j) ≡ some c
    → (d : Choice) × (nth cs j ≡ some d)
nth-upto cs zero j c e = (c, ap (nth cs) (omega arith) ∙ e)
nth-upto cs (suc n) j c e =
    let (d, below) = nth-below cs (n + j) c (ap (nth cs) (omega arith) ∙ e) in
    nth-upto cs n j d below

run_down :
    (n : ℕ) (box : Box)
    → run (down_and_enter (suc n)) box ≡ run (down_and_enter n) (key_down false box)
unfolding run down_and_enter step on_input_key_down
run_down n box = refl

module _ (start : Box) (distinct : AreDistinct start.options) where
  enter_lem :
      (j : ℕ) (c : Choice) (box : Box)
      → IsAt start j box
      → nth start.options j ≡ some c
      → (box' : Box) × (run (down_and_enter 0) box ≡ some box') × IsChosen start c box'
  unfolding run step on_input_key_down key_enter down_and_enter close_list set_value
      set_focus_combobox set_current_option_style
  enter_lem j c box h e = (
    set_focus_combobox (close_list true (dispatch_change (set_value c.label box))),
    ap (λ r. elim r [ none ↦ none | some next ↦ some next ])
        (taken (λ x. set_focus_combobox (close_list true (dispatch_change (set_value x.label box))))
          _ box.list_has_focus box.option c h.focus (h.option ∙ e)),
    (refl, refl, refl, ap (λ t. c.label ∷ t) h.changes),
  )

  -- With options, and the one that comes next, the key takes it.
  key_down-takes :
      (box : Box) (c d : Choice)
      → nth box.options 0 ≡ some c
      → (if box.list_has_focus then get_next_option box.option box else box.first) ≡ some d
      → key_down false box ≡ set_visual_focus_listbox (set_option (some d) (open_list box))
  unfolding key_down open_list get_next_option
  key_down-takes box c d top e = rw (some-has_options box.options c top) (go box.list_has_focus e)
    where
      go :
          (f : Bool)
          → (if f then get_next_option box.option box else box.first) ≡ some d
          → (if f
              then set_visual_focus_listbox
                  (set_option (get_next_option box.option box) (open_list box))
              else set_visual_focus_listbox (set_option box.first (open_list box)))
            ≡ set_visual_focus_listbox (set_option (some d) (open_list box))
      go true e = ap (λ t. set_visual_focus_listbox (set_option t (open_list box))) e
      go false e = ap (λ t. set_visual_focus_listbox (set_option t (open_list box))) e

  down_lem :
      (j : ℕ) (c d : Choice) (box : Box)
      → IsAt start j box
      → nth start.options j ≡ some c
      → nth start.options (suc j) ≡ some d
      → IsAt start (suc j) (key_down false box)
  unfolding open_list set_visual_focus_listbox set_option set_current_option_style get_next_option
  down_lem j c d box h e f =
      let at : nth box.options j ≡ some c = ap (λ t. nth t j) h.options ∙ e in
      let (top, first) = nth-first box.options j c at in
      let distinct' : AreDistinct box.options = subst AreDistinct (sym h.options) distinct in
      let next =
        next-inner box h.sound distinct' j c d at (ap (λ t. nth t (suc j)) h.options ∙ f) in
      rw (key_down-takes box top d first (rw (h.focus, h.option ∙ e) next)) (record {
        sound = record { first = h.sound.first; last = h.sound.last; focus = λ g. refl };
        options = h.options;
        changes = h.changes;
        focus = refl;
        option = sym f;
      })

  first_lem :
      (c : Choice)
      → IsSound start
      → start.list_has_focus ≡ false
      → nth start.options 0 ≡ some c
      → IsAt start 0 (key_down false start)
  unfolding open_list set_visual_focus_listbox set_option set_current_option_style
  first_lem c sound off e = rw (key_down-takes start c c e (rw off (sound.first ∙ e))) (record {
    sound = record { first = sound.first; last = sound.last; focus = λ g. refl };
    options = refl;
    changes = refl;
    focus = refl;
    option = sym e;
  })

  downs_lem :
      (n j : ℕ) (b c : Choice) (box : Box)
      → IsAt start j box
      → nth start.options j ≡ some b
      → nth start.options (n + j) ≡ some c
      → (box' : Box) × (run (down_and_enter n) box ≡ some box') × IsChosen start c box'
  downs_lem zero j b c box h d e = enter_lem j c box h (ap (nth start.options) (omega arith) ∙ e)
  downs_lem (suc n) j b c box h d e =
      let later : nth start.options (n + suc j) ≡ some c =
        ap (nth start.options) (omega arith) ∙ e in
      let (x, at) = nth-upto start.options n (suc j) c later in
      let (box', ran, chosen) =
        downs_lem n (suc j) x c (key_down false box) (down_lem j b x box h d at) at later in
      (box', run_down n box ∙ ran, chosen)

-- In a sound box whose list has no element twice and has not the focus, the arrow key down, pressed
-- once more often than there are options before one, and then `Enter` make that option the value of
-- the input; nothing throws, the list is gone, and `change` is dispatched once, with that value.
pub down_and_enter-IsChosen :
    (n : ℕ) (c : Choice) (box : Box)
    → IsSound box
    → AreDistinct box.options
    → box.list_has_focus ≡ false
    → nth box.options n ≡ some c
    → (box' : Box) × (run (down_and_enter (suc n)) box ≡ some box') × IsChosen box c box'
down_and_enter-IsChosen n c box sound distinct off e =
    let (first, top) = nth-first box.options n c e in
    let (box', ran, chosen) =
      downs_lem box distinct n 0 first c (key_down false box)
        (first_lem box distinct first sound off top) top (ap (nth box.options) (omega arith) ∙ e) in
    (box', run_down n box ∙ ran, chosen)
