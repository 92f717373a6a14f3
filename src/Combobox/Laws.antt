-- ===== src/Combobox/Laws.antt =====
-- The focus of the list of httpd/html/javascript/combobox.js and its option, as events come.
use uhppoted_httpd.Prelude.{
  Bool, true, false, not, ◌&&◌, ◌||◌, ◌≡◌, refl, sym, ap, ◌∙◌, List, [], ◌∷◌, Option, none, some,
  or_left, or_right, both_left, both_right, Bool-cases, inl, inr, arith, if◌then◌else◌, nat_eq,
  length,
}
use uhppoted_httpd.Console.Records.{is_there}
use uhppoted_httpd.Combobox.{
  Choice, Box, nth, last_of, initialise, set_value, set_current_option_style, set_option,
  set_focus_combobox, set_visual_focus_listbox, remove_visual_focus_all, get_previous_option,
  get_next_option, has_options, open_list, close_list, Key, key_enter, key_down, key_up, key_escape,
  key_tab, on_input_key_down, on_input_key_up, on_input_click, on_input_focus, on_input_blur,
  on_option_click, Event, step, run, initialised, key_pressed, key_released, input_clicked, focused,
  blurred, moved_over, moved_out, timeout, option_clicked, dispatch_change, is_letter_less,
}

-- The first and the last option are those of the list, and where the list has the focus, there is an
-- option that `Enter` takes.
pub record IsSound (box : Box) : Type 0 where
  pub first : box.first ≡ nth box.options 0
  pub last : box.last ≡ last_of box.options
  pub focus : box.list_has_focus ≡ true → is_there box.option ≡ true

close_list-IsSound : (force : Bool) (box : Box) → IsSound box → IsSound (close_list force box)
unfolding close_list set_current_option_style
close_list-IsSound force box h =
    elim (Bool-cases
      (force || (not box.input_has_focus && (not box.list_has_focus && not box.has_hover)))) [
        | inl c ↦ rw c (record { first = h.first; last = h.last; focus = h.focus })
        | inr k ↦ rw k h
      ]

-- A box whose list has not the focus.
unfocused :
    (box box' : Box)
    → IsSound box
    → box'.first ≡ box.first
    → box'.last ≡ box.last
    → box'.options ≡ box.options
    → box'.list_has_focus ≡ false
    → IsSound box'
unfocused box box' h f l o n = record {
  first = f ∙ h.first ∙ ap (λ t. nth t 0) (sym o);
  last = l ∙ h.last ∙ ap last_of (sym o);
  focus = λ e. cc (n, e);
}

-- With an option, the list may have the focus.
listed :
    (o : Option Choice) (box : Box)
    → IsSound box
    → (is_there o || is_there box.option) ≡ true
    → IsSound (set_visual_focus_listbox (set_option o box))
unfolding set_visual_focus_listbox set_option set_current_option_style
listed none box h e = record { first = h.first; last = h.last; focus = λ f. e }
listed (some c) box h e = record { first = h.first; last = h.last; focus = λ f. refl }

set_option-IsSound : (o : Option Choice) (box : Box) → IsSound box → IsSound (set_option o box)
unfolding set_option set_current_option_style
set_option-IsSound none box h = h
set_option-IsSound (some c) box h = record { first = h.first; last = h.last; focus = λ f. refl }

open_list-IsSound : (box : Box) → IsSound box → IsSound (open_list box)
unfolding open_list
open_list-IsSound box h = record { first = h.first; last = h.last; focus = h.focus }

nth-there : (cs : List Choice) → not (nat_eq (length cs) 0) ≡ true → is_there (nth cs 0) ≡ true
nth-there [] e = cc e
nth-there (c ∷ cs) e = refl

last_of-there :
    (cs : List Choice) → not (nat_eq (length cs) 0) ≡ true → is_there (last_of cs) ≡ true
last_of-there [] e = cc e
last_of-there (c ∷ []) e = refl
last_of-there (c ∷ d ∷ cs) e = last_of-there (d ∷ cs) (ground arith)

if-IsSound :
    (b : Bool) (x y : Box)
    → (b ≡ true → IsSound x)
    → (b ≡ false → IsSound y)
    → IsSound (if b then x else y)
if-IsSound true x y h k = h refl
if-IsSound false x y h k = k refl

options-there : (b : Bool) → not b ≡ false → b ≡ true
options-there true e = refl
options-there false e = cc e

pub key_down-IsSound : (alt : Bool) (box : Box) → IsSound box → IsSound (key_down alt box)
unfolding key_down open_list
key_down-IsSound alt box h =
    let opened = open_list-IsSound box h in
    if-IsSound (not (has_options box)) _ _ (λ e. h)
      (λ e.
        if-IsSound alt _ _ (λ f. opened)
          (λ f.
            if-IsSound box.list_has_focus _ _
              (λ g.
                listed (get_next_option box.option (open_list box)) (open_list box) opened
                  (or_right (is_there (get_next_option box.option (open_list box))) _ (h.focus g)))
              (λ g.
                listed box.first (open_list box) opened
                  (or_left _ _ (ap is_there h.first ∙ nth-there box.options (options-there _ e))))))

key_up-IsSound : (alt : Bool) (box : Box) → IsSound box → IsSound (key_up alt box)
unfolding key_up open_list
key_up-IsSound alt box h =
    let opened = open_list-IsSound box h in
    if-IsSound (not (has_options box)) _ _ (λ e. h)
      (λ e.
        if-IsSound box.list_has_focus _ _
          (λ g. set_option-IsSound (get_previous_option box.option box) box h)
          (λ g.
            if-IsSound alt _ _ (λ f. opened)
              (λ f. listed box.last (open_list box) opened (
                or_left _ _ (ap is_there h.last ∙ last_of-there box.options (options-there _ e))))))

pub key_enter-IsSound :
    (box : Box) → IsSound box → (box' : Box) × (key_enter box ≡ some box') × IsSound box'
unfolding key_enter set_value set_focus_combobox close_list set_current_option_style
key_enter-IsSound box h = go box.list_has_focus box.option h.focus
  where
    settled : (b : Box) → IsSound b → IsSound (set_focus_combobox (close_list true b))
    settled b k = unfocused b _ k refl refl refl refl

    go :
        (f : Bool) (o : Option Choice)
        → (f ≡ true → is_there o ≡ true)
        → (box' : Box) × ((if f
              then elim o [
                | none ↦ none
                | some c ↦
                    some (
                      set_focus_combobox
                        (close_list true (dispatch_change (set_value c.label box))))
              ]
              else some (set_focus_combobox (close_list true box)))
            ≡ some box')
          × IsSound box'
    go true none k = cc (k refl)
    go true (some c) k = (
      _,
      refl,
      settled (dispatch_change (set_value c.label box))
          (record { first = h.first; last = h.last; focus = h.focus }),
    )
    go false o k = (_, refl, settled box h)

key_escape-IsSound : (box : Box) → IsSound box → box.shown ≡ true → IsSound (key_escape box)
unfolding key_escape close_list set_focus_combobox set_current_option_style
key_escape-IsSound box h e = rw e (unfocused box _ h refl refl refl refl)

key_tab-IsSound : (box : Box) → IsSound box → IsSound (key_tab box)
unfolding key_tab close_list set_value set_current_option_style
key_tab-IsSound box h = go box.list_has_focus box.option
  where
    closed : Box
    closed = close_list true box

    sound : IsSound closed
    sound = close_list-IsSound true box h

    go :
        (f : Bool) (o : Option Choice)
        → IsSound
            (if f then (elim o [ none ↦ closed | some c ↦ set_value c.label closed ]) else closed)
    go false o = sound
    go true none = sound
    go true (some c) = record { first = sound.first; last = sound.last; focus = sound.focus }

on_input_key_up-IsSound : (key : Key) (box : Box) → IsSound box → IsSound (on_input_key_up key box)
unfolding on_input_key_up set_current_option_style set_focus_combobox
on_input_key_up-IsSound key box h =
    if-IsSound (is_letter_less key) _ _ (λ e. unfocused box _ h refl refl refl refl) (λ e. h)

-- `Escape` is pressed only while the list is shown.
unfoldable pub is_calm : Event → Box → Bool
is_calm (key_pressed false alt Key.escape) box = box.shown
is_calm e box = true

abbrev Goes : Event → Box → Type 0
Goes e box = (box' : Box) × (step e box ≡ some box') × IsSound box'

key_pressed-Goes :
    (alt : Bool) (key : Key) (box : Box)
    → IsSound box
    → is_calm (key_pressed false alt key) box ≡ true
    → Goes (key_pressed false alt key) box
unfolding step on_input_key_down is_calm
key_pressed-Goes alt Key.enter box h c = key_enter-IsSound box h
key_pressed-Goes alt Key.down box h c = (_, refl, key_down-IsSound alt box h)
key_pressed-Goes alt Key.up box h c = (_, refl, key_up-IsSound alt box h)
key_pressed-Goes alt Key.escape box h c = (_, refl, key_escape-IsSound box h c)
key_pressed-Goes alt Key.tab box h c = (_, refl, key_tab-IsSound box h)
key_pressed-Goes alt Key.home box h c = (box, refl, h)
key_pressed-Goes alt Key.end_ box h c = (box, refl, h)
key_pressed-Goes alt Key.backspace box h c = (box, refl, h)
key_pressed-Goes alt Key.left box h c = (box, refl, h)
key_pressed-Goes alt Key.right box h c = (box, refl, h)
key_pressed-Goes alt Key.other box h c = (box, refl, h)

step-Goes : (e : Event) (box : Box) → IsSound box → is_calm e box ≡ true → Goes e box
unfolding step initialise on_input_click on_input_focus on_input_blur on_option_click
    set_current_option_style set_focus_combobox remove_visual_focus_all on_input_key_down close_list
    open_list
step-Goes (initialised choices) box h c =
    (_, refl, record { first = refl; last = refl; focus = h.focus })
step-Goes (key_pressed true alt key) box h c = (box, refl, h)
step-Goes (key_pressed false alt key) box h c = key_pressed-Goes alt key box h c
step-Goes (key_released key) box h c = (_, refl, on_input_key_up-IsSound key box h)
step-Goes input_clicked box h c = (
  _,
  refl,
  if-IsSound box.shown _ _ (λ e. close_list-IsSound true box h) (λ e. open_list-IsSound box h),
)
step-Goes focused box h c = (_, refl, unfocused box _ h refl refl refl refl)
step-Goes blurred box h c = (_, refl, unfocused box _ h refl refl refl refl)
step-Goes moved_over box h c = (_, refl, record { first = h.first; last = h.last; focus = h.focus })
step-Goes moved_out box h c = (_, refl, record { first = h.first; last = h.last; focus = h.focus })
step-Goes timeout box h c = (_, refl, close_list-IsSound false box h)
step-Goes (option_clicked o) box h c =
    (_, refl, record { first = h.first; last = h.last; focus = h.focus })

-- The events of a run are calm where they happen.
unfoldable pub are_calm : List Event → Box → Bool
unfolding is_calm
are_calm [] box = true
are_calm (e ∷ es) box =
    is_calm e box && (elim (step e box) [ none ↦ true | some next ↦ are_calm es next ])

-- From a box whose first and last option are those of the list and whose list has the focus only with
-- an option: where `Escape` is pressed only while the list is shown, no handler throws, whatever the
-- other events, their order and the options, and the box is such a one afterwards.
pub run-IsSound :
    (es : List Event) (box : Box)
    → IsSound box
    → are_calm es box ≡ true
    → (box' : Box) × (run es box ≡ some box') × IsSound box'
unfolding run are_calm
run-IsSound [] box h c = (box, refl, h)
run-IsSound (e ∷ es) box h c =
    let (next, stepped, sound) = step-Goes e box h (both_left _ _ c) in
    let (last, ran, good) = run-IsSound es next sound (
      sym (ap (λ r. elim r [ none ↦ true | some n ↦ are_calm es n ]) stepped)
      ∙ both_right (is_calm e box) _ c) in
    (last, ap (λ r. elim r [ none ↦ none | some n ↦ run es n ]) stepped ∙ ran, good)
