-- ===== src/Combobox.antt =====
-- The drop-down list under an input, httpd/html/javascript/combobox.js: the class `Combobox`. Its
-- elements are told apart by a number; where the list and its options stand on the screen is left out.
pub mod Laws
pub mod Cycle
pub mod Chosen
use uhppoted_httpd.Prelude.{
  ℕ, zero, suc, String, Bool, true, false, not, ◌&&◌, ◌||◌, List, [], ◌∷◌, Option, none, some,
  nat_eq, length, if◌then◌else◌,
}

-- an element `<li>` of the list
pub record Choice : Type 0 where
  pub id : ℕ
  pub label : String

-- `a === b` of elements and `null`
abbrev pub same : Option Choice → Option Choice → Bool
same none none = true
same (some a) (some b) = nat_eq a.id b.id
same _ _ = false

-- The fields of the class, and what its methods change on the page: the value and the title of the
-- input, whether the list is shown, the option with the class `selected`, the class `focus` of the
-- list and of the element around the input, and the values with which `change` was dispatched.
pub record Box : Type 0 where
  pub value : String
  pub title : String
  pub input_has_focus : Bool
  pub list_has_focus : Bool
  pub has_hover : Bool
  pub options : List Choice
  pub option : Option Choice
  pub first : Option Choice
  pub last : Option Choice
  pub shown : Bool
  pub selected : Option Choice
  pub list_marked : Bool
  pub input_marked : Bool
  pub changes : List String

-- `options[i]`, `options[options.length - 1]`, and `options.indexOf(option)`, none for -1
abbrev pub nth : List Choice → ℕ → Option Choice
nth [] n = none
nth (c ∷ cs) zero = some c
nth (c ∷ cs) (suc n) = nth cs n

abbrev pub last_of : List Choice → Option Choice
last_of [] = none
last_of (c ∷ []) = some c
last_of (c ∷ d ∷ cs) = last_of (d ∷ cs)

abbrev pub index_of : Option Choice → List Choice → Option ℕ
index_of o [] = none
index_of o (c ∷ cs) =
    let rest = index_of o cs in
    if same (some c) o then some 0 else (elim rest [ none ↦ none | some i ↦ some (suc i) ])

-- `initialise`, with the elements that it makes
unfoldable pub initialise : List Choice → Box → Box
initialise choices box = record box {
  options = choices;
  first = nth choices 0;
  last = last_of choices;
}

unfoldable pub set_value : String → Box → Box
set_value value box = record box { value = value }

unfoldable pub set_current_option_style : Option Choice → Box → Box
set_current_option_style o box = record box {
  selected = elim (index_of o box.options) [ none ↦ none | some i ↦ o ];
}

unfoldable pub set_option : Option Choice → Box → Box
unfolding set_current_option_style
set_option none box = box
set_option (some c) box = set_current_option_style (some c) (record box { option = some c })

unfoldable pub set_focus_combobox : Box → Box
set_focus_combobox box = record box {
  list_marked = false;
  input_marked = true;
  input_has_focus = true;
  list_has_focus = false;
}

unfoldable pub set_visual_focus_listbox : Box → Box
set_visual_focus_listbox box = record box {
  input_marked = false;
  input_has_focus = false;
  list_has_focus = true;
  list_marked = true;
}

unfoldable pub remove_visual_focus_all : Box → Box
remove_visual_focus_all box = record box {
  input_marked = false;
  input_has_focus = false;
  list_has_focus = false;
  option = none;
}

-- `options[index - 1]` and `options[index + 1]`, where the index of what is not there is -1
abbrev pub before : Option ℕ → List Choice → Option Choice
before none cs = none
before (some zero) cs = none
before (some (suc i)) cs = nth cs i

abbrev pub after : Option ℕ → List Choice → Option Choice
after none cs = nth cs 0
after (some i) cs = nth cs (suc i)

unfoldable pub get_previous_option : Option Choice → Box → Option Choice
get_previous_option current box =
    if not (same current box.first)
    then before (index_of current box.options) box.options
    else box.last

unfoldable pub get_next_option : Option Choice → Box → Option Choice
get_next_option current box =
    if not (same current box.last)
    then after (index_of current box.options) box.options
    else box.first

abbrev pub has_options : Box → Bool
has_options box = not (nat_eq (length box.options) 0)

unfoldable pub open_list : Box → Box
open_list box = record box { shown = true }

unfoldable pub close_list : Bool → Box → Box
unfolding set_current_option_style
close_list force box =
    if force || (not box.input_has_focus && (not box.list_has_focus && not box.has_hover))
    then record (set_current_option_style none box) { shown = false }
    else box

-- `event.key`
pub data Key : Type 0 where
  enter down up escape tab home end_ backspace left right other : Key

abbrev pub dispatch_change : Box → Box
dispatch_change box = record box { changes = box.value ∷ box.changes }

-- The cases of `onInputKeyDown`; `none` is the error that reading a field of `null` throws. The caret
-- of the input, which two keys move, is left out.
unfoldable pub key_enter : Box → Option Box
unfolding set_value close_list set_focus_combobox
key_enter box =
    if box.list_has_focus
    then elim box.option [
      | none ↦ none
      | some c ↦
          some (set_focus_combobox (close_list true (dispatch_change (set_value c.label box))))
    ]
    else some (set_focus_combobox (close_list true box))

unfoldable pub key_down : Bool → Box → Box
unfolding open_list get_next_option set_option set_visual_focus_listbox
key_down alt box =
    let opened = open_list box in
    if not (has_options box)
    then box
    else if alt
    then opened
    else if opened.list_has_focus
    then set_visual_focus_listbox (set_option (get_next_option opened.option opened) opened)
    else set_visual_focus_listbox (set_option opened.first opened)

unfoldable pub key_up : Bool → Box → Box
unfolding open_list get_previous_option set_option set_visual_focus_listbox
key_up alt box =
    if not (has_options box)
    then box
    else if box.list_has_focus
    then set_option (get_previous_option box.option box) box
    else if alt
    then open_list box
    else set_visual_focus_listbox (set_option (open_list box).last (open_list box))

unfoldable pub key_escape : Box → Box
unfolding close_list set_focus_combobox
key_escape box = record (if box.shown then set_focus_combobox (close_list true box) else box) {
  option = none;
}

unfoldable pub key_tab : Box → Box
unfolding close_list set_value
key_tab box =
    let closed = close_list true box in
    if closed.list_has_focus
    then elim closed.option [ none ↦ closed | some c ↦ set_value c.label closed ]
    else closed

-- `ctrl` is `event.ctrlKey || event.shiftKey`
unfoldable pub on_input_key_down : Bool → Bool → Key → Box → Option Box
unfolding key_enter key_down key_up key_escape key_tab
on_input_key_down true alt key box = some box
on_input_key_down false alt Key.enter box = key_enter box
on_input_key_down false alt Key.down box = some (key_down alt box)
on_input_key_down false alt Key.up box = some (key_up alt box)
on_input_key_down false alt Key.escape box = some (key_escape box)
on_input_key_down false alt Key.tab box = some (key_tab box)
on_input_key_down false alt _ box = some box

abbrev pub is_letter_less : Key → Bool
is_letter_less Key.backspace = true
is_letter_less Key.left = true
is_letter_less Key.right = true
is_letter_less Key.home = true
is_letter_less Key.end_ = true
is_letter_less _ = false

-- both cases of `onInputKeyUp` come to the same
unfoldable pub on_input_key_up : Key → Box → Box
unfolding set_current_option_style set_focus_combobox
on_input_key_up key box =
    if is_letter_less key
    then record (set_current_option_style none (set_focus_combobox box)) { option = none }
    else box

unfoldable pub on_input_click : Box → Box
unfolding open_list close_list
on_input_click box = if box.shown then close_list true box else open_list box

unfoldable pub on_input_focus : Box → Box
unfolding set_focus_combobox set_current_option_style
on_input_focus box =
    set_current_option_style none (record (set_focus_combobox box) { option = none })

unfoldable pub on_input_blur : Box → Box
unfolding remove_visual_focus_all set_current_option_style
on_input_blur box =
    remove_visual_focus_all (set_current_option_style none (record box { input_has_focus = false }))

unfoldable pub on_option_click : Choice → Box → Box
unfolding close_list
on_option_click c box =
    dispatch_change (close_list true (record box { title = c.label; value = c.label }))

-- What happens to the box; `timeout` is the end of a delay after which `close` is called.
pub data Event : Type 0 where
  initialised : List Choice → Event
  key_pressed : Bool → Bool → Key → Event
  key_released : Key → Event
  input_clicked focused blurred moved_over moved_out timeout : Event
  option_clicked : Choice → Event

unfoldable pub step : Event → Box → Option Box
unfolding initialise on_input_key_down on_input_key_up on_input_click on_input_focus on_input_blur
    on_option_click close_list
step (initialised choices) box = some (initialise choices box)
step (key_pressed ctrl alt key) box = on_input_key_down ctrl alt key box
step (key_released key) box = some (on_input_key_up key box)
step input_clicked box = some (on_input_click box)
step focused box = some (on_input_focus box)
step blurred box = some (on_input_blur box)
step moved_over box = some (record box { has_hover = true })
step moved_out box = some (record box { has_hover = false })
step timeout box = some (close_list false box)
step (option_clicked c) box = some (on_option_click c box)

-- the box after some events; none once a handler has thrown
unfoldable pub run : List Event → Box → Option Box
unfolding step
run [] box = some box
run (e ∷ es) box = elim (step e box) [ none ↦ none | some next ↦ run es next ]
