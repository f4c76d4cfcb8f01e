-- ===== src/Launcher/Contents.antt =====
-- GamePlayLauncher.cpp: the row of small buttons below the pictures of the news (the loop of the
-- constructor, PushContentButton).
pub mod Row
use dhserver.Base.{
  ℕ, zero, suc, ◌+◌, ◌-◌, ◌*◌, Bool, true, false, List, [], ◌∷◌, arith, ◌==◌, if◌then◌else◌,
}
use dhserver.Db.Text.{bytes}

-- A QPushButton of Button_List: its address, its geometry and whether it has the icon of the focus.
pub record Button : Type 0 where
  pub address : ℕ
  pub x : ℕ
  pub y : ℕ
  pub width : ℕ
  pub height : ℕ
  pub is_focus : Bool

-- Content_x and Content_y, Icon_Interval, and Non_Focus_Icon_x and Focus_Icon_x.
abbrev pub content_x : ℕ
content_x = 900

abbrev pub content_y : ℕ
content_y = 535

abbrev pub icon_interval : ℕ
icon_interval = 5

abbrev pub non_focus_icon_x : ℕ
non_focus_icon_x = 9

abbrev pub focus_icon_x : ℕ
focus_icon_x = 29

-- _Start_Icon_X, for Main_Content_Count of 1 to 63: it is not negative.
unfoldable pub start_icon_x : ℕ → ℕ
start_icon_x count = content_x - (icon_interval + non_focus_icon_x) * (count - 1) - focus_icon_x

-- Both forms of a button.
abbrev pub focus_button : Button → ℕ → Button
focus_button b x = record b {
  x = x;
  y = content_y + 3;
  width = focus_icon_x;
  height = 4;
  is_focus = true;
}

abbrev pub non_focus_button : Button → ℕ → Button
non_focus_button b x = record b {
  x = x;
  y = content_y;
  width = non_focus_icon_x;
  height = 9;
  is_focus = false;
}

abbrev pub new_button : ℕ → Button
new_button address = record {
  address = address;
  x = 0;
  y = 0;
  width = 0;
  height = 0;
  is_focus = false;
}

-- The loop of the constructor, which makes the buttons from the number `i`, at the addresses that
-- `new` gives.
unfoldable pub make_buttons : ℕ → ℕ → List ℕ → List Button
unfolding start_icon_x
make_buttons count i [] = []
make_buttons count zero (address ∷ addresses) =
    focus_button (new_button address) (start_icon_x count) ∷ make_buttons count 1 addresses
make_buttons count (suc i) (address ∷ addresses) =
    non_focus_button (new_button address)
      (start_icon_x count + focus_icon_x + icon_interval + (icon_interval + non_focus_icon_x) * i)
    ∷ make_buttons count (suc (suc i)) addresses

-- The inner loop of PushContentButton, for the buttons from the number `j`; `focus` is the number of
-- the button that was clicked.
unfoldable pub place_buttons : ℕ → ℕ → ℕ → List Button → List Button
place_buttons focus j offset [] = []
place_buttons focus j offset (b ∷ bs) =
    if j == focus
    then focus_button b offset
      ∷ place_buttons focus (suc j) (offset + icon_interval + focus_icon_x) bs
    else non_focus_button b offset
      ∷ place_buttons focus (suc j) (offset + icon_interval + non_focus_icon_x) bs

-- Map_Name
unfoldable pub map_name : ℕ → List ℕ
map_name j =
    if j == 0
    then bytes "Main_Content1"
    else if j == 1
    then bytes "Main_Content2"
    else if j == 2
    then bytes "Main_Content3"
    else []

-- The buttons, and the name of the picture that is shown.
pub record Contents : Type 0 where
  pub buttons : List Button
  pub picture : List ℕ

-- The button with the number `i` gets the focus.
unfoldable pub focus_on : (start i : ℕ) → Contents → Contents
unfolding place_buttons map_name
focus_on start i c = record { buttons = place_buttons i 0 start c.buttons; picture = map_name i }

-- The outer loop of PushContentButton, for the addresses of the buttons from the number `i`.
unfoldable pub push_from : (start clicked i : ℕ) → List Button → Contents → Contents
unfolding focus_on
push_from start clicked i [] c = c
push_from start clicked i (b ∷ bs) c =
    push_from start clicked (suc i) bs (if b.address == clicked then focus_on start i c else c)

-- PushContentButton, for the address of the button that was clicked.
unfoldable pub push_content_button : (count clicked : ℕ) → Contents → Contents
unfolding push_from start_icon_x
push_content_button count clicked c = push_from (start_icon_x count) clicked 0 c.buttons c
