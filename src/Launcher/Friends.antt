-- ===== src/Launcher/Friends.antt =====
-- GamePlayLauncher.cpp: the list of friends below its three roots (addTreeChild, RemoveTreeChildAll,
-- and their part of RecvServerPacket).
pub mod Listed
use dhserver.Base.{
  ℕ, zero, suc, Bool, true, false, List, [], ◌∷◌, ◌++◌, arith, ◌==◌, if◌then◌else◌, length,
}
use dhserver.Db.Text.{bytes, eq_text}
use dhserver.Db.Friends.{insert_text}
use dhserver.Launcher.{
  Toolkit, convert_kr, Item, ColColorType, ingame_green, online_blue, offline_gray,
}

-- WidgetRoot_List: the children of the root of each name. A root has its own color, which stands for
-- its name here; ConvertKR keeps the three names apart.
abbrev pub Tree : Type 0
Tree = ColColorType → List Item

-- The names of the roots, in EUC-KR: "in the game", "online", "offline".
abbrev pub root_name : ColColorType → List ℕ
root_name ingame_green = 176 ∷ 212 ∷ 192 ∷ 211 ∷ 193 ∷ 223 ∷ []
root_name online_blue = 191 ∷ 194 ∷ 182 ∷ 243 ∷ 192 ∷ 206 ∷ []
root_name offline_gray = 191 ∷ 192 ∷ 199 ∷ 193 ∷ 182 ∷ 243 ∷ 192 ∷ 206 ∷ []

abbrev pub same_root : ColColorType → ColColorType → Bool
same_root ingame_green ingame_green = true
same_root online_blue online_blue = true
same_root offline_gray offline_gray = true
same_root _ _ = false

abbrev pub set_children : Tree → ColColorType → List Item → Tree
set_children tree root items r = if same_root r root then items else tree r

-- USER_OFFLINE, USER_ONLINE, USER_IN_GAME
abbrev pub user_offline : ℕ
user_offline = 0

abbrev pub user_online : ℕ
user_online = 2

abbrev pub user_in_game : ℕ
user_in_game = 4

-- Icon_Type_Name, with USER_ICON_TYPE_1 and USER_ICON_TYPE_2; another number makes an empty name.
unfoldable pub icon_type_name : ℕ → List ℕ
icon_type_name icon_type =
    if icon_type == 0
    then bytes "Profile_icon1"
    else if icon_type == 1
    then bytes "Profile_icon2"
    else []

-- Column_Msg
unfoldable pub column_msg : List ℕ → List ℕ → List ℕ
column_msg name description = name ++ (10 ∷ []) ++ description

-- Whether a child has the text in its second column.
unfoldable pub has_child : List ℕ → List Item → Bool
has_child text [] = false
has_child text (x ∷ xs) = if eq_text x.text text then true else has_child text xs

-- addTreeChild. A child that is there already has its text set to the text that it has.
unfoldable pub add_tree_child :
    Toolkit → Tree → (parent : ColColorType) → List ℕ → List ℕ → ℕ → ColColorType → Tree
unfolding column_msg icon_type_name has_child convert_kr
add_tree_child tk tree parent name description icon_type color =
    let text = convert_kr tk (column_msg name description) in
    let suffix = if same_root parent offline_gray then bytes "_off" else bytes "_on" in
    let item : Item = record {
      icon = icon_type_name icon_type ++ suffix;
      text = text;
      color = color;
    } in
    let items = if has_child text (tree parent) then tree parent else tree parent ++ item ∷ [] in
    set_children tree parent (tk.sort_children items)

-- removeChild(child(0)), `n` times.
unfoldable pub remove_children : ℕ → List Item → List Item
remove_children zero xs = xs
remove_children (suc n) [] = remove_children n []
remove_children (suc n) (x ∷ xs) = remove_children n xs

-- RemoveTreeChildAll
unfoldable pub remove_tree_child_all : Tree → Tree
unfolding remove_children
remove_tree_child_all tree root = remove_children (length (tree root)) (tree root)

-- A friend of a packet, by its state; with another state it is shown nowhere.
unfoldable pub show_friend : Toolkit → Tree → List ℕ → ℕ → Tree
unfolding add_tree_child
show_friend tk tree name state =
    let add = λ (root : ColColorType) (icon : ℕ).
      add_tree_child tk tree root name (root_name root) icon root in
    if state == user_offline
    then add offline_gray 0
    else if state == user_online
    then add online_blue 1
    else if state == user_in_game
    then add ingame_green 0
    else tree

-- The loop over the friends of a packet, with m_Recv_Friend.
unfoldable pub show_friends :
    Toolkit → List (List ℕ × ℕ) → List (List ℕ) × Tree → List (List ℕ) × Tree
unfolding show_friend insert_text
show_friends tk [] shown = shown
show_friends tk ((name, state) ∷ friends) (names, tree) =
    show_friends tk friends (insert_text name names, show_friend tk tree name state)
