-- ===== src/Launcher/Friends/Listed.antt =====
-- The friends that the launcher (GamePlayLauncher.cpp) lists below each of its three roots.
use dhserver.Base.{
  ℕ, ◌≡◌, refl, ap, sym, ◌∙◌, Bool, true, false, List, [], ◌∷◌, ◌++◌, arith, ◌==◌, if◌then◌else◌,
  ◌&&◌, ◌||◌, length, map, Bool-cases, inl, inr,
}
use dhserver.Db.Text.{eq_text, eq_text→eq}
use dhserver.Db.Friends.{has_text, insert_text}
use dhserver.Db.Friends.Lists.{Joins, Joins-nil, Joins-insert}
use dhserver.Launcher.{
  Toolkit, convert_kr, Item, ColColorType, ingame_green, online_blue, offline_gray,
}
use dhserver.Launcher.Friends.{
  Tree, root_name, same_root, user_offline, user_online, user_in_game, column_msg, has_child,
  add_tree_child, remove_children, remove_tree_child_all, show_friend, show_friends,
}

-- What a friend is called below a root.
unfoldable pub label : Toolkit → ColColorType → List ℕ → List ℕ
label tk root name = convert_kr tk (column_msg name (root_name root))

-- The root of a state.
abbrev pub is_under : ColColorType → ℕ → Bool
is_under ingame_green state = state == user_in_game
is_under online_blue state = state == user_online
is_under offline_gray state = state == user_offline

-- Whether a friend that belongs below the root is called this there.
unfoldable pub is_listed : Toolkit → ColColorType → List ℕ → List (List ℕ × ℕ) → Bool
unfolding label
is_listed tk root text [] = false
is_listed tk root text ((name, state) ∷ friends) =
    (is_under root state && eq_text (label tk root name) text) || is_listed tk root text friends

-- sortChildren takes no text away and brings none.
pub record KeepsTexts (tk : Toolkit) : Type 0 where
  pub kept :
      (text : List ℕ) (xs : List Item) → has_child text (tk.sort_children xs) ≡ has_child text xs

or_false : (b : Bool) → b ≡ (b || false)
or_false true = refl
or_false false = refl

or_assoc : (a b c : Bool) → ((a || b) || c) ≡ (a || (b || c))
or_assoc true b c = refl
or_assoc false b c = refl

has_child-append :
    (text : List ℕ) (xs : List Item) (x : Item)
    → has_child text (xs ++ x ∷ []) ≡ (has_child text xs || eq_text x.text text)
unfolding has_child
has_child-append text [] x = ground arith
has_child-append text (y ∷ xs) x = elim (Bool-cases (eq_text y.text text)) [
  | inl e ↦ rw e refl
  | inr e ↦ rw e (has_child-append text xs x)
]

-- A text that is there already adds nothing.
known_child :
    (text new : List ℕ) (xs : List Item)
    → has_child new xs ≡ true
    → has_child text xs ≡ (has_child text xs || eq_text new text)
known_child text new xs h = elim (Bool-cases (eq_text new text)) [
  | inl e ↦
      let k : has_child text xs ≡ true =
        ap (λ t. has_child t xs) (sym (eq_text→eq new text e)) ∙ h in
      rw k refl
  | inr e ↦ rw e (or_false (has_child text xs))
]

-- A text below the root to which a child has been added.
added_child :
    (tk : Toolkit) (text new : List ℕ) (x : Item) (xs : List Item)
    → KeepsTexts tk
    → x.text ≡ new
    → has_child text (tk.sort_children (if has_child new xs then xs else xs ++ x ∷ []))
      ≡ (has_child text xs || eq_text new text)
added_child tk text new x xs keeps e =
    keeps.kept text (if has_child new xs then xs else xs ++ x ∷ [])
    ∙ elim (Bool-cases (has_child new xs)) [
      | inl h ↦ rw h (known_child text new xs h)
      | inr h ↦ rw h (has_child-append text xs x ∙ rw e refl)
    ]

-- What addTreeChild does below the roots.
added :
    (tk : Toolkit) (tree : Tree) (parent root : ColColorType) (name text : List ℕ) (icon : ℕ)
    → KeepsTexts tk
    → has_child text (add_tree_child tk tree parent name (root_name parent) icon parent root) ≡ (
        has_child text (tree root)
        || (same_root root parent && eq_text (label tk parent name) text))
unfolding add_tree_child label
added tk tree ingame_green ingame_green name text icon keeps =
    added_child tk text _ _ (tree ingame_green) keeps refl
added tk tree ingame_green online_blue name text icon keeps = or_false _
added tk tree ingame_green offline_gray name text icon keeps = or_false _
added tk tree online_blue ingame_green name text icon keeps = or_false _
added tk tree online_blue online_blue name text icon keeps =
    added_child tk text _ _ (tree online_blue) keeps refl
added tk tree online_blue offline_gray name text icon keeps = or_false _
added tk tree offline_gray ingame_green name text icon keeps = or_false _
added tk tree offline_gray online_blue name text icon keeps = or_false _
added tk tree offline_gray offline_gray name text icon keeps =
    added_child tk text _ _ (tree offline_gray) keeps refl

-- Where two roots are the same, so is what a function says of them.
same_place :
    (f : ColColorType → Bool) (root parent : ColColorType)
    → (same_root root parent && f parent) ≡ (same_root root parent && f root)
same_place f ingame_green ingame_green = refl
same_place f ingame_green online_blue = refl
same_place f ingame_green offline_gray = refl
same_place f online_blue ingame_green = refl
same_place f online_blue online_blue = refl
same_place f online_blue offline_gray = refl
same_place f offline_gray ingame_green = refl
same_place f offline_gray online_blue = refl
same_place f offline_gray offline_gray = refl

-- A friend whose state belongs to the root `parent`.
shown_under :
    (tk : Toolkit) (tree : Tree) (parent root : ColColorType) (name text : List ℕ) (icon state : ℕ)
    → KeepsTexts tk
    → is_under root state ≡ same_root root parent
    → has_child text (add_tree_child tk tree parent name (root_name parent) icon parent root)
      ≡ (has_child text (tree root) || (is_under root state && eq_text (label tk root name) text))
shown_under tk tree parent root name text icon state keeps h =
    added tk tree parent root name text icon keeps
    ∙ ap (λ b. has_child text (tree root) || b)
        (same_place (λ r. eq_text (label tk r name) text) root parent ∙ rw h refl)

-- What a friend of a packet does below a root.
shown :
    (tk : Toolkit) (tree : Tree) (root : ColColorType) (name text : List ℕ) (state : ℕ)
    → KeepsTexts tk
    → has_child text (show_friend tk tree name state root)
      ≡ (has_child text (tree root) || (is_under root state && eq_text (label tk root name) text))
unfolding show_friend
shown tk tree root name text state keeps = elim (Bool-cases (state == user_offline)) [
  | inl e ↦ rw e (shown_under tk tree offline_gray root name text 0 state keeps (at_offline root e))
  | inr e ↦ rw e (elim (Bool-cases (state == user_online)) [
    | inl h ↦ rw h (shown_under tk tree online_blue root name text 1 state keeps (at_online root h))
    | inr h ↦ rw h (elim (Bool-cases (state == user_in_game)) [
      | inl k ↦
          rw k (shown_under tk tree ingame_green root name text 0 state keeps (in_game root k))
      | inr k ↦ rw k (rw (nowhere root e h k) (or_false (has_child text (tree root))))
    ])
  ])
]
  where
    at_offline :
        (r : ColColorType) → state == 0 ≡ true → is_under r state ≡ same_root r offline_gray
    at_offline ingame_green e = ground arith
    at_offline online_blue e = ground arith
    at_offline offline_gray e = e

    at_online : (r : ColColorType) → state == 2 ≡ true → is_under r state ≡ same_root r online_blue
    at_online ingame_green e = ground arith
    at_online online_blue e = e
    at_online offline_gray e = ground arith

    in_game : (r : ColColorType) → state == 4 ≡ true → is_under r state ≡ same_root r ingame_green
    in_game ingame_green e = e
    in_game online_blue e = ground arith
    in_game offline_gray e = ground arith

    nowhere :
        (r : ColColorType)
        → state == 0 ≡ false
        → state == 2 ≡ false
        → state == 4 ≡ false
        → is_under r state ≡ false
    nowhere ingame_green e h k = k
    nowhere online_blue e h k = h
    nowhere offline_gray e h k = e

listed_below :
    (tk : Toolkit) (root : ColColorType) (text : List ℕ) (friends : List (List ℕ × ℕ))
    (names : List (List ℕ)) (tree : Tree)
    → KeepsTexts tk
    → has_child text ((show_friends tk friends (names, tree)).1 root)
      ≡ (has_child text (tree root) || is_listed tk root text friends)
unfolding show_friends is_listed
listed_below tk root text [] names tree keeps = or_false (has_child text (tree root))
listed_below tk root text ((name, state) ∷ friends) names tree keeps =
    listed_below tk root text friends (insert_text name names) (show_friend tk tree name state)
      keeps
    ∙ rw (shown tk tree root name text state keeps) (
        or_assoc (has_child text (tree root))
          (is_under root state && eq_text (label tk root name) text)
          (is_listed tk root text friends))

known_names :
    (tk : Toolkit) (friends : List (List ℕ × ℕ)) (names : List (List ℕ)) (tree : Tree)
    → Joins names (map (λ friend. friend.0) friends) (show_friends tk friends (names, tree)).0
unfolding show_friends
known_names tk [] names tree = Joins-nil names
known_names tk ((name, state) ∷ friends) names tree =
    Joins-insert name names (map (λ friend. friend.0) friends) _
      (known_names tk friends (insert_text name names) (show_friend tk tree name state))

no_children : (xs : List Item) → remove_children (length xs) xs ≡ []
unfolding remove_children
no_children [] = refl
no_children (x ∷ xs) = no_children xs

-- The friends of a packet, with a sorting of Qt that keeps the texts: whatever has been listed before,
-- a name is then known as a friend's exactly if it is that of a friend of the packet, and a text is
-- below a root exactly if a friend of the packet whose state belongs to the root is called this there.
pub show_friends_lists :
    (tk : Toolkit) (tree : Tree) (friends : List (List ℕ × ℕ)) (root : ColColorType)
    (name text : List ℕ)
    → KeepsTexts tk
    → let shown = show_friends tk friends ([], remove_tree_child_all tree) in
      (has_text name shown.0 ≡ has_text name (map (λ friend. friend.0) friends))
      × (has_child text (shown.1 root) ≡ is_listed tk root text friends)
unfolding remove_tree_child_all has_text has_child
show_friends_lists tk tree friends root name text keeps = (
  known_names tk friends [] (remove_tree_child_all tree) name,
  listed_below tk root text friends [] (remove_tree_child_all tree) keeps
      ∙ rw (no_children (tree root), has_child) refl,
)
