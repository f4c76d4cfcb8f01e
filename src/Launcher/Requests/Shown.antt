-- ===== src/Launcher/Requests/Shown.antt =====
-- The requests that the launcher (GamePlayLauncher.cpp) shows, as a list of names.
use dhserver.Base.{
  ℕ, zero, suc, ◌+◌, ◌<◌, ◌≡◌, refl, Bool, true, false, List, [], ◌∷◌, ◌++◌, map, Option, some,
  none, arith, length,
}
use dhserver.Base.Outcome.{done}
use dhserver.DhNetWorkApi.{NetWorkPtr}
use dhserver.Launcher.{Toolkit, convert_kr, accept_friend, post}
use dhserver.Launcher.Requests.{
  Slot, Panel, get_at, change_at, change_slot, move_up, sort_friend_request, push_answer_button,
}

-- A child that shows this name.
abbrev slot_of : Toolkit → List ℕ → Slot
slot_of tk name = record { text = convert_kr tk name; hidden = false }

abbrev hidden_slot : List ℕ → Slot
hidden_slot text = record { text = text; hidden = true }

-- The children from the front show these names; behind them there are old names, and hidden children
-- with old texts.
abbrev pub showing : Toolkit → List (List ℕ) → List (List ℕ) → List (List ℕ) → Bool → Panel
showing tk rs names texts h = record {
  friend_request_list = rs ++ names;
  children = map (slot_of tk) rs ++ map hidden_slot texts;
  is_hidden = h;
  current_friend_request_count = length rs;
}

-- The panel shows these requests, at most three.
abbrev pub IsShowing : Toolkit → List (List ℕ) → Panel → Type 0
IsShowing tk rs p =
    (names texts : List (List ℕ)) × (p ≡ showing tk rs names texts p.is_hidden)
    × (length rs + length names ≡ 3)
    × (length rs + length texts ≡ 3)

-- The list without its entry `k`, and that entry.
abbrev pub delete_at : ℕ → List (List ℕ) → List (List ℕ)
delete_at k [] = []
delete_at zero (r ∷ rs) = rs
delete_at (suc k) (r ∷ rs) = r ∷ delete_at k rs

abbrev pub entry_at : ℕ → List (List ℕ) → Option (List ℕ)
entry_at k [] = none
entry_at zero (r ∷ rs) = some r
entry_at (suc k) (r ∷ rs) = entry_at k rs

abbrev Sorts : Toolkit → List (List ℕ) → List (List ℕ) → List (List ℕ) → Bool → ℕ → Type 0
Sorts tk rs names texts h k =
    (p1 : Panel) × (sort_friend_request tk k (showing tk rs names texts h) ≡ done p1)
    × IsShowing tk (delete_at k rs) p1
    × (p1.is_hidden ≡ h)

one-Sorts :
    (tk : Toolkit) (a n1 n2 t1 t2 : List ℕ) (h : Bool)
    → Sorts tk (a ∷ []) (n1 ∷ n2 ∷ []) (t1 ∷ t2 ∷ []) h 0
unfolding sort_friend_request move_up change_slot change_at get_at
one-Sorts tk a n1 n2 t1 t2 h =
    let names = n1 ∷ n2 ∷ n2 ∷ [] in
    let texts = convert_kr tk n1 ∷ convert_kr tk n2 ∷ t2 ∷ [] in
    (showing tk [] names texts h, refl, (names, texts, refl, refl, refl), refl)

two-Sorts :
    (tk : Toolkit) (a b n t : List ℕ) (h : Bool) (k : ℕ)
    → k < 2
    → Sorts tk (a ∷ b ∷ []) (n ∷ []) (t ∷ []) h k
unfolding sort_friend_request move_up change_slot change_at get_at
two-Sorts tk a b n t h zero l =
    let texts = convert_kr tk n ∷ t ∷ [] in
    (showing tk (b ∷ []) (n ∷ n ∷ []) texts h, refl, (n ∷ n ∷ [], texts, refl, refl, refl), refl)
two-Sorts tk a b n t h (suc zero) l =
    let texts = convert_kr tk n ∷ t ∷ [] in
    (showing tk (a ∷ []) (n ∷ n ∷ []) texts h, refl, (n ∷ n ∷ [], texts, refl, refl, refl), refl)
two-Sorts tk a b n t h (suc (suc k)) l = absurd (omega arith)

three-Sorts :
    (tk : Toolkit) (a b c : List ℕ) (h : Bool) (k : ℕ) → k < 3 → Sorts tk (a ∷ b ∷ c ∷ []) [] [] h k
unfolding sort_friend_request move_up change_slot change_at get_at
three-Sorts tk a b c h zero l =
    let texts = convert_kr tk c ∷ [] in
    (showing tk (b ∷ c ∷ []) (c ∷ []) texts h, refl, (c ∷ [], texts, refl, refl, refl), refl)
three-Sorts tk a b c h (suc zero) l =
    let texts = convert_kr tk c ∷ [] in
    (showing tk (a ∷ c ∷ []) (c ∷ []) texts h, refl, (c ∷ [], texts, refl, refl, refl), refl)
three-Sorts tk a b c h (suc (suc zero)) l =
    let texts = convert_kr tk c ∷ [] in
    (showing tk (a ∷ b ∷ []) (c ∷ []) texts h, refl, (c ∷ [], texts, refl, refl, refl), refl)
three-Sorts tk a b c h (suc (suc (suc k))) l = absurd (omega arith)

-- Lists of two, of one and of no entries.
two_entries : (xs : List (List ℕ)) → length xs ≡ 2 → (x y : List ℕ) × (xs ≡ x ∷ y ∷ [])
two_entries [] e = absurd (omega arith)
two_entries (x ∷ []) e = absurd (omega arith)
two_entries (x ∷ y ∷ []) e = (x, y, refl)
two_entries (x ∷ y ∷ z ∷ xs) e = absurd (omega arith)

one_entry : (xs : List (List ℕ)) → length xs ≡ 1 → (x : List ℕ) × (xs ≡ x ∷ [])
one_entry [] e = absurd (omega arith)
one_entry (x ∷ []) e = (x, refl)
one_entry (x ∷ y ∷ xs) e = absurd (omega arith)

no_entry : (xs : List (List ℕ)) → length xs ≡ 0 → xs ≡ []
no_entry [] e = refl
no_entry (x ∷ xs) e = absurd (omega arith)

sort_friend_request-Sorts :
    (tk : Toolkit) (rs names texts : List (List ℕ)) (h : Bool) (k : ℕ)
    → k < length rs
    → length rs + length names ≡ 3
    → length rs + length texts ≡ 3
    → Sorts tk rs names texts h k
sort_friend_request-Sorts tk [] names texts h k l e f = absurd (omega arith)
sort_friend_request-Sorts tk (a ∷ []) names texts h zero l e f =
    let (n1, n2, i) = two_entries names (omega arith) in
    let (t1, t2, j) = two_entries texts (omega arith) in rw (i, j) (one-Sorts tk a n1 n2 t1 t2 h)
sort_friend_request-Sorts tk (a ∷ []) names texts h (suc k) l e f = absurd (omega arith)
sort_friend_request-Sorts tk (a ∷ b ∷ []) names texts h k l e f =
    let (n, i) = one_entry names (omega arith) in
    let (t, j) = one_entry texts (omega arith) in rw (i, j) (two-Sorts tk a b n t h k l)
sort_friend_request-Sorts tk (a ∷ b ∷ c ∷ []) names texts h k l e f =
    rw (no_entry names (omega arith), no_entry texts (omega arith)) (three-Sorts tk a b c h k l)
sort_friend_request-Sorts tk (a ∷ b ∷ c ∷ d ∷ rs) names texts h k l e f = absurd (omega arith)

-- The entry of the shown names is read at its number.
get_at_entry :
    (rs names : List (List ℕ)) (k : ℕ) (name : List ℕ)
    → entry_at k rs ≡ some name
    → (get_at (rs ++ names) k ≡ done name) × (k < length rs)
unfolding get_at
get_at_entry [] names k name e = cc
get_at_entry (r ∷ rs) names zero name e = (cc, omega arith)
get_at_entry (r ∷ rs) names (suc k) name e =
    let (run, l) = get_at_entry rs names k name e in (run, omega arith)

-- The panel shows at most three requests, of which one has the number `k`, and the answer to it can be
-- sent. Then its Accept button or its Cancel button sends this answer, and the panel shows the other
-- requests in their order.
pub push_answer_shows :
    (tk : Toolkit) (api api1 : NetWorkPtr) (user : List ℕ) (p : Panel) (rs : List (List ℕ)) (k : ℕ)
    (name : List ℕ) (b : Bool)
    → IsShowing tk rs p
    → entry_at k rs ≡ some name
    → post tk api (accept_friend user name b) ≡ done api1
    → (p1 : Panel) × (push_answer_button tk api user p k b ≡ done (api1, p1))
      × IsShowing tk (delete_at k rs) p1
      × (p1.is_hidden ≡ p.is_hidden)
unfolding push_answer_button
push_answer_shows tk api api1 user p rs k name b (names, texts, shape, e, f) n s =
    let (run, l) = get_at_entry rs names k name n in
    let (p1, sorted, shown, h) = sort_friend_request-Sorts tk rs names texts p.is_hidden k l e f in
    (p1, rw shape (rw run (rw s (rw sorted refl))), shown, h)
