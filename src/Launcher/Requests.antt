-- ===== src/Launcher/Requests.antt =====
-- GamePlayLauncher.cpp: the requests of friendship that are shown, three at most, with the buttons
-- that answer them (SortFriendRequest, PushAcceptFriendRequestButton1 to 3,
-- PushCancelFriendRequestButton1 to 3, and their part of RecvServerPacket).
pub mod Shown
pub mod Overrun
use dhserver.Base.{
  ℕ, zero, suc, ◌+◌, ◌-◌, Bool, true, false, List, [], ◌∷◌, arith, ltb, if◌then◌else◌, replicate,
}
use dhserver.Base.Outcome.{Outcome, done, fault, ◌>>=◌}
use dhserver.DhNetWorkApi.{NetWorkPtr}
use dhserver.Launcher.{Toolkit, convert_kr, C2s, accept_friend, post}

-- A child of _Friend_Request_Item.
pub record Slot : Type 0 where
  pub text : List ℕ
  pub hidden : Bool

-- Friend_Request_List, the children of _Friend_Request_Item and whether it is hidden, and
-- Current_Friend_Request_Count.
pub record Panel : Type 0 where
  pub friend_request_list : List (List ℕ)
  pub children : List Slot
  pub is_hidden : Bool
  pub current_friend_request_count : ℕ

-- addFriendRequest, with `resize(3, "")` of the constructor.
unfoldable pub new_panel : Panel
new_panel = record {
  friend_request_list = replicate 3 [];
  children = replicate 3 (record { text = []; hidden = true });
  is_hidden = true;
  current_friend_request_count = 0;
}

-- A read and a write of a vector, or of a child that is found by its number; a child that is not there
-- is a null pointer.
unfoldable pub get_at {ℓ} : {A : Type ℓ} → List A → ℕ → Outcome A
get_at [] i = fault
get_at (x ∷ xs) zero = done x
get_at (x ∷ xs) (suc i) = get_at xs i

unfoldable pub change_at {ℓ} : {A : Type ℓ} → List A → ℕ → (A → A) → Outcome (List A)
change_at [] i f = fault
change_at (x ∷ xs) zero f = done (f x ∷ xs)
change_at (x ∷ xs) (suc i) f = change_at xs i f >>= λ ys. done (x ∷ ys)

-- `Friend_Request_List[i] = name` and a change of the child `i`.
unfoldable pub change_slot : Panel → ℕ → List ℕ → (Slot → Slot) → Outcome Panel
unfolding change_at
change_slot p i name f = change_at p.friend_request_list i (λ n. name) >>= λ names.
    change_at p.children i f >>= λ slots.
    done (record p { friend_request_list = names; children = slots })

-- The loop of SortFriendRequest for `n` indexes from `i`.
unfoldable pub move_up : Toolkit → ℕ → ℕ → Panel → Outcome Panel
unfolding get_at change_slot
move_up tk zero i p = done p
move_up tk (suc n) i p = get_at p.friend_request_list (suc i) >>= λ name.
    change_slot p i name (λ s. record s { text = convert_kr tk name }) >>= λ p1.
    move_up tk n (suc i) p1

-- SortFriendRequest; child(-1) is a null pointer.
unfoldable pub sort_friend_request : Toolkit → ℕ → Panel → Outcome Panel
unfolding move_up change_at
sort_friend_request tk index p = move_up tk (2 - index) index p >>= λ p1.
    elim p1.current_friend_request_count [
      | zero ↦ fault
      | suc c ↦ change_at p1.children c (λ s. record s { hidden = true }) >>= λ slots.
          done (record p1 { children = slots; current_friend_request_count = c })
    ]

-- PushAcceptFriendRequestButton1 to 3 and PushCancelFriendRequestButton1 to 3: the button `k`, counted
-- from 0, accepts or not.
unfoldable pub push_answer_button :
    Toolkit → NetWorkPtr → List ℕ → Panel → ℕ → Bool → Outcome (NetWorkPtr × Panel)
unfolding get_at sort_friend_request post
push_answer_button tk api user p k is_accept = get_at p.friend_request_list k >>= λ name.
    post tk api (accept_friend user name is_accept) >>= λ api1.
    sort_friend_request tk k p >>= λ p1. done (api1, p1)

-- The first loop over the children, which clears the names and hides the children from `i`.
unfoldable pub clear_slots : ℕ → ℕ → Panel → Outcome Panel
unfolding change_slot
clear_slots zero i p = done p
clear_slots (suc n) i p =
    change_slot (record p { current_friend_request_count = 0 }) i []
      (λ s. record s { hidden = true })
    >>= λ p1. clear_slots n (suc i) p1

-- The loop over the requests of a packet, from the number `i`.
unfoldable pub fill_slots : Toolkit → ℕ → List (List ℕ) → Panel → Outcome Panel
unfolding change_slot
fill_slots tk i [] p = done p
fill_slots tk i (name ∷ names) p =
    if ltb 4 i
    then fill_slots tk (suc i) names p
    else (change_slot p i name (λ s. record s { text = convert_kr tk name; hidden = false })
        >>= λ p1.
            fill_slots tk (suc i) names
              (record p1 { current_friend_request_count = suc p1.current_friend_request_count }))

-- The part of RecvServerPacket for the requests of a packet.
unfoldable pub show_requests : Toolkit → List (List ℕ) → Panel → Outcome Panel
unfolding clear_slots fill_slots
show_requests tk [] p = done (record p { is_hidden = true })
show_requests tk (name ∷ names) p =
    clear_slots 3 0 (record p { is_hidden = false }) >>= λ p1. fill_slots tk 0 (name ∷ names) p1
