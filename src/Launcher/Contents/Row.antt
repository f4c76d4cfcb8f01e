-- ===== src/Launcher/Contents/Row.antt =====
-- The buttons of the launcher's news (GamePlayLauncher.cpp) stand in a row that ends where it should.
use dhserver.Base.{
  ℕ, zero, suc, ◌+◌, ◌-◌, ◌*◌, ◌≤◌, ◌<◌, ◌≡◌, refl, ap, ap₂, sym, subst, ◌∙◌, Bool, true, false,
  List, [], ◌∷◌, arith, ◌==◌, ==→eq, if◌then◌else◌, length, ◌++◌, ◌||◌, ◌⊎◌, Option, some, none,
  append_assoc, length-append, Bool-cases, inl, inr,
}
use dhserver.Launcher.Contents.{
  Button, Contents, content_x, icon_interval, non_focus_icon_x, focus_icon_x, start_icon_x,
  focus_button, non_focus_button, make_buttons, place_buttons, focus_on, push_from,
  push_content_button, new_button,
}

-- Each button begins where the one before ends and an interval more; the first begins at `start`, and
-- behind the last one and an interval there is `end`.
unfoldable pub StandsIn : ℕ → ℕ → List Button → Type 0
StandsIn start end [] = start ≡ end
StandsIn start end (b ∷ bs) = (b.x ≡ start) × StandsIn (b.x + icon_interval + b.width) end bs

-- The addresses of the buttons, and of those with the focus.
unfoldable pub addresses : List Button → List ℕ
addresses [] = []
addresses (b ∷ bs) = b.address ∷ addresses bs

unfoldable pub focused : List Button → List ℕ
focused [] = []
focused (b ∷ bs) = if b.is_focus then b.address ∷ focused bs else focused bs

abbrev entry_at : ℕ → List ℕ → Option ℕ
entry_at k [] = none
entry_at zero (a ∷ xs) = some a
entry_at (suc k) (a ∷ xs) = entry_at k xs

-- A row of buttons without the focus, whose number is below `j`.
behind_focus :
    (focus j start end : ℕ) (bs : List Button)
    → focus < j
    → start + 14 * length bs ≡ end
    → let row = place_buttons focus j start bs in StandsIn start end row × (focused row ≡ [])
unfolding place_buttons StandsIn focused
behind_focus focus j start end [] l e = (omega arith, refl)
behind_focus focus j start end (b ∷ bs) l e =
    let n : j == focus ≡ false = ground arith in
    let (row, c) =
      behind_focus focus (suc j) (start + icon_interval + non_focus_icon_x) end bs (omega arith)
        (omega arith) in
    rw n ((refl, row), c)

-- A row in which the button with the number `k` gets the focus.
around_focus :
    (focus j k start end address : ℕ) (bs : List Button)
    → j + k ≡ focus
    → entry_at k (addresses bs) ≡ some address
    → start + 14 * length bs + 20 ≡ end
    → let row = place_buttons focus j start bs in
      StandsIn start end row × (focused row ≡ address ∷ [])
unfolding place_buttons StandsIn focused addresses
around_focus focus j k start end address [] h i e = cc
around_focus focus j zero start end address (b ∷ bs) h i e =
    let n : j == focus ≡ true = ground arith in
    let (row, c) =
      behind_focus focus (suc j) (start + icon_interval + focus_icon_x) end bs (omega arith)
        (omega arith) in
    let k : b.address ≡ address = cc in rw n ((refl, row), ap₂ (λ a xs. a ∷ xs) k c)
around_focus focus j (suc k) start end address (b ∷ bs) h i e =
    let n : j == focus ≡ false = ground arith in
    let (row, c) =
      around_focus focus (suc j) k (start + icon_interval + non_focus_icon_x) end address bs
        (omega arith) i (omega arith) in
    rw n ((refl, row), c)

-- The addresses stay xs they are.
addresses-place_buttons :
    (focus j start : ℕ) (bs : List Button)
    → addresses (place_buttons focus j start bs) ≡ addresses bs
unfolding place_buttons addresses
addresses-place_buttons focus j start [] = refl
addresses-place_buttons focus j start (b ∷ bs) = elim (Bool-cases (j == focus)) [
  | inl h ↦ rw h (ap (λ xs. b.address ∷ xs) (addresses-place_buttons focus (suc j) _ bs))
  | inr h ↦ rw h (ap (λ xs. b.address ∷ xs) (addresses-place_buttons focus (suc j) _ bs))
]

length-addresses : (bs : List Button) → length (addresses bs) ≡ length bs
unfolding addresses
length-addresses [] = refl
length-addresses (b ∷ bs) = ap suc (length-addresses bs)

entry-behind : (xs bs : List ℕ) (a : ℕ) → entry_at (length xs) (xs ++ a ∷ bs) ≡ some a
entry-behind [] bs a = refl
entry-behind (x ∷ xs) bs a = entry-behind xs bs a

-- The buttons stand in a row, and the one that was clicked has the focus.
abbrev IsPlaced : (start end clicked : ℕ) → Contents → Type 0
IsPlaced start end clicked c = StandsIn start end c.buttons × (focused c.buttons ≡ clicked ∷ [])

abbrev pub has_address : ℕ → List Button → Bool
has_address clicked [] = false
has_address clicked (b ∷ bs) = (b.address == clicked) || has_address clicked bs

-- The focus on the button behind those with the addresses `before`.
focus_on-IsPlaced :
    (start end address : ℕ) (before behind : List ℕ) (c : Contents)
    → addresses c.buttons ≡ before ++ address ∷ behind
    → start + 14 * length c.buttons + 20 ≡ end
    → IsPlaced start end address (focus_on start (length before) c)
unfolding focus_on
focus_on-IsPlaced start end address before behind c e n =
    around_focus (length before) 0 (length before) start end address c.buttons (omega arith)
      (rw e (entry-behind before behind address)) n

length-focus_on :
    (start i : ℕ) (c : Contents) → length (focus_on start i c).buttons ≡ length c.buttons
unfolding focus_on
length-focus_on start i c =
    sym (length-addresses (place_buttons i 0 start c.buttons))
    ∙ ap length (addresses-place_buttons i 0 start c.buttons)
    ∙ length-addresses c.buttons

-- The outer loop behind the buttons with the addresses `before`.
push_from-IsPlaced :
    (start end clicked : ℕ) (before : List ℕ) (bs : List Button) (c : Contents)
    → addresses c.buttons ≡ before ++ addresses bs
    → start + 14 * length c.buttons + 20 ≡ end
    → IsPlaced start end clicked c ⊎ (has_address clicked bs ≡ true)
    → IsPlaced start end clicked (push_from start clicked (length before) bs c)
unfolding push_from addresses
push_from-IsPlaced start end clicked before [] c e n (inl h) = h
push_from-IsPlaced start end clicked before [] c e n (inr h) = cc
push_from-IsPlaced start end clicked before (b ∷ bs) c e n h =
    elim (Bool-cases (b.address == clicked)) [
      | inl k ↦
          let i : b.address ≡ clicked = ==→eq b.address clicked k in
          let c1 = focus_on start (length before) c in
          let f : addresses c1.buttons ≡ (before ++ b.address ∷ []) ++ addresses bs =
            addresses-place_buttons (length before) 0 start c.buttons ∙ e ∙ shift in
          rw (k, push_from)
            (rw (sym longer) (
              push_from-IsPlaced start end clicked (before ++ b.address ∷ []) bs c1 f
                (rw (length-focus_on start (length before) c) n)
                (inl (
                  subst (λ a. IsPlaced start end a c1) i
                    (focus_on-IsPlaced start end b.address before (addresses bs) c e n)))))
      | inr k ↦
          rw (k, push_from)
            (rw (sym longer) (
              push_from-IsPlaced start end clicked (before ++ b.address ∷ []) bs c (e ∙ shift) n
                (still h k)))
    ]
  where
    shift : before ++ b.address ∷ addresses bs ≡ (before ++ b.address ∷ []) ++ addresses bs
    shift = sym (append_assoc before (b.address ∷ []) (addresses bs))

    longer : length (before ++ b.address ∷ []) ≡ suc (length before)
    longer = omega (arith, length-append before (b.address ∷ []))

    still :
        IsPlaced start end clicked c ⊎ ((b.address == clicked) || has_address clicked bs ≡ true)
        → (b.address == clicked) ≡ false
        → IsPlaced start end clicked c ⊎ (has_address clicked bs ≡ true)
    still (inl p) k = inl p
    still (inr p) k = inr (rw k at p)

-- A push of a button of at most 63, in whatever places they were: the row then begins at
-- _Start_Icon_X, each button stands an interval behind the one before, the last one ends at
-- Content_x, and exactly the button that was pushed has the focus.
pub push_content_button_places :
    (clicked : ℕ) (c : Contents)
    → length c.buttons ≤ 63
    → has_address clicked c.buttons ≡ true
    → let c1 = push_content_button (length c.buttons) clicked c in
      StandsIn (start_icon_x (length c.buttons)) (content_x + icon_interval) c1.buttons
      × (focused c1.buttons ≡ clicked ∷ [])
unfolding push_content_button start_icon_x
push_content_button_places clicked c l h =
    push_from-IsPlaced (start_icon_x (length c.buttons)) (content_x + icon_interval) clicked []
      c.buttons c refl (starts c.buttons l h) (inr h)
  where
    starts :
        (bs : List Button)
        → length bs ≤ 63
        → has_address clicked bs ≡ true
        → content_x
            - (icon_interval + non_focus_icon_x) * (length bs - 1)
            - focus_icon_x
            + 14 * length bs
            + 20
          ≡ content_x + icon_interval
    starts [] l h = cc
    starts (b ∷ bs) l h = omega arith

-- New buttons at these addresses.
abbrev pub new_buttons : List ℕ → List Button
new_buttons [] = []
new_buttons (a ∷ xs) = new_button a ∷ new_buttons xs

behind_first :
    (count i offset : ℕ) (xs : List ℕ)
    → offset ≡ start_icon_x count + 34 + 14 * i
    → make_buttons count (suc i) xs ≡ place_buttons 0 (suc i) offset (new_buttons xs)
unfolding make_buttons place_buttons
behind_first count i offset [] e = refl
behind_first count i offset (a ∷ xs) e =
    let n : suc i == 0 ≡ false = ground arith in
    let x : start_icon_x count
          + focus_icon_x
          + icon_interval
          + (icon_interval + non_focus_icon_x) * i
        ≡ offset =
      omega arith in
    rw n (
      ap₂ (λ y bs. non_focus_button (new_button a) y ∷ bs) x
        (behind_first count (suc i) (offset + icon_interval + non_focus_icon_x) xs (omega arith)))

-- The constructor puts its buttons where a push of the first of them would put them.
pub make_buttons_first :
    (count : ℕ) (addresses : List ℕ)
    → make_buttons count 0 addresses
      ≡ place_buttons 0 0 (start_icon_x count) (new_buttons addresses)
unfolding make_buttons place_buttons
make_buttons_first count [] = refl
make_buttons_first count (a ∷ xs) =
    ap (λ bs. focus_button (new_button a) (start_icon_x count) ∷ bs)
      (behind_first count 0 (start_icon_x count + icon_interval + focus_icon_x) xs (omega arith))
