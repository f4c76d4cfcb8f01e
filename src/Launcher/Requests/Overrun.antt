-- ===== src/Launcher/Requests/Overrun.antt =====
-- The requests of a packet in the launcher (GamePlayLauncher.cpp): three find a place, a fourth does
-- not.
use dhserver.Base.{ℕ, ◌≤◌, ◌<◌, ◌≡◌, refl, Bool, false, List, [], ◌∷◌, arith, length}
use dhserver.Base.Outcome.{done, fault}
use dhserver.Launcher.{Toolkit}
use dhserver.Launcher.Requests.{
  Slot, Panel, change_at, change_slot, clear_slots, fill_slots, show_requests,
}
use dhserver.Launcher.Requests.Shown.{IsShowing}

-- The names and the children that the constructor has made.
pub record IsWide (p : Panel) : Type 0 where
  pub names : length p.friend_request_list ≡ 3
  pub slots : length p.children ≡ 3

three_entries {ℓ} : {A : Type ℓ} (xs : List A) → length xs ≡ 3 → (x y z : A) × (xs ≡ x ∷ y ∷ z ∷ [])
three_entries [] e = absurd (omega arith)
three_entries (x ∷ []) e = absurd (omega arith)
three_entries (x ∷ y ∷ []) e = absurd (omega arith)
three_entries (x ∷ y ∷ z ∷ []) e = (x, y, z, refl)
three_entries (x ∷ y ∷ z ∷ w ∷ xs) e = absurd (omega arith)

abbrev wide : List ℕ → List ℕ → List ℕ → Slot → Slot → Slot → Bool → ℕ → Panel
wide n1 n2 n3 s1 s2 s3 h c = record {
  friend_request_list = n1 ∷ n2 ∷ n3 ∷ [];
  children = s1 ∷ s2 ∷ s3 ∷ [];
  is_hidden = h;
  current_friend_request_count = c;
}

wide_panel :
    (p : Panel)
    → IsWide p
    → (n1 n2 n3 : List ℕ) × (s1 s2 s3 : Slot) × (p
        ≡ wide n1 n2 n3 s1 s2 s3 p.is_hidden p.current_friend_request_count)
wide_panel p w =
    let (n1, n2, n3, e) = three_entries p.friend_request_list w.names in
    let (s1, s2, s3, f) = three_entries p.children w.slots in (n1, n2, n3, s1, s2, s3, cc)

-- What a packet does to a panel with three names and children.
abbrev Shows : Toolkit → List (List ℕ) → Panel → Type 0
Shows tk rs p =
    (p1 : Panel) × (show_requests tk rs p ≡ done p1) × IsShowing tk rs p1 × (p1.is_hidden ≡ false)

wide-Shows :
    (tk : Toolkit) (rs : List (List ℕ)) (n1 n2 n3 : List ℕ) (s1 s2 s3 : Slot) (h : Bool) (c : ℕ)
    → 0 < length rs
    → length rs ≤ 3
    → Shows tk rs (wide n1 n2 n3 s1 s2 s3 h c)
unfolding show_requests clear_slots fill_slots change_slot change_at
wide-Shows tk [] n1 n2 n3 s1 s2 s3 h c l u = absurd (omega arith)
wide-Shows tk (a ∷ []) n1 n2 n3 s1 s2 s3 h c l u =
    (_, refl, ([] ∷ [] ∷ [], s2.text ∷ s3.text ∷ [], refl, refl, refl), refl)
wide-Shows tk (a ∷ b ∷ []) n1 n2 n3 s1 s2 s3 h c l u =
    (_, refl, ([] ∷ [], s3.text ∷ [], refl, refl, refl), refl)
wide-Shows tk (a ∷ b ∷ d ∷ []) n1 n2 n3 s1 s2 s3 h c l u =
    (_, refl, ([], [], refl, refl, refl), refl)
wide-Shows tk (a ∷ b ∷ d ∷ e ∷ rs) n1 n2 n3 s1 s2 s3 h c l u = absurd (omega arith)

-- A packet with one, two or three requests, for a panel with three names and children: the panel is
-- not hidden any more and shows exactly these requests, in the order of the packet, whatever it has
-- shown before.
pub show_requests_shows :
    (tk : Toolkit) (rs : List (List ℕ)) (p : Panel)
    → IsWide p
    → 0 < length rs
    → length rs ≤ 3
    → (p1 : Panel) × (show_requests tk rs p ≡ done p1) × IsShowing tk rs p1 × (p1.is_hidden ≡ false)
show_requests_shows tk rs p w l u =
    let (n1, n2, n3, s1, s2, s3, e) = wide_panel p w in
    rw e (wide-Shows tk rs n1 n2 n3 s1 s2 s3 p.is_hidden p.current_friend_request_count l u)

-- A packet with four requests or more writes behind the three names.
pub show_requests_overruns :
    (tk : Toolkit) (rs : List (List ℕ)) (p : Panel)
    → IsWide p
    → 3 < length rs
    → show_requests tk rs p ≡ fault
unfolding show_requests clear_slots fill_slots change_slot change_at
show_requests_overruns tk [] p w l = absurd (omega arith)
show_requests_overruns tk (a ∷ []) p w l = absurd (omega arith)
show_requests_overruns tk (a ∷ b ∷ []) p w l = absurd (omega arith)
show_requests_overruns tk (a ∷ b ∷ d ∷ []) p w l = absurd (omega arith)
show_requests_overruns tk (a ∷ b ∷ d ∷ e ∷ rs) p w l =
    let (n1, n2, n3, s1, s2, s3, shape) = wide_panel p w in rw shape refl
