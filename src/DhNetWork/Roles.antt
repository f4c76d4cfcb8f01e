-- ===== src/DhNetWork/Roles.antt =====
-- The role of a DHNetWork (DHNetWork.cpp), over any sequence of calls.
use dhserver.Base.{ℕ, ◌≡◌, ◌⊎◌, inl, inr, refl, sym, ◌∙◌, subst, List, some}
use dhserver.Base.Outcome.{done}
use dhserver.Shared.{Overlapped, Message}
use dhserver.Server.{Server, Os}
use dhserver.Client.{Client}
use dhserver.DhNetWork.{
  type_nonset, is_server, is_client, DhNetWork, initialize, send, connect, accept, disconnect, recv,
  end,
}
use dhserver.DhNetWork.Calls.{
  Fits, IsCoherent, Kept, send-Kept, connect-Kept, accept-Kept, disconnect-Kept, end-Kept,
  recv-Kept,
}

-- A call on the object that returns, or anything that the threads of its network do between calls.
pub data Step (os : Os) : DhNetWork → DhNetWork → Type 0 where
  initializes : (f : DhNetWork) (option : ℕ) → Step os f (initialize f option).1
  sends :
      (f g : DhNetWork) (packet : List ℕ) (send_type socket r : ℕ)
      → send f packet send_type socket ≡ done (r, g)
      → Step os f g
  connects :
      (f g : DhNetWork) (memory : ℕ → Overlapped) (port : ℕ) (ip : List ℕ) (r : ℕ)
      → connect memory f port ip ≡ done (r, g)
      → Step os f g
  accepts :
      (f g : DhNetWork) (memory : ℕ → Overlapped) (fuel users threads r : ℕ)
      → accept os fuel memory f users threads ≡ done (r, g)
      → Step os f g
  disconnects :
      (f g : DhNetWork) (socket r : ℕ) → disconnect os f socket ≡ done (r, g) → Step os f g
  receives :
      (f g : DhNetWork) (out out' : List Message) (r : ℕ)
      → recv f out ≡ done (r, out', g)
      → Step os f g
  ends : (f g : DhNetWork) (r : ℕ) → end f ≡ done (r, g) → Step os f g
  serves :
      (f : DhNetWork) (s s' : Server)
      → f.net_work ≡ some (is_server s)
      → Step os f (record f { net_work = some (is_server s') })
  plays :
      (f : DhNetWork) (c c' : Client)
      → f.net_work ≡ some (is_client c)
      → Step os f (record f { net_work = some (is_client c') })

pub data Reaches (os : Os) : DhNetWork → DhNetWork → Type 0 where
  here : (f : DhNetWork) → Reaches os f f
  step : (f g h : DhNetWork) → Step os f g → Reaches os g h → Reaches os f h

Step-Kept : (os : Os) (f g : DhNetWork) → Step os f g → IsCoherent f → Kept f.current_type g
unfolding initialize
Step-Kept os _ _ (initializes f option) h = (h, inl refl)
Step-Kept os _ _ (sends f g p t k r e) h =
    (send-Kept f.net_work f.debug_option f.current_type p t k h).result (r, g) e
Step-Kept os _ _ (connects f g memory port ip r e) h =
    (connect-Kept memory f.net_work f.debug_option f.current_type port ip h).result (r, g) e
Step-Kept os _ _ (accepts f g memory fuel users threads r e) h =
    (accept-Kept os fuel memory f.net_work f.debug_option f.current_type users threads h).result
      (r, g) e
Step-Kept os _ _ (disconnects f g k r e) h =
    (disconnect-Kept os f.net_work f.debug_option f.current_type k h).result (r, g) e
Step-Kept os _ _ (receives f g out out' r e) h =
    (recv-Kept f.net_work f.debug_option f.current_type out h).result (r, out', g) e
Step-Kept os _ _ (ends f g r e) h =
    (end-Kept f.net_work f.debug_option f.current_type h).result (r, g) e
Step-Kept os _ _ (serves f s s' e) h = (subst (Fits f.current_type) e h, inl refl)
Step-Kept os _ _ (plays f c c' e) h = (subst (Fits f.current_type) e h, inl refl)

-- Whatever is called and whatever the threads do, in any order from a coherent state on, the network
-- stays what Current_Type says, and a role that has been taken, as a server or as a client, stays:
-- the type is that of before, unless none had been set.
pub Reaches-IsCoherent :
    (os : Os) (f g : DhNetWork)
    → Reaches os f g
    → IsCoherent f
    → IsCoherent g × ((g.current_type ≡ f.current_type) ⊎ (f.current_type ≡ type_nonset))
Reaches-IsCoherent os _ _ (here f) h = (h, inl refl)
Reaches-IsCoherent os _ _ (step f g k s r) h =
    let (c, a) = Step-Kept os f g s h in
    let (c', b) = Reaches-IsCoherent os g k r c in (c', joined a b)
  where
    joined :
        (g.current_type ≡ f.current_type) ⊎ (f.current_type ≡ type_nonset)
        → (k.current_type ≡ g.current_type) ⊎ (g.current_type ≡ type_nonset)
        → (k.current_type ≡ f.current_type) ⊎ (f.current_type ≡ type_nonset)
    joined (inl x) (inl y) = inl (y ∙ x)
    joined (inl x) (inr y) = inr (sym x ∙ y)
    joined (inr x) y = inr x
