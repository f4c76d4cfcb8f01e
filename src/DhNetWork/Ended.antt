-- ===== src/DhNetWork/Ended.antt =====
-- A DHNetWork after End (DHNetWork.cpp): the network is deleted, the type stays.
use dhserver.Base.{ℕ, ◌≡◌, ◌≢◌, refl, sym, subst, List, Option, none, some}
use dhserver.Base.Outcome.{done, fault, Ensures, Ensures-done, Ensures-bind}
use dhserver.Shared.{Message}
use dhserver.DhNetWork.{
  NetType, type_nonset, type_dhserver, type_dhclient, NetWork, DhNetWork, net_end, through, send,
  recv, end,
}

abbrev IsEnded : NetType → ℕ × DhNetWork → Type 0
IsEnded t r = (r.1.net_work ≡ none) × (r.1.current_type ≡ t)

end-IsEnded :
    (o : Option NetWork) (d : ℕ) (t : NetType)
    → Ensures (IsEnded t) (end (record { net_work = o; debug_option = d; current_type = t }))
unfolding end
end-IsEnded none d t = Ensures-done (IsEnded t) _ (refl, refl)
end-IsEnded (some n) d t =
    Ensures-bind (λ _. Unit {0}) (IsEnded t) (net_end n) _ (record { result = λ a e. tt })
      λ (r, n1) q. Ensures-done (IsEnded t) _ (refl, refl)

-- Any call through the null pointer, for a type that is set.
faults :
    (d : ℕ) (t : NetType) (packet : List ℕ) (send_type socket : ℕ) (out : List Message)
    → t ≢ type_nonset
    → let g : DhNetWork = record { net_work = none; debug_option = d; current_type = t } in
      (end g ≡ done (1, g)) × (send g packet send_type socket ≡ fault) × (recv g out ≡ fault)
unfolding end send recv through
faults d type_nonset packet send_type socket out h = absurd (h refl)
faults d type_dhserver packet send_type socket out h = (refl, refl, refl)
faults d type_dhclient packet send_type socket out h = (refl, refl, refl)

-- Once End has returned on an object that was a server or a client, a second End returns TRUE and
-- changes nothing, but Send and Recv call through the null pointer.
pub end_then_faults :
    (f g : DhNetWork) (r : ℕ) (packet : List ℕ) (send_type socket : ℕ) (out : List Message)
    → f.current_type ≢ type_nonset
    → end f ≡ done (r, g)
    → (end g ≡ done (1, g)) × (send g packet send_type socket ≡ fault) × (recv g out ≡ fault)
end_then_faults f g r packet send_type socket out h e =
    let (n, t) = (end-IsEnded f.net_work f.debug_option f.current_type).result (r, g) e in
    let k = faults g.debug_option f.current_type packet send_type socket out h in
    let same : g
        ≡ record { net_work = none; debug_option = g.debug_option; current_type = f.current_type } =
      λ i. record { net_work = n i; debug_option = g.debug_option; current_type = t i } in
    subst
      (λ x. (end x ≡ done (1, x)) × (send x packet send_type socket ≡ fault) × (recv x out ≡ fault))
      (sym same) k
