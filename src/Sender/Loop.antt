-- ===== src/Sender/Loop.antt =====
-- The sending loop that SendThread (DHServer.cpp) and SendFunction (DHClient.cpp) share. The two
-- loops fill the interface.
use dhserver.Base.{
  ℕ, zero, suc, ◌+◌, ◌-◌, ◌*◌, ◌≤◌, ◌<◌, ◌≡◌, refl, sym, ap, ◌∙◌, subst, ◌⊎◌, inl, inr, List, ◌∷◌,
  ◌++◌, arith, length, take, drop, length-take, append_assoc, append-nil,
}
use mathlib.Core.Bool.{false≢true}
use dhserver.Base.Outcome.{Outcome, done}
use dhserver.Shared.{overlapped_bufize}
use dhserver.Server.{Os, Call}
use dhserver.Server.Send.{block, block_size}
use dhserver.Sender.{
  sent, BlocksFit, sent_self, AcceptsSends, RefusesOne, size_bounds, full_block, block_then,
}

-- A sending side: its loop on fuel, and what its states keep where a block is taken (`Kept`) and
-- in any case (`Weak`).
pub record Sender (S : Type 0) (os : Os) : Type 1 where
  pub socket : ℕ
  pub calls : S → List Call
  pub Ready : S → Type 0
  pub Kept : S → S → Type 0
  pub Weak : S → S → Type 0
  pub loop : ℕ → S → List ℕ → ℕ → ℕ → Outcome S
  pub kept_ready : (s t : S) → Kept s t → Ready s → Ready t
  pub kept_self : (s : S) → Kept s s
  pub kept_trans : (s t u : S) → Kept s t → Kept t u → Kept s u
  pub weak : (s t : S) → Kept s t → Weak s t
  pub weak_trans : (s t u : S) → Weak s t → Weak t u → Weak s u
  pub ends :
      (fuel : ℕ) (s : S) (packet : List ℕ) (offset : ℕ) → loop (suc fuel) s packet offset 0 ≡ done s
  pub round :
      (fuel : ℕ) (s : S) (packet : List ℕ) (offset total : ℕ)
      → Ready s
      → 0 < total
      → offset * overlapped_bufize + total ≤ length packet
      → ((t : S) × (op : ℕ) × (loop (suc fuel) s packet offset total
            ≡ loop fuel t packet (offset + 1) (total - block_size total))
          × (calls t ≡ Call.wsa_send socket op (block packet offset (block_size total)) ∷ calls s)
          × Kept s t)
        ⊎ ((t : S) × (loop (suc fuel) s packet offset total ≡ done t)
            × (sent socket (calls t) ≡ sent socket (calls s))
            × (BlocksFit (calls s) → BlocksFit (calls t))
            × RefusesOne os
            × Weak s t)

module _ {S : Type 0} (os : Os) (r : Sender S os) where
  -- What the loop has done for `total` bytes from block `offset` on: `count` bytes of them went out in
  -- their order, all of them if Windows took every send.
  pub record Sent (s : S) (packet : List ℕ) (offset total : ℕ) (s' : S) : Type 0 where
    pub count : ℕ
    pub within : count ≤ total
    pub bytes :
        sent r.socket (r.calls s')
        ≡ sent r.socket (r.calls s) ++ take count (drop (offset * overlapped_bufize) packet)
    pub all_sent : AcceptsSends os → (count ≡ total) × r.Kept s s'
    pub fit : BlocksFit (r.calls s) → BlocksFit (r.calls s')
    pub keeps : r.Weak s s'

  abbrev Sends : ℕ → S → List ℕ → ℕ → ℕ → Type 0
  Sends fuel s packet offset total =
      (s' : S) × (r.loop fuel s packet offset total ≡ done s') × Sent s packet offset total s'

  nothing_left :
      (fuel : ℕ) (s : S) (packet : List ℕ) (offset : ℕ) → Sends (suc fuel) s packet offset 0
  nothing_left fuel s packet offset = (
    s,
    r.ends fuel s packet offset,
    record {
      count = 0;
      within = omega arith;
      bytes = sym (append-nil _);
      all_sent = λ a. (refl, r.kept_self s);
      fit = λ f. f;
      keeps = r.weak s s (r.kept_self s);
    },
  )

  fits_cons :
      (op : ℕ) (packet : List ℕ) (offset size : ℕ) (calls : List Call)
      → size ≤ overlapped_bufize
      → BlocksFit calls
      → BlocksFit (Call.wsa_send r.socket op (block packet offset size) ∷ calls)
  unfolding BlocksFit block
  fits_cons op packet offset size calls h f =
      (omega (arith, length-take size (drop (offset * overlapped_bufize) packet)), f)

  -- A block was taken, and the loop goes on.
  round_taken :
      (fuel : ℕ) (s t : S) (packet : List ℕ) (offset total op : ℕ)
      → 0 < total
      → r.loop (suc fuel) s packet offset total
        ≡ r.loop fuel t packet (offset + 1) (total - block_size total)
      → r.calls t ≡ Call.wsa_send r.socket op (block packet offset (block_size total)) ∷ r.calls s
      → r.Kept s t
      → Sends fuel t packet (offset + 1) (total - block_size total)
      → Sends (suc fuel) s packet offset total
  round_taken fuel s t packet offset total op z e c k (s', run, x) =
      let b = size_bounds total z in
      (
        s',
        e ∙ run,
        record {
          count = block_size total + x.count;
          within = omega (arith, b, x.within);
          bytes =
              x.bytes
              ∙ ap (λ l. l ++ take x.count (drop ((offset + 1) * overlapped_bufize) packet))
                  (ap (sent r.socket) c ∙ sent_self r.socket op _ (r.calls s))
              ∙ append_assoc (sent r.socket (r.calls s)) _ _
              ∙ ap (λ l. sent r.socket (r.calls s) ++ l)
                  (block_then packet offset total x.count z x.within);
          all_sent =
              λ a. let (all, kept) = x.all_sent a in (omega (arith, b), r.kept_trans s t s' k kept);
          fit = λ f. x.fit (
              subst BlocksFit (sym c)
                (fits_cons op packet offset (block_size total) (r.calls s) b.0 f));
          keeps = r.weak_trans s t s' (r.weak s t k) x.keeps;
        },
      )

  -- A block was refused, and the loop ends.
  round_refused :
      (fuel : ℕ) (s t : S) (packet : List ℕ) (offset total : ℕ)
      → r.loop (suc fuel) s packet offset total ≡ done t
      → sent r.socket (r.calls t) ≡ sent r.socket (r.calls s)
      → (BlocksFit (r.calls s) → BlocksFit (r.calls t))
      → RefusesOne os
      → r.Weak s t
      → Sends (suc fuel) s packet offset total
  round_refused fuel s t packet offset total e c f (h, socket, op, bytes, refused) w = (
    t,
    e,
    record {
      count = 0;
      within = omega arith;
      bytes = c ∙ sym (append-nil _);
      all_sent = λ a. absurd (false≢true (sym refused ∙ a h socket op bytes));
      fit = f;
      keeps = w;
    },
  )

  -- The loop ends, whatever Windows answers.
  pub loop-Sends :
      (fuel : ℕ) (s : S) (packet : List ℕ) (offset total : ℕ)
      → r.Ready s
      → total < fuel
      → (0 < total → offset * overlapped_bufize + total ≤ length packet)
      → Sends fuel s packet offset total
  loop-Sends zero s packet offset total a h w = absurd (omega arith)
  loop-Sends (suc fuel) s packet offset zero a h w = nothing_left fuel s packet offset
  loop-Sends (suc fuel) s packet offset (suc n) a h w =
      let z : 0 < suc n = omega arith in
      let b = size_bounds (suc n) z in
      let rest = suc n - block_size (suc n) in
      let left : 0 < rest → (offset + 1) * overlapped_bufize + rest ≤ length packet =
        λ pos. omega (arith, full_block (suc n) pos, w z) in
      elim (r.round fuel s packet offset (suc n) a z (w z)) [
        | inl (t, op, e, c, k) ↦ round_taken fuel s t packet offset (suc n) op z e c k (
            loop-Sends fuel t packet (offset + 1) rest (r.kept_ready s t k a) (omega (arith, b))
              left)
        | inr (t, e, c, f, refused, k) ↦
            round_refused fuel s t packet offset (suc n) e c f refused k
      ]
