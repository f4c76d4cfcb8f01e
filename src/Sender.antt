-- ===== src/Sender.antt =====
-- What the sending loops of SendThread (DHServer.cpp) and SendFunction (DHClient.cpp) put on a socket
-- in blocks.
pub mod Loop
use dhserver.Base.{
  ℕ, zero, suc, ◌+◌, ◌-◌, ◌*◌, ◌≤◌, ◌<◌, ◌≡◌, refl, sym, ap, ◌∙◌, subst, ◌⊎◌, inl, inr, true, false,
  List, [], ◌∷◌, ◌++◌, arith, length, take, drop, take-take, take-add, drop-add, take-append_le,
  length-take, append_assoc, append-nil, ◌==◌, ==_self, leb, if◌then◌else◌, Bool-cases, length-drop,
}
use mathlib.Core.Bool.{false≢true}
use dhserver.Base.Outcome.{Outcome, done}
use dhserver.Shared.{Overlapped, overlapped_bufize}
use dhserver.Shared.Bytes.{memcpy_s_within}
use dhserver.Server.{Os, Call}
use dhserver.Server.Send.{block, block_size, fill}

-- The bytes that WSASend has taken for a socket, in their order; the calls are newest first.
unfoldable pub sent : ℕ → List Call → List ℕ
sent k [] = []
sent k (Call.wsa_send socket op bytes ∷ calls) = sent k calls ++ (if socket == k then bytes else [])
sent k (_ ∷ calls) = sent k calls

-- Every block that was sent fits the buffer of an overlapped.
unfoldable pub BlocksFit : List Call → Type 0
BlocksFit [] = Unit {0}
BlocksFit (Call.wsa_send socket op bytes ∷ calls) =
    (length bytes ≤ overlapped_bufize) × BlocksFit calls
BlocksFit (_ ∷ calls) = BlocksFit calls

pub sent_self :
    (socket op : ℕ) (bytes : List ℕ) (calls : List Call)
    → sent socket (Call.wsa_send socket op bytes ∷ calls) ≡ sent socket calls ++ bytes
unfolding sent
sent_self socket op bytes calls = rw (==_self socket) refl

-- Windows takes every send.
abbrev pub AcceptsSends : Os → Type 0
AcceptsSends os =
    (h : List Call) (socket op : ℕ) (bytes : List ℕ)
    → os.pending h (Call.wsa_send socket op bytes) ≡ true

-- Windows has refused one.
abbrev pub RefusesOne : Os → Type 0
RefusesOne os =
    (h : List Call) × (socket : ℕ) × (op : ℕ) × (bytes : List ℕ) × (os.pending h
        (Call.wsa_send socket op bytes)
      ≡ false)

-- What a round puts into WSASend is its block of the packet.
pub filled :
    (o : Overlapped) (socket : ℕ) (packet : List ℕ) (offset size : ℕ)
    → size ≤ overlapped_bufize
    → offset * overlapped_bufize + size ≤ length packet
    → take (fill o socket packet offset size).wsabuf_len (fill o socket packet offset size).buffer
      ≡ block packet offset size
unfolding fill block
filled o socket packet offset size h l =
    let b = take size (drop (offset * overlapped_bufize) packet) in
    let n : length b ≡ size = omega (
      arith,
      length-take size (drop (offset * overlapped_bufize) packet),
      length-drop (offset * overlapped_bufize) packet,
    ) in
    ap (take size) (memcpy_s_within o.buffer overlapped_bufize b size h)
    ∙ take-append_le size (take size b) (drop size o.buffer) (omega (arith, length-take size b))
    ∙ take-take size size b (omega arith)
    ∙ take-take size size (drop (offset * overlapped_bufize) packet) (omega arith)

pub size_bounds :
    (total : ℕ)
    → 0 < total
    → (block_size total ≤ overlapped_bufize) × (block_size total ≤ total) × (0 < block_size total)
unfolding block_size
size_bounds total h = ground arith

pub full_block : (total : ℕ) → 0 < total - block_size total → block_size total ≡ overlapped_bufize
unfolding block_size
full_block total h = ground arith

-- A block, and what is sent behind it.
pub block_then :
    (packet : List ℕ) (offset total count : ℕ)
    → 0 < total
    → count ≤ total - block_size total
    → block packet offset (block_size total)
        ++ take count (drop ((offset + 1) * overlapped_bufize) packet)
      ≡ take (block_size total + count) (drop (offset * overlapped_bufize) packet)
unfolding block block_size
block_then packet offset total count z h = elim (Bool-cases (leb overlapped_bufize total)) [
  | inl full ↦
      let m : (offset + 1) * overlapped_bufize ≡ offset * overlapped_bufize + overlapped_bufize =
        omega arith in
      rw full (
        ap
          (λ k.
            take overlapped_bufize (drop (offset * overlapped_bufize) packet)
            ++ take count (drop k packet))
          m
        ∙ ap
            (λ r. take overlapped_bufize (drop (offset * overlapped_bufize) packet) ++ take count r)
            (drop-add (offset * overlapped_bufize) overlapped_bufize packet)
        ∙ sym (take-add overlapped_bufize count (drop (offset * overlapped_bufize) packet)))
  | inr last ↦
      let k : count ≡ 0 = ground arith in
      let t : total + count ≡ total = omega arith in rw last (rw (t, k) (append-nil _))
]
