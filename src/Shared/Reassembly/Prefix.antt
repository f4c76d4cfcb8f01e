-- ===== src/Shared/Reassembly/Prefix.antt =====
-- Cutting what has arrived so far of a stream of packets.
use dhserver.Base.{
  ℕ, zero, suc, ◌+◌, ◌≤◌, ◌<◌, ◌≡◌, refl, sym, ap, ◌∙◌, inl, inr, List, [], ◌∷◌, ◌++◌, map, arith,
  ltb, length, take, drop, length-append, length-drop, take-append_le, drop-append_le,
  take-append_self, drop-append_self, Bool-cases, ltb→lt, append-nil,
}
use dhserver.Shared.{packet_header_size, max_packet_size, overlapped_bufize}
use dhserver.Shared.Bytes.{read_le, read_le-append}
use dhserver.Shared.Packet.{
  Packet, encode, stream, IsSendable, AllSendable, length-encode, size-encode, kind-encode,
}
use dhserver.Shared.Reassembly.{part, whole, front, more, Cut, cut, cut-part, cut-whole}

module _ (p : Packet) (xs ys zs : List ℕ) (v : IsSendable p) (e : xs ++ ys ≡ encode p ++ zs) where
  size_arrived : packet_header_size ≤ length xs → read_le 8 xs ≡ length p.body
  size_arrived h =
      sym (read_le-append 8 xs ys (omega arith)) ∙ ap (read_le 8) e ∙ size-encode p zs v

  kind_arrived : packet_header_size ≤ length xs → read_le 2 (drop 8 xs) ≡ p.kind
  kind_arrived h =
      sym (read_le-append 2 (drop 8 xs) ys (omega (arith, length-drop 8 xs)))
      ∙ ap (read_le 2) (sym (drop-append_le 8 xs ys (omega arith)))
      ∙ ap (λ l. read_le 2 (drop 8 l)) e
      ∙ kind-encode p zs v

  -- Part of a packet is not taken for a whole one, and a whole one is taken as it was encoded.
  pub front_arrived_part : length xs < length (encode p) → front xs ≡ part
  unfolding front
  front_arrived_part h = elim (Bool-cases (ltb (length xs) packet_header_size)) [
    | inl short ↦ rw short
    | inr long ↦
        let k : packet_header_size ≤ length xs = ground arith in
        ground (arith, size_arrived k, length-encode p)
  ]

  pub front_arrived_whole : length (encode p) ≤ length xs → front xs ≡ whole (length (encode p))
  unfolding front
  front_arrived_whole h =
      let l = length-encode p in
      let k : packet_header_size ≤ length xs = omega arith in
      ground (arith, size_arrived k, kind_arrived k, l)

  arrived_take : length (encode p) ≤ length xs → take (length (encode p)) xs ≡ encode p
  arrived_take h =
      sym (take-append_le (length (encode p)) xs ys h)
      ∙ ap (take (length (encode p))) e
      ∙ take-append_self (encode p) zs

  arrived_drop : length (encode p) ≤ length xs → drop (length (encode p)) xs ++ ys ≡ zs
  arrived_drop h =
      sym (drop-append_le (length (encode p)) xs ys h)
      ∙ ap (drop (length (encode p))) e
      ∙ drop-append_self (encode p) zs

-- Every packet, with its header, leaves room in the buffer for one more transfer.
abbrev pub AllFit : List Packet → Type 0
AllFit [] = Unit {0}
AllFit (p ∷ ps) = (length (encode p) + overlapped_bufize ≤ max_packet_size + 1) × AllFit ps

-- The bytes `xs` have arrived of `stream ps`, and `ys` have not: `xs` is cut into the first
-- packets and a rest that begins the others and is short enough for one more transfer.
pub record Arrived (fuel : ℕ) (xs ys : List ℕ) (ps : List Packet) : Type 0 where
  pub taken : List Packet
  pub left : List Packet
  pub split : ps ≡ taken ++ left
  pub packets : (cut fuel xs).packets ≡ map encode taken
  pub fine : (cut fuel xs).verdict ≡ more
  pub rest : (cut fuel xs).rest ++ ys ≡ stream left
  pub waits : front (cut fuel xs).rest ≡ part
  pub short : length (cut fuel xs).rest + overlapped_bufize ≤ max_packet_size
  pub left_sendable : AllSendable left
  pub left_fit : AllFit left

Arrived-part :
    (fuel : ℕ) (xs ys : List ℕ) (ps : List Packet)
    → AllSendable ps
    → AllFit ps
    → xs ++ ys ≡ stream ps
    → front xs ≡ part
    → length xs + overlapped_bufize ≤ max_packet_size
    → Arrived (suc fuel) xs ys ps
Arrived-part fuel xs ys ps v f e a s =
    let c = cut-part fuel xs a in
    record {
      taken = [];
      left = ps;
      split = refl;
      packets = ap (λ (r : Cut). r.packets) c;
      fine = ap (λ (r : Cut). r.verdict) c;
      rest = ap (λ (r : Cut). r.rest ++ ys) c ∙ e;
      waits = ap (λ (r : Cut). front r.rest) c ∙ a;
      short = omega (arith, ap (λ (r : Cut). length r.rest) c);
      left_sendable = v;
      left_fit = f;
    }

Arrived-whole :
    (fuel : ℕ) (xs ys : List ℕ) (p : Packet) (ps : List Packet)
    → front xs ≡ whole (length (encode p))
    → take (length (encode p)) xs ≡ encode p
    → Arrived fuel (drop (length (encode p)) xs) ys ps
    → Arrived (suc fuel) xs ys (p ∷ ps)
Arrived-whole fuel xs ys p ps w t a =
    let c = cut-whole fuel xs (length (encode p)) w in
    record {
      taken = p ∷ a.taken;
      left = a.left;
      split = ap (λ l. p ∷ l) a.split;
      packets = ap (λ (r : Cut). r.packets) c ∙ rw (t, a.packets) refl;
      fine = ap (λ (r : Cut). r.verdict) c ∙ a.fine;
      rest = ap (λ (r : Cut). r.rest ++ ys) c ∙ a.rest;
      waits = ap (λ (r : Cut). front r.rest) c ∙ a.waits;
      short = omega (arith, ap (λ (r : Cut). length r.rest) c, a.short);
      left_sendable = a.left_sendable;
      left_fit = a.left_fit;
    }

pub front-nil : front [] ≡ part
unfolding front
front-nil = refl

-- `xs` has arrived of a stream of packets that have a type and fit, and `ys` is to come. With more
-- fuel than bytes, `xs` is cut into the first packets, exactly as they were encoded, with no bad
-- header; the rest and `ys` are the stream of the other packets, and the rest is less than a packet
-- and leaves room for one more transfer.
pub cut-Arrived :
    (fuel : ℕ) (xs ys : List ℕ) (ps : List Packet)
    → AllSendable ps
    → AllFit ps
    → xs ++ ys ≡ stream ps
    → length xs < fuel
    → Arrived fuel xs ys ps
cut-Arrived zero xs ys ps v f e h = absurd (omega arith)
cut-Arrived (suc fuel) [] ys [] v f e h = Arrived-part fuel [] ys [] v f e front-nil (omega arith)
cut-Arrived (suc fuel) (x ∷ xs) ys [] v f e h = cc
cut-Arrived (suc fuel) xs ys (p ∷ ps) v f e h =
    elim (Bool-cases (ltb (length xs) (length (encode p)))) [
      | inl short ↦
          let l = ltb→lt _ _ short in
          Arrived-part fuel xs ys (p ∷ ps) v f e (front_arrived_part p xs ys (stream ps) v.0 e l)
            (omega arith)
      | inr long ↦
          let l : length (encode p) ≤ length xs = ground arith in
          Arrived-whole fuel xs ys p ps (front_arrived_whole p xs ys (stream ps) v.0 e l)
            (arrived_take p xs ys (stream ps) v.0 e l)
            (cut-Arrived fuel (drop (length (encode p)) xs) ys ps v.1 f.1
              (arrived_drop p xs ys (stream ps) v.0 e l)
              (omega (arith, length-drop (length (encode p)) xs, length-encode p)))
    ]

-- A stream that has arrived whole does not wait unless it is empty.
pub stream_waits : (ps : List Packet) → AllSendable ps → front (stream ps) ≡ part → ps ≡ []
stream_waits [] v e = refl
stream_waits (p ∷ ps) v e =
    let w =
      front_arrived_whole p (stream (p ∷ ps)) [] (stream ps) v.0 (append-nil _)
        (omega (arith, length-append (encode p) (stream ps))) in
    cc (sym w ∙ e)
