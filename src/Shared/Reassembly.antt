-- ===== src/Shared/Reassembly.antt =====
-- What the receiving sides of DHServer and DHClient are to do with a stream of bytes: cut it into
-- packets. It is stated on the bytes alone, with no buffer and no overlapped structure.
pub mod Prefix
use dhserver.Base.{
  ℕ, zero, suc, ◌+◌, ◌-◌, ◌≤◌, ◌<◌, ◌≡◌, refl, ap, List, [], ◌∷◌, ◌++◌, arith, ltb, ◌==◌,
  if◌then◌else◌, length, take, drop,
}
use dhserver.Shared.{packet_header_size, add_size, packet_type_none}
use dhserver.Shared.Bytes.{read_le}

-- What stands at the head of the bytes: less than a packet, a packet with its size, a packet
-- without a type, or a size so large that header and body together wrap below the header.
pub data Front : Type 0 where
  part : Front
  whole : ℕ → Front
  untyped : Front
  wrapped : Front

-- Why the cutting ended.
pub data Verdict : Type 0 where
  more bad_type overread : Verdict

unfoldable pub front : List ℕ → Front
front xs =
    if ltb (length xs) packet_header_size
    then part
    else let total = add_size packet_header_size (read_le 8 xs) in
      if ltb (length xs) total
      then part
      else if ltb total packet_header_size
      then wrapped
      else if read_le 2 (drop 8 xs) == packet_type_none
      then untyped
      else whole total

-- The packets, the bytes behind them, and the verdict.
pub record Cut : Type 0 where
  pub packets : List (List ℕ)
  pub rest : List ℕ
  pub verdict : Verdict

abbrev pub with_packet : List ℕ → Cut → Cut
with_packet p c = record c { packets = p ∷ c.packets }

unfoldable pub cut : ℕ → List ℕ → Cut
cut zero xs = record { packets = []; rest = xs; verdict = more }
cut (suc fuel) xs = elim (front xs) [
  | part ↦ record { packets = []; rest = xs; verdict = more }
  | whole n ↦ with_packet (take n xs) (cut fuel (drop n xs))
  | untyped ↦ record { packets = []; rest = xs; verdict = bad_type }
  | wrapped ↦ record { packets = []; rest = xs; verdict = overread }
]

-- The rounds of `cut`, one for each kind of front.
pub cut-part :
    (fuel : ℕ) (xs : List ℕ)
    → front xs ≡ part
    → cut (suc fuel) xs ≡ record { packets = []; rest = xs; verdict = more }
unfolding cut
cut-part fuel xs e = rw (e, cut)

pub cut-whole :
    (fuel : ℕ) (xs : List ℕ) (n : ℕ)
    → front xs ≡ whole n
    → cut (suc fuel) xs ≡ with_packet (take n xs) (cut fuel (drop n xs))
unfolding cut
cut-whole fuel xs n e = rw (e, cut)

pub cut-untyped :
    (fuel : ℕ) (xs : List ℕ)
    → front xs ≡ untyped
    → cut (suc fuel) xs ≡ record { packets = []; rest = xs; verdict = bad_type }
unfolding cut
cut-untyped fuel xs e = rw (e, cut)

pub cut-wrapped :
    (fuel : ℕ) (xs : List ℕ)
    → front xs ≡ wrapped
    → cut (suc fuel) xs ≡ record { packets = []; rest = xs; verdict = overread }
unfolding cut
cut-wrapped fuel xs e = rw (e, cut)
