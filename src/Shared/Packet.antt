-- ===== src/Shared/Packet.antt =====
-- A packet as the sender means it, and the bytes that it is in memory and on the wire:
-- Packet_Size, Packet_Type and the body, packed to one byte.
use dhserver.Base.{
  ℕ, ◌+◌, ◌^◌, ◌<◌, ◌≡◌, List, [], ◌∷◌, ◌++◌, arith, length, drop, append_assoc, length-append,
  drop-append_self,
}
use dhserver.Shared.Bytes.{read_le, write_le, length-write_le, read_le-write_le}

pub record Packet : Type 0 where
  pub kind : ℕ
  pub body : List ℕ

abbrev pub encode : Packet → List ℕ
encode p = write_le 8 (length p.body) ++ (write_le 2 p.kind ++ p.body)

-- A type other than PACKET_TYPE_NONE, and sizes that the header can hold.
pub record IsSendable (p : Packet) : Type 0 where
  pub has_kind : 0 < p.kind
  pub kind_fits : p.kind < 2 ^ 16
  pub size_fits : 10 + length p.body < 2 ^ 64

abbrev pub AllSendable : List Packet → Type 0
AllSendable [] = Unit {0}
AllSendable (p ∷ ps) = IsSendable p × AllSendable ps

-- The bytes of several packets, one after the other.
abbrev pub stream : List Packet → List ℕ
stream [] = []
stream (p ∷ ps) = encode p ++ stream ps

pub length-encode : (p : Packet) → length (encode p) ≡ 10 + length p.body
length-encode p = omega (
  arith,
  length-append (write_le 8 (length p.body)) (write_le 2 p.kind ++ p.body),
  length-append (write_le 2 p.kind) p.body,
  length-write_le 8 (length p.body),
  length-write_le 2 p.kind,
)

pub size-encode :
    (p : Packet) (rest : List ℕ) → IsSendable p → read_le 8 (encode p ++ rest) ≡ length p.body
size-encode p rest v = rw append_assoc (read_le-write_le 8 (length p.body) _ (omega arith))

pub kind-encode :
    (p : Packet) (rest : List ℕ) → IsSendable p → read_le 2 (drop 8 (encode p ++ rest)) ≡ p.kind
kind-encode p rest v =
    rw (append_assoc, kinds) (rw append_assoc (read_le-write_le 2 p.kind _ (omega arith)))
  where
    kinds :
        drop 8 (write_le 8 (length p.body) ++ ((write_le 2 p.kind ++ p.body) ++ rest))
        ≡ (write_le 2 p.kind ++ p.body) ++ rest
    kinds =
        (rw length-write_le at
          (drop-append_self (write_le 8 (length p.body)) ((write_le 2 p.kind ++ p.body) ++ rest)))
