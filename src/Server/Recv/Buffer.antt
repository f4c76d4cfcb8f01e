-- ===== src/Server/Recv/Buffer.antt =====
-- The receive buffer of an overlapped (DHServer.cpp: BackUp_Overlapped, Push_RecvData) as the
-- bytes that are still to be cut into packets.
use dhserver.Base.{
  ℕ, zero, suc, ◌+◌, ◌-◌, ◌≤◌, ◌<◌, ◌≡◌, refl, sym, ap, ◌∙◌, List, [], ◌∷◌, ◌++◌, none, some, arith,
  ◌==◌, length, take, drop, length-take, length-drop, length-append, take-take, drop-take,
  take-append_le, take-append_self, true, false, append_assoc, subst,
}
use dhserver.Shared.{
  Overlapped, max_packet_size, overlapped_bufize, packet_header_size, packet_type_none,
}
use dhserver.Shared.Bytes.{read_le, read_le-take, memcpy_s, memcpy_s_within, length-memcpy_s}
use dhserver.Shared.Reassembly.{Front, part, whole, untyped, wrapped, front}
use dhserver.Server.Recv.{
  Head, waiting, complete, head, pull, back_up_overlapped, append_received, sub_size,
}

-- The arrays have their sizes, and the count of bytes to process lies within the buffer.
pub record IsValid (o : Overlapped) : Type 0 where
  pub buffer_size : length o.buffer ≡ overlapped_bufize
  pub processing_size : length o.processing_packet_buffer ≡ max_packet_size
  pub processed_in : o.processed_packet_size ≤ max_packet_size

-- The bytes that are in the buffer and not yet processed.
abbrev pub unprocessed : Overlapped → List ℕ
unprocessed o = take o.processed_packet_size o.processing_packet_buffer

pub length-unprocessed :
    (o : Overlapped) → IsValid o → length (unprocessed o) ≡ o.processed_packet_size
length-unprocessed o v =
    omega (arith, length-take o.processed_packet_size o.processing_packet_buffer)

-- What the loop does at the head of the buffer, in terms of `front`.
abbrev HeadOf : Overlapped → Front → Head → Type 0
HeadOf o part h = h ≡ waiting
HeadOf o (whole n) h = h ≡ complete n
HeadOf o untyped h =
    (n : ℕ) × (h ≡ complete n) × (packet_header_size ≤ n) × (n ≤ o.processed_packet_size)
HeadOf o wrapped h = (n : ℕ) × (h ≡ complete n) × (n < packet_header_size)

head-front : (o : Overlapped) → IsValid o → HeadOf o (front (unprocessed o)) (head o)
unfolding head front
head-front o v = ground (
  arith,
  length-unprocessed o v,
  read_le-take 8 o.processed_packet_size o.processing_packet_buffer,
)

-- A whole packet lies in the buffer, and the loop finds it; likewise the two bad heads.
pub head-part : (o : Overlapped) → IsValid o → front (unprocessed o) ≡ part → head o ≡ waiting
head-part o v e = subst (λ f. HeadOf o f (head o)) e (head-front o v)

pub head-whole :
    (o : Overlapped) (n : ℕ) → IsValid o → front (unprocessed o) ≡ whole n → head o ≡ complete n
head-whole o n v e = subst (λ f. HeadOf o f (head o)) e (head-front o v)

pub head-untyped :
    (o : Overlapped)
    → IsValid o
    → front (unprocessed o) ≡ untyped
    → (n : ℕ) × (head o ≡ complete n) × (packet_header_size ≤ n) × (n ≤ o.processed_packet_size)
head-untyped o v e = subst (λ f. HeadOf o f (head o)) e (head-front o v)

pub head-wrapped :
    (o : Overlapped)
    → IsValid o
    → front (unprocessed o) ≡ wrapped
    → (n : ℕ) × (head o ≡ complete n) × (n < packet_header_size)
head-wrapped o v e = subst (λ f. HeadOf o f (head o)) e (head-front o v)

-- The size of a whole packet covers its header and lies within the bytes.
pub whole_bounds :
    (xs : List ℕ) (n : ℕ) → front xs ≡ whole n → (packet_header_size ≤ n) × (n ≤ length xs)
unfolding front
whole_bounds xs n e = ground arith

-- The type of a packet is read from its own block.
pub kind-take :
    (n : ℕ) (xs : List ℕ)
    → packet_header_size ≤ n
    → read_le 2 (drop 8 (take n xs)) ≡ read_le 2 (drop 8 xs)
kind-take n xs h = kind_past 8 n xs (omega arith)
  where
    kind_past :
        (k m : ℕ) (ys : List ℕ) → k + 2 ≤ m → read_le 2 (drop k (take m ys)) ≡ read_le 2 (drop k ys)
    kind_past zero m ys l = read_le-take 2 m ys (omega arith)
    kind_past (suc k) zero ys l = absurd (omega arith)
    kind_past (suc k) (suc m) [] l = refl
    kind_past (suc k) (suc m) (y ∷ ys) l = kind_past k m ys (omega arith)

pub whole_kind :
    (xs : List ℕ) (n : ℕ) → front xs ≡ whole n → read_le 2 (drop 8 xs) == packet_type_none ≡ false
unfolding front
whole_kind xs n e = ground arith

pub untyped_kind :
    (xs : List ℕ) → front xs ≡ untyped → read_le 2 (drop 8 xs) == packet_type_none ≡ true
unfolding front
untyped_kind xs e = ground arith

pub length-pulled :
    (o : Overlapped) (n : ℕ)
    → IsValid o
    → n ≤ o.processed_packet_size
    → (pull o n).processed_packet_size ≡ o.processed_packet_size - n
unfolding pull
length-pulled o n v h = omega arith

-- The copy to the front of the buffer.
moved :
    (o : Overlapped) (n : ℕ)
    → IsValid o
    → n ≤ o.processed_packet_size
    → (pull o n).processing_packet_buffer
      ≡ take (max_packet_size - n) (drop n o.processing_packet_buffer)
        ++ drop (max_packet_size - n) o.processing_packet_buffer
unfolding pull
moved o n v h =
    let e : sub_size max_packet_size n ≡ max_packet_size - n = omega arith in
    (rw e (
      memcpy_s_within o.processing_packet_buffer max_packet_size (drop n o.processing_packet_buffer)
        (max_packet_size - n) (omega arith)))

pub pull-IsValid :
    (o : Overlapped) (n : ℕ) → IsValid o → n ≤ o.processed_packet_size → IsValid (pull o n)
unfolding pull
pull-IsValid o n v h = record {
  buffer_size = v.buffer_size;
  processing_size =
      length-memcpy_s o.processing_packet_buffer max_packet_size (drop n o.processing_packet_buffer)
        (sub_size max_packet_size n) (omega arith)
        (omega (arith, length-drop n o.processing_packet_buffer)) (omega arith)
      ∙ v.processing_size;
  processed_in = omega arith;
}

-- To pull a packet's size drops its bytes from what is unprocessed.
pub unprocessed-pull :
    (o : Overlapped) (n : ℕ)
    → IsValid o
    → n ≤ o.processed_packet_size
    → unprocessed (pull o n) ≡ drop n (unprocessed o)
unprocessed-pull o n v h =
    rw (moved o n v h, length-pulled o n v h)
      (take-append_le (o.processed_packet_size - n)
          (take (max_packet_size - n) (drop n o.processing_packet_buffer)) _
          (omega (
            arith,
            length-take (max_packet_size - n) (drop n o.processing_packet_buffer),
            length-drop n o.processing_packet_buffer,
          ))
        ∙ take-take (o.processed_packet_size - n) (max_packet_size - n)
            (drop n o.processing_packet_buffer) (omega arith)
        ∙ sym (drop-take n o.processed_packet_size o.processing_packet_buffer h (omega arith)))

module _ (o : Overlapped) (v : IsValid o) (d : o.data_size ≤ overlapped_bufize) where
  abbrev behind : List ℕ
  behind = drop o.processed_packet_size o.processing_packet_buffer

  length-behind : length behind ≡ max_packet_size - o.processed_packet_size
  length-behind = omega (arith, length-drop o.processed_packet_size o.processing_packet_buffer)

  module _ (h : o.processed_packet_size + o.data_size ≤ max_packet_size) where
    appended :
        (append_received o).processing_packet_buffer
        ≡ unprocessed o ++ (take o.data_size o.buffer ++ drop o.data_size behind)
    unfolding append_received
    appended =
        ap (λ xs. unprocessed o ++ xs)
          (memcpy_s_within behind (sub_size max_packet_size o.processed_packet_size) o.buffer
            o.data_size (omega arith))

    pub append_received-IsValid : IsValid (append_received o)
    unfolding append_received
    append_received-IsValid = record {
      buffer_size = v.buffer_size;
      processing_size = omega (
        arith,
        length-append (unprocessed o) (
            memcpy_s behind (sub_size max_packet_size o.processed_packet_size) o.buffer
              o.data_size),
        length-unprocessed o v,
        length-memcpy_s behind (sub_size max_packet_size o.processed_packet_size) o.buffer
            o.data_size (omega arith) (omega arith) (omega (arith, length-behind)),
        length-behind,
      );
      processed_in = omega arith;
    }

    pub processed-append_received :
        (append_received o).processed_packet_size ≡ o.processed_packet_size + o.data_size
    unfolding append_received
    processed-append_received = omega arith

    -- The bytes of the transfer follow those that were unprocessed.
    pub unprocessed-append_received :
        unprocessed (append_received o) ≡ unprocessed o ++ take o.data_size o.buffer
    unprocessed-append_received =
        rw (appended, processed-append_received)
          (rw
            (
              sym (
                  append_assoc (unprocessed o) (take o.data_size o.buffer)
                    (drop o.data_size behind)),
              size,
            )
            (take-append_self (unprocessed o ++ take o.data_size o.buffer)
              (drop o.data_size behind)))
      where
        size :
            o.processed_packet_size + o.data_size
            ≡ length (unprocessed o ++ take o.data_size o.buffer)
        size = omega (
          arith,
          length-append (unprocessed o) (take o.data_size o.buffer),
          length-unprocessed o v,
          length-take o.data_size o.buffer,
        )

    pub back_up_fits : back_up_overlapped o ≡ some (append_received o)
    unfolding back_up_overlapped
    back_up_fits = ground arith

  pub back_up_refuses :
      max_packet_size < o.processed_packet_size + o.data_size → back_up_overlapped o ≡ none
  unfolding back_up_overlapped
  back_up_refuses h = ground arith
