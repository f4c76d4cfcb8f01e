-- ===== src/Shared/Bytes.antt =====
-- Little-endian words in byte memory, and memcpy_s.
use native.Mathlib.Nat.{pow-suc}
use dhserver.Base.{
  ℕ, zero, suc, ◌+◌, ◌*◌, ◌/◌, ◌%◌, ◌^◌, ◌≤◌, ◌<◌, ◌≡◌, refl, ap, List, [], ◌∷◌, ◌++◌, arith, leb,
  if◌then◌else◌, length, take, drop, replicate, length-append, length-take, length-drop,
}

-- The value of the first `n` bytes of a memory.
unfoldable pub read_le : ℕ → List ℕ → ℕ
read_le zero xs = 0
read_le (suc n) [] = 0
read_le (suc n) (x ∷ xs) = x + 256 * read_le n xs

-- The `n` bytes of a value.
unfoldable pub write_le : ℕ → ℕ → List ℕ
write_le zero v = []
write_le (suc n) v = v % 256 ∷ write_le n (v / 256)

pub length-write_le : (n v : ℕ) → length (write_le n v) ≡ n
unfolding write_le
length-write_le zero v = refl
length-write_le (suc n) v = ap suc (length-write_le n (v / 256))

pub read_le-write_le :
    (n v : ℕ) (rest : List ℕ) → v < 256 ^ n → read_le n (write_le n v ++ rest) ≡ v
unfolding read_le write_le
read_le-write_le zero v rest h = omega arith
read_le-write_le (suc n) v rest h =
    omega (arith, read_le-write_le n (v / 256) rest (below (pow-suc 256 n)))
  where
    below : 256 ^ suc n ≡ 256 ^ n * 256 → v / 256 < 256 ^ n
    below e = omega arith

-- A word is read from its bytes alone.
pub read_le-take : (n k : ℕ) (xs : List ℕ) → n ≤ k → read_le n (take k xs) ≡ read_le n xs
unfolding read_le
read_le-take zero k xs h = refl
read_le-take (suc n) zero xs h = absurd (omega arith)
read_le-take (suc n) (suc k) [] h = refl
read_le-take (suc n) (suc k) (x ∷ xs) h = ap (λ r. x + 256 * r) (read_le-take n k xs (omega arith))

pub read_le-append : (n : ℕ) (xs ys : List ℕ) → n ≤ length xs → read_le n (xs ++ ys) ≡ read_le n xs
unfolding read_le
read_le-append zero xs ys h = refl
read_le-append (suc n) [] ys h = absurd (omega arith)
read_le-append (suc n) (x ∷ xs) ys h = ap (λ r. x + 256 * r) (read_le-append n xs ys (omega arith))

-- memcpy_s(dst, cap, src, n) at the region `dst`: with n beyond the capacity it clears the
-- destination instead.
unfoldable pub memcpy_s : List ℕ → ℕ → List ℕ → ℕ → List ℕ
memcpy_s dst cap src n =
    if leb n cap then take n src ++ drop n dst else replicate cap 0 ++ drop cap dst

pub memcpy_s_within :
    (dst : List ℕ) (cap : ℕ) (src : List ℕ) (n : ℕ)
    → n ≤ cap
    → memcpy_s dst cap src n ≡ take n src ++ drop n dst
unfolding memcpy_s
memcpy_s_within dst cap src n h = ground arith

pub length-memcpy_s :
    (dst : List ℕ) (cap : ℕ) (src : List ℕ) (n : ℕ)
    → n ≤ cap
    → n ≤ length src
    → n ≤ length dst
    → length (memcpy_s dst cap src n) ≡ length dst
length-memcpy_s dst cap src n a b c =
    rw (memcpy_s_within dst cap src n a)
      (omega (arith, length-append (take n src) (drop n dst), length-take n src, length-drop n dst))
