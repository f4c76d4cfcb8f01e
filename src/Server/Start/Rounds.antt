-- ===== src/Server/Start/Rounds.antt =====
-- The loop of Accept (DHServer.cpp) over the sockets that it opens.
use dhserver.Base.{
  ℕ, zero, suc, ◌+◌, ◌-◌, ◌%◌, ◌^◌, ◌≤◌, ◌<◌, ◌≡◌, ◌≢◌, refl, Bool, true, false, arith, ltb, ◌==◌,
  Bool-cases, inl, inr, ◌⊎◌, lt→ltb, ltb→lt, subst,
}
use dhserver.Base.Outcome.{
  Outcome, done, fault, ◌>>=◌, Ensures, Ensures-done, Ensures-spin, Ensures-bind,
}
use dhserver.Shared.{IoType, invalid_socket}
use dhserver.ObjectPool.{get_object}
use dhserver.ObjectPool.Lending.{get_object-Lent}
use dhserver.Server.{Server, Os, Call, overlapped_object, overlapped, set_overlapped, emit, answer}
use dhserver.Server.Start.{returns_iocp, registered, open_socket, open_sockets, register_socket}

-- A round that opens a socket, or fails, keeps the limit of users.
abbrev SameLimits : Server → Bool × Server → Type 0
SameLimits s r = (r.1.max_user_count ≡ s.max_user_count)

open_socket-limits : (os : Os) (s : Server) → Ensures (SameLimits s) (open_socket os s)
unfolding open_socket register_socket
open_socket-limits os s =
    Ensures-bind (λ _. Unit {0}) (SameLimits s) (get_object overlapped_object s.overlapped_pool) _
      (record { result = λ a e. tt }) λ (op, q) _. record { result = λ r e. ground arith }

next_round :
    (fuel : ℕ) (os : Os) (i : ℕ) (s : Server)
    → ltb i (s.max_user_count + 10) ≡ true
    → open_sockets (suc fuel) os i s ≡ (
        open_socket os s >>= λ (opened, s1). elim opened [
          | true ↦ open_sockets fuel os ((i + 1) % 2 ^ 16) s1
          | false ↦ done (false, s1)
        ])
unfolding open_sockets
next_round fuel os i s e = rw (e, open_sockets) refl

last_round :
    (fuel : ℕ) (os : Os) (i : ℕ) (s : Server)
    → ltb i (s.max_user_count + 10) ≡ false
    → open_sockets (suc fuel) os i s ≡ done (true, s)
unfolding open_sockets
last_round fuel os i s e = rw (e, open_sockets) refl

-- No result that stands for success.
abbrev NotOpened : Bool × Server → Type 0
NotOpened r = r.0 ≢ true

wraps :
    (fuel : ℕ) (os : Os) (i : ℕ) (s : Server)
    → 2 ^ 16 ≤ s.max_user_count + 10
    → i < 2 ^ 16
    → Ensures NotOpened (open_sockets fuel os i s)
unfolding open_sockets
wraps zero os i s m h = Ensures-spin NotOpened
wraps (suc fuel) os i s m h =
    rw (next_round fuel os i s (lt→ltb i (s.max_user_count + 10) (omega arith))) (
      Ensures-bind (SameLimits s) NotOpened (open_socket os s) _ (open_socket-limits os s)
        λ (opened, s1) l.
          branch opened s1 l (wraps fuel os ((i + 1) % 2 ^ 16) s1 (omega arith) (omega arith)))
  where
    branch :
        (b : Bool) (s1 : Server)
        → SameLimits s (b, s1)
        → Ensures NotOpened (open_sockets fuel os ((i + 1) % 2 ^ 16) s1)
        → Ensures NotOpened (elim b [
          | true ↦ open_sockets fuel os ((i + 1) % 2 ^ 16) s1
          | false ↦ done (false, s1)
        ])
    branch true s1 l r = r
    branch false s1 l r = Ensures-done NotOpened (false, s1) (λ e. cc)

-- Where MAX_USER_COUNT + 10 is 2 ^ 16 or more, the loop of Accept, whose counter is an unsigned
-- short, never succeeds, from any value of the counter: no number of rounds is enough.
pub open_sockets_wraps :
    (fuel : ℕ) (os : Os) (i : ℕ) (s s' : Server)
    → 2 ^ 16 ≤ s.max_user_count + 10
    → i < 2 ^ 16
    → open_sockets fuel os i s ≢ done (true, s')
open_sockets_wraps fuel os i s s' m h e = (wraps fuel os i s m h).result (true, s') e refl

-- A round opens a socket and makes its structure.
abbrev Opens : Os → Server → Server → Type 0
Opens os s s1 =
    (s1.max_user_count ≡ s.max_user_count)
    × (s1.overlapped_pool.sample_obj_count ≡ s.overlapped_pool.sample_obj_count)
    × (open_socket os s ≡ done (true, s1))
    × (s1.next_struct ≡ s.next_struct + 1)
    × (s1.iocp ≡ s.iocp)

-- With the completion port as `iocp` says, CreateIoCompletionPort does not return g_IOCP for a
-- socket and its structure.
abbrev pub Unregistered : Os → Bool → Type 0
Unregistered os iocp =
    (s : Server) × (socket : ℕ) × (s.iocp ≡ iocp)
    × (returns_iocp os s (Call.associate socket s.next_struct) ≡ false)

-- A round opens a socket, fails, or reads a structure that it has deleted.
open_socket-returns :
    (os : Os) (s : Server)
    → 10 ≤ s.overlapped_pool.sample_obj_count
    → ((s1 : Server) × Opens os s s1)
      ⊎ ((s1 : Server) × (open_socket os s ≡ done (false, s1)))
      ⊎ ((open_socket os s ≡ fault) × Unregistered os s.iocp)
unfolding open_socket register_socket
open_socket-returns os s h =
    let l = get_object-Lent overlapped_object s.overlapped_pool h in
    let s1 = record s { overlapped_pool = l.left } in
    let socket = os.new_socket s.calls in
    let s2 =
      set_overlapped s1 l.object_at
        (record (overlapped s1 l.object_at) { io_type = IoType.accept; socket = socket }) in
    let c = Call.accept_ex socket l.object_at in
    let s3 = emit s2 c in
    let r = Call.associate socket s.next_struct in
    elim (Bool-cases (socket == invalid_socket)) [
      | inl e ↦ inr (inl (s2, rw (l.got, e) refl))
      | inr e ↦ elim (Bool-cases (os.pending s.calls c)) [
        | inl a ↦ elim (Bool-cases (returns_iocp os s3 r)) [
          | inl b ↦ inl (
            registered s3 socket (answer (os.pending s3.calls r) r),
            (refl, l.same_sample, rw (l.got, e, a, b) refl, refl, refl),
          )
          | inr b ↦ inr (inr (rw (l.got, e, a, b) refl, (s3, socket, refl, b)))
        ]
        | inr a ↦ inr (inl (emit s2 (Call.failed c), rw (l.got, e, a) refl))
      ]
    ]

-- What the loop comes to from round `i` on: a structure for each round that is left, a failure, or
-- the use of a deleted structure, after an association that was refused.
abbrev pub Rounds : Os → Bool → Outcome (Bool × Server) → ℕ → Type 0
Rounds os iocp m structs =
    ((s' : Server) × (m ≡ done (true, s')) × (s'.next_struct ≡ structs))
    ⊎ ((s' : Server) × (m ≡ done (false, s')))
    ⊎ ((m ≡ fault) × Unregistered os iocp)

-- Where MAX_USER_COUNT + 10 is below 2 ^ 16, and the pool of overlapped structures was made with ten
-- or more, the loop of Accept ends from any round `i` up to its bound, with more fuel than rounds
-- are left and whatever Windows answers: it succeeds and has made one Socket_Struct for each round
-- that was left, or it fails, or it uses a structure that it has deleted, and that only where there
-- is a socket for which CreateIoCompletionPort does not return g_IOCP.
pub open_sockets_ends :
    (fuel : ℕ) (os : Os) (i : ℕ) (s : Server)
    → 10 ≤ s.overlapped_pool.sample_obj_count
    → s.max_user_count + 10 < 2 ^ 16
    → i ≤ s.max_user_count + 10
    → s.max_user_count + 10 - i < fuel
    → Rounds os s.iocp (open_sockets fuel os i s) (s.next_struct + (s.max_user_count + 10 - i))
open_sockets_ends zero os i s a m h f = absurd (omega arith)
open_sockets_ends (suc fuel) os i s a m h f = elim (Bool-cases (ltb i (s.max_user_count + 10))) [
  | inr e ↦
      inl (s, last_round fuel os i s e, let k = ltb→lt i (s.max_user_count + 10) in ground arith)
  | inl e ↦ rw (next_round fuel os i s e) (elim (open_socket-returns os s a) [
    | inl (s1, (g, o, r, n, p)) ↦
        let w : (i + 1) % 2 ^ 16 ≡ i + 1 = omega (arith, ltb→lt i (s.max_user_count + 10) e) in
        rw (r, w)
          (rest s1 (ltb→lt i (s.max_user_count + 10) e) g o n p
            (open_sockets_ends fuel os (i + 1) s1))
    | inr (inl (s1, r)) ↦ rw r (inr (inl (s1, refl)))
    | inr (inr (r, u)) ↦ rw r (inr (inr (refl, u)))
  ])
]
  where
    rest :
        (s1 : Server)
        → i < s.max_user_count + 10
        → s1.max_user_count ≡ s.max_user_count
        → s1.overlapped_pool.sample_obj_count ≡ s.overlapped_pool.sample_obj_count
        → s1.next_struct ≡ s.next_struct + 1
        → s1.iocp ≡ s.iocp
        → (10 ≤ s1.overlapped_pool.sample_obj_count
            → s1.max_user_count + 10 < 2 ^ 16
            → i + 1 ≤ s1.max_user_count + 10
            → s1.max_user_count + 10 - (i + 1) < fuel
            → Rounds os s1.iocp
                (open_sockets fuel os (i + 1) s1)
                (s1.next_struct + (s1.max_user_count + 10 - (i + 1))))
        → Rounds os s.iocp
            (open_sockets fuel os (i + 1) s1)
            (s.next_struct + (s.max_user_count + 10 - i))
    rest s1 b g o n p k =
        subst
          (λ x.
            Rounds os x (open_sockets fuel os (i + 1) s1)
              (s.next_struct + (s.max_user_count + 10 - i)))
          p
          (subst (Rounds os s1.iocp (open_sockets fuel os (i + 1) s1)) (omega arith)
            (k (omega arith) (omega arith) (omega arith) (omega arith)))
