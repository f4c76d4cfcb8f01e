-- ===== src/Server/Work/Capacity.antt =====
-- The limit of users (DHServer.cpp: IOFunction_Accept, WorkThread), where one entry is
-- handled at a time.
use dhserver.Base.{ℕ, ◌≤◌, ◌≡◌, refl, List, [], ◌∷◌, arith, length, erase}
use dhserver.Base.Outcome.{done}
use dhserver.Server.{Server, Os}
use dhserver.Server.Tables.{Tables, Keeps}
use dhserver.Server.Work.{Entry, Next, work_entry}
use dhserver.Server.Work.Keeps.{work_entry-Holds}

abbrev pub count : Server → ℕ
count s = length s.connected

length-erase : (k : ℕ) (m : List (ℕ × ℕ)) → length (erase k m) ≤ length m
unfolding erase
length-erase k [] = omega arith
length-erase k ((j, v) ∷ m) = ground (arith, length-erase k m)

-- The limit is `n`, and no more are connected.
abbrev IsWithin : ℕ → Tables → Type 0
IsWithin n t = (length t.connected ≤ n) × (t.max_user_count ≡ n)

IsWithin-Keeps : (n : ℕ) → Keeps (IsWithin n)
IsWithin-Keeps n = record {
  writes = λ t p x e h. h;
  renews = λ t k p x e f h. h;
  erases = λ t k h. (omega (arith, h.0, length-erase k t.connected), h.1);
  enters = λ t k p e f full h. (
    let (a, m) = h in let l : length t.connected ≤ t.max_user_count = omega arith in ground arith,
    h.1,
  );
}

-- Where the connected clients are at most MAX_USER_COUNT, they still are once WorkThread has handled
-- one entry, of whatever kind and with whatever answers of Windows, if it comes back from it.
pub work_entry-AtMost :
    (os : Os) (s : Server) (e : Entry)
    → count s ≤ s.max_user_count
    → (next : Next) (s' : Server) → work_entry os s e ≡ done (next, s')
    → count s' ≤ s.max_user_count
work_entry-AtMost os s e h next s' run =
    ((work_entry-Holds (IsWithin s.max_user_count) (IsWithin-Keeps s.max_user_count) os s e
        e.overlapped (h, refl) refl).result
      (next, s') run).0
