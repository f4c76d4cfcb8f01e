-- ===== src/Db/Login/Numbers.antt =====
-- The number that GetIdentifier (DHDBCore.cpp) reads from the text that MySQL gives.
use dhserver.Base.{
  ℕ, ◌+◌, ◌-◌, ◌*◌, ◌^◌, ◌≤◌, ◌<◌, ◌≡◌, refl, sym, ap, ◌∙◌, true, false, List, [], ◌∷◌, ◌++◌, some,
  none, arith, ltb, append_assoc, append-nil, if◌then◌else◌, ◌==◌,
}
use dhserver.Base.Outcome.{done, fault}
use dhserver.Db.Text.{c_str}
use dhserver.Db.{Mysql, DhdbCore, QueryResult, sent, select_identifier}
use dhserver.Db.Login.{
  get_identifier, identify, first_number, stoi, skip_space, is_space, signed, digits, is_digit,
  positive,
}

-- The decimal text of a number.
pub data Numeral : ℕ → List ℕ → Type 0 where
  digit : (d : ℕ) → d < 10 → Numeral d ((48 + d) ∷ [])
  behind :
      (n d : ℕ) (ds : List ℕ) → Numeral n ds → d < 10 → Numeral (n * 10 + d) (ds ++ (48 + d) ∷ [])

is_digit_lem : (d : ℕ) → d < 10 → is_digit (48 + d) ≡ true
unfolding is_digit
is_digit_lem d h = ground arith

digit_value : (d : ℕ) → 48 + d - 48 ≡ d
digit_value d = omega arith

digits-Numeral :
    (n : ℕ) (ds rest : List ℕ) → Numeral n ds → digits none (ds ++ rest) ≡ digits (some n) rest
unfolding digits
digits-Numeral _ _ rest (digit d h) = rw (is_digit_lem d h, digit_value d) refl
digits-Numeral _ _ rest (behind n d ds v h) =
    ap (digits none) (append_assoc ds ((48 + d) ∷ []) rest)
    ∙ digits-Numeral n ds ((48 + d) ∷ rest) v
    ∙ rw (is_digit_lem d h, digit_value d) refl

c_str-Numeral : (n : ℕ) (ds rest : List ℕ) → Numeral n ds → c_str (ds ++ rest) ≡ ds ++ c_str rest
unfolding c_str
c_str-Numeral _ _ rest (digit d h) = let z : 48 + d == 0 ≡ false = ground arith in rw z refl
c_str-Numeral _ _ rest (behind n d ds v h) =
    let z : 48 + d == 0 ≡ false = ground arith in
    ap c_str (append_assoc ds ((48 + d) ∷ []) rest)
    ∙ c_str-Numeral n ds ((48 + d) ∷ rest) v
    ∙ rw z (sym (append_assoc ds ((48 + d) ∷ []) (c_str rest)))

-- Its first byte is a digit.
Front : List ℕ → Type 0
Front ds = (c : ℕ) × (cs : List ℕ) × (ds ≡ c ∷ cs) × (48 ≤ c) × (c < 58)

Front-Numeral : (n : ℕ) (ds : List ℕ) → Numeral n ds → Front ds
unfolding Front
Front-Numeral _ _ (digit d h) = (48 + d, [], refl, omega arith, omega arith)
Front-Numeral _ _ (behind n d ds v h) =
    let (c, cs, e, l, u) = Front-Numeral n ds v in
    (c, cs ++ (48 + d) ∷ [], ap (λ t. t ++ (48 + d) ∷ []) e, l, u)

skip_space-cons : (c : ℕ) (cs : List ℕ) → 48 ≤ c → c < 58 → skip_space (c ∷ cs) ≡ c ∷ cs
unfolding skip_space is_space
skip_space-cons c cs l u = ground arith

signed-cons :
    (c : ℕ) (cs : List ℕ) → 48 ≤ c → c < 58 → signed (c ∷ cs) ≡ positive (digits none (c ∷ cs))
unfolding signed
signed-cons c cs l u =
    let a : c == 45 ≡ false = ground arith in
    let b : c == 43 ≡ false = ground arith in rw (a, signed) (rw b refl)

stoi-Front : (ds : List ℕ) → Front ds → stoi ds ≡ positive (digits none ds)
unfolding stoi Front
stoi-Front ds (c, cs, e, l, u) = rw e (ap signed (skip_space-cons c cs l u) ∙ signed-cons c cs l u)

stoi-Numeral : (n : ℕ) (ds : List ℕ) → Numeral n ds → stoi ds ≡ positive (some n)
unfolding digits
stoi-Numeral n ds v =
    stoi-Front ds (Front-Numeral n ds v)
    ∙ ap positive (ap (digits none) (sym (append-nil ds)) ∙ digits-Numeral n ds [] v)

c_str_whole : (n : ℕ) (ds : List ℕ) → Numeral n ds → c_str ds ≡ ds
unfolding c_str
c_str_whole n ds v = ap c_str (sym (append-nil ds)) ∙ c_str-Numeral n ds [] v ∙ append-nil ds

-- A result with one row, of one column.
abbrev pub single : List ℕ → QueryResult
single ds = record { fields = 1; rows = (some ds ∷ []) ∷ [] }

identify-Numeral :
    (my : Mysql) (db : DhdbCore) (query : List ℕ) (n : ℕ) (ds : List ℕ)
    → Numeral n ds
    → my.stored (sent db query).queries ≡ some (single ds)
    → identify my db query ≡ done (positive (some n), sent db query)
unfolding identify first_number
identify-Numeral my db query n ds v e =
    rw (e, identify) (rw (c_str_whole n ds v, stoi-Numeral n ds v) refl)

-- On a connection, where MySQL answers the query of a user's identifier with the decimal text of one
-- number, GetIdentifier returns the number if it is below 2 ^ 31, and throws otherwise, though it
-- gives an unsigned int; it has sent this query only.
pub get_identifier_reads :
    (my : Mysql) (db : DhdbCore) (id : List ℕ) (n : ℕ) (ds : List ℕ)
    → db.is_connect ≡ true
    → Numeral n ds
    → my.stored (sent db (select_identifier id)).queries ≡ some (single ds)
    → get_identifier my db id
      ≡ done (if ltb n (2 ^ 31) then some n else none, sent db (select_identifier id))
unfolding get_identifier positive
get_identifier_reads my db id n ds c v e =
    ap (λ b. if b then identify my db (select_identifier id) else fault) c
    ∙ identify-Numeral my db (select_identifier id) n ds v e
