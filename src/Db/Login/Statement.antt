-- ===== src/Db/Login/Statement.antt =====
-- A reader of the INSERT statements that DHDBCore.cpp writes, by the syntax of SQL: two columns with
-- a quoted value each. It reads no backslash and no doubled quote in a value.
use dhserver.Base.{ℕ, List, [], ◌∷◌, Option, none, some, ◌==◌, if◌then◌else◌}
use dhserver.Db.Text.{bytes}

infixl 5 ◌>>=◌
abbrev pub ◌>>=◌ {ℓ κ} : {A : Type ℓ} {B : Type κ} → Option A → (A → Option B) → Option B
none >>= f = none
some a >>= f = f a

-- What stands behind a keyword.
unfoldable pub skip : List ℕ → List ℕ → Option (List ℕ)
skip [] text = some text
skip (k ∷ ks) [] = none
skip (k ∷ ks) (b ∷ text) = if k == b then skip ks text else none

-- One more byte before what has been read.
abbrev pub push : ℕ → Option (List ℕ × List ℕ) → Option (List ℕ × List ℕ)
push b none = none
push b (some (word, text)) = some (b ∷ word, text)

-- The word before the first `stop`, and what stands behind it.
unfoldable pub word : ℕ → List ℕ → Option (List ℕ × List ℕ)
word stop [] = none
word stop (b ∷ text) =
    let rest = push b (word stop text) in if b == stop then some ([], text) else rest

-- A value up to its closing quote, and what stands behind that.
unfoldable pub value : List ℕ → Option (List ℕ × List ℕ)
value [] = none
value (b ∷ text) =
    let rest = push b (value text) in
    if b == 39 then some ([], text) else if b == 92 then none else rest

-- Nothing stands behind the statement.
abbrev pub at_end {ℓ} : {A : Type ℓ} → A → List ℕ → Option A
at_end a [] = some a
at_end a (b ∷ text) = none

-- The two values behind the first quote.
unfoldable pub values : List ℕ → Option (List ℕ × List ℕ)
unfolding skip value
values text = do
  (first, behind) ← value text
  quote ← skip (bytes ", '") behind
  (second, end) ← value quote
  rest ← skip (bytes ")") end
  at_end (first, second) rest

-- The table and, for each column, its name and its value.
unfoldable pub insertion : List ℕ → Option (List ℕ × List (List ℕ × List ℕ))
unfolding skip word values
insertion text = do
  behind ← skip (bytes "INSERT INTO ") text
  (table, columns) ← word 32 behind
  names ← skip (bytes "(") columns
  (first, more) ← word 44 names
  (second, rest) ← word 41 more
  quote ← skip (bytes " VALUES ('") rest
  (a, b) ← values quote
  some (table, (first, a) ∷ (second, b) ∷ [])
