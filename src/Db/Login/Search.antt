-- ===== src/Db/Login/Search.antt =====
-- What SearchID and ComparePassword (DHDBCore.cpp) find in a result of MySQL.
use dhserver.Base.{
  ℕ, zero, suc, ◌≡◌, refl, ap, ◌∙◌, true, List, [], ◌∷◌, ◌++◌, map, some, arith, length,
  if◌then◌else◌, Bool-cases, inl, inr,
}
use dhserver.Base.Outcome.{done, fault}
use dhserver.Db.Text.{c_str, eq_text}
use dhserver.Db.{
  Mysql, DhdbCore, QueryResult, sent, search_row, search_rows, select_ids, select_password,
}
use dhserver.Db.Login.{search, search_id, compare_password}
use dhserver.Db.Friends.{has_text}

-- A result with `n` columns, none of them NULL.
abbrev pub table : ℕ → List (List (List ℕ)) → QueryResult
table n rows = record { fields = n; rows = map (map some) rows }

-- Each row has `n` columns.
abbrev pub AllWide : ℕ → List (List (List ℕ)) → Type 0
AllWide n [] = Unit {0}
AllWide n (row ∷ rows) = (length row ≡ n) × AllWide n rows

-- The texts of all rows.
abbrev pub cells : List (List (List ℕ)) → List (List ℕ)
cells [] = []
cells (row ∷ rows) = map c_str row ++ cells rows

has_text-append :
    (text : List ℕ) (xs ys : List (List ℕ))
    → has_text text (xs ++ ys) ≡ (if has_text text xs then true else has_text text ys)
unfolding has_text
has_text-append text [] ys = refl
has_text-append text (x ∷ xs) ys = elim (Bool-cases (eq_text text x)) [
  | inl e ↦ rw e refl
  | inr e ↦ rw e (has_text-append text xs ys)
]

search_row-has_text :
    (n : ℕ) (text : List ℕ) (row : List (List ℕ))
    → length row ≡ n
    → search_row n text (map some row) ≡ done (has_text text (map c_str row))
unfolding search_row has_text
search_row-has_text zero text [] e = refl
search_row-has_text zero text (x ∷ row) e = absurd (omega arith)
search_row-has_text (suc n) text [] e = absurd (omega arith)
search_row-has_text (suc n) text (x ∷ row) e = elim (Bool-cases (eq_text text (c_str x))) [
  | inl z ↦ rw (z, search_row) refl
  | inr z ↦ rw (z, search_row) (search_row-has_text n text row (omega arith))
]

search_rows-has_text :
    (n : ℕ) (text : List ℕ) (rows : List (List (List ℕ)))
    → AllWide n rows
    → search_rows n text (map (map some) rows) ≡ done (has_text text (cells rows))
unfolding search_rows has_text
search_rows-has_text n text [] w = refl
search_rows-has_text n text (row ∷ rows) w = elim (Bool-cases (has_text text (map c_str row))) [
  | inl z ↦
      rw (search_row-has_text n text row w.0, has_text-append text (map c_str row) (cells rows))
        (rw z refl)
  | inr z ↦
      rw (search_row-has_text n text row w.0, has_text-append text (map c_str row) (cells rows))
        (rw z (search_rows-has_text n text rows w.1))
]

search-has_text :
    (my : Mysql) (db : DhdbCore) (query text : List ℕ) (n : ℕ) (rows : List (List (List ℕ)))
    → my.stored (sent db query).queries ≡ some (table n rows)
    → AllWide n rows
    → search my db query text ≡ done (has_text text (cells rows), sent db query)
unfolding search
search-has_text my db query text n rows e w =
    rw (e, search) (rw (search_rows-has_text n text rows w) refl)

-- On a connection, where MySQL gives a result for the query of the names with no NULL in it, SearchID
-- tells whether one of its texts is the name; it has sent this query only.
pub search_id_finds :
    (my : Mysql) (db : DhdbCore) (id : List ℕ) (n : ℕ) (rows : List (List (List ℕ)))
    → db.is_connect ≡ true
    → my.stored (sent db select_ids).queries ≡ some (table n rows)
    → AllWide n rows
    → search_id my db id ≡ done (has_text id (cells rows), sent db select_ids)
unfolding search_id
search_id_finds my db id n rows c e w =
    ap (λ b. if b then search my db select_ids id else fault) c
    ∙ search-has_text my db select_ids id n rows e w

-- On a connection, where MySQL gives a result for the query of the user's passwords with no NULL in
-- it, ComparePassword tells whether one of its texts is the password; it has sent this query only.
pub compare_password_compares :
    (my : Mysql) (db : DhdbCore) (id password : List ℕ) (n : ℕ) (rows : List (List (List ℕ)))
    → db.is_connect ≡ true
    → my.stored (sent db (select_password id)).queries ≡ some (table n rows)
    → AllWide n rows
    → compare_password my db id password
      ≡ done (has_text password (cells rows), sent db (select_password id))
unfolding compare_password
compare_password_compares my db id password n rows c e w =
    ap (λ b. if b then search my db (select_password id) password else fault) c
    ∙ search-has_text my db (select_password id) password n rows e w
