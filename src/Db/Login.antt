-- ===== src/Db/Login.antt =====
-- DHDBCore.cpp: QueryDB, ConnectDB, SearchID, ComparePassword, CreateNewAccount, GetIdentifier,
-- DeleteAccount.
pub mod Quotes
pub mod Statement
pub mod Search
pub mod Numbers
use dhserver.Base.{
  ℕ, zero, suc, ◌+◌, ◌-◌, ◌*◌, ◌%◌, ◌^◌, Bool, true, false, not, List, [], ◌∷◌, ◌++◌, Option, none,
  some, ◌==◌, ltb, leb, ◌&&◌, if◌then◌else◌,
}
use dhserver.Base.Outcome.{Outcome, done, fault, ◌>>=◌}
use dhserver.Db.Text.{bytes, c_str}
use dhserver.Db.{
  QueryResult, Mysql, DhdbCore, mysql_query, sent, search_rows, select_ids, select_password,
  select_identifier, insert_login, delete_login, delete_user, delete_friend,
}

-- The columns of a row as QueryDB gives them.
unfoldable pub take_row : ℕ → List (Option (List ℕ)) → Outcome (List (List ℕ))
take_row zero row = done []
take_row (suc n) [] = fault
take_row (suc n) (none ∷ row) = fault
take_row (suc n) (some column ∷ row) = take_row n row >>= λ rest. done (c_str column ∷ rest)

unfoldable pub take_rows : ℕ → List (List (Option (List ℕ))) → Outcome (List (List ℕ))
unfolding take_row
take_rows n [] = done []
take_rows n (row ∷ rows) =
    take_row n row >>= λ front. take_rows n rows >>= λ rest. done (front ++ rest)

-- QueryDB: the result, the count of the fields where it is set, and the data behind `out`.
unfoldable pub query_db :
    Mysql → DhdbCore → List ℕ → ℕ → List (List ℕ) → Outcome (Bool × ℕ × List (List ℕ) × DhdbCore)
unfolding mysql_query take_rows
query_db my db query fields out = elim db.is_connect [
  | false ↦ fault
  | true ↦
      let (failed, db1) = mysql_query my db query in
      elim failed [
        | true ↦ done (false, fields, out, db1)
        | false ↦ elim (my.stored db1.queries) [
          | none ↦ done (false, fields, out, db1)
          | some r ↦ take_rows r.fields r.rows >>= λ found. done (true, r.fields, out ++ found, db1)
        ]
      ]
]

-- ConnectDB, without the text of the error.
unfoldable pub connect_db : Mysql → DhdbCore → Bool × DhdbCore
connect_db my db = elim (my.connects db.queries) [
  | false ↦ (false, db)
  | true ↦ (true, record (sent db (bytes "set names euckr")) { is_connect = true })
]

-- What SearchID and ComparePassword do: a query, and a search for a text in its result.
unfoldable pub search : Mysql → DhdbCore → List ℕ → List ℕ → Outcome (Bool × DhdbCore)
unfolding search_rows
search my db query text = elim (my.stored (sent db query).queries) [
  | none ↦ done (false, sent db query)
  | some r ↦ search_rows r.fields text r.rows >>= λ found. done (found, sent db query)
]

-- SearchID. Without a connection the function ends with no value.
unfoldable pub search_id : Mysql → DhdbCore → List ℕ → Outcome (Bool × DhdbCore)
unfolding search select_ids
search_id my db id = if db.is_connect then search my db select_ids id else fault

-- ComparePassword
unfoldable pub compare_password : Mysql → DhdbCore → List ℕ → List ℕ → Outcome (Bool × DhdbCore)
unfolding search select_password
compare_password my db id password =
    if db.is_connect then search my db (select_password id) password else fault

-- CreateNewAccount
unfoldable pub create_new_account : Mysql → DhdbCore → List ℕ → List ℕ → Outcome (Bool × DhdbCore)
unfolding mysql_query insert_login
create_new_account my db id password =
    if db.is_connect
    then (let (failed, db1) = mysql_query my db (insert_login id password) in
        done (not failed, db1))
    else fault

-- DeleteAccount
unfoldable pub delete_account : DhdbCore → List ℕ → DhdbCore
unfolding delete_login delete_user delete_friend
delete_account db id =
    if db.is_connect
    then sent (sent (sent db (delete_login id)) (delete_user id)) (delete_friend id)
    else db

-- std::stoi of a text and the conversion to unsigned int: `none` where it throws.
unfoldable pub is_space : ℕ → Bool
is_space c = if c == 32 then true else leb 9 c && leb c 13

unfoldable pub skip_space : List ℕ → List ℕ
unfolding is_space
skip_space [] = []
skip_space (c ∷ cs) = if is_space c then skip_space cs else c ∷ cs

unfoldable pub is_digit : ℕ → Bool
is_digit c = leb 48 c && leb c 57

-- The digits at the front; `seen` is what is read so far.
unfoldable pub digits : Option ℕ → List ℕ → Option ℕ
unfolding is_digit
digits seen [] = seen
digits none (c ∷ cs) = if is_digit c then digits (some (c - 48)) cs else none
digits (some n) (c ∷ cs) = if is_digit c then digits (some (n * 10 + (c - 48))) cs else some n

-- The range of an int.
unfoldable pub positive : Option ℕ → Option ℕ
positive none = none
positive (some n) = if ltb n (2 ^ 31) then some n else none

unfoldable pub negative : Option ℕ → Option ℕ
negative none = none
negative (some n) = if leb n (2 ^ 31) then some ((2 ^ 32 - n) % 2 ^ 32) else none

-- A sign and the digits.
unfoldable pub signed : List ℕ → Option ℕ
unfolding digits positive negative
signed [] = none
signed (c ∷ cs) =
    if c == 45
    then negative (digits none cs)
    else if c == 43
    then positive (digits none cs)
    else positive (digits none (c ∷ cs))

unfoldable pub stoi : List ℕ → Option ℕ
unfolding skip_space signed
stoi text = signed (skip_space text)

-- The loops of GetIdentifier: the first column of the first row that has one.
unfoldable pub first_number : ℕ → List (List (Option (List ℕ))) → Outcome (Option ℕ)
unfolding stoi
first_number n [] = done (some 0)
first_number zero (row ∷ rows) = first_number zero rows
first_number (suc n) ([] ∷ rows) = fault
first_number (suc n) ((none ∷ row) ∷ rows) = fault
first_number (suc n) ((some column ∷ row) ∷ rows) = done (stoi (c_str column))

-- What GetIdentifier does on a connection.
unfoldable pub identify : Mysql → DhdbCore → List ℕ → Outcome (Option ℕ × DhdbCore)
unfolding first_number
identify my db query = elim (my.stored (sent db query).queries) [
  | none ↦ done (some 0, sent db query)
  | some r ↦ first_number r.fields r.rows >>= λ n. done (n, sent db query)
]

-- GetIdentifier; `none` is the exception of std::stoi.
unfoldable pub get_identifier : Mysql → DhdbCore → List ℕ → Outcome (Option ℕ × DhdbCore)
unfolding identify select_identifier
get_identifier my db id = if db.is_connect then identify my db (select_identifier id) else fault
