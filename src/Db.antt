-- ===== src/Db.antt =====
-- DHDB/DHDB/DHDBCore.cpp and DHDBCore.h: the accounts and the friends of the game, in MySQL.
pub mod Text
pub mod Login
pub mod Friends
use dhserver.Base.{
  ℕ, zero, suc, Bool, true, false, List, [], ◌∷◌, ◌++◌, Option, none, some, length, ◌==◌,
  if◌then◌else◌,
}
use dhserver.Base.Outcome.{Outcome, done, fault, ◌>>=◌}
use dhserver.Db.Text.{bytes, c_str, eq_text}

-- MYSQL_RES: mysql_num_fields, and the rows that mysql_fetch_row gives; a column of NULL is a null
-- pointer.
pub record QueryResult : Type 0 where
  pub fields : ℕ
  pub rows : List (List (Option (List ℕ)))

-- The MySQL client. Its answers may depend on the queries so far, newest first.
-- `fails h q`: mysql_query of `q` behind `h` is not zero. `stored h`: mysql_store_result, where the
-- last query is the first of `h`. `connects`: mysql_real_connect.
pub record Mysql : Type 0 where
  pub fails : List (List ℕ) → List ℕ → Bool
  pub stored : List (List ℕ) → Option QueryResult
  pub connects : List (List ℕ) → Bool

-- DHDBCore: Is_Connect, and the queries that were sent, newest first.
pub record DhdbCore : Type 0 where
  pub is_connect : Bool
  pub queries : List (List ℕ)

-- mysql_query
unfoldable pub mysql_query : Mysql → DhdbCore → List ℕ → Bool × DhdbCore
mysql_query my db q = (my.fails db.queries (c_str q), record db { queries = c_str q ∷ db.queries })

-- A query whose answer is not looked at.
abbrev pub sent : DhdbCore → List ℕ → DhdbCore
sent db q = record db { queries = c_str q ∷ db.queries }

-- The texts of the queries, with SELECTSTRING and the others written out.
unfoldable pub select_ids : List ℕ
select_ids = bytes "SELECT ID FROM LOGIN"

unfoldable pub select_password : List ℕ → List ℕ
select_password id = bytes "SELECT PASSWORD FROM LOGIN WHERE ID='" ++ id ++ bytes "'"

unfoldable pub select_identifier : List ℕ → List ℕ
select_identifier id = bytes "SELECT IDENTIFIER FROM LOGIN WHERE ID='" ++ id ++ bytes "'"

unfoldable pub select_friends : List ℕ → List ℕ
select_friends id = bytes "SELECT ACCEPTFLAG,FRIENDID FROM FRIEND WHERE USERID='" ++ id ++ bytes "'"

-- `'user' AND FRIENDID ='friend'`
unfoldable pub pair : List ℕ → List ℕ → List ℕ
pair id friend = id ++ bytes "' AND FRIENDID ='" ++ friend ++ bytes "'"

unfoldable pub select_pair : List ℕ → List ℕ → List ℕ
unfolding pair
select_pair id friend = bytes "SELECT * FROM FRIEND WHERE USERID='" ++ pair id friend

unfoldable pub delete_pair : List ℕ → List ℕ → List ℕ
unfolding pair
delete_pair id friend = bytes "DELETE FROM FRIEND WHERE USERID='" ++ pair id friend

unfoldable pub accept_pair : List ℕ → List ℕ → List ℕ
unfolding pair
accept_pair id friend = bytes "UPDATE FRIEND SET ACCEPTFLAG=1 WHERE USERID='" ++ pair id friend

unfoldable pub insert_pair : List ℕ → List ℕ → List ℕ → List ℕ
insert_pair id friend flag =
    bytes "INSERT INTO FRIEND (USERID,FRIENDID,ACCEPTFLAG) VALUES ('"
    ++ id
    ++ bytes "', '"
    ++ friend
    ++ bytes "', "
    ++ flag
    ++ bytes ")"

unfoldable pub insert_login : List ℕ → List ℕ → List ℕ
insert_login id password =
    bytes "INSERT INTO LOGIN (ID,PASSWORD) VALUES ('"
    ++ id
    ++ bytes "', '"
    ++ password
    ++ bytes "')"

unfoldable pub delete_login : List ℕ → List ℕ
delete_login id = bytes "DELETE FROM LOGIN WHERE ID='" ++ id ++ bytes "'"

unfoldable pub delete_user : List ℕ → List ℕ
delete_user id = bytes "DELETE FROM FRIEND WHERE USERID='" ++ id ++ bytes "'"

unfoldable pub delete_friend : List ℕ → List ℕ
delete_friend id = bytes "DELETE FROM FRIEND WHERE FRIENDID='" ++ id ++ bytes "'"

-- The loop over the columns of a row that looks for a text. To read behind the row or from NULL is a
-- fault.
unfoldable pub search_row : ℕ → List ℕ → List (Option (List ℕ)) → Outcome Bool
search_row zero text row = done false
search_row (suc n) text [] = fault
search_row (suc n) text (none ∷ row) = fault
search_row (suc n) text (some column ∷ row) = elim (eq_text text (c_str column)) [
  | true ↦ done true
  | false ↦ search_row n text row
]

-- The loop over the rows, up to the first that has the text.
unfoldable pub search_rows : ℕ → List ℕ → List (List (Option (List ℕ))) → Outcome Bool
unfolding search_row
search_rows n text [] = done false
search_rows n text (row ∷ rows) = search_row n text row >>= λ found. elim found [
  | true ↦ done true
  | false ↦ search_rows n text rows
]
