-- ===== src/Db/Friends.antt =====
-- DHDBCore.cpp: FriendRequest, FriendAccept, GetFriendList.
pub mod Lists
pub mod Pairs
use dhserver.Base.{
  ℕ, Bool, true, false, List, [], ◌∷◌, Option, none, some, length, ◌==◌, if◌then◌else◌,
}
use dhserver.Base.Outcome.{Outcome, done, fault, ◌>>=◌}
use dhserver.Db.Text.{bytes, c_str, eq_text}
use dhserver.Db.{
  QueryResult, Mysql, DhdbCore, mysql_query, sent, select_pair, delete_pair, accept_pair,
  insert_pair, delete_user, delete_friend, select_friends,
}

-- The select with which FriendRequest and FriendAccept begin: whether there is a row. A result that
-- is a null pointer is read.
unfoldable pub has_pair : Mysql → DhdbCore → List ℕ → List ℕ → Outcome (Bool × DhdbCore)
unfolding select_pair
has_pair my db id friend =
    let db1 = sent db (select_pair id friend) in
    elim (my.stored db1.queries) [
      | none ↦ fault
      | some r ↦ done (if length r.rows == 0 then false else true, db1)
    ]

-- Two changes of which the second is taken back with the row of the first if it fails.
unfoldable pub change_both : Mysql → DhdbCore → List ℕ → List ℕ → List ℕ → Bool × DhdbCore
unfolding mysql_query
change_both my db first second undo =
    let (failed, db1) = mysql_query my db first in
    elim failed [
      | true ↦ (false, db1)
      | false ↦
          let (failed2, db2) = mysql_query my db1 second in
          elim failed2 [ true ↦ (false, sent db2 undo) | false ↦ (true, db2) ]
    ]

-- What FriendRequest does on a connection.
unfoldable pub request_pair : Mysql → DhdbCore → List ℕ → List ℕ → Outcome (Bool × DhdbCore)
unfolding has_pair change_both insert_pair delete_pair
request_pair my db id friend = has_pair my db id friend >>= λ (found, db1). elim found [
  | true ↦ done (true, db1)
  | false ↦ done (
      change_both my db1 (insert_pair id friend (bytes "2")) (insert_pair friend id (bytes "3"))
        (delete_pair id friend))
]

-- FriendRequest. Without a connection the function ends with no value.
unfoldable pub friend_request : Mysql → DhdbCore → List ℕ → List ℕ → Outcome (Bool × DhdbCore)
unfolding request_pair
friend_request my db id friend = if db.is_connect then request_pair my db id friend else fault

-- What FriendAccept does on a connection where the request is accepted.
unfoldable pub accept_request : Mysql → DhdbCore → List ℕ → List ℕ → Outcome (Bool × DhdbCore)
unfolding has_pair change_both accept_pair delete_pair
accept_request my db id friend = has_pair my db id friend >>= λ (found, db1). elim found [
  | false ↦ done (false, db1)
  | true ↦
      done
        (change_both my db1 (accept_pair id friend) (accept_pair friend id) (delete_pair id friend))
]

-- FriendAccept; without a connection it does nothing and returns true.
unfoldable pub friend_accept : Mysql → DhdbCore → List ℕ → List ℕ → Bool → Outcome (Bool × DhdbCore)
unfolding accept_request delete_user delete_friend
friend_accept my db id friend is_accept =
    if db.is_connect
    then (if is_accept
        then accept_request my db id friend
        else done (true, sent (sent db (delete_user id)) (delete_friend id)))
    else done (true, db)

-- `insert` of a std::set, as a list without repetitions.
unfoldable pub has_text : List ℕ → List (List ℕ) → Bool
has_text text [] = false
has_text text (x ∷ xs) = if eq_text text x then true else has_text text xs

unfoldable pub insert_text : List ℕ → List (List ℕ) → List (List ℕ)
unfolding has_text
insert_text text xs = if has_text text xs then xs else text ∷ xs

-- The first byte of a `char*`, which has its zero byte at the end.
unfoldable pub first_byte : List ℕ → ℕ
first_byte [] = 0
first_byte (b ∷ bs) = b

-- A row of the friends: its first column tells the list, its second is the name.
unfoldable pub add_friend :
    List (Option (List ℕ)) → List (List ℕ) × List (List ℕ) → Outcome (List (List ℕ) × List (List ℕ))
unfolding insert_text first_byte
add_friend (some flag ∷ some name ∷ row) (friends, requests) =
    if first_byte flag == b'3'
    then done (friends, insert_text (c_str name) requests)
    else if first_byte flag == b'1'
    then done (insert_text (c_str name) friends, requests)
    else done (friends, requests)
add_friend row lists = fault

unfoldable pub add_friends :
    List (List (Option (List ℕ)))
    → List (List ℕ) × List (List ℕ)
    → Outcome (List (List ℕ) × List (List ℕ))
unfolding add_friend
add_friends [] lists = done lists
add_friends (row ∷ rows) lists = add_friend row lists >>= λ lists1. add_friends rows lists1

-- What GetFriendList does on a connection.
unfoldable pub fill_lists :
    Mysql
    → DhdbCore
    → List ℕ
    → List (List ℕ) × List (List ℕ)
    → Outcome (Bool × (List (List ℕ) × List (List ℕ)) × DhdbCore)
unfolding add_friends
fill_lists my db query lists = elim (my.stored (sent db query).queries) [
  | none ↦ done (false, lists, sent db query)
  | some r ↦ add_friends r.rows lists >>= λ lists1. done (true, lists1, sent db query)
]

-- GetFriendList: the result, and the lists of the friends and of the requests.
unfoldable pub get_friend_list :
    Mysql
    → DhdbCore
    → List ℕ
    → List (List ℕ) × List (List ℕ)
    → Outcome (Bool × (List (List ℕ) × List (List ℕ)) × DhdbCore)
unfolding fill_lists select_friends
get_friend_list my db id lists =
    if db.is_connect then fill_lists my db (select_friends id) lists else fault
