-- ===== src/Db/Friends/Pairs.antt =====
-- FriendRequest and FriendAccept (DHDBCore.cpp) on the two rows of a pair of users in the table FRIEND.
pub mod Request
pub mod Accept
use dhserver.Base.{
  ℕ, ◌≡◌, refl, ap, ◌∙◌, Bool, true, false, List, ◌∷◌, Option, none, some, length, ◌==◌,
  if◌then◌else◌, Bool-cases, Option-cases, ap₂, inl, inr, ◌⊎◌,
}
use dhserver.Base.Outcome.{Outcome, done, fault}
use dhserver.Db.Text.{bytes, c_str}
use dhserver.Db.{
  Mysql, DhdbCore, QueryResult, mysql_query, sent, select_pair, delete_pair, accept_pair,
  insert_pair,
}
use dhserver.Db.Friends.{
  has_pair, change_both, request_pair, friend_request, accept_request, friend_accept,
}

-- The flag of a row, if there is one.
abbrev pub Row : Type 0
Row = Option (List ℕ)

abbrev pub is_there : Row → Bool
is_there none = false
is_there (some flag) = true

-- The flag of a row that is there is set to 1.
abbrev pub marked : Row → Row
marked none = none
marked (some flag) = some (bytes "1")

-- What MySQL does with the queries about the row of `a` and `b`, where `row` is that row behind the
-- queries so far and `other` that of `b` and `a`. A query that fails changes nothing.
pub record Keeps (my : Mysql) (a b : List ℕ) (row other : List (List ℕ) → Row) : Type 0 where
  pub result : List (List ℕ) → QueryResult
  pub stored : (h : List (List ℕ)) → my.stored (c_str (select_pair a b) ∷ h) ≡ some (result h)
  pub selected :
      (h : List (List ℕ)) → (if length (result h).rows == 0 then false else true) ≡ is_there (row h)
  pub kept : (h : List (List ℕ)) → row (c_str (select_pair a b) ∷ h) ≡ row h
  pub kept_other : (h : List (List ℕ)) → other (c_str (select_pair a b) ∷ h) ≡ other h
  pub asked :
      (h : List (List ℕ))
      → let q = c_str (insert_pair a b (bytes "2")) in
        row (q ∷ h) ≡ (if my.fails h q then row h else some (bytes "2"))
  pub asked_other : (h : List (List ℕ)) → other (c_str (insert_pair a b (bytes "2")) ∷ h) ≡ other h
  pub waits :
      (h : List (List ℕ))
      → let q = c_str (insert_pair a b (bytes "3")) in
        row (q ∷ h) ≡ (if my.fails h q then row h else some (bytes "3"))
  pub waits_other : (h : List (List ℕ)) → other (c_str (insert_pair a b (bytes "3")) ∷ h) ≡ other h
  pub accepted :
      (h : List (List ℕ))
      → let q = c_str (accept_pair a b) in
        row (q ∷ h) ≡ (if my.fails h q then row h else marked (row h))
  pub accepted_other : (h : List (List ℕ)) → other (c_str (accept_pair a b) ∷ h) ≡ other h
  pub deleted :
      (h : List (List ℕ))
      → let q = c_str (delete_pair a b) in row (q ∷ h) ≡ (if my.fails h q then row h else none)
  pub deleted_other : (h : List (List ℕ)) → other (c_str (delete_pair a b) ∷ h) ≡ other h

-- What a request leaves of both rows: both new ones if it succeeds where there was none, and else
-- what there was.
abbrev pub requested : Bool → Row × Row → Row × Row
requested ok (some flag, other) = (some flag, other)
requested true (none, other) = (some (bytes "2"), some (bytes "3"))
requested false (none, other) = (none, other)

abbrev pub both : Row → Row → Row × Row
both x y = (x, y)

module _ (my : Mysql) (a b : List ℕ) (row other : List (List ℕ) → Row)
    (forth : Keeps my a b row other) where
  -- The select finds the row if it is there.
  pub has_pair-is_there :
      (db : DhdbCore)
      → has_pair my db a b ≡ done (is_there (row db.queries), sent db (select_pair a b))
  unfolding has_pair
  has_pair-is_there db =
      rw (forth.stored db.queries, has_pair) (rw (forth.selected db.queries) refl)
